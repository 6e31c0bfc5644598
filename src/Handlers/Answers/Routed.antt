-- ===== src/Handlers/Answers/Routed.antt =====
-- The answers of the handlers of backend/src/handlers.cpp, route by route, as JSON texts.
use frag.Prelude.{
  inl, inr, refl, Bool, true, false, [], Option, none, some, arith, All, All-middle, Bool-cases,
  Option-cases, is_empty, length, ltb, if◌then◌else◌,
}
use frag.Prelude.Int.{pos}
use frag.Text.{Bytes, codes, same}
use frag.Dictionary.{get}
use frag.Http.{HttpRequest, HttpResponse, bad_request, unauthorized}
use frag.Database.Sqlite.{Sqlite}
use frag.Database.Operations.{Result, get_fragments, get_message_fragments, delete_fragment}
use frag.Json.Grammar.Fragments.{IsPlain}
use frag.Server.Connection.{Handler, respond, dispatch}
use frag.Server.Connection.Dispatch.{handled, not_allowed, missing, dispatch-Outcome}
use frag.Handlers.{
  AppContext, World, is_authorized, fragment_of_body, missing_field, since_of, present, answered,
  db_error, delete_response, list_response, store_fragment, health_handler, post_fragment_handler,
  get_fragments_handler, get_message_fragments_handler, delete_fragment_handler, register_routes,
}
use frag.Handlers.Answers.{
  IsAnswer, error-IsAnswer, insert_response-IsAnswer, delete_response-IsAnswer,
  list_response-IsAnswer, db_error-IsAnswer, answered-IsAnswer, missing_field-IsPlainOption,
  health_body-IsJson,
}

module _ (sqlite : Sqlite) (ctx : AppContext) where
  open sqlite use {Conn}

  abbrev Answers : Handler (World Conn) → Type 0
  Answers handler = (req : HttpRequest) (w : World Conn) → IsAnswer (handler req w).0

  unauthorized-IsAnswer : IsAnswer unauthorized
  unauthorized-IsAnswer = error-IsAnswer (codes "unauthorized") _ refl refl (ground arith)

  health_handler-Answers : Answers (health_handler sqlite ctx)
  unfolding health_handler
  health_handler-Answers req w =
      answered-IsAnswer w _ _ _ (λ n. inr (refl, health_body-IsJson _ n))
        (inr (refl, health_body-IsJson _ (pos 0)))

  post_fragment_handler-Answers : Answers (post_fragment_handler sqlite ctx)
  unfolding post_fragment_handler store_fragment
  post_fragment_handler-Answers req w =
      let plain = missing_field-IsPlainOption (fragment_of_body req.body w.clock) in
      elim (Bool-cases (is_authorized req ctx.auth)) [
        | inr e ↦ rw e unauthorized-IsAnswer
        | inl e ↦ elim (Bool-cases (is_empty req.body)) [
          | inl k ↦ rw (e, k) (error-IsAnswer (codes "empty body") _ refl refl (ground arith))
          | inr k ↦ elim (Bool-cases (ltb ctx.max_payload_bytes (length req.body))) [
            | inl l ↦
                rw (e, k, l) (error-IsAnswer (codes "payload too large") _ refl refl (ground arith))
            | inr l ↦ elim (Option-cases (missing_field (fragment_of_body req.body w.clock))) [
              | inl m ↦
                  rw (e, k, l, m)
                    (answered-IsAnswer w _ _ _
                      (insert_response-IsAnswer (fragment_of_body req.body w.clock))
                      db_error-IsAnswer)
              | inr (msg, m) ↦ rw (e, k, l, m) (error-IsAnswer msg _ refl refl (rw m at plain))
            ]
          ]
        ]
      ]

  -- The other handlers test the authorization and one parameter, and call the database with it.
  guarded-IsAnswer :
      {A : Type 0} (authorized : Bool) (param : Option Bytes) (msg : Bytes) (w : World Conn)
      (call : Bytes → Result A × Conn) (reply : A → HttpResponse)
      → IsPlain msg
      → ((a : A) → IsAnswer (reply a))
      → let result : HttpResponse × World Conn =
          if authorized
          then (elim param [
            | none ↦ (bad_request msg, w)
            | some value ↦ answered w (call value) reply db_error
          ])
          else (unauthorized, w) in
        IsAnswer result.0
  guarded-IsAnswer false param msg w call reply plain h = unauthorized-IsAnswer
  guarded-IsAnswer true none msg w call reply plain h = error-IsAnswer msg _ refl refl plain
  guarded-IsAnswer true (some value) msg w call reply plain h =
      answered-IsAnswer w (call value) reply db_error h db_error-IsAnswer

  get_fragments_handler-Answers : Answers (get_fragments_handler sqlite ctx)
  unfolding get_fragments_handler
  get_fragments_handler-Answers req w =
      let since = since_of (present (get (codes "since") req.query_params)) in
      guarded-IsAnswer (is_authorized req ctx.auth)
        (present (get (codes "chat_id") req.query_params)) (codes "missing chat_id query param") w
        (λ chat_id. get_fragments sqlite chat_id since w.db) list_response (ground arith)
        list_response-IsAnswer

  get_message_fragments_handler-Answers : Answers (get_message_fragments_handler sqlite ctx)
  unfolding get_message_fragments_handler
  get_message_fragments_handler-Answers req w =
      guarded-IsAnswer (is_authorized req ctx.auth)
        (present (get (codes "message_id") req.path_params)) (codes "missing message_id") w
        (λ message_id. get_message_fragments sqlite message_id w.db) list_response (ground arith)
        list_response-IsAnswer

  delete_fragment_handler-Answers : Answers (delete_fragment_handler sqlite ctx)
  unfolding delete_fragment_handler
  delete_fragment_handler-Answers req w =
      guarded-IsAnswer (is_authorized req ctx.auth) (present (get (codes "id") req.path_params))
        (codes "missing id") w (λ id. delete_fragment sqlite id w.db) delete_response (ground arith)
        delete_response-IsAnswer

  registered-Answers : All (λ route. Answers route.handler) (register_routes sqlite ctx [])
  unfolding register_routes
  registered-Answers = (
    health_handler-Answers,
    (
      post_fragment_handler-Answers,
      (
        get_fragments_handler-Answers,
        (get_message_fragments_handler-Answers, (delete_fragment_handler-Answers, tt)),
      ),
    ),
  )

  dispatch-IsAnswer :
      (req : HttpRequest) (w : World Conn)
      → IsAnswer (dispatch (register_routes sqlite ctx []) req w false).0
  dispatch-IsAnswer req w = elim (dispatch-Outcome (register_routes sqlite ctx []) req w false) [
    | handled before route after params split_eq _ _ _ e ↦ rw e (
        All-middle (λ route. Answers route.handler) before route after
          (rw split_eq at registered-Answers) (record req { path_params = params }) w)
    | not_allowed _ _ _ _ _ _ _ e ↦
        rw e (error-IsAnswer (codes "method not allowed") _ refl refl (ground arith))
    | missing _ e ↦ rw e (error-IsAnswer (codes "not found") _ refl refl (ground arith))
  ]

  -- For every SQLite, context, request and state, the answer of the route table is the 204 without
  -- a body, or has the content type application/json and a body that is a JSON text.
  pub respond-IsAnswer :
      (req : HttpRequest) (w : World Conn)
      → IsAnswer (respond (register_routes sqlite ctx []) req w).0
  unfolding respond
  respond-IsAnswer req w = elim (Bool-cases (same req.method (codes "OPTIONS"))) [
    | inl preflight ↦ rw preflight (inl refl)
    | inr other ↦ rw other (dispatch-IsAnswer req w)
  ]
