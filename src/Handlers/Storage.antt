-- ===== src/Handlers/Storage.antt =====
-- What any request may do to the table, through the whole route table.
pub mod Durable
use frag.Prelude.{◌≡◌, refl, inl, inr, false, List, [], All, All-middle, Bool-cases, Option-cases}
use frag.Text.{codes, c_str, same}
use frag.Dictionary.{get}
use frag.Http.{HttpRequest, HttpResponse}
use frag.Fragment.{Fragment}
use frag.Database.Sqlite.{Sqlite}
use frag.Database.Operations.{
  Result, get_fragments, get_message_fragments, delete_fragment, get_fragment_count,
}
use frag.Database.Table.{insert_row, stored}
use frag.Database.Table.Laws.{Change}
use frag.Database.Behaviour.{SqliteLaws}
use frag.Database.Refines.{delete_fragment-Ends, get_fragment_count_cases}
use frag.Database.Refines.Select.{get_fragments-Returns, get_message_fragments-Returns}
use frag.Server.Connection.{Handler, Route, dispatch, respond}
use frag.Server.Connection.Dispatch.{handled, not_allowed, missing, dispatch-Outcome}
use frag.Handlers.{
  AppContext, World, is_authorized, present, since_of, answered, db_error, delete_response,
  list_response, fragment_of_body, health_handler, post_fragment_handler, get_fragments_handler,
  get_message_fragments_handler, delete_fragment_handler, register_routes,
}
use frag.Handlers.Laws.{
  answered_cases, refused, too_large, malformed, stores, duplicate, fails,
  post_fragment_handler-PostOutcome,
}

-- Behind a call that leaves the rows as they are they stay so, whatever it returns.
answered_same :
    {A Conn : Type 0} (rows : Conn → List Fragment) (w : World Conn) (result : Result A × Conn)
    (respond : A → HttpResponse) (failed : HttpResponse)
    → rows result.1 ≡ rows w.db
    → rows (answered w result respond failed).1.db ≡ rows w.db
answered_same rows w (Result.ok a, db) respond failed e = e
answered_same rows w (Result.throw msg, db) respond failed e = e

module _ (sqlite : Sqlite) (laws : SqliteLaws sqlite) (ctx : AppContext) where
  open laws use {rows}

  -- The rows after a handler are those before it, with one row added or removed at most.
  abbrev pub Changes : Handler (World sqlite.Conn) → Type 0
  Changes handler =
      (req : HttpRequest) (w : World sqlite.Conn) → Change (rows w.db) (rows (handler req w).1.db)

  unchanged : {before after : List Fragment} → after ≡ before → Change before after
  unchanged {before} e = rw e (Change.fails before)

  count-same : (c : sqlite.Conn) → rows (get_fragment_count sqlite c).1 ≡ rows c
  count-same c = elim (get_fragment_count_cases sqlite laws c) [
    | inl (inl (_, _, same, _)) ↦ same
    | inl (inr (_, same)) ↦ same
    | inr (_, same, _) ↦ same
  ]

  -- The rows after a handler are those before it.
  abbrev pub Keeps : Handler (World sqlite.Conn) → Type 0
  Keeps handler =
      (req : HttpRequest) (w : World sqlite.Conn) → rows (handler req w).1.db ≡ rows w.db

  pub health-Keeps : Keeps (health_handler sqlite ctx)
  unfolding health_handler
  health-Keeps req w = answered_same rows w (get_fragment_count sqlite w.db) _ _ (count-same w.db)

  post-Changes : Changes (post_fragment_handler sqlite ctx)
  unfolding insert_row
  post-Changes req w = elim (post_fragment_handler-PostOutcome sqlite laws ctx req w) [
    | refused _ e ↦ unchanged (rw e)
    | too_large _ _ e ↦ unchanged (rw e)
    | malformed _ _ _ e ↦ unchanged (rw e)
    | stores _ _ new e ↦
        let f = stored (fragment_of_body req.body w.clock) in
        rw e (rw new at (Change.inserts f (rows w.db)))
    | duplicate _ _ _ e ↦ unchanged e
    | fails _ _ e _ ↦ unchanged e
  ]

  pub get_fragments-Keeps : Keeps (get_fragments_handler sqlite ctx)
  unfolding get_fragments_handler
  get_fragments-Keeps req w = elim (Bool-cases (is_authorized req ctx.auth)) [
    | inr no_token ↦ rw no_token refl
    | inl allowed ↦ elim (Option-cases (present (get (codes "chat_id") req.query_params))) [
      | inl lacks ↦ rw (allowed, lacks, get_fragments_handler) refl
      | inr (chat_id, given) ↦
          let since = since_of (present (get (codes "since") req.query_params)) in
          rw (allowed, given, get_fragments_handler)
            (answered_same rows w (get_fragments sqlite chat_id since w.db) list_response db_error
              (get_fragments-Returns sqlite laws chat_id since w.db).1)
    ]
  ]

  pub get_message_fragments-Keeps : Keeps (get_message_fragments_handler sqlite ctx)
  unfolding get_message_fragments_handler
  get_message_fragments-Keeps req w = elim (Bool-cases (is_authorized req ctx.auth)) [
    | inr no_token ↦ rw no_token refl
    | inl allowed ↦ elim (Option-cases (present (get (codes "message_id") req.path_params))) [
      | inl lacks ↦ rw (allowed, lacks, get_message_fragments_handler) refl
      | inr (message_id, given) ↦
          rw (allowed, given, get_message_fragments_handler)
            (answered_same rows w (get_message_fragments sqlite message_id w.db) list_response
              db_error (get_message_fragments-Returns sqlite laws message_id w.db).1)
    ]
  ]

  delete-Changes : Changes (delete_fragment_handler sqlite ctx)
  unfolding delete_fragment_handler
  delete-Changes req w = elim (Bool-cases (is_authorized req ctx.auth)) [
    | inr no_token ↦ rw no_token (Change.fails _)
    | inl allowed ↦ elim (Option-cases (present (get (codes "id") req.path_params))) [
      | inl lacks ↦ rw (allowed, lacks, delete_fragment_handler) (Change.fails _)
      | inr (id, given) ↦
          let cases =
            answered_cases rows w (delete_fragment sqlite id w.db) delete_response db_error _ _
              (delete_fragment-Ends sqlite laws id w.db) in
          rw (allowed, given, delete_fragment_handler)
            (elim cases [
              | inl (_, same, _) ↦ unchanged same
              | inr (_, after) ↦ rw after (Change.deletes (c_str id) (rows w.db))
            ])
    ]
  ]

  registered-Changes : All (λ route. Changes route.handler) (register_routes sqlite ctx [])
  unfolding register_routes
  registered-Changes = (
    λ req w. unchanged (health-Keeps req w),
    (
      post-Changes,
      (
        λ req w. unchanged (get_fragments-Keeps req w),
        (λ req w. unchanged (get_message_fragments-Keeps req w), (delete-Changes, tt)),
      ),
    ),
  )

  dispatch-Changes :
      (routes : List (Route (World sqlite.Conn))) (req : HttpRequest) (w : World sqlite.Conn)
      → All (λ route. Changes route.handler) routes
      → Change (rows w.db) (rows (dispatch routes req w false).1.db)
  dispatch-Changes routes req w h = elim (dispatch-Outcome routes req w false) [
    | handled before route after params split _ _ _ e ↦ rw e (
        All-middle (λ route. Changes route.handler) before route after (rw split at h)
          (record req { path_params = params }) w)
    | not_allowed _ _ _ _ _ _ _ e ↦ rw e (Change.fails _)
    | missing _ e ↦ rw e (Change.fails _)
  ]

  -- For every SQLite that behaves as documented and whatever the request, the rows after it are
  -- those before it, or those after inserting or ignoring one row, or those without one id, or
  -- those without what is overdue at some time.
  pub respond-Change :
      (req : HttpRequest) (w : World sqlite.Conn)
      → Change (rows w.db) (rows (respond (register_routes sqlite ctx []) req w).1.db)
  unfolding respond
  respond-Change req w = elim (Bool-cases (same req.method (codes "OPTIONS"))) [
    | inl preflight ↦ rw preflight (Change.fails _)
    | inr other ↦ rw other (dispatch-Changes _ req w registered-Changes)
  ]
