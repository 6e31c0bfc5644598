-- ===== src/Handlers/Laws.antt =====
-- What the handlers answer, and what they do to the table.
use frag.Prelude.{
  ◌≤◌, ◌<◌, ◌≡◌, ◌≢◌, ◌⊎◌, inl, inr, refl, ◌∙◌, true, false, List, [], ◌∷◌, ◌++◌, none, some, arith,
  ltb, is_empty, length, Bool-cases, Option-cases,
}
use frag.Text.{Bytes}
use frag.Http.{HttpRequest, HttpResponse, unauthorized, payload_too_large}
use frag.Fragment.{Fragment}
use frag.Database.Sqlite.{Sqlite}
use frag.Database.Operations.{Result, insert_fragment}
use frag.Database.Table.{has_id, insert_row, stored}
use frag.Database.Behaviour.{SqliteLaws}
use frag.Database.Refines.{Ends, InsertFails, insert_fragment-Ends}
use frag.Handlers.{
  AppContext, World, is_authorized, fragment_of_body, missing_field, answered, db_error,
  insert_response, store_fragment, post_fragment_handler, get_fragments_handler,
  get_message_fragments_handler, delete_fragment_handler,
}

module _ (sqlite : Sqlite) (ctx : AppContext) where
  -- Four of the five handlers refuse a request that is not authorized, and do nothing.
  pub handlers_unauthorized :
      (req : HttpRequest) (w : World sqlite.Conn)
      → is_authorized req ctx.auth ≡ false
      → (post_fragment_handler sqlite ctx req w ≡ (unauthorized, w))
        × (get_fragments_handler sqlite ctx req w ≡ (unauthorized, w))
        × (get_message_fragments_handler sqlite ctx req w ≡ (unauthorized, w))
        × (delete_fragment_handler sqlite ctx req w ≡ (unauthorized, w))
  unfolding post_fragment_handler get_fragments_handler get_message_fragments_handler
      delete_fragment_handler
  handlers_unauthorized req w h = (rw h, rw h, rw h, rw h)

module _ {A Conn : Type 0} (rows : Conn → List Fragment) where
  -- The two answers behind a call of the database.
  pub answered_cases :
      (w : World Conn) (result : Result A × Conn) (respond : A → HttpResponse)
      (failed : HttpResponse) (value : A) (after : List Fragment) {Reason : Type 0}
      → Ends rows Reason result w.db value after
      → (((answered w result respond failed).0 ≡ failed)
          × (rows (answered w result respond failed).1.db ≡ rows w.db)
          × Reason)
        ⊎ (((answered w result respond failed).0 ≡ respond value)
            × (rows (answered w result respond failed).1.db ≡ after))
  answered_cases w (r, db) respond failed value after ends = elim ends [
    | inl (msg, e, same, reason) ↦ rw e (inl (refl, same, reason))
    | inr (e, changed) ↦ rw e (inr (refl, changed))
  ]

-- A fragment with all its texts.
abbrev pub IsComplete : Fragment → Type 0
IsComplete f =
    (f.id ≢ []) × (f.message_id ≢ []) × (f.chat_id ≢ []) × (f.sender_hash ≢ []) × (f.payload ≢ [])

missing_field-none : (f : Fragment) → missing_field f ≡ none → IsComplete f
unfolding missing_field
missing_field-none f h = ground arith

missing_field-some : (f : Fragment) (msg : Bytes) → missing_field f ≡ some msg → IsComplete f → ⊥
unfolding missing_field
missing_field-some f msg h = ground arith

module _ (sqlite : Sqlite) (laws : SqliteLaws sqlite) (ctx : AppContext) where
  open laws use {rows}

  -- What a POST may store: it is authorized, within the limit, and all texts are present.
  abbrev pub IsAcceptable : HttpRequest → Fragment → Type 0
  IsAcceptable req f =
      (is_authorized req ctx.auth ≡ true) × (length req.body ≤ ctx.max_payload_bytes) × IsComplete f

  -- What a POST has done, by the status of its answer.
  pub data PostOutcome (req : HttpRequest) (w : World sqlite.Conn) (f : Fragment)
      (result : HttpResponse × World sqlite.Conn) : Type 0 where
    refused :
        is_authorized req ctx.auth ≡ false → result ≡ (unauthorized, w) → PostOutcome req w f result
    too_large :
        is_authorized req ctx.auth ≡ true
        → ctx.max_payload_bytes < length req.body
        → result ≡ (payload_too_large, w)
        → PostOutcome req w f result
    -- 400: the body is empty or a text is missing.
    malformed :
        is_authorized req ctx.auth ≡ true
        → (req.body ≡ []) ⊎ (IsComplete f → ⊥)
        → result.0.status_code ≡ 400
        → result.1 ≡ w
        → PostOutcome req w f result
    -- 201: the id was new, and the fragment is in the table.
    stores :
        IsAcceptable req f
        → result.0.status_code ≡ 201
        → has_id (stored f).id (rows w.db) ≡ false
        → rows result.1.db ≡ rows w.db ++ (stored f ∷ [])
        → PostOutcome req w f result
    -- 200: the id was there, and the table is as it was.
    duplicate :
        IsAcceptable req f
        → result.0.status_code ≡ 200
        → has_id (stored f).id (rows w.db) ≡ true
        → rows result.1.db ≡ rows w.db
        → PostOutcome req w f result
    -- 500: SQLite failed, and the table is as it was.
    fails :
        IsAcceptable req f
        → result.0.status_code ≡ 500
        → rows result.1.db ≡ rows w.db
        → InsertFails sqlite (stored f) w.db
        → PostOutcome req w f result

  store_fragment-PostOutcome :
      (req : HttpRequest) (f : Fragment) (w : World sqlite.Conn)
      → IsAcceptable req f
      → PostOutcome req w f (store_fragment sqlite ctx f w)
  unfolding store_fragment insert_row
  store_fragment-PostOutcome req f w acceptable =
      let cases =
        answered_cases rows w (insert_fragment sqlite f w.db) (insert_response f) db_error _ _
          (insert_fragment-Ends sqlite laws f w.db) in
      elim cases [
        | inl (answer, same, reason) ↦ fails acceptable (rw answer) same reason
        | inr (answer, after) ↦ elim (Bool-cases (has_id (stored f).id (rows w.db))) [
          | inl known ↦ duplicate acceptable (rw (answer, known)) known (after ∙ rw known)
          | inr new ↦ stores acceptable (rw (answer, new)) new (after ∙ rw new)
        ]
      ]

  -- For every SQLite that behaves as documented, a POST ends in one of six ways: refused with 401
  -- without an accepted token; 413 for a body above the limit; 400 for an empty body or a missing
  -- text; 201 with the stored fragment added, if its id was new; 200 with the rows as they were, if
  -- its id was there; 500 with the rows as they were, if SQLite fails. The first three leave the
  -- world as it is.
  pub post_fragment_handler-PostOutcome :
      (req : HttpRequest) (w : World sqlite.Conn)
      → PostOutcome req w
          (fragment_of_body req.body w.clock)
          (post_fragment_handler sqlite ctx req w)
  unfolding post_fragment_handler
  post_fragment_handler-PostOutcome req w = elim (Bool-cases (is_authorized req ctx.auth)) [
    | inr no_token ↦ rw no_token (refused no_token refl)
    | inl allowed ↦ elim (Bool-cases (is_empty req.body)) [
      | inl empty ↦ rw (allowed, empty) (malformed allowed (inl (ground arith)) refl refl)
      | inr full ↦ elim (Bool-cases (ltb ctx.max_payload_bytes (length req.body))) [
        | inl large ↦ rw (allowed, full, large) (too_large allowed (ground arith) refl)
        | inr fits ↦
            let f = fragment_of_body req.body w.clock in
            elim (Option-cases (missing_field f)) [
              | inl complete ↦
                  rw (allowed, full, fits, complete, post_fragment_handler)
                    (store_fragment-PostOutcome req f w
                      (allowed, ground arith, missing_field-none f complete))
              | inr (msg, lacks) ↦
                  rw (allowed, full, fits, lacks, post_fragment_handler)
                    (malformed allowed (inr (missing_field-some f msg lacks)) refl refl)
            ]
      ]
    ]
  ]
