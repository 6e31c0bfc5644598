-- ===== src/Handlers/Storage/Durable.antt =====
-- Which requests leave a row in the table, through the whole route table of
-- backend/src/handlers.cpp.
use frag.Prelude.{
  is_empty, ◌⊎◌, ◌≡◌, inl, inr, refl, sym, true, not, List, [], ◌∷◌, none, some, Bool-cases,
}
use frag.Text.{Bytes, codes, c_str, same}
use frag.Text.Laws.{same_iff}
use frag.Dictionary.{get}
use frag.Http.{HttpRequest}
use frag.Fragment.{Fragment}
use frag.Utils.Split.{split}
use frag.Database.Sqlite.{Sqlite}
use frag.Database.Operations.{delete_fragment}
use frag.Database.Table.{has_key, delete_row, HasRow}
use frag.Database.Table.Unmodified.{HasRow-append, HasRow-keep}
use frag.Database.Behaviour.{SqliteLaws}
use frag.Database.Refines.{delete_fragment-Ends}
use frag.Server.Connection.{respond}
use frag.Handlers.{
  AppContext, World, is_authorized, present, db_error, delete_response, post_fragment_handler,
  delete_fragment_handler, register_routes,
}
use frag.Handlers.Laws.{
  answered_cases, refused, too_large, malformed, stores, duplicate, fails,
  post_fragment_handler-PostOutcome,
}
use frag.Handlers.Resource.{
  Resource, health, collection, elsewhere, message, item, api_parts, Names, names_item,
}
use frag.Handlers.Api.{serve_resource, respond-serve_resource}
use frag.Handlers.Storage.{health-Keeps, get_fragments-Keeps, get_message_fragments-Keeps}

-- An authorized DELETE on /api/fragments/<id> for the id of the row.
pub record Deletes (ctx : AppContext) (f : Fragment) (req : HttpRequest) : Type 0 where
  pub id : Bytes
  pub authorized : is_authorized req ctx.auth ≡ true
  pub method : req.method ≡ codes "DELETE"
  pub path : split req.path b'/' ≡ api_parts (id ∷ [])
  pub is_id : f.id ≡ c_str id

module _ (sqlite : Sqlite) (laws : SqliteLaws sqlite) (ctx : AppContext) (f : Fragment) where
  open laws use {rows}

  kept : {before after : List Fragment} → after ≡ before → HasRow f before → HasRow f after
  kept e h = rw e h

  post-HasRow :
      (req : HttpRequest) (w : World sqlite.Conn)
      → HasRow f (rows w.db)
      → HasRow f (rows (post_fragment_handler sqlite ctx req w).1.db)
  post-HasRow req w h = elim (post_fragment_handler-PostOutcome sqlite laws ctx req w) [
    | refused _ e ↦ rw e h
    | too_large _ _ e ↦ rw e h
    | malformed _ _ _ e ↦ rw e h
    | stores _ _ _ e ↦ rw e (HasRow-append f (rows w.db) _ h)
    | duplicate _ _ _ e ↦ kept e h
    | fails _ _ e _ ↦ kept e h
  ]

  delete_row-HasRow :
      (id : Bytes) (table : List Fragment)
      → (f.id ≡ c_str id → ⊥)
      → HasRow f table
      → HasRow f (delete_row (c_str id) table)
  unfolding delete_row
  delete_row-HasRow id table other h = elim (Bool-cases (same f.id (c_str id))) [
    | inl e ↦ absurd (other ((same_iff f.id (c_str id)).0 e))
    | inr e ↦ HasRow-keep f (λ g. not (has_key (c_str id) g)) table (rw e refl) h
  ]

  present_cases : (id : Bytes) → (present (some id) ≡ none) ⊎ (present (some id) ≡ some id)
  unfolding present
  present_cases id = elim (Bool-cases (is_empty id)) [ inl e ↦ inl (rw e) | inr e ↦ inr (rw e) ]

  -- Another id, or no accepted token.
  delete-HasRow :
      (req : HttpRequest) (w : World sqlite.Conn) (id : Bytes)
      → get (codes "id") req.path_params ≡ some id
      → (is_authorized req ctx.auth ≡ true → f.id ≡ c_str id → ⊥)
      → HasRow f (rows w.db)
      → HasRow f (rows (delete_fragment_handler sqlite ctx req w).1.db)
  unfolding delete_fragment_handler
  delete-HasRow req w id param other h = elim (Bool-cases (is_authorized req ctx.auth)) [
    | inr no_token ↦ rw no_token h
    | inl allowed ↦ elim (present_cases id) [
      | inl e ↦
          let lacks : present (get (codes "id") req.path_params) ≡ none = rw param e in
          rw (allowed, lacks, delete_fragment_handler) h
      | inr e ↦
          let given : present (get (codes "id") req.path_params) ≡ some id = rw param e in
          let cases =
            answered_cases rows w (delete_fragment sqlite id w.db) delete_response db_error _ _
              (delete_fragment-Ends sqlite laws id w.db) in
          rw (allowed, given, delete_fragment_handler)
            (elim cases [
              | inl (_, same_rows, _) ↦ kept same_rows h
              | inr (_, after) ↦ rw after (delete_row-HasRow id (rows w.db) (other allowed) h)
            ])
    ]
  ]

  id_param : (id : Bytes) → get (codes "id") ((codes "id", id) ∷ []) ≡ some id
  unfolding get same
  id_param id = refl

  serve_resource-HasRow :
      (r : Resource) (req : HttpRequest) (w : World sqlite.Conn)
      → Names (split req.path b'/') r
      → (Deletes ctx f req → ⊥)
      → HasRow f (rows w.db)
      → HasRow f (rows (serve_resource sqlite ctx r req w).1.db)
  unfolding is_authorized
  serve_resource-HasRow health req w names spared h =
      elim (Bool-cases (same (codes "GET") req.method)) [
        | inl e ↦ rw e (kept (health-Keeps sqlite laws ctx _ w) h)
        | inr e ↦ rw e h
      ]
  serve_resource-HasRow collection req w names spared h =
      elim (Bool-cases (same (codes "POST") req.method)) [
        | inl e ↦ rw e (post-HasRow _ w h)
        | inr e ↦ elim (Bool-cases (same (codes "GET") req.method)) [
          | inl e' ↦ rw (e, e') (kept (get_fragments-Keeps sqlite laws ctx _ w) h)
          | inr e' ↦ rw (e, e') h
        ]
      ]
  serve_resource-HasRow (message message_id) req w names spared h =
      elim (Bool-cases (same (codes "GET") req.method)) [
        | inl e ↦ rw e (kept (get_message_fragments-Keeps sqlite laws ctx _ w) h)
        | inr e ↦ rw e h
      ]
  serve_resource-HasRow (item id) req w (names_item _ path) spared h =
      elim (Bool-cases (same (codes "DELETE") req.method)) [
        | inr e ↦ rw e h
        | inl e ↦ rw e (
            delete-HasRow (record req { path_params = (codes "id", id) ∷ [] }) w id (id_param id)
              (λ authorized is_id. spared (record {
                id = id;
                authorized = authorized;
                method = sym ((same_iff (codes "DELETE") req.method).0 e);
                path = path;
                is_id = is_id;
              }))
              h)
      ]
  serve_resource-HasRow elsewhere req w names spared h = h

  pub respond-HasRow :
      (req : HttpRequest) (w : World sqlite.Conn)
      → (Deletes ctx f req → ⊥)
      → HasRow f (rows w.db)
      → HasRow f (rows (respond (register_routes sqlite ctx []) req w).1.db)
  respond-HasRow req w spared h =
      let (r, names, e) = respond-serve_resource sqlite ctx req w in
      elim (Bool-cases (same req.method (codes "OPTIONS"))) [
        | inl preflight ↦ rw (e, preflight) h
        | inr other ↦ rw (e, other) (serve_resource-HasRow r req w names spared h)
      ]
