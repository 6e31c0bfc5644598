-- ===== src/Handlers/Routes.antt =====
-- Which handler a request reaches, and what a request without a token can see.
use frag.Prelude.{
  ◌≡◌, ◌⊎◌, inl, inr, refl, sym, ◌∙◌, true, false, List, [], ◌∷◌, none, some, All, All-middle,
  Bool-cases,
}
use frag.Text.{Bytes, codes, same}
use frag.Http.{HttpRequest, HttpResponse, no_content, unauthorized, not_found, method_not_allowed}
use frag.Database.Sqlite.{Sqlite}
use frag.Dictionary.{put}
use frag.Utils.Split.{split}
use frag.Server.Pattern.{match_pattern, match_parts}
use frag.Server.Connection.{Handler, dispatch, respond}
use frag.Server.Connection.Dispatch.{
  handled, not_allowed, missing, dispatch-Outcome, dispatch_skip, dispatch_take,
  dispatch_wrong_method,
}
use frag.Handlers.{
  AppContext, World, is_authorized, health_handler, post_fragment_handler, get_fragments_handler,
  get_message_fragments_handler, delete_fragment_handler, register_routes,
}
use frag.Handlers.Laws.{handlers_unauthorized}

-- The five patterns, each against the parts of a path.
module _ (path : Bytes) where
  pub match_collection :
      split path b'/' ≡ [] ∷ codes "api" ∷ codes "fragments" ∷ []
      → (match_pattern (codes "/health") path ≡ none)
        × (match_pattern (codes "/api/fragments") path ≡ some [])
  unfolding match_pattern match_parts same split
  match_collection p = (rw p, rw p)

  pub match_message :
      (message_id : Bytes)
      → split path b'/' ≡ [] ∷ codes "api" ∷ codes "fragments" ∷ message_id ∷ codes "all" ∷ []
      → (match_pattern (codes "/health") path ≡ none)
        × (match_pattern (codes "/api/fragments") path ≡ none)
        × (match_pattern (codes "/api/fragments/:message_id/all") path
            ≡ some ((codes "message_id", message_id) ∷ []))
  unfolding match_pattern match_parts same split put
  match_message message_id p = (rw p, rw p, rw p)

  pub match_item :
      (id : Bytes)
      → split path b'/' ≡ [] ∷ codes "api" ∷ codes "fragments" ∷ id ∷ []
      → (match_pattern (codes "/health") path ≡ none)
        × (match_pattern (codes "/api/fragments") path ≡ none)
        × (match_pattern (codes "/api/fragments/:message_id/all") path ≡ none)
        × (match_pattern (codes "/api/fragments/:id") path ≡ some ((codes "id", id) ∷ []))
  unfolding match_pattern match_parts same split put
  match_item id p = (rw p, rw p, rw p, rw p)

module _ (sqlite : Sqlite) (ctx : AppContext) where
  respond-dispatch :
      (req : HttpRequest) (w : World sqlite.Conn)
      → same req.method (codes "OPTIONS") ≡ false
      → respond (register_routes sqlite ctx []) req w
        ≡ dispatch (register_routes sqlite ctx []) req w false
  unfolding respond
  respond-dispatch req w h = rw h

  -- Over any SQLite, a DELETE on /api/fragments/<id> is answered by the handler that deletes, with
  -- <id> as its parameter id.
  pub respond_delete :
      (req : HttpRequest) (w : World sqlite.Conn) (id : Bytes)
      → req.method ≡ codes "DELETE"
      → split req.path b'/' ≡ [] ∷ codes "api" ∷ codes "fragments" ∷ id ∷ []
      → respond (register_routes sqlite ctx []) req w
        ≡ delete_fragment_handler sqlite ctx (record req { path_params = (codes "id", id) ∷ [] }) w
  unfolding register_routes
  respond_delete req w id m p =
      let (m1, m2, m3, m4) = match_item req.path id p in
      respond-dispatch req w (rw m (unfold same in refl))
      ∙ dispatch_skip _ _ req w false m1
      ∙ dispatch_skip _ _ req w false m2
      ∙ dispatch_skip _ _ req w false m2
      ∙ dispatch_skip _ _ req w false m3
      ∙ dispatch_take _ _ req w false _ m4 (inr (sym m))

  -- Over any SQLite, a GET on /api/fragments/<id>/all is answered by the handler that lists a
  -- message, with <id> as its parameter message_id.
  pub respond_message :
      (req : HttpRequest) (w : World sqlite.Conn) (message_id : Bytes)
      → req.method ≡ codes "GET"
      → split req.path b'/' ≡ [] ∷ codes "api" ∷ codes "fragments" ∷ message_id ∷ codes "all" ∷ []
      → respond (register_routes sqlite ctx []) req w
        ≡ get_message_fragments_handler sqlite ctx
            (record req { path_params = (codes "message_id", message_id) ∷ [] })
            w
  unfolding register_routes
  respond_message req w message_id m p =
      let (m1, m2, m3) = match_message req.path message_id p in
      respond-dispatch req w (rw m (unfold same in refl))
      ∙ dispatch_skip _ _ req w false m1
      ∙ dispatch_skip _ _ req w false m2
      ∙ dispatch_skip _ _ req w false m2
      ∙ dispatch_take _ _ req w false _ m3 (inr (sym m))

  -- Over any SQLite, a POST on /api/fragments is answered by the handler that stores.
  pub respond_post :
      (req : HttpRequest) (w : World sqlite.Conn)
      → req.method ≡ codes "POST"
      → split req.path b'/' ≡ [] ∷ codes "api" ∷ codes "fragments" ∷ []
      → respond (register_routes sqlite ctx []) req w
        ≡ post_fragment_handler sqlite ctx (record req { path_params = [] }) w
  unfolding register_routes
  respond_post req w m p =
      let (m1, m2) = match_collection req.path p in
      respond-dispatch req w (rw m (unfold same in refl))
      ∙ dispatch_skip _ _ req w false m1
      ∙ dispatch_take _ _ req w false _ m2 (inr (sym m))

  -- Over any SQLite, a GET on /api/fragments is answered by the handler that lists a chat.
  pub respond_list :
      (req : HttpRequest) (w : World sqlite.Conn)
      → req.method ≡ codes "GET"
      → split req.path b'/' ≡ [] ∷ codes "api" ∷ codes "fragments" ∷ []
      → respond (register_routes sqlite ctx []) req w
        ≡ get_fragments_handler sqlite ctx (record req { path_params = [] }) w
  unfolding register_routes
  respond_list req w m p =
      let (m1, m2) = match_collection req.path p in
      respond-dispatch req w (rw m (unfold same in refl))
      ∙ dispatch_skip _ _ req w false m1
      ∙ dispatch_wrong_method _ _ req w false _ m2
          (λ taken. elim taken [ inl any ↦ cc any | inr post ↦ cc (post, m) ])
      ∙ dispatch_take _ _ req w true _ m2 (inr (sym m))

  -- What an answer without a token may be: nothing of the table, or the health report.
  abbrev pub Discloses : HttpRequest → World sqlite.Conn → HttpResponse × World sqlite.Conn → Type 0
  Discloses req w result =
      ((result.1 ≡ w)
        × ((result.0 ≡ unauthorized)
            ⊎ ((result.0 ≡ not_found)
                ⊎ ((result.0 ≡ method_not_allowed) ⊎ (result.0 ≡ no_content)))))
      ⊎ ((params : List (Bytes × Bytes)) × (result
            ≡ health_handler sqlite ctx (record req { path_params = params }) w))

  abbrev Guards : Handler (World sqlite.Conn) → Type 0
  Guards handler =
      (req : HttpRequest) (w : World sqlite.Conn)
      → is_authorized req ctx.auth ≡ false
      → (handler req w ≡ (unauthorized, w)) ⊎ (handler req w ≡ health_handler sqlite ctx req w)

  registered-Guards : All (λ route. Guards route.handler) (register_routes sqlite ctx [])
  unfolding register_routes
  registered-Guards = (
    λ req w h. inr refl,
    (
      λ req w h. inl (handlers_unauthorized sqlite ctx req w h).0,
      (
        λ req w h. inl (handlers_unauthorized sqlite ctx req w h).1,
        (
          λ req w h. inl (handlers_unauthorized sqlite ctx req w h).2,
          (λ req w h. inl (handlers_unauthorized sqlite ctx req w h).3, tt),
        ),
      ),
    ),
  )

  is_authorized-params :
      (req : HttpRequest) (params : List (Bytes × Bytes))
      → is_authorized (record req { path_params = params }) ctx.auth ≡ is_authorized req ctx.auth
  unfolding is_authorized
  is_authorized-params req params = refl

  -- Through the whole route table and over any SQLite, a request without an accepted token leaves
  -- the world as it is and is answered by 401, 404, 405 or the 204 of a preflight; or it reaches
  -- the health report.
  pub respond-Discloses :
      (req : HttpRequest) (w : World sqlite.Conn)
      → is_authorized req ctx.auth ≡ false
      → Discloses req w (respond (register_routes sqlite ctx []) req w)
  respond-Discloses req w h = elim (Bool-cases (same req.method (codes "OPTIONS"))) [
    | inl preflight ↦ unfold respond in rw preflight (inl (refl, inr (inr (inr refl))))
    | inr other ↦
        rw (respond-dispatch req w other)
          (elim (dispatch-Outcome (register_routes sqlite ctx []) req w false) [
            | handled before route after params split_eq _ _ _ e ↦
                let guard =
                  All-middle (λ route. Guards route.handler) before route after
                    (rw split_eq at registered-Guards) (record req { path_params = params }) w
                    (is_authorized-params req params ∙ h) in
                rw e (elim guard [
                  | inl refused ↦ rw refused (inl (refl, inl refl))
                  | inr health ↦ rw health (inr (params, refl))
                ])
            | not_allowed _ _ _ _ _ _ _ e ↦ rw e (inl (refl, inr (inr (inl refl))))
            | missing _ e ↦ rw e (inl (refl, inr (inl refl)))
          ])
  ]
