-- ===== src/Handlers/Api.antt =====
-- The routes of `register_routes` (backend/src/handlers.cpp) as one function of the resource that a
-- path names and of the method.
use frag.Prelude.{◌≡◌, refl, Bool, ap, ◌∙◌, true, false, [], ◌∷◌, if◌then◌else◌}
use frag.Text.{codes, same}
use frag.Http.{HttpRequest, no_content, not_found, method_not_allowed}
use frag.Database.Sqlite.{Sqlite}
use frag.Utils.Split.{split}
use frag.Server.Connection.{Handler, dispatch, respond}
use frag.Handlers.{
  AppContext, World, health_handler, post_fragment_handler, get_fragments_handler,
  get_message_fragments_handler, delete_fragment_handler, register_routes,
}
use frag.Server.Connection.Dispatch.{dispatch_skip, dispatch_named, dispatch_end}
use frag.Handlers.Routes.{match_collection, match_message, match_item}
use frag.Handlers.Resource.{
  Resource, health, collection, elsewhere, message, item, Names, names_health, names_collection,
  names_message, names_item, match_health, more_collection, more_message, match_none, path-Names,
}

or_else {ℓ} :
    {A : Type ℓ} (test : Bool) (x : A) {y z : A}
    → y ≡ z
    → (if test then x else y) ≡ (if test then x else z)
or_else test x e = ap (λ a. if test then x else a) e

module _ (sqlite : Sqlite) (ctx : AppContext) where
  open sqlite use {Conn}

  -- The handler of a resource for a method that it has, and 405 for any other.
  abbrev pub serve_resource : Resource → Handler (World Conn)
  serve_resource health req w =
      if same (codes "GET") req.method
      then health_handler sqlite ctx (record req { path_params = [] }) w
      else (method_not_allowed, w)
  serve_resource collection req w =
      if same (codes "POST") req.method
      then post_fragment_handler sqlite ctx (record req { path_params = [] }) w
      else if same (codes "GET") req.method
      then get_fragments_handler sqlite ctx (record req { path_params = [] }) w
      else (method_not_allowed, w)
  serve_resource (message message_id) req w =
      if same (codes "GET") req.method
      then get_message_fragments_handler sqlite ctx
          (record req { path_params = (codes "message_id", message_id) ∷ [] }) w
      else (method_not_allowed, w)
  serve_resource (item id) req w =
      if same (codes "DELETE") req.method
      then delete_fragment_handler sqlite ctx (record req { path_params = (codes "id", id) ∷ [] }) w
      else (method_not_allowed, w)
  serve_resource elsewhere req w = (not_found, w)

  no_star :
      (same (codes "GET") (codes "*") ≡ false)
      × (same (codes "POST") (codes "*") ≡ false)
      × (same (codes "DELETE") (codes "*") ≡ false)
  unfolding same
  no_star = (refl, refl, refl)

  dispatch-serve_resource :
      (r : Resource) (req : HttpRequest) (w : World Conn)
      → Names (split req.path b'/') r
      → dispatch (register_routes sqlite ctx []) req w false ≡ serve_resource r req w
  unfolding register_routes
  dispatch-serve_resource _ req w (names_health p) =
      let (m1, m2, m3, m4) = match_health req.path p in
      dispatch_named _ _ req w false _ m1 no_star.0
      ∙ or_else (same (codes "GET") req.method) _ (
          dispatch_skip _ _ req w true m2
          ∙ dispatch_skip _ _ req w true m2
          ∙ dispatch_skip _ _ req w true m3
          ∙ dispatch_skip _ _ req w true m4
          ∙ dispatch_end req w true)
  dispatch-serve_resource _ req w (names_collection p) =
      let (m1, m2) = match_collection req.path p in
      let (m3, m4) = more_collection req.path p in
      dispatch_skip _ _ req w false m1
      ∙ dispatch_named _ _ req w false _ m2 no_star.1
      ∙ or_else (same (codes "POST") req.method) _ (
          dispatch_named _ _ req w true _ m2 no_star.0
          ∙ or_else (same (codes "GET") req.method) _ (
              dispatch_skip _ _ req w true m3
              ∙ dispatch_skip _ _ req w true m4
              ∙ dispatch_end req w true))
  dispatch-serve_resource _ req w (names_message message_id p) =
      let (m1, m2, m3) = match_message req.path message_id p in
      dispatch_skip _ _ req w false m1
      ∙ dispatch_skip _ _ req w false m2
      ∙ dispatch_skip _ _ req w false m2
      ∙ dispatch_named _ _ req w false _ m3 no_star.0
      ∙ or_else (same (codes "GET") req.method) _ (
          dispatch_skip _ _ req w true (more_message req.path message_id p)
          ∙ dispatch_end req w true)
  dispatch-serve_resource _ req w (names_item id p) =
      let (m1, m2, m3, m4) = match_item req.path id p in
      dispatch_skip _ _ req w false m1
      ∙ dispatch_skip _ _ req w false m2
      ∙ dispatch_skip _ _ req w false m2
      ∙ dispatch_skip _ _ req w false m3
      ∙ dispatch_named _ _ req w false _ m4 no_star.2
      ∙ or_else (same (codes "DELETE") req.method) _ (dispatch_end req w true)
  dispatch-serve_resource elsewhere req w named =
      let (m1, m2, m3, m4) = match_none req.path named in
      dispatch_skip _ _ req w false m1
      ∙ dispatch_skip _ _ req w false m2
      ∙ dispatch_skip _ _ req w false m2
      ∙ dispatch_skip _ _ req w false m3
      ∙ dispatch_skip _ _ req w false m4
      ∙ dispatch_end req w false

  -- Over any SQLite, every path names a resource by its parts: the health report, the collection,
  -- all fragments of a message, one fragment, or nothing; and through the route table every request
  -- is answered as that resource answers its method: 204 to OPTIONS, else by the handler of the
  -- method with the captured id, 405 for other methods, and 404 where the path names nothing.
  pub respond-serve_resource :
      (req : HttpRequest) (w : World Conn)
      → (r : Resource) × Names (split req.path b'/') r
        × (respond (register_routes sqlite ctx []) req w ≡ (
            if same req.method (codes "OPTIONS") then (no_content, w) else serve_resource r req w))
  unfolding respond
  respond-serve_resource req w =
      let (r, named) = path-Names req.path in
      (
        r,
        named,
        or_else (same req.method (codes "OPTIONS")) _ (dispatch-serve_resource r req w named),
      )
