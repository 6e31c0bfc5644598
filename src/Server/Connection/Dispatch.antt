-- ===== src/Server/Connection/Dispatch.antt =====
-- The response of the route table: the first route that fits, 405 or 404.
use frag.Prelude.{
  ◌≡◌, ◌⊎◌, refl, ap, Bool, true, false, ◌&&◌, not, inl, inr, List, [], ◌∷◌, ◌++◌, none, some,
  if◌then◌else◌, All, Bool-cases, Option-cases,
}
use frag.Text.{Bytes, codes, same}
use frag.Text.Laws.{same_iff}
use frag.Http.{HttpRequest, HttpResponse, not_found, method_not_allowed}
use frag.Server.Pattern.{match_pattern}
use frag.Server.Connection.{Route, dispatch}

module _ {S : Type 0} where
  abbrev pub TakesMethod : HttpRequest → Route S → Type 0
  TakesMethod req route = (route.method ≡ codes "*") ⊎ (route.method ≡ req.method)

  -- The route does not serve the request: its pattern does not match, or its method differs.
  abbrev pub Passes : HttpRequest → Route S → Type 0
  Passes req route =
      (match_pattern route.pattern_text req.path ≡ none) ⊎ (TakesMethod req route → ⊥)

  -- What the loop over the routes does with a request, by cases that exclude one another. `known`
  -- says whether the pattern of an earlier route matched.
  pub data Outcome (req : HttpRequest) (s : S) (routes : List (Route S)) (known : Bool)
      (result : HttpResponse × S) : Type 0 where
    -- The first route that serves the request runs, with the captured parameters.
    handled :
        (before : List (Route S)) (route : Route S) (after : List (Route S))
        (params : List (Bytes × Bytes))
        → routes ≡ before ++ (route ∷ after)
        → All (Passes req) before
        → match_pattern route.pattern_text req.path ≡ some params
        → TakesMethod req route
        → result ≡ route.handler (record req { path_params = params }) s
        → Outcome req s routes known result
    -- No route serves it, and some pattern matches.
    not_allowed :
        (before : List (Route S)) (route : Route S) (after : List (Route S))
        (params : List (Bytes × Bytes))
        → routes ≡ before ++ (route ∷ after)
        → All (Passes req) routes
        → match_pattern route.pattern_text req.path ≡ some params
        → result ≡ (method_not_allowed, s)
        → Outcome req s routes known result
    -- No pattern matches.
    missing :
        All (λ route. match_pattern route.pattern_text req.path ≡ none) routes
        → result ≡ ((if known then method_not_allowed else not_found), s)
        → Outcome req s routes known result

  -- The test of the loop.
  method_cases :
      (req : HttpRequest) (route : Route S)
      → (((not (same route.method (codes "*")) && not (same route.method req.method)) ≡ false)
          × TakesMethod req route)
        ⊎ (((not (same route.method (codes "*")) && not (same route.method req.method)) ≡ true)
            × (TakesMethod req route → ⊥))
  method_cases req route = elim (Bool-cases (same route.method (codes "*"))) [
    | inl any ↦ inl (rw any, inl ((same_iff _ _).0 any))
    | inr not_any ↦ elim (Bool-cases (same route.method req.method)) [
      | inl equal ↦ inl (rw (not_any, equal), inr ((same_iff _ _).0 equal))
      | inr other ↦ inr (
        rw (not_any, other),
        λ taken. elim taken [
          | inl e ↦ cc (not_any, (same_iff _ _).1 e)
          | inr e ↦ cc (other, (same_iff _ _).1 e)
        ],
      )
    ]
  ]

  NoMatch-Passes :
      (req : HttpRequest) (routes : List (Route S))
      → All (λ route. match_pattern route.pattern_text req.path ≡ none) routes
      → All (Passes req) routes
  NoMatch-Passes req [] h = tt
  NoMatch-Passes req (route ∷ routes) (h, hs) = (inl h, NoMatch-Passes req routes hs)

  -- A route that is passed over, in front of routes with a known outcome.
  skip_unmatched :
      (req : HttpRequest) (s : S) (route : Route S) (routes : List (Route S)) (known : Bool)
      {result : HttpResponse × S}
      → match_pattern route.pattern_text req.path ≡ none
      → Outcome req s routes known result
      → Outcome req s (route ∷ routes) known result
  skip_unmatched req s route routes known e (handled before r after params split h m t result) =
      handled (route ∷ before) r after params (ap (◌∷◌ route) split) (inl e, h) m t result
  skip_unmatched req s route routes known e (not_allowed before r after params split h m result) =
      not_allowed (route ∷ before) r after params (ap (◌∷◌ route) split) (inl e, h) m result
  skip_unmatched req s route routes known e (missing h result) = missing (e, h) result

  skip_method :
      (req : HttpRequest) (s : S) (route : Route S) (routes : List (Route S)) (known : Bool)
      (params : List (Bytes × Bytes)) {result : HttpResponse × S}
      → match_pattern route.pattern_text req.path ≡ some params
      → (TakesMethod req route → ⊥)
      → Outcome req s routes true result
      → Outcome req s (route ∷ routes) known result
  skip_method req s route routes known ps e no_method
        (handled before r after params split h m t result) =
      handled (route ∷ before) r after params (ap (◌∷◌ route) split) (inr no_method, h) m t result
  skip_method req s route routes known ps e no_method
        (not_allowed before r after params split h m result) =
      not_allowed (route ∷ before) r after params (ap (◌∷◌ route) split) (inr no_method, h) m result
  skip_method req s route routes known ps e no_method (missing h result) =
      not_allowed [] route routes ps refl (inr no_method, NoMatch-Passes req routes h) e result

  -- For every route table, request and state, the first route that serves the request answers it
  -- with the captured parameters; if none does, the answer is 405 where a pattern matches (or the
  -- flag was set) and else 404, and the state stays as it is.
  pub dispatch-Outcome :
      (routes : List (Route S)) (req : HttpRequest) (s : S) (known : Bool)
      → Outcome req s routes known (dispatch routes req s known)
  unfolding dispatch
  dispatch-Outcome [] req s known = missing tt refl
  dispatch-Outcome (route ∷ routes) req s known =
      elim (Option-cases (match_pattern route.pattern_text req.path)) [
        | inl e ↦
            rw (e, dispatch)
              (skip_unmatched req s route routes known e (dispatch-Outcome routes req s known))
        | inr (params, e) ↦ elim (method_cases req route) [
          | inl (test, taken) ↦
              handled [] route routes params refl tt e taken (rw (e, dispatch, test))
          | inr (test, refused) ↦
              rw (e, dispatch, test)
                (skip_method req s route routes known params e refused
                  (dispatch-Outcome routes req s true))
        ]
      ]

  pub dispatch_end :
      (req : HttpRequest) (s : S) (known : Bool)
      → dispatch [] req s known ≡ ((if known then method_not_allowed else not_found), s)
  unfolding dispatch
  dispatch_end req s known = refl

  -- One round of the loop, by what the pattern and the method say.
  module _ (route : Route S) (routes : List (Route S)) (req : HttpRequest) (s : S)
      (known : Bool) where
    pub dispatch_skip :
        match_pattern route.pattern_text req.path ≡ none
        → dispatch (route ∷ routes) req s known ≡ dispatch routes req s known
    unfolding dispatch
    dispatch_skip e = rw (e, dispatch)

    pub dispatch_take :
        (params : List (Bytes × Bytes))
        → match_pattern route.pattern_text req.path ≡ some params
        → TakesMethod req route
        → dispatch (route ∷ routes) req s known
          ≡ route.handler (record req { path_params = params }) s
    unfolding dispatch
    dispatch_take params e taken = elim (method_cases req route) [
      | inl (test, _) ↦ rw (e, dispatch, test)
      | inr (_, refused) ↦ absurd (refused taken)
    ]

    pub dispatch_wrong_method :
        (params : List (Bytes × Bytes))
        → match_pattern route.pattern_text req.path ≡ some params
        → (TakesMethod req route → ⊥)
        → dispatch (route ∷ routes) req s known ≡ dispatch routes req s true
    unfolding dispatch
    dispatch_wrong_method params e refused = elim (method_cases req route) [
      | inl (_, taken) ↦ absurd (refused taken)
      | inr (test, _) ↦ rw (e, dispatch, test)
    ]

    -- A route with a method of its own.
    pub dispatch_named :
        (params : List (Bytes × Bytes))
        → match_pattern route.pattern_text req.path ≡ some params
        → same route.method (codes "*") ≡ false
        → dispatch (route ∷ routes) req s known ≡ (
            if same route.method req.method
            then route.handler (record req { path_params = params }) s
            else dispatch routes req s true)
    unfolding dispatch
    dispatch_named params e named = elim (Bool-cases (same route.method req.method)) [
      | inl taken ↦ rw (e, dispatch, named, taken)
      | inr other ↦ rw (e, dispatch, named, other)
    ]
