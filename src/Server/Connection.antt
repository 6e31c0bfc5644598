-- ===== src/Server/Connection.antt =====
-- `handle_connection`, `add_route` and the route table. A handler takes the request and the state
-- behind the handlers, and returns the response and the state after it.
pub mod Dispatch
pub mod Laws
use frag.Prelude.{
  ℕ, Bool, true, false, ◌&&◌, not, List, [], ◌∷◌, ◌++◌, Option, none, some, if◌then◌else◌,
}
use frag.Text.{Bytes, codes, same}
use frag.RateLimiter.{RateLimiter, allow}
use frag.Http.{
  HttpRequest, HttpResponse, no_content, not_found, method_not_allowed, too_many_requests,
  build_response,
}
use frag.Server.Pattern.{match_pattern}
use frag.Server.Parse.{read_and_parse}

abbrev pub Handler : Type 0 → Type 0
Handler S = HttpRequest → S → HttpResponse × S

pub record Route (S : Type 0) : Type 0 where
  pub method : Bytes
  pub pattern_text : Bytes
  pub handler : Handler S

module _ {S : Type 0} where
  -- `add_route`.
  unfoldable pub add_route : List (Route S) → Bytes → Bytes → Handler S → List (Route S)
  add_route routes method pattern_text handler =
      routes ++ (record { method = method; pattern_text = pattern_text; handler = handler } ∷ [])

  -- The loop over the routes; the flag is `method_matched`.
  unfoldable pub dispatch : List (Route S) → HttpRequest → S → Bool → HttpResponse × S
  dispatch [] req s method_matched = (if method_matched then method_not_allowed else not_found, s)
  dispatch (route ∷ routes) req s method_matched =
      let skip = dispatch routes req s method_matched in
      let wrong_method = dispatch routes req s true in
      elim (match_pattern route.pattern_text req.path) [
        | none ↦ skip
        | some params ↦
            if not (same route.method (codes "*")) && not (same route.method req.method)
            then wrong_method
            else route.handler (record req { path_params = params }) s
      ]

  -- The part behind the rate limit: the response to a parsed request.
  unfoldable pub respond : List (Route S) → HttpRequest → S → HttpResponse × S
  unfolding dispatch
  respond routes req s =
      if same req.method (codes "OPTIONS") then (no_content, s) else dispatch routes req s false

-- `cors_origin_`, `routes_` and `rate_limiter_`, which a connection reads; it changes the limiter.
pub record HttpServer (S : Type 0) : Type 0 where
  pub cors_origin : Bytes
  pub routes : List (Route S)
  pub rate_limiter : RateLimiter

-- One connection: the address, the reading of the clock, what is received, and the state behind
-- the handlers. The result has the text that is sent.
unfoldable pub handle_connection :
    {S : Type 0} → HttpServer S → Bytes → ℕ → List Bytes → S → Bytes × HttpServer S × S
unfolding respond
handle_connection server client_ip now chunks s =
    let (limiter, permitted) = allow server.rate_limiter client_ip now in
    let server' = record server { rate_limiter = limiter } in
    let (resp, s') = respond server.routes (read_and_parse chunks) s in
    if permitted
    then (build_response server.cors_origin resp, server', s')
    else (build_response server.cors_origin too_many_requests, server', s)
