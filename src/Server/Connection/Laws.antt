-- ===== src/Server/Connection/Laws.antt =====
-- A server over a sequence of connections: the limiter decides by address and time alone, and a
-- connection that it refuses has no effect.
use frag.Prelude.{ℕ, ◌≡◌, refl, Bool, inl, inr, List, [], ◌∷◌, map, Bool-cases, if◌then◌else◌}
use frag.Text.{Bytes}
use frag.RateLimiter.{allow, run, answers}
use frag.Http.{too_many_requests, build_response}
use frag.Server.Parse.{read_and_parse}
use frag.Server.Connection.{Route, HttpServer, respond, handle_connection}

-- A connection: its address, the time of the limiter's clock, and what it sends.
pub record Connection : Type 0 where
  pub client_ip : Bytes
  pub now : ℕ
  pub chunks : List Bytes

abbrev pub call_of : Connection → Bytes × ℕ
call_of c = (c.client_ip, c.now)

module _ {S : Type 0} where
  -- The connections one after the other: the texts that are sent, the server and the state.
  unfoldable pub serve : HttpServer S → List Connection → S → List Bytes × HttpServer S × S
  serve server [] s = ([], server, s)
  serve server (c ∷ conns) s =
      let (sent, server', s') = handle_connection server c.client_ip c.now c.chunks s in
      let (rest, last, final) = serve server' conns s' in (sent ∷ rest, last, final)

  -- The same with the limiter's answers given beforehand: a refused connection is told so and
  -- nothing else, and the others see the state as if the refused ones had not come.
  unfoldable pub process : Bytes → List (Route S) → List Bool → List Connection → S → List Bytes × S
  process cors routes [] conns s = ([], s)
  process cors routes (permit ∷ permits) [] s = ([], s)
  process cors routes (permit ∷ permits) (c ∷ conns) s =
      let (resp, s') = respond routes (read_and_parse c.chunks) s in
      let served = process cors routes permits conns s' in
      let refused = process cors routes permits conns s in
      if permit
      then (build_response cors resp ∷ served.0, served.1)
      else (build_response cors too_many_requests ∷ refused.0, refused.1)

  -- For every server, list of connections and state, serving the connections is processing them
  -- with the answers of the limiter to their addresses and times, where a refused connection is
  -- told so and changes nothing, and the limiter ends as after these calls alone.
  pub serve-process :
      (server : HttpServer S) (conns : List Connection) (s : S)
      → serve server conns s ≡ (
        (process server.cors_origin server.routes
            (answers server.rate_limiter (map call_of conns))
            conns
            s).0,
        record server { rate_limiter = run server.rate_limiter (map call_of conns) },
        (process server.cors_origin server.routes
            (answers server.rate_limiter (map call_of conns))
            conns
            s).1,
      )
  unfolding serve process run answers handle_connection
  serve-process server [] s = refl
  serve-process server (c ∷ conns) s =
      elim (Bool-cases (allow server.rate_limiter c.client_ip c.now).1) [
        | inl permitted ↦
            let next = record server {
              rate_limiter = (allow server.rate_limiter c.client_ip c.now).0;
            } in
            let s' = (respond server.routes (read_and_parse c.chunks) s).1 in
            rw (permitted, serve-process next conns s')
        | inr refused ↦
            let next = record server {
              rate_limiter = (allow server.rate_limiter c.client_ip c.now).0;
            } in
            rw (refused, serve-process next conns s)
      ]
