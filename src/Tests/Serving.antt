-- ===== src/Tests/Serving.antt =====
-- The server of backend/src/server.cpp, the limiter of backend/src/rate_limiter.hpp and the check of
-- backend/src/auth.hpp on small inputs.
use Prim.Native.Nat.{min}
use frag.Prelude.{
  ℕ, ◌+◌, ◌-◌, ◌≡◌, ◌≢◌, ◌↔◌, ◌<◌, ◌≤◌, refl, true, false, List, [], ◌∷◌, arith, length, ◌*◌, map,
}
use frag.Prelude.Int.{pos}
use frag.Text.{Bytes, codes}
use frag.Utils.Split.{split}
use frag.Utils.Trim.{trim}
use frag.Auth.{Auth, verify}
use frag.Auth.Laws.{IsToken, Presents, verify_iff}
use frag.RateLimiter.{Entry, RateLimiter, rate_limiter, entry_of, second, answers, run}
use frag.RateLimiter.Window.{permitted, count_calls, permitted-eq-min}
use frag.RateLimiter.Burst.{repeat, burst, answers-burst}
use frag.Http.{HttpRequest, empty_request, ok}
use frag.Server.Pattern.{match_pattern}
use frag.Server.Pattern.Laws.{IsMatch, Finds, match_pattern_iff}
use frag.Server.Query.{parse_query}
use frag.Server.Receive.{nothing_received, receive_loop, max_request_bytes, buffer_size}
use frag.Text.{find}
use frag.Server.Receive.Chunks.{joined, late, receive_loop-late}
use frag.Server.Receive.Bounds.{receive_loop_bound}
use frag.Server.Parse.{header_loop, read_and_parse}
use frag.Server.Parse.Fuel.{Ends, header_loop-Ends}
use frag.Server.Connection.{Handler, Route, HttpServer, dispatch}
use frag.Server.Connection.Dispatch.{Outcome, dispatch-Outcome}
use frag.Server.Connection.Laws.{Connection, call_of, serve, process, serve-process}

abbrev secret : Auth
secret = record { tokens = codes "secret" ∷ [] }

verify_bearer : verify secret (codes "BEARER  secret ") ≡ true
unfolding verify frag.Text.same frag.Utils.Case.to_lower trim frag.Utils.Trim.is_blank
verify_bearer = refl

verify_raw : verify secret (codes "secret") ≡ true
unfolding verify frag.Text.same frag.Utils.Case.to_lower
verify_raw = refl

verify_other : verify secret (codes "Bearer other") ≡ false
unfolding verify frag.Text.same frag.Utils.Case.to_lower trim frag.Utils.Trim.is_blank
verify_other = refl

query_pairs : parse_query (codes "a=1&b&a=2") ≡ (codes "a", codes "2") ∷ (codes "b", []) ∷ []
unfolding parse_query split frag.Text.find frag.Dictionary.put frag.Text.same
    frag.Utils.UrlDecode.url_decode
query_pairs = refl

abbrev get_text : Bytes
get_text = codes "GET /a%20b?x=1 HTTP/1.1\r\nHost: h\r\nContent-Length: 2\r\n\r\nhi"

parsed_get : read_and_parse (get_text ∷ []) ≡ record {
  method = codes "GET";
  path = codes "/a b";
  headers = (codes "host", codes "h") ∷ (codes "content-length", codes "2") ∷ [];
  query_params = (codes "x", codes "1") ∷ [];
  path_params = [];
  body = codes "hi";
}
unfolding read_and_parse frag.Text.find frag.Utils.Case.to_lower frag.Text.Number.stoull trim
    frag.Utils.Trim.is_blank frag.Utils.UrlDecode.url_decode frag.Dictionary.put parse_query
    frag.Text.same split
parsed_get = refl

-- A route that answers the number of requests before it.
abbrev counting : Handler ℕ
counting req n = (ok req.path, n + 1)

abbrev routes : List (Route ℕ)
routes =
    record { method = codes "GET"; pattern_text = codes "/a/:x"; handler = counting }
    ∷ record { method = codes "*"; pattern_text = codes "/b"; handler = counting }
    ∷ []

abbrev get_b : HttpRequest
get_b = record empty_request { method = codes "GET"; path = codes "/b" }

abbrev server : HttpServer ℕ
server = record { cors_origin = codes "*"; routes = routes; rate_limiter = rate_limiter (pos 1) }

abbrev connections : List Connection
connections =
    record {
      client_ip = codes "1.1.1.1";
      now = 60 * second;
      chunks = codes "GET /b HTTP/1.1\r\n\r\n" ∷ [];
    }
    ∷ record {
      client_ip = codes "1.1.1.1";
      now = 61 * second;
      chunks = codes "GET /b HTTP/1.1\r\n\r\n" ∷ [];
    }
    ∷ []

served_once : (serve server connections 0).2 ≡ 1
unfolding serve frag.Server.Connection.handle_connection frag.RateLimiter.allow
    frag.RateLimiter.is_expired entry_of frag.Dictionary.get frag.Dictionary.put frag.Text.same
    read_and_parse frag.Text.find frag.Utils.Case.to_lower match_pattern split
    frag.Utils.UrlDecode.url_decode frag.Server.Pattern.match_parts
served_once = refl

verify_iff_example : (verify secret (codes "Bearer secret") ≡ true) ↔ (
    (codes "Bearer secret" ≢ [])
    × (t : Bytes) × Presents (codes "Bearer secret") t
    × IsToken secret.tokens t)
verify_iff_example = verify_iff secret (codes "Bearer secret")

abbrev started : RateLimiter
started = record {
  max = pos 2;
  table = (codes "1.1.1.1", record { window_start = 60 * second; count = 1 }) ∷ [];
}

abbrev calls : List (Bytes × ℕ)
calls =
    (codes "1.1.1.1", 61 * second)
    ∷ (codes "2.2.2.2", 62 * second)
    ∷ (codes "1.1.1.1", 63 * second)
    ∷ []

permitted-eq-min_example :
    permitted started (codes "1.1.1.1") calls
    ≡ min (count_calls (codes "1.1.1.1") calls) (2 - (entry_of started (codes "1.1.1.1")).count)
unfolding frag.RateLimiter.is_expired entry_of frag.Dictionary.get frag.Text.same
permitted-eq-min_example =
    permitted-eq-min started (codes "1.1.1.1") calls 2 refl (omega arith) (refl, (refl, (refl, tt)))

answers-burst_example :
    answers (rate_limiter (pos 2)) (burst (codes "1.1.1.1") 2 (60 * second)) ≡ repeat (2 + 2) true
unfolding frag.RateLimiter.is_expired entry_of frag.Dictionary.get
answers-burst_example =
    answers-burst (rate_limiter (pos 2)) (codes "1.1.1.1") 2 (60 * second) refl (omega arith) refl

match_pattern_iff_example :
    Finds (match_pattern (codes "/a/:x") (codes "/a/1"))
    ↔ IsMatch (split (codes "/a/:x") b'/') (split (codes "/a/1") b'/')
match_pattern_iff_example = match_pattern_iff (codes "/a/:x") (codes "/a/1")

receive_loop_bound_example :
    length (receive_loop nothing_received (codes "GET" ∷ [])).raw < max_request_bytes + buffer_size
receive_loop_bound_example =
    receive_loop_bound nothing_received (codes "GET" ∷ []) (omega arith) (omega arith, tt)

abbrev header_text : Bytes
header_text = codes "a:b\r\n\r\n"

header_loop-Ends_example :
    (rounds : ℕ) × (rounds * 3 ≤ length header_text - 0 + 2)
    × Ends header_text (header_loop 7 header_text 0 []) rounds 0 []
header_loop-Ends_example = header_loop-Ends 7 header_text 0 [] (omega arith)

dispatch-Outcome_example : Outcome get_b 0 routes false (dispatch routes get_b 0 false)
dispatch-Outcome_example = dispatch-Outcome routes get_b 0 false

serve-process_example : serve server connections 0 ≡ (
  (process server.cors_origin server.routes
      (answers server.rate_limiter (map call_of connections))
      connections
      0).0,
  record server { rate_limiter = run server.rate_limiter (map call_of connections) },
  (process server.cors_origin server.routes
      (answers server.rate_limiter (map call_of connections))
      connections
      0).1,
)
serve-process_example = serve-process server connections 0

receive_loop-late_example :
    receive_loop nothing_received (codes "GET / HTTP/1.1\r\n" ∷ codes "\r\n" ∷ [])
    ≡ late (joined (codes "GET / HTTP/1.1\r\n" ∷ codes "\r\n" ∷ [])) 14
unfolding find frag.Server.Receive.declared_length frag.Utils.Case.to_lower
receive_loop-late_example =
    receive_loop-late (codes "GET / HTTP/1.1\r\n" ∷ codes "\r\n" ∷ []) 14 (refl, refl, omega arith)
      (refl, (refl, tt))
