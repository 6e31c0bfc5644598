-- ===== src/Server/Message/Request.antt =====
-- A whole request as a client writes it, and what the handlers are to see of it.
use frag.Prelude.{◌<◌, ◌≡◌, List, ◌∷◌, ◌++◌, map, All, length}
use frag.Text.{Bytes, codes}
use frag.Dictionary.{get, HasDistinctKeys}
use frag.Utils.Split.Laws.{Lacks}
use frag.Http.{HttpRequest, empty_request}
use frag.Server.Query.RoundTrip.{IsBytes, IsPair}
use frag.Server.Receive.{max_request_bytes}
use frag.Server.Message.{IsHeader, lower_name}
use frag.Server.Message.Length.{length_name, lower_header}
use frag.Server.Message.Declared.{length_in}
use frag.Server.Message.Framing.{framed}
use frag.Server.Message.Target.{target_text}

pub record Message : Type 0 where
  pub method : Bytes
  pub path : Bytes
  pub query : List (Bytes × Bytes)
  pub headers : List (Bytes × Bytes)
  pub body : Bytes

abbrev pub request_line : Message → Bytes
request_line m = m.method ++ (b' ' ∷ (target_text m.path m.query ++ (b' ' ∷ codes "HTTP/1.1")))

abbrev pub print_request : Message → Bytes
print_request m = framed (request_line m) m.headers m.body

abbrev pub request_of : Message → HttpRequest
request_of m = record empty_request {
  method = m.method;
  path = m.path;
  query_params = m.query;
  headers = map lower_name m.headers;
  body = m.body;
}

-- A method without spaces; bytes; headers and parameters under different names; the length of the
-- body in its header, or an empty body; and a size below the limit.
pub record IsMessage (m : Message) : Type 0 where
  pub method_space : Lacks b' ' m.method
  pub method_line : Lacks b'\r' m.method
  pub path : IsBytes m.path
  pub query : All IsPair m.query
  pub query_keys : HasDistinctKeys m.query
  pub headers : All IsHeader m.headers
  pub header_keys : HasDistinctKeys (map lower_name m.headers)
  pub declared : length_in (get length_name (map lower_header m.headers)) ≡ length m.body
  pub small : length (print_request m) < max_request_bytes
