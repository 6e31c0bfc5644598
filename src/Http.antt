-- ===== src/Http.antt =====
-- The HTTP abstractions of backend/src/server.hpp: requests, responses and their factories, and
-- the response text of `build_response` (backend/src/server.cpp).
use frag.Prelude.{ℕ, [], ◌++◌, List, if◌then◌else◌, is_empty, length}
use frag.Text.{Bytes, codes}
use frag.Text.Number.{print_nat}

-- The maps of headers and parameters are association lists (frag.Dictionary).
pub record HttpRequest : Type 0 where
  pub method : Bytes
  pub path : Bytes
  pub headers : List (Bytes × Bytes)
  pub query_params : List (Bytes × Bytes)
  pub path_params : List (Bytes × Bytes)
  pub body : Bytes

abbrev pub empty_request : HttpRequest
empty_request = record {
  method = [];
  path = [];
  headers = [];
  query_params = [];
  path_params = [];
  body = [];
}

pub record HttpResponse : Type 0 where
  pub status_code : ℕ
  pub status_text : Bytes
  pub content_type : Bytes
  pub body : Bytes

abbrev json_response : ℕ → Bytes → Bytes → HttpResponse
json_response code text body = record {
  status_code = code;
  status_text = text;
  content_type = codes "application/json";
  body = body;
}

abbrev pub error_body : Bytes → Bytes
error_body msg = codes "{\"error\":\"" ++ (msg ++ codes "\"}")

abbrev pub ok : Bytes → HttpResponse
ok b = json_response 200 (codes "OK") b

abbrev pub created : Bytes → HttpResponse
created b = json_response 201 (codes "Created") b

abbrev pub no_content : HttpResponse
no_content = json_response 204 (codes "No Content") []

abbrev pub bad_request : Bytes → HttpResponse
bad_request msg = json_response 400 (codes "Bad Request") (error_body msg)

abbrev pub unauthorized : HttpResponse
unauthorized = json_response 401 (codes "Unauthorized") (error_body (codes "unauthorized"))

abbrev pub not_found : HttpResponse
not_found = json_response 404 (codes "Not Found") (error_body (codes "not found"))

abbrev pub method_not_allowed : HttpResponse
method_not_allowed =
    json_response 405 (codes "Method Not Allowed") (error_body (codes "method not allowed"))

abbrev pub payload_too_large : HttpResponse
payload_too_large =
    json_response 413 (codes "Payload Too Large") (error_body (codes "payload too large"))

abbrev pub too_many_requests : HttpResponse
too_many_requests =
    json_response 429 (codes "Too Many Requests") (error_body (codes "too many requests"))

abbrev pub server_error : Bytes → HttpResponse
server_error msg = json_response 500 (codes "Internal Server Error") (error_body msg)

abbrev pub crlf : Bytes
crlf = codes "\r\n"

-- `build_response`; `cors_origin` is the server's `cors_origin_`.
unfoldable pub build_response : Bytes → HttpResponse → Bytes
build_response cors_origin resp =
    let status_text = if is_empty resp.status_text then codes "OK" else resp.status_text in
    codes "HTTP/1.1 "
    ++ (print_nat resp.status_code
        ++ (codes " "
            ++ (status_text
                ++ (crlf
                    ++ (codes "Content-Type: "
                        ++ (resp.content_type
                            ++ (codes "; charset=utf-8\r\nContent-Length: "
                                ++ (print_nat (length resp.body)
                                    ++ (codes
                                          "\r\nConnection: close\r\nAccess-Control-Allow-Origin: "
                                        ++ (cors_origin
                                            ++ (codes
                                                  "\r\nAccess-Control-Allow-Methods: GET, POST, DELETE, OPTIONS\r\nAccess-Control-Allow-Headers: Content-Type, Authorization\r\n\r\n"
                                                ++ resp.body)))))))))))
