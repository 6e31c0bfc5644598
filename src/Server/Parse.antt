-- ===== src/Server/Parse.antt =====
-- The parsing part of `read_and_parse`: request line, headers and body of what was received.
pub mod Fuel
use frag.Prelude.{
  ℕ, zero, suc, ◌+◌, ◌-◌, Bool, true, false, ◌&&◌, ◌||◌, List, [], ◌∷◌, ◌++◌, Option, none, some,
  leb, ltb, ◌==◌, if◌then◌else◌, is_empty, length, take, drop,
}
use frag.Text.{Bytes, codes, find, substr, substr_from}
use frag.Dictionary.{put}
use frag.Utils.Case.{to_lower}
use frag.Utils.Trim.{trim}
use frag.Utils.UrlDecode.{url_decode}
use frag.Http.{HttpRequest, empty_request, crlf}
use frag.Server.Query.{parse_query}
use frag.Server.Receive.{Received, nothing_received, receive_loop}

-- One header line; a line without a colon is passed over.
unfoldable pub add_header : List (Bytes × Bytes) → Bytes → List (Bytes × Bytes)
add_header headers header = elim (find header (b':' ∷ []) 0) [
  | none ↦ headers
  | some colon ↦
      put (to_lower (trim (take colon header))) (trim (substr_from header (colon + 1))) headers
]

-- The loop over the header lines from position `pos`. A round moves `pos` forward.
unfoldable pub header_loop : ℕ → Bytes → ℕ → List (Bytes × Bytes) → List (Bytes × Bytes)
unfolding add_header
header_loop zero raw pos headers = headers
header_loop (suc rounds) raw pos headers =
    if ltb pos (length raw)
    then (elim (find raw crlf pos) [
      | none ↦ headers
      | some end ↦
          let rest =
            header_loop rounds raw (end + 2) (add_header headers (substr raw pos (end - pos))) in
          if end == pos then headers else rest
    ])
    else headers

-- The target of the request line: the path, and the query behind '?'.
unfoldable pub set_target : HttpRequest → Bytes → HttpRequest
set_target req raw_path = elim (find raw_path (b'?' ∷ []) 0) [
  | none ↦ record req { path = url_decode raw_path }
  | some qpos ↦ record req {
    path = url_decode (take qpos raw_path);
    query_params = parse_query (substr_from raw_path (qpos + 1));
  }
]

-- What stands between the method and the next space, or the end of the line.
unfoldable pub raw_target : Bytes → ℕ → Bytes
raw_target request_line p_start = elim (find request_line (b' ' ∷ []) p_start) [
  | none ↦ substr request_line p_start (length request_line - p_start)
  | some p_end ↦ substr request_line p_start (p_end - p_start)
]

unfoldable pub parse_lines : Received → ℕ → Bytes → ℕ → HttpRequest
unfolding header_loop set_target raw_target
parse_lines st line_end request_line m_end =
    let req =
      set_target (record empty_request { method = take m_end request_line })
        (raw_target request_line (m_end + 1)) in
    let body =
      if ltb 0 st.headers_end && ltb st.headers_end (length st.raw)
      then substr_from st.raw st.headers_end
      else [] in
    record req { headers = header_loop (length st.raw) st.raw (line_end + 2) []; body = body }

-- The request of what was received; without a full request line it stays empty.
unfoldable pub parse_request : Received → HttpRequest
unfolding parse_lines
parse_request st = if is_empty st.raw then empty_request else elim (find st.raw crlf 0) [
  | none ↦ empty_request
  | some line_end ↦
      let request_line = take line_end st.raw in
      elim (find request_line (b' ' ∷ []) 0) [
        | none ↦ empty_request
        | some m_end ↦ parse_lines st line_end request_line m_end
      ]
]

unfoldable pub read_and_parse : List Bytes → HttpRequest
unfolding parse_request receive_loop
read_and_parse chunks = parse_request (receive_loop nothing_received chunks)
