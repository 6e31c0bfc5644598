-- ===== src/Server/Receive.antt =====
-- The receive loop of `read_and_parse`. What `recv` delivers is a list of chunks, each at most as
-- long as the buffer; an empty chunk, or the end of the list, is a closed connection, an error or
-- the timeout, after which the loop ends.
pub mod Bounds
pub mod Chunks
use frag.Prelude.{
  ℕ, ◌+◌, ◌-◌, ◌*◌, ◌%◌, ◌^◌, Bool, true, false, ◌&&◌, List, [], ◌∷◌, ◌++◌, Option, none, some, leb,
  ltb, if◌then◌else◌, is_empty, length, take, drop,
}
use frag.Text.{Bytes, codes, find, substr, substr_from}
use frag.Text.Number.{stoull}
use frag.Utils.Case.{to_lower}
use frag.Utils.Trim.{trim}

-- MAX_REQUEST_BYTES.
abbrev pub max_request_bytes : ℕ
max_request_bytes = 2 * 1024 * 1024

abbrev pub buffer_size : ℕ
buffer_size = 8192

-- The local variables of the loop.
pub record Received : Type 0 where
  pub raw : Bytes
  pub headers_done : Bool
  pub content_length : ℕ
  pub headers_end : ℕ

abbrev pub nothing_received : Received
nothing_received = record { raw = []; headers_done = false; content_length = 0; headers_end = 0 }

-- `std::stoull(cl_str)`, with 0 where it throws.
abbrev pub or_zero : Option ℕ → ℕ
or_zero none = 0
or_zero (some n) = n

-- The length that the header section declares; the section is searched in lower case.
unfoldable pub declared_length : Bytes → ℕ
declared_length section =
    let hdr_section = to_lower section in
    elim (find hdr_section (codes "\r\ncontent-length:") 0) [
      | none ↦ 0
      | some cl_pos ↦
          let val_start = cl_pos + 17 in
          elim (find hdr_section (codes "\r\n") val_start) [
            | none ↦ or_zero (stoull (trim (substr_from hdr_section val_start)))
            | some val_end ↦
                or_zero (stoull (trim (substr hdr_section val_start (val_end - val_start))))
          ]
    ]

-- The body of the loop up to its last test.
unfoldable pub receive : Received → Bytes → Received
unfolding declared_length
receive st chunk =
    let raw = st.raw ++ chunk in
    if st.headers_done then record st { raw = raw } else elim (find raw (codes "\r\n\r\n") 0) [
      | none ↦ record st { raw = raw }
      | some pos ↦ record {
        raw = raw;
        headers_done = true;
        headers_end = pos + 4;
        content_length = declared_length (take (pos + 4) raw);
      }
    ]

-- `headers_done && raw.size() >= headers_end + content_length`; the sum is of type size_t.
unfoldable pub is_complete : Received → Bool
is_complete st =
    st.headers_done && leb ((st.headers_end + st.content_length) % 2 ^ 64) (length st.raw)

unfoldable pub receive_loop : Received → List Bytes → Received
unfolding receive is_complete
receive_loop st [] = st
receive_loop st (chunk ∷ chunks) =
    let st' = receive st chunk in
    let more = receive_loop st' chunks in
    if ltb (length st.raw) max_request_bytes
    then (if is_empty chunk then st else if is_complete st' then st' else more)
    else st
