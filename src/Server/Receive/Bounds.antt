-- ===== src/Server/Receive/Bounds.antt =====
-- What the receive loop has at its end.
use frag.Prelude.{
  ◌+◌, ◌≤◌, ◌<◌, ◌≡◌, inl, inr, List, [], ◌∷◌, ◌++◌, arith, ltb, length, All, length-append,
  Bool-cases, Option-cases,
}
use frag.Text.{Bytes, codes, find}
use frag.Server.Receive.{Received, max_request_bytes, buffer_size, receive, receive_loop}

-- One round appends its chunk.
raw-receive : (st : Received) (chunk : Bytes) → (receive st chunk).raw ≡ st.raw ++ chunk
unfolding receive
raw-receive st chunk = elim (Bool-cases st.headers_done) [
  | inl e ↦ rw (e, receive)
  | inr e ↦ elim (Option-cases (find (st.raw ++ chunk) (codes "\r\n\r\n") 0)) [
    | inl missing ↦ rw (e, missing, receive)
    | inr (pos, found) ↦ rw (e, found, receive)
  ]
]

abbrev pub FitsBuffer : List Bytes → Type 0
FitsBuffer = All (λ chunk. length chunk ≤ buffer_size)

-- If every chunk fits the buffer and what is there at the start is shorter than 2 MB and one
-- buffer, so is what is there at the end of the loop.
pub receive_loop_bound :
    (st : Received) (chunks : List Bytes)
    → length st.raw < max_request_bytes + buffer_size
    → FitsBuffer chunks
    → length (receive_loop st chunks).raw < max_request_bytes + buffer_size
unfolding receive_loop
receive_loop_bound st [] h fits = h
receive_loop_bound st (chunk ∷ chunks) h (fit, fits) =
    elim (Bool-cases (ltb (length st.raw) max_request_bytes)) [
      | inr full ↦ rw full h
      | inl room ↦
          let grown : length (receive st chunk).raw < max_request_bytes + buffer_size =
            rw (raw-receive st chunk) (ground (arith, length-append st.raw chunk)) in
          rw room (ground (arith, grown, receive_loop_bound (receive st chunk) chunks grown fits))
    ]
