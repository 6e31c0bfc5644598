-- ===== src/Server/Receive/Chunks.antt =====
-- How the bytes of a request are split into chunks does not matter to the receive loop.
use frag.Prelude.{
  ℕ, ◌+◌, ◌%◌, ◌^◌, ◌≤◌, ◌<◌, ◌≡◌, refl, sym, ap, ◌∙◌, true, false, inl, inr, List, [], ◌∷◌, ◌++◌,
  none, some, arith, leb, ltb, is_empty, length, length-append, take, take_within, All, Bool-cases,
  Option-cases, append-nil, append_assoc,
}
use frag.Text.{Bytes, codes, find}
use frag.Text.Laws.{find_zero, find_at-extend}
use frag.Server.Receive.{
  max_request_bytes, Received, nothing_received, declared_length, receive, is_complete,
  receive_loop,
}

abbrev pub separator : Bytes
separator = codes "\r\n\r\n"

abbrev pub joined : List Bytes → Bytes
joined [] = []
joined (chunk ∷ chunks) = chunk ++ joined chunks

-- The local variables of the loop before and after the end of the headers has come.
abbrev early : Bytes → Received
early raw = record { raw = raw; headers_done = false; content_length = 0; headers_end = 0 }

abbrev pub late : Bytes → ℕ → Received
late raw pos = record {
  raw = raw;
  headers_done = true;
  content_length = declared_length (take (pos + 4) raw);
  headers_end = pos + 4;
}

-- The local variables when some text has been received, however it came.
abbrev received : Bytes → Received
received raw = elim (find raw separator 0) [ none ↦ early raw | some pos ↦ late raw pos ]

-- A text that has a whole header section and exactly the body that it declares.
abbrev pub IsWhole : Bytes → ℕ → Type 0
IsWhole text pos =
    (find text separator 0 ≡ some pos)
    × (pos + 4 + declared_length (take (pos + 4) text) ≡ length text)
    × (length text < max_request_bytes)

received-early : (raw : Bytes) → find raw separator 0 ≡ none → received raw ≡ early raw
received-early raw e = rw (e, received)

received-late :
    (raw : Bytes) (pos : ℕ) → find raw separator 0 ≡ some pos → received raw ≡ late raw pos
received-late raw pos e = rw (e, received)

separator_extend :
    (s t : Bytes) (pos : ℕ)
    → find s separator 0 ≡ some pos
    → (pos + 4 ≤ length s) × (find (s ++ t) separator 0 ≡ some pos)
separator_extend s t pos e =
    let (fits, found) = find_at-extend separator s t 0 pos (sym (find_zero s separator) ∙ e) in
    (omega (arith, fits), find_zero (s ++ t) separator ∙ found)

receive-early : (raw chunk : Bytes) → receive (early raw) chunk ≡ received (raw ++ chunk)
unfolding receive
receive-early raw chunk = refl

receive-received : (raw chunk : Bytes) → receive (received raw) chunk ≡ received (raw ++ chunk)
receive-received raw chunk = elim (Option-cases (find raw separator 0)) [
  | inl missing ↦ ap (λ st. receive st chunk) (received-early raw missing) ∙ receive-early raw chunk
  | inr (pos, found) ↦
      let (fits, still) = separator_extend raw chunk pos found in
      let section = take_within (pos + 4) raw chunk fits in
      ap (λ st. receive st chunk) (received-late raw pos found)
      ∙ unfold receive in rw (received-late (raw ++ chunk) pos still, section) refl
]

-- A part of a whole text is complete only if it is all of it.
is_complete-received :
    (raw rest : Bytes) (pos : ℕ)
    → IsWhole (raw ++ rest) pos
    → is_complete (received raw) ≡ true
    → length rest ≡ 0
unfolding is_complete
is_complete-received raw rest pos (found, whole, small) complete =
    elim (Option-cases (find raw separator 0)) [
      | inl missing ↦ cc (ap is_complete (received-early raw missing), complete)
      | inr (q, here) ↦
          let (fits, still) = separator_extend raw rest q here in
          let same : q ≡ pos = ground (arith, found, still) in
          let front = take_within (q + 4) raw rest fits in
          let done : is_complete (late raw q) ≡ true =
            sym (ap is_complete (received-late raw q here)) ∙ complete in
          let total : q + 4 + declared_length (take (q + 4) raw) ≡ length (raw ++ rest) =
            sym (ap (λ section. q + 4 + declared_length section) front)
            ∙ ap (λ n. n + 4 + declared_length (take (n + 4) (raw ++ rest))) same
            ∙ whole in
          let enough : leb ((q + 4 + declared_length (take (q + 4) raw)) % 2 ^ 64) (length raw)
              ≡ true =
            done in
          ground (arith, total, enough, small, length-append raw rest)
    ]

pub no_bytes : (s : Bytes) → length s ≡ 0 → s ≡ []
no_bytes [] h = refl
no_bytes (c ∷ s) h = absurd (omega arith)

raw-received : (raw : Bytes) → (received raw).raw ≡ raw
raw-received raw = elim (Option-cases (find raw separator 0)) [
  | inl missing ↦ ap (λ st. st.raw) (received-early raw missing)
  | inr (pos, found) ↦ ap (λ st. st.raw) (received-late raw pos found)
]

receive_loop-joined :
    (chunks : List Bytes) (raw : Bytes) (pos : ℕ)
    → IsWhole (raw ++ joined chunks) pos
    → All (λ chunk. is_empty chunk ≡ false) chunks
    → receive_loop (received raw) chunks ≡ received (raw ++ joined chunks)
unfolding receive_loop
receive_loop-joined [] raw pos whole full = ap received (sym (append-nil raw))
receive_loop-joined (chunk ∷ chunks) raw pos whole (some_bytes, full) =
    let split : raw ++ (chunk ++ joined chunks) ≡ (raw ++ chunk) ++ joined chunks =
      sym (append_assoc raw chunk (joined chunks)) in
    let whole' : IsWhole ((raw ++ chunk) ++ joined chunks) pos = rw (← split) whole in
    let room : ltb (length (received raw).raw) max_request_bytes ≡ true =
      rw (raw-received raw) (ground (arith, whole.2, length-append raw (chunk ++ joined chunks))) in
    let rest = receive_loop-joined chunks (raw ++ chunk) pos whole' full in
    elim (Bool-cases (is_complete (received (raw ++ chunk)))) [
      | inr more ↦
          rw (room, some_bytes, receive-received raw chunk, more) (rest ∙ ap received (sym split))
      | inl complete ↦
          let nothing : length (joined chunks) ≡ 0 =
            is_complete-received (raw ++ chunk) (joined chunks) pos whole' complete in
          rw (room, some_bytes, receive-received raw chunk, complete)
            (ap received (
              sym (append-nil (raw ++ chunk))
              ∙ ap (λ t. (raw ++ chunk) ++ t) (sym (no_bytes (joined chunks) nothing))
              ∙ sym split))
    ]

-- A request that has a whole header section and exactly the body that it declares, and that is
-- smaller than the limit, is received completely, with the position and the length of its own
-- headers, however it is split into chunks that are not empty.
pub receive_loop-late :
    (chunks : List Bytes) (pos : ℕ)
    → IsWhole (joined chunks) pos
    → All (λ chunk. is_empty chunk ≡ false) chunks
    → receive_loop nothing_received chunks ≡ late (joined chunks) pos
unfolding find
receive_loop-late chunks pos whole full =
    receive_loop-joined chunks [] pos whole full ∙ received-late (joined chunks) pos whole.0
