-- ===== src/Server/Message/Framing.antt =====
-- A text of one line, header lines and a body: where `read_and_parse` of backend/src/server.cpp
-- divides it.
use frag.Prelude.{
  ℕ, ◌+◌, ◌≡◌, ◌∙◌, List, [], ◌∷◌, ◌++◌, some, arith, All, append_assoc, length, length-append,
  take, take-append, drop, drop-append,
}
use frag.Text.{Bytes, find}
use frag.Text.Laws.{find_zero, find_at-skip}
use frag.Utils.Split.Laws.{Lacks}
use frag.Server.Receive.Chunks.{separator}
use frag.Server.Message.{header_lines, IsLine}
use frag.Server.Message.Separator.{find_separator}

module _ (line : Bytes) (headers : List (Bytes × Bytes)) where
  -- The line and the headers, and the whole text.
  abbrev pub head : Bytes
  head = line ++ (b'\r' ∷ b'\n' ∷ header_lines headers)

  abbrev pub framed : Bytes → Bytes
  framed body = line ++ (b'\r' ∷ b'\n' ∷ (header_lines headers ++ body))

  pub head-append : (body : Bytes) → head ++ body ≡ framed body
  head-append body = append_assoc line (b'\r' ∷ b'\n' ∷ header_lines headers) body

  -- The separator is found at the end of the head, so that the text falls into the head and the
  -- body.
  pub record Frames (body : Bytes) (pos : ℕ) : Type 0 where
    pub found : find (framed body) separator 0 ≡ some pos
    pub place : pos + 4 ≡ length head
    pub front : take (pos + 4) (framed body) ≡ head
    pub behind : drop (pos + 4) (framed body) ≡ body

  pub framed-Frames :
      (body : Bytes) → Lacks b'\r' line → All IsLine headers → (pos : ℕ) × Frames body pos
  framed-Frames body no_line h =
      let (pos, at, where_) = find_separator headers body (0 + length line) h in
      let place : pos + 4 ≡ length head =
        omega (arith, where_, length-append line (b'\r' ∷ b'\n' ∷ header_lines headers)) in
      (
        pos,
        record {
          found =
              find_zero (framed body) separator
              ∙ find_at-skip b'\r' (b'\n' ∷ b'\r' ∷ b'\n' ∷ []) line
                  (b'\r' ∷ b'\n' ∷ (header_lines headers ++ body)) 0 no_line
              ∙ at;
          place = place;
          front = rw (place, ← head-append body) (take-append head body);
          behind = rw (place, ← head-append body) (drop-append head body);
        },
      )
