-- ===== src/Server/Message/Separator.antt =====
-- Where `read_and_parse` of backend/src/server.cpp finds the end of the headers.
use frag.Prelude.{
  ℕ, ◌+◌, ◌≡◌, ◌≢◌, refl, ap, ◌∙◌, false, List, [], ◌∷◌, ◌++◌, some, arith, All, All-append,
  append_assoc, length, length-append,
}
use frag.Text.{Bytes, find_at, starts_with}
use frag.Text.Laws.{find_at-skip, find_at-append}
use frag.Utils.Split.Laws.{Lacks}
use frag.Server.Receive.Chunks.{separator}
use frag.Server.Message.{header_text, header_lines, IsLine}

pub header_text-Lacks :
    (name value : Bytes)
    → Lacks b'\r' name
    → Lacks b'\r' value
    → Lacks b'\r' (header_text (name, value))
header_text-Lacks name value no_name no_value =
    All-append (λ c. c ≢ b'\r') name (b':' ∷ b' ' ∷ value) no_name
      ((λ e. absurd (omega (arith, e))), ((λ e. absurd (omega (arith, e))), no_value))

-- No header line begins with a carriage return.
first_solid :
    (header : Bytes × Bytes) (s : Bytes)
    → IsLine header
    → starts_with (b'\r' ∷ b'\n' ∷ []) (header_text header ++ s) ≡ false
unfolding starts_with
first_solid ([], value) s h = refl
first_solid (c ∷ name, value) s h = ground (arith, h.name_line.0)

-- The end of a line, and a header behind it, hold no separator.
pass_header :
    (header : Bytes × Bytes) (s rest : Bytes) (i : ℕ)
    → IsLine header
    → s ≡ header_text header ++ rest
    → find_at separator (b'\r' ∷ b'\n' ∷ s) i
      ≡ find_at separator rest (i + 2 + length (header_text header))
unfolding find_at starts_with
pass_header header s rest i hd e =
    rw (e, first_solid header rest hd)
      (find_at-skip b'\r' (b'\n' ∷ b'\r' ∷ b'\n' ∷ []) (header_text header) rest (i + 1 + 1)
          (header_text-Lacks header.0 header.1 hd.name_line hd.value_line)
        ∙ ap (find_at separator rest) (omega arith))

-- From the end of a line in front of the headers on, the separator is found at the last of them.
pub find_separator :
    (headers : List (Bytes × Bytes)) (body : Bytes) (i : ℕ)
    → All IsLine headers
    → (j : ℕ) × (find_at separator (b'\r' ∷ b'\n' ∷ (header_lines headers ++ body)) i ≡ some j)
      × (j + 4 ≡ i + 2 + length (header_lines headers))
find_separator [] body i h = (i, find_at-append separator body i, omega arith)
find_separator (header ∷ headers) body i (hd, h) =
    let text = header_text header in
    let rest = b'\r' ∷ b'\n' ∷ (header_lines headers ++ body) in
    let (j, found, place) = find_separator headers body (i + 2 + length text) h in
    (
      j,
      pass_header header (header_lines (header ∷ headers) ++ body) rest i hd
            (append_assoc text (b'\r' ∷ b'\n' ∷ header_lines headers) body)
          ∙ found,
      omega (arith, place, length-append text (b'\r' ∷ b'\n' ∷ header_lines headers)),
    )
