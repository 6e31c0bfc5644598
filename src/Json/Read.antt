-- ===== src/Json/Read.antt =====
-- `extract_string` and `extract_int`: a value is looked for by scanning the text.
use frag.Prelude.{ℕ, ◌+◌, ◌||◌, [], ◌∷◌, ◌++◌, Option, none, some, ◌==◌, if◌then◌else◌, length}
use frag.Prelude.Int.{ℤ}
use frag.Text.{Bytes, find, substr_from}
use frag.Text.Number.{stoll}

-- The byte that a backslash and `nc` stand for.
unfoldable pub unescape : ℕ → ℕ
unescape nc =
    if nc == b'n' then b'\n' else if nc == b'r' then b'\r' else if nc == b't' then b'\t' else nc

-- The loop over the value, from behind its opening quote. A backslash that is the last byte of
-- the text stands for itself.
unfoldable pub read_value : Bytes → Bytes
unfolding unescape
read_value [] = []
read_value (c ∷ []) = if c == b'"' then [] else c ∷ []
read_value (c ∷ nc ∷ s) =
    let escaped = unescape nc ∷ read_value s in
    let plain = c ∷ read_value (nc ∷ s) in
    if c == b'\\' then escaped else if c == b'"' then [] else plain

-- `"\"" + key + "\""`.
abbrev pub quoted : Bytes → Bytes
quoted key = b'"' ∷ (key ++ (b'"' ∷ []))

-- The position behind the colon that follows the first occurrence of the key.
unfoldable pub value_start : Bytes → Bytes → Option ℕ
value_start json key = elim (find json (quoted key) 0) [
  | none ↦ none
  | some kpos ↦ elim (find json (b':' ∷ []) (kpos + length (quoted key))) [
    | none ↦ none
    | some colon ↦ some (colon + 1)
  ]
]

unfoldable pub extract_string : Bytes → Bytes → Bytes
unfolding read_value
extract_string json key = elim (value_start json key) [
  | none ↦ []
  | some from ↦ elim (find json (b'"' ∷ []) from) [
    | none ↦ []
    | some vstart ↦ read_value (substr_from json (vstart + 1))
  ]
]

unfoldable pub skip_blanks : Bytes → Bytes
skip_blanks [] = []
skip_blanks (c ∷ s) = let rest = skip_blanks s in if c == b' ' || c == b'\t' then rest else c ∷ s

-- `std::stoll` behind the blanks; where it throws, the default.
unfoldable pub extract_int : Bytes → Bytes → ℤ → ℤ
unfolding skip_blanks
extract_int json key default_val = elim (value_start json key) [
  | none ↦ default_val
  | some vstart ↦ elim (stoll (skip_blanks (substr_from json vstart))) [
    | none ↦ default_val
    | some n ↦ n
  ]
]
