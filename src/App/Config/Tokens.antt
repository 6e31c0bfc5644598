-- ===== src/App/Config/Tokens.antt =====
-- The token loop of `load_config`, over the text between the brackets.
pub mod Fuel
pub mod Written
use frag.Prelude.{
  ℕ, zero, suc, ◌+◌, ◌-◌, Bool, true, false, List, [], ◌∷◌, Option, none, some, ltb, ◌==◌,
  if◌then◌else◌, length, drop,
}
use frag.Text.{Bytes, find, substr}

-- The inner loop from position `qe`, where the rest of the text stands: a backslash and the byte
-- after it are passed over together, even past the end of the text.
unfoldable pub token_end : Bytes → ℕ → ℕ
token_end [] qe = qe
token_end (c ∷ []) qe = if c == b'\\' then qe + 2 else if c == b'"' then qe else qe + 1
token_end (c ∷ d ∷ s) qe =
    let escaped = token_end s (qe + 2) in
    let next = token_end (d ∷ s) (qe + 1) in
    if c == b'\\' then escaped else if c == b'"' then qe else next

-- The outer loop from position `p`. A round moves `p` forward.
unfoldable pub token_loop : ℕ → Bytes → ℕ → List Bytes
unfolding token_end
token_loop zero arr p = []
token_loop (suc rounds) arr p =
    if ltb p (length arr)
    then (elim (find arr (b'"' ∷ []) p) [
      | none ↦ []
      | some qs ↦
          let qe = token_end (drop (qs + 1) arr) (qs + 1) in
          substr arr (qs + 1) (qe - qs - 1) ∷ token_loop rounds arr (qe + 1)
    ])
    else []

unfoldable pub read_tokens : Bytes → List Bytes
unfolding token_loop
read_tokens arr = token_loop (length arr) arr 0
