-- ===== src/Utils/JsonEscape.antt =====
-- `json_escape` of backend/src/utils.hpp.
use frag.Prelude.{ℕ, ◌+◌, ◌-◌, ◌/◌, ◌%◌, [], ◌∷◌, ◌++◌, ltb, ◌==◌, if◌then◌else◌}
use frag.Text.{Bytes}

-- A digit of `%x`.
unfoldable pub hex_digit : ℕ → ℕ
hex_digit d = if ltb d 10 then b'0' + d else b'a' + (d - 10)

-- What the loop appends for one byte.
unfoldable pub escape_byte : ℕ → Bytes
escape_byte c =
    if c == b'"'
    then b'\\' ∷ b'"' ∷ []
    else if c == b'\\'
    then b'\\' ∷ b'\\' ∷ []
    else if c == b'\n'
    then b'\\' ∷ b'n' ∷ []
    else if c == b'\r'
    then b'\\' ∷ b'r' ∷ []
    else if c == b'\t'
    then b'\\' ∷ b't' ∷ []
    else if ltb c 0x20
    then b'\\' ∷ b'u' ∷ b'0' ∷ b'0' ∷ hex_digit (c / 16) ∷ hex_digit (c % 16) ∷ []
    else c ∷ []

unfoldable pub json_escape : Bytes → Bytes
unfolding escape_byte
json_escape [] = []
json_escape (c ∷ s) = escape_byte c ++ json_escape s
