-- ===== src/Utils/UrlDecode.antt =====
-- `url_decode` of backend/src/utils.hpp, with the part of `strtol` that it reaches.
pub mod RoundTrip
pub mod Paths
use frag.Prelude.{
  ℕ, ◌+◌, ◌-◌, ◌*◌, ◌%◌, Bool, true, false, ◌&&◌, ◌||◌, [], ◌∷◌, Option, none, some, leb, ◌==◌,
  if◌then◌else◌,
}
use frag.Text.{Bytes}
use frag.Text.Number.{is_space, skip_space}

-- The value of a hexadecimal digit.
unfoldable pub hex_value : ℕ → Option ℕ
hex_value c =
    if leb b'0' c && leb c b'9'
    then some (c - b'0')
    else if leb b'a' c && leb c b'f'
    then some (c - b'a' + 10)
    else if leb b'A' c && leb c b'F'
    then some (c - b'A' + 10)
    else none

unfoldable pub hex_digits : ℕ → Bytes → ℕ
unfolding hex_value
hex_digits acc [] = acc
hex_digits acc (c ∷ s) = elim (hex_value c) [ none ↦ acc | some d ↦ hex_digits (acc * 16 + d) s ]

-- The sign, then the digits; the result is cast to a byte.
unfoldable pub signed_hex : Bytes → ℕ
unfolding hex_digits
signed_hex [] = 0
signed_hex (c ∷ s) =
    if c == b'-'
    then (256 - hex_digits 0 s % 256) % 256
    else if c == b'+'
    then hex_digits 0 s % 256
    else hex_digits 0 (c ∷ s) % 256

-- `(char)strtol(hex, &end, 16)` for a text of two bytes. White space and a sign may stand before
-- the digits. A prefix "0x" is read only with a digit behind it, which two bytes have no room for.
unfoldable pub strtol_char : ℕ → ℕ → ℕ
unfolding is_space skip_space signed_hex
strtol_char x y = signed_hex (skip_space (x ∷ y ∷ []))

unfoldable pub plus_to_space : ℕ → ℕ
plus_to_space c = if c == b'+' then b' ' else c

-- The loop over `i`: `i + 2 < s.size()` says that two bytes follow.
unfoldable pub url_decode : Bytes → Bytes
unfolding strtol_char plus_to_space
url_decode [] = []
url_decode (c ∷ []) = plus_to_space c ∷ []
url_decode (c ∷ x ∷ []) = plus_to_space c ∷ plus_to_space x ∷ []
url_decode (c ∷ x ∷ y ∷ s) = elim (c == b'%') [
  | true ↦ strtol_char x y ∷ url_decode s
  | false ↦ plus_to_space c ∷ url_decode (x ∷ y ∷ s)
]
