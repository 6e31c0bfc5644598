-- ===== src/Utils/Base64.antt =====
-- `base64_encode` and `base64_decode` of backend/src/utils.hpp.
pub mod RoundTrip
use frag.Prelude.{
  ℕ, suc, ◌+◌, ◌-◌, ◌*◌, ◌/◌, ◌%◌, ◌^◌, true, false, ◌&&◌, [], ◌∷◌, Option, none, some, leb, ◌==◌,
  if◌then◌else◌, get_elem?,
}
use frag.Text.{Bytes, codes}

abbrev pub b64_chars : Bytes
b64_chars = codes "ABCDEFGHIJKLMNOPQRSTUVWXYZabcdefghijklmnopqrstuvwxyz0123456789+/"

abbrev or_nul : Option ℕ → ℕ
or_nul none = 0
or_nul (some c) = c

-- `B64_CHARS[x & 0x3F]`.
unfoldable pub b64_char : ℕ → ℕ
b64_char x = or_nul (get_elem? b64_chars (x % 64))

-- One round of the encoding loop, by the bytes that are left: `b` is built from parts that share
-- no bit, so `|=` is a sum.
unfoldable pub base64_encode : Bytes → Bytes
base64_encode [] = []
base64_encode (x ∷ []) =
    let b = x * 2 ^ 16 in b64_char (b / 2 ^ 18) ∷ b64_char (b / 2 ^ 12) ∷ b'=' ∷ b'=' ∷ []
base64_encode (x ∷ y ∷ []) =
    let b = x * 2 ^ 16 + y * 2 ^ 8 in
    b64_char (b / 2 ^ 18) ∷ b64_char (b / 2 ^ 12) ∷ b64_char (b / 2 ^ 6) ∷ b'=' ∷ []
base64_encode (x ∷ y ∷ z ∷ rest) =
    let b = x * 2 ^ 16 + y * 2 ^ 8 + z in
    b64_char (b / 2 ^ 18)
    ∷ b64_char (b / 2 ^ 12)
    ∷ b64_char (b / 2 ^ 6)
    ∷ b64_char b
    ∷ base64_encode rest

-- `lookup[c]`; `none` is -1.
unfoldable pub b64_lookup : ℕ → Option ℕ
b64_lookup c =
    if leb b'A' c && leb c b'Z'
    then some (c - b'A')
    else if leb b'a' c && leb c b'z'
    then some (c - b'a' + 26)
    else if leb b'0' c && leb c b'9'
    then some (c - b'0' + 52)
    else if c == b'+'
    then some 62
    else if c == b'/'
    then some 63
    else none

-- The decoding loop. `val` is the bit pattern of the int, and `pending` is `bits + 8`, the number
-- of bits of `val` that are not written yet, before the six of the next character.
decode_from : ℕ → ℕ → Bytes → Bytes
unfolding b64_lookup
decode_from val pending [] = []
decode_from val pending (c ∷ rest) = elim (b64_lookup c) [
  | none ↦ []
  | some d ↦
      let val' = (val * 2 ^ 6 + d) % 2 ^ 32 in
      let bits = pending + 6 in
      elim (leb 8 bits) [
        | true ↦ (val' / 2 ^ (bits - 8)) % 256 ∷ decode_from val' (bits - 8) rest
        | false ↦ decode_from val' bits rest
      ]
]

unfoldable pub base64_decode : Bytes → Bytes
unfolding decode_from
base64_decode text = decode_from 0 0 text
