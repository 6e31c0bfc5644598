-- ===== src/Utils/UrlDecode/RoundTrip.antt =====
-- Percent-encoding, and what `url_decode` makes of it.
use frag.Prelude.{
  ℕ, ◌+◌, ◌-◌, ◌/◌, ◌%◌, ◌<◌, ◌≤◌, ◌≡◌, ◌≢◌, refl, ap, Bool, true, ◌&&◌, ◌||◌, inl, inr, [], ◌∷◌,
  arith, leb, ltb, ◌==◌, ==_iff, if◌then◌else◌, All, length, passes_on, passes_on_lookup,
  Bool-cases,
}
use frag.Text.{Bytes}
use frag.Utils.UrlDecode.{strtol_char, plus_to_space, url_decode}

-- The encoding of a URL component (RFC 3986): the unreserved bytes stand for themselves, any
-- other byte is a percent sign and two upper-case hexadecimal digits.
unfoldable pub is_unreserved : ℕ → Bool
is_unreserved c =
    leb b'A' c && leb c b'Z'
    || leb b'a' c && leb c b'z'
    || leb b'0' c && leb c b'9'
    || c == b'-'
    || c == b'.'
    || c == b'_'
    || c == b'~'

unfoldable pub upper_hex : ℕ → ℕ
upper_hex d = if ltb d 10 then b'0' + d else b'A' + (d - 10)

unfoldable pub percent_encode : Bytes → Bytes
unfolding is_unreserved upper_hex
percent_encode [] = []
percent_encode (c ∷ s) =
    if is_unreserved c
    then c ∷ percent_encode s
    else b'%' ∷ upper_hex (c / 16) ∷ upper_hex (c % 16) ∷ percent_encode s

hex_table : passes_on (λ c. strtol_char (upper_hex (c / 16)) (upper_hex (c % 16)) == c) 256 ≡ true
unfolding passes_on strtol_char upper_hex
hex_table = refl

pub strtol-upper_hex : (c : ℕ) → c < 256 → strtol_char (upper_hex (c / 16)) (upper_hex (c % 16)) ≡ c
strtol-upper_hex c h = (==_iff _ c).0 (
    passes_on_lookup (λ c. strtol_char (upper_hex (c / 16)) (upper_hex (c % 16)) == c) 256 c h
      hex_table)

-- A byte other than '%' is read alone, whatever follows it.
pub url_decode-cons :
    (c : ℕ) (s : Bytes) → c ≢ b'%' → url_decode (c ∷ s) ≡ plus_to_space c ∷ url_decode s
unfolding url_decode
url_decode-cons c [] h = refl
url_decode-cons c (x ∷ []) h = refl
url_decode-cons c (x ∷ y ∷ s) h = ground arith

pub url_decode_escape :
    (x y : ℕ) (s : Bytes) → url_decode (b'%' ∷ x ∷ y ∷ s) ≡ strtol_char x y ∷ url_decode s
unfolding url_decode
url_decode_escape x y s = refl

pub unreserved-plain : (c : ℕ) → is_unreserved c ≡ true → (c ≢ b'%') × (plus_to_space c ≡ c)
unfolding is_unreserved plus_to_space
unreserved-plain c h = ground arith

-- Decoding what was percent-encoded (RFC 3986) from a text of bytes below 256 gives the text back.
pub url_decode-percent_encode :
    (s : Bytes) → All (λ c. c < 256) s → url_decode (percent_encode s) ≡ s
unfolding percent_encode
url_decode-percent_encode [] h = unfold url_decode in refl
url_decode-percent_encode (c ∷ s) (hc, h) = elim (Bool-cases (is_unreserved c)) [
  | inl e ↦
      let (ne, plain) = unreserved-plain c e in
      rw (e, url_decode-cons c (percent_encode s) ne, plain)
        (ap (◌∷◌ c) (url_decode-percent_encode s h))
  | inr e ↦
      rw (e, url_decode_escape, strtol-upper_hex c hc) (ap (◌∷◌ c) (url_decode-percent_encode s h))
]

-- Decoding never makes a text longer.
pub length-url_decode : (s : Bytes) → length (url_decode s) ≤ length s
unfolding url_decode
length-url_decode [] = omega arith
length-url_decode (c ∷ []) = omega arith
length-url_decode (c ∷ x ∷ []) = omega arith
length-url_decode (c ∷ x ∷ y ∷ s) =
    ground (arith, length-url_decode s, length-url_decode (x ∷ y ∷ s))
