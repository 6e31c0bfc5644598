-- ===== src/Utils/UrlDecode/Paths.antt =====
-- `url_decode` of backend/src/utils.hpp on a path whose segments are percent-encoded.
use frag.Prelude.{
  ℕ, ◌/◌, ◌%◌, ◌<◌, ◌≡◌, ◌≢◌, sym, ap, refl, Bool, true, false, ◌||◌, ◌==◌, inl, inr, [], ◌∷◌,
  arith, All, Bool-cases, if◌then◌else◌,
}
use frag.Text.{Bytes}
use frag.Utils.Split.Laws.{Lacks}
use frag.Utils.UrlDecode.{plus_to_space, url_decode}
use frag.Utils.UrlDecode.RoundTrip.{
  is_unreserved, upper_hex, url_decode-cons, url_decode_escape, strtol-upper_hex,
}

-- The bytes of a path (RFC 3986) that stand for themselves here.
unfoldable is_path_char : ℕ → Bool
unfolding is_unreserved
is_path_char c = c == b'/' || is_unreserved c

unfoldable pub encode_path : Bytes → Bytes
unfolding is_path_char upper_hex
encode_path [] = []
encode_path (c ∷ s) =
    if is_path_char c
    then c ∷ encode_path s
    else b'%' ∷ upper_hex (c / 16) ∷ upper_hex (c % 16) ∷ encode_path s

path_char-plain : (c : ℕ) → is_path_char c ≡ true → (c ≢ b'%') × (plus_to_space c ≡ c)
unfolding is_path_char plus_to_space
path_char-plain c h = ground arith

pub url_decode-encode_path : (s : Bytes) → All (λ c. c < 256) s → url_decode (encode_path s) ≡ s
unfolding encode_path
url_decode-encode_path [] h = unfold url_decode in refl
url_decode-encode_path (c ∷ s) (hc, h) = elim (Bool-cases (is_path_char c)) [
  | inl e ↦
      let (ne, plain) = path_char-plain c e in
      rw (e, url_decode-cons c (encode_path s) ne, plain) (ap (◌∷◌ c) (url_decode-encode_path s h))
  | inr e ↦
      rw (e, url_decode_escape, strtol-upper_hex c hc) (ap (◌∷◌ c) (url_decode-encode_path s h))
]

-- The bytes that an encoded path does not hold.
pub IsSpecial : ℕ → Type 0
IsSpecial d = (is_path_char d ≡ false) × (d ≢ b'%')

upper_hex-path_char : (n : ℕ) → n < 16 → is_path_char (upper_hex n) ≡ true
unfolding is_path_char upper_hex
upper_hex-path_char n h = ground arith

pub encode_path-Lacks :
    (d : ℕ) (s : Bytes) → IsSpecial d → All (λ c. c < 256) s → Lacks d (encode_path s)
unfolding encode_path IsSpecial
encode_path-Lacks d [] special h = tt
encode_path-Lacks d (c ∷ s) special (hc, h) = elim (Bool-cases (is_path_char c)) [
  | inl e ↦ rw e ((λ same. cc (same, e, special.0)), encode_path-Lacks d s special h)
  | inr e ↦
      let high = upper_hex-path_char (c / 16) (omega (arith, hc)) in
      let low = upper_hex-path_char (c % 16) (omega arith) in
      rw e (
        (λ same. special.1 (sym same)),
        (
          (λ same. cc (same, high, special.0)),
          ((λ same. cc (same, low, special.0)), encode_path-Lacks d s special h),
        ),
      )
]

pub specials : IsSpecial b' ' × IsSpecial b'?' × IsSpecial b'\r'
unfolding is_path_char IsSpecial
specials = ((refl, ground arith), (refl, ground arith), (refl, ground arith))
