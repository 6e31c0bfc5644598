-- ===== src/Utils/Base64/RoundTrip.antt =====
-- Decoding what was encoded.
use frag.Prelude.{
  ℕ, ◌+◌, ◌*◌, ◌/◌, ◌%◌, ◌^◌, ◌<◌, ◌≡◌, refl, ap, true, [], ◌∷◌, some, arith, All, length,
  passes_on, passes_on_lookup, found_is, found_is_iff,
}
use mathlib.Core.Path.{ap₂}
use frag.Text.{Bytes}
use frag.Utils.Base64.{b64_char, b64_lookup, base64_encode, decode_from, base64_decode}

-- The six bits that a character stands for.
lookup_table : passes_on (λ x. found_is (b64_lookup (b64_char x)) x) 64 ≡ true
unfolding passes_on b64_lookup b64_char
lookup_table = refl

char_mod : (x : ℕ) → b64_char x ≡ b64_char (x % 64)
unfolding b64_char
char_mod x = let e : x % 64 % 64 ≡ x % 64 = omega arith in rw e

lookup-char : (x : ℕ) → b64_lookup (b64_char x) ≡ some (x % 64)
lookup-char x = rw (char_mod x) (
    (found_is_iff _ _).0 (
      passes_on_lookup (λ y. found_is (b64_lookup (b64_char y)) y) 64 (x % 64) (omega arith)
        lookup_table))

-- The pattern of the int after one more character.
abbrev shifted : ℕ → ℕ → ℕ
shifted v x = (v * 2 ^ 6 + x % 64) % 2 ^ 32

module _ (v x : ℕ) (rest : Bytes) where
  decode_first : decode_from v 0 (b64_char x ∷ rest) ≡ decode_from (shifted v x) 6 rest
  unfolding decode_from
  decode_first = rw (lookup-char x, decode_from)

  decode_second :
      decode_from v 6 (b64_char x ∷ rest)
      ≡ (shifted v x / 2 ^ 4) % 256 ∷ decode_from (shifted v x) 4 rest
  unfolding decode_from
  decode_second = rw (lookup-char x, decode_from)

  decode_third :
      decode_from v 4 (b64_char x ∷ rest)
      ≡ (shifted v x / 2 ^ 2) % 256 ∷ decode_from (shifted v x) 2 rest
  unfolding decode_from
  decode_third = rw (lookup-char x, decode_from)

  decode_fourth :
      decode_from v 2 (b64_char x ∷ rest)
      ≡ (shifted v x / 2 ^ 0) % 256 ∷ decode_from (shifted v x) 0 rest
  unfolding decode_from
  decode_fourth = rw (lookup-char x, decode_from)

decode_pad : (v pending : ℕ) (rest : Bytes) → decode_from v pending (b'=' ∷ rest) ≡ []
unfolding decode_from b64_lookup
decode_pad v pending rest = refl

abbrev first_byte : ℕ → ℕ → ℕ
first_byte v b = (shifted (shifted v (b / 2 ^ 18)) (b / 2 ^ 12) / 2 ^ 4) % 256

abbrev second_byte : ℕ → ℕ → ℕ
second_byte v b =
    (shifted (shifted (shifted v (b / 2 ^ 18)) (b / 2 ^ 12)) (b / 2 ^ 6) / 2 ^ 2) % 256

abbrev after_group : ℕ → ℕ → ℕ
after_group v b = shifted (shifted (shifted (shifted v (b / 2 ^ 18)) (b / 2 ^ 12)) (b / 2 ^ 6)) b

first_byte_lem : (v b : ℕ) → first_byte v b ≡ (b / 2 ^ 16) % 256
first_byte_lem v b = omega arith

second_byte_lem : (v b : ℕ) → second_byte v b ≡ (b / 2 ^ 8) % 256
second_byte_lem v b = omega arith

third_byte_lem : (v b : ℕ) → (after_group v b / 2 ^ 0) % 256 ≡ b % 256
third_byte_lem v b = omega arith

decode-encode : (v : ℕ) (s : Bytes) → All (λ c. c < 256) s → decode_from v 0 (base64_encode s) ≡ s
unfolding base64_encode
decode-encode v [] h = unfold decode_from in refl
decode-encode v (x ∷ []) (hx, _) =
    let b = x * 2 ^ 16 in
    let e : first_byte v b ≡ x = omega (arith, first_byte_lem v b) in
    rw (decode_first, decode_second, decode_pad) (ap (λ t. t ∷ []) e)
decode-encode v (x ∷ y ∷ []) (hx, (hy, _)) =
    let b = x * 2 ^ 16 + y * 2 ^ 8 in
    let e : first_byte v b ≡ x = omega (arith, first_byte_lem v b) in
    let e' : second_byte v b ≡ y = omega (arith, second_byte_lem v b) in
    rw (decode_first, decode_second, decode_third, decode_pad) (ap₂ (λ t u. t ∷ u ∷ []) e e')
decode-encode v (x ∷ y ∷ z ∷ rest) (hx, (hy, (hz, h))) =
    let b = x * 2 ^ 16 + y * 2 ^ 8 + z in
    let e : first_byte v b ≡ x = omega (arith, first_byte_lem v b) in
    let e' : second_byte v b ≡ y = omega (arith, second_byte_lem v b) in
    let e'' : (after_group v b / 2 ^ 0) % 256 ≡ z = omega (arith, third_byte_lem v b) in
    rw (decode_first, decode_second, decode_third, decode_fourth)
      (ap₂ (λ t u. t ∷ u) e
        (ap₂ (λ t u. t ∷ u) e' (ap₂ (λ t u. t ∷ u) e'' (decode-encode (after_group v b) rest h))))

-- Decoding what was encoded from a text of bytes below 256 gives the text back.
pub base64_decode-encode : (s : Bytes) → All (λ c. c < 256) s → base64_decode (base64_encode s) ≡ s
unfolding base64_decode
base64_decode-encode s h = decode-encode 0 s h

-- The encoding of any text has four characters for every three bytes, the last group filled up.
pub length-base64_encode : (s : Bytes) → length (base64_encode s) ≡ (length s + 2) / 3 * 4
unfolding base64_encode
length-base64_encode [] = refl
length-base64_encode (x ∷ []) = refl
length-base64_encode (x ∷ y ∷ []) = refl
length-base64_encode (x ∷ y ∷ z ∷ rest) = omega (arith, length-base64_encode rest)
