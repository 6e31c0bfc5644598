-- ===== src/Text/Number/RoundTrip.antt =====
-- Reading back what was printed.
use frag.Prelude.{
  ℕ, zero, suc, ◌+◌, ◌-◌, ◌*◌, ◌/◌, ◌%◌, ◌^◌, ◌<◌, ◌≤◌, ◌≡◌, refl, ap, ◌∙◌, true, false, inl, inr,
  ◌⊎◌, [], ◌∷◌, ◌++◌, some, arith, ltb, Bool-cases,
}
use frag.Prelude.Int.{ℤ, pos, negsuc, pos_part, neg_part}
use frag.Text.{Bytes}
use frag.Text.Number.{
  is_digit, digits_from, read_number, stoull, stoll, stoi, print_from, print_nat, print_int,
}

-- What ends the digits of a number: the end of the text, or another byte.
abbrev pub NoDigit : Bytes → Type 0
NoDigit [] = Unit
NoDigit (c ∷ s) = is_digit c ≡ false

digits_from_end : (acc : ℕ) (rest : Bytes) → NoDigit rest → digits_from acc rest ≡ acc
unfolding digits_from
digits_from_end acc [] h = refl
digits_from_end acc (c ∷ s) h = rw h

digit_of : (d : ℕ) → d < 10 → is_digit (b'0' + d) ≡ true
unfolding is_digit
digit_of d h = ground arith

-- Reading goes over the printed digits to the number, and on to what stood behind them.
digits_from-print_from :
    (rounds n : ℕ) (out : Bytes)
    → n < rounds
    → digits_from 0 (print_from rounds n out) ≡ digits_from n out
unfolding print_from digits_from
digits_from-print_from zero n out h = elim h [ ]
digits_from-print_from (suc rounds) n out h = elim (Bool-cases (ltb n 10)) [
  | inl e ↦
      let same : 0 * 10 + (b'0' + n - b'0') ≡ n = omega arith in
      rw (e, digit_of n (ground arith), same)
  | inr e ↦
      let same : n / 10 * 10 + (b'0' + n % 10 - b'0') ≡ n = omega arith in
      let read : digits_from (n / 10) ((b'0' + n % 10) ∷ out) ≡ digits_from n out =
        rw (digit_of (n % 10) (omega arith), same) in
      rw e (digits_from-print_from rounds (n / 10) ((b'0' + n % 10) ∷ out) (ground arith) ∙ read)
]

-- A printed number begins with a digit.
record BeginsWithDigit (s : Bytes) : Type 0 where
  first : ℕ
  rest : Bytes
  is : s ≡ first ∷ rest
  digit : is_digit first ≡ true

print_from-BeginsWithDigit :
    (rounds n : ℕ) (out : Bytes) → n < rounds → BeginsWithDigit (print_from rounds n out)
unfolding print_from
print_from-BeginsWithDigit zero n out h = elim h [ ]
print_from-BeginsWithDigit (suc rounds) n out h = elim (Bool-cases (ltb n 10)) [
  | inl e ↦
      rw e (record { first = b'0' + n; rest = out; is = refl; digit = digit_of n (ground arith) })
  | inr e ↦ rw e (print_from-BeginsWithDigit rounds (n / 10) ((b'0' + n % 10) ∷ out) (ground arith))
]

pub print_from-append :
    (rounds n : ℕ) (out rest : Bytes)
    → print_from rounds n out ++ rest ≡ print_from rounds n (out ++ rest)
unfolding print_from
print_from-append zero n out rest = refl
print_from-append (suc rounds) n out rest = elim (Bool-cases (ltb n 10)) [
  | inl e ↦ rw e
  | inr e ↦ rw e (print_from-append rounds (n / 10) ((b'0' + n % 10) ∷ out) rest)
]

read_number_digit :
    (c : ℕ) (rest : Bytes)
    → is_digit c ≡ true
    → read_number (c ∷ rest) ≡ (false, some (digits_from 0 (c ∷ rest)))
unfolding read_number
read_number_digit c rest h = ground arith

read_number_digits :
    (s : Bytes) → BeginsWithDigit s → read_number s ≡ (false, some (digits_from 0 s))
read_number_digits s b = rw b.is (read_number_digit b.first b.rest b.digit)

read_number_minus :
    (s : Bytes) → BeginsWithDigit s → read_number (b'-' ∷ s) ≡ (true, some (digits_from 0 s))
unfolding read_number
read_number_minus s b = rw (b.is, b.digit)

read_number-print_nat :
    (n : ℕ) (rest : Bytes) → NoDigit rest → read_number (print_nat n ++ rest) ≡ (false, some n)
unfolding print_nat
read_number-print_nat n rest h = rw (print_from-append (n + 1) n [] rest) (
    read_number_digits _ (print_from-BeginsWithDigit (n + 1) n rest (omega arith))
    ∙ ap (λ m. (false, some m))
        (digits_from-print_from (n + 1) n rest (omega arith) ∙ digits_from_end n rest h))

read_number-print_neg :
    (n : ℕ) (rest : Bytes)
    → NoDigit rest
    → read_number (b'-' ∷ (print_nat n ++ rest)) ≡ (true, some n)
unfolding print_nat
read_number-print_neg n rest h = rw (print_from-append (n + 1) n [] rest) (
    read_number_minus _ (print_from-BeginsWithDigit (n + 1) n rest (omega arith))
    ∙ ap (λ m. (true, some m))
        (digits_from-print_from (n + 1) n rest (omega arith) ∙ digits_from_end n rest h))

-- Every 64-bit unsigned number is read back from its print, whatever follows the digits.
pub stoull-print_nat :
    (n : ℕ) (rest : Bytes) → n < 2 ^ 64 → NoDigit rest → stoull (print_nat n ++ rest) ≡ some n
unfolding stoull
stoull-print_nat n rest bound h = rw (read_number-print_nat n rest h) (ground arith)

-- An int64_t.
abbrev pub IsInt64 : ℤ → Type 0
IsInt64 x = (pos_part x < 2 ^ 63) × (neg_part x ≤ 2 ^ 63)

-- Every int64_t is read back from its print, whatever follows the digits.
pub stoll-print_int :
    (x : ℤ) (rest : Bytes) → IsInt64 x → NoDigit rest → stoll (print_int x ++ rest) ≡ some x
unfolding stoll print_int
stoll-print_int (pos n) rest bound h = rw (read_number-print_nat n rest h) (ground arith)
stoll-print_int (negsuc n) rest bound h =
    let same : n + 1 - 1 ≡ n = omega arith in
    rw (read_number-print_neg (n + 1) rest h) (ground arith)

-- A printed integer begins with a sign or a digit.
pub print_int_first :
    (x : ℤ) (rest : Bytes)
    → (c : ℕ) × ((s : Bytes) × (print_int x ++ rest ≡ c ∷ s) × ((c ≡ b'-') ⊎ (is_digit c ≡ true)))
unfolding print_int
print_int_first (pos n) rest =
    let begins = print_from-BeginsWithDigit (n + 1) n [] (omega arith) in
    (begins.first, (begins.rest ++ rest, rw begins.is refl, inr begins.digit))
print_int_first (negsuc n) rest = (b'-', (print_nat (n + 1) ++ rest, refl, inl refl))

-- An int.
abbrev pub IsInt32 : ℤ → Type 0
IsInt32 x = (pos_part x < 2 ^ 31) × (neg_part x ≤ 2 ^ 31)

-- Every int is read back from its print, whatever follows the digits.
pub stoi-print_int :
    (x : ℤ) (rest : Bytes) → IsInt32 x → NoDigit rest → stoi (print_int x ++ rest) ≡ some x
unfolding stoi print_int
stoi-print_int (pos n) rest bound h = rw (read_number-print_nat n rest h) (ground arith)
stoi-print_int (negsuc n) rest bound h =
    let same : n + 1 - 1 ≡ n = omega arith in
    rw (read_number-print_neg (n + 1) rest h) (ground arith)
