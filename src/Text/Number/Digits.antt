-- ===== src/Text/Number/Digits.antt =====
-- A printed number consists of digits.
use frag.Prelude.{
  ℕ, zero, suc, ◌+◌, ◌/◌, ◌%◌, ◌<◌, ◌≡◌, true, inl, inr, [], ◌∷◌, arith, ltb, All, Bool-cases,
}
use frag.Text.{Bytes}
use frag.Text.Number.{is_digit, print_from, print_nat}

print_from-digits :
    (rounds n : ℕ) (out : Bytes)
    → n < rounds
    → All (λ c. is_digit c ≡ true) out
    → All (λ c. is_digit c ≡ true) (print_from rounds n out)
unfolding print_from
print_from-digits zero n out enough h = h
print_from-digits (suc rounds) n out enough h = elim (Bool-cases (ltb n 10)) [
  | inl e ↦ rw e (unfold is_digit in ground arith, h)
  | inr e ↦
      let last : is_digit (b'0' + n % 10) ≡ true = unfold is_digit in ground arith in
      rw e (print_from-digits rounds (n / 10) ((b'0' + n % 10) ∷ out) (ground arith) (last, h))
]

pub print_nat-digits : (n : ℕ) → All (λ c. is_digit c ≡ true) (print_nat n)
unfolding print_nat
print_nat-digits n = print_from-digits (n + 1) n [] (omega arith) tt
