-- ===== src/Text/Number/Numeral.antt =====
-- Decimal numerals without leading zeros, and that printing a number gives one.
use frag.Prelude.{
  ℕ, zero, suc, ◌+◌, ◌*◌, ◌/◌, ◌%◌, ◌≤◌, ◌<◌, ◌≡◌, sym, inl, inr, [], ◌∷◌, ◌++◌, arith, ltb,
  Bool-cases,
}
use frag.Text.{Bytes}
use frag.Text.Number.{print_from, print_nat}
use frag.Text.Number.RoundTrip.{print_from-append}

-- Decimal digits of which the first is not 0, and their number.
pub data Numeral : Bytes → ℕ → Type 0 where
  first : {d : ℕ} → 1 ≤ d → d < 10 → Numeral ((b'0' + d) ∷ []) d
  next :
      {d n k : ℕ} {front text : Bytes}
      → Numeral front n
      → d < 10
      → text ≡ front ++ ((b'0' + d) ∷ [])
      → k ≡ n * 10 + d
      → Numeral text k

print_from-Numeral : (rounds n : ℕ) → 1 ≤ n → n < rounds → Numeral (print_from rounds n []) n
unfolding print_from
print_from-Numeral zero n some_digit h = elim h [ ]
print_from-Numeral (suc rounds) n some_digit h = elim (Bool-cases (ltb n 10)) [
  | inl e ↦ rw e (first some_digit (ground arith))
  | inr e ↦ rw e (
      next (print_from-Numeral rounds (n / 10) (ground arith) (ground arith)) (omega arith)
        (sym (print_from-append rounds (n / 10) [] ((b'0' + n % 10) ∷ []))) (omega arith))
]

pub print_nat-Numeral : (n : ℕ) → 1 ≤ n → Numeral (print_nat n) n
unfolding print_nat
print_nat-Numeral n h = print_from-Numeral (n + 1) n h (omega arith)
