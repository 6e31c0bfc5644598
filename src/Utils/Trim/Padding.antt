-- ===== src/Utils/Trim/Padding.antt =====
-- `trim` of backend/src/utils.hpp passes over a blank in front.
use frag.Prelude.{
  All, false, ap, ◌++◌, append-nil, ℕ, suc, ◌+◌, ◌-◌, ◌≡◌, refl, sym, ◌∙◌, true, inl, inr, [], ◌∷◌,
  Option, none, some, arith, Bool-cases, take, drop,
}
use mathlib.Core.Path.{ap₂}
use frag.Text.{Bytes}
use frag.Utils.Trim.Laws.{trim-IsTrimmed}
use frag.Utils.Trim.{is_blank, first_not_blank, last_not_blank, trim}

-- A position one further to the right.
abbrev later : Option ℕ → Option ℕ
later none = none
later (some i) = some (i + 1)

first_later : (i : ℕ) (s : Bytes) → first_not_blank (i + 1) s ≡ later (first_not_blank i s)
unfolding first_not_blank
first_later i [] = refl
first_later i (c ∷ s) = elim (Bool-cases (is_blank c)) [
  | inl e ↦ rw e (first_later (i + 1) s)
  | inr e ↦ rw e refl
]

last_later :
    (i : ℕ) (found : Option ℕ) (s : Bytes)
    → last_not_blank (i + 1) (later found) s ≡ later (last_not_blank i found s)
unfolding last_not_blank
last_later i found [] = refl
last_later i found (c ∷ s) = elim (Bool-cases (is_blank c)) [
  | inl e ↦ rw e (last_later (i + 1) found s)
  | inr e ↦ rw e (last_later (i + 1) (some i) s)
]

-- What lies between two positions, if there are any.
abbrev between : Option ℕ → Option ℕ → Bytes → Bytes
between none found s = []
between (some start) none s = []
between (some start) (some end) s = take (end - start + 1) (drop start s)

trim-between : (s : Bytes) → trim s ≡ between (first_not_blank 0 s) (last_not_blank 0 none s) s
unfolding trim
trim-between s = by_cases (first_not_blank 0 s) (last_not_blank 0 none s)
  where
    by_cases :
        (first last : Option ℕ)
        → (elim first [
          | none ↦ []
          | some start ↦ elim last [ none ↦ [] | some end ↦ take (end - start + 1) (drop start s) ]
        ])
          ≡ between first last s
    by_cases none last = refl
    by_cases (some start) none = refl
    by_cases (some start) (some end) = refl

between-later :
    (first last : Option ℕ) (c : ℕ) (s : Bytes)
    → between (later first) (later last) (c ∷ s) ≡ between first last s
between-later none last c s = refl
between-later (some start) none c s = refl
between-later (some start) (some end) c s =
    let same : end + 1 - (start + 1) ≡ end - start = omega arith in
    let next : start + 1 ≡ suc start = omega arith in rw (same, next) refl

-- A blank in front does not matter.
pub trim-cons : (c : ℕ) (s : Bytes) → is_blank c ≡ true → trim (c ∷ s) ≡ trim s
unfolding first_not_blank last_not_blank
trim-cons c s blank =
    let first : first_not_blank 0 (c ∷ s) ≡ later (first_not_blank 0 s) =
      rw blank (first_later 0 s) in
    let last : last_not_blank 0 none (c ∷ s) ≡ later (last_not_blank 0 none s) =
      rw blank (last_later 0 none s) in
    trim-between (c ∷ s)
    ∙ ap₂ (λ a b. between a b (c ∷ s)) first last
    ∙ between-later (first_not_blank 0 s) (last_not_blank 0 none s) c s
    ∙ sym (trim-between s)

no_blanks :
    (front rest : Bytes)
    → All (λ c. is_blank c ≡ true) front
    → All (λ c. is_blank c ≡ false) (front ++ rest)
    → front ≡ []
no_blanks [] rest blank solid = refl
no_blanks (c ∷ front) rest (blank, _) (solid, _) = cc (blank, solid)

All-behind :
    (front rest : Bytes)
    → All (λ c. is_blank c ≡ false) (front ++ rest)
    → All (λ c. is_blank c ≡ false) rest
All-behind [] rest h = h
All-behind (c ∷ front) rest (_, h) = All-behind front rest h

-- A text without blanks stays as it is.
pub trim-solid : (s : Bytes) → All (λ c. is_blank c ≡ false) s → trim s ≡ s
trim-solid s solid =
    let t = trim-IsTrimmed s in
    let pieces = rw t.splits at solid in
    let nothing_before = no_blanks t.before (trim s ++ t.after) t.before_blank pieces in
    let behind = All-behind (trim s) t.after (All-behind t.before (trim s ++ t.after) pieces) in
    let nothing_after = no_blanks t.after [] t.after_blank (rw (append-nil t.after) behind) in
    sym (
      t.splits
      ∙ ap (λ b. b ++ (trim s ++ t.after)) nothing_before
      ∙ ap (λ a. trim s ++ a) nothing_after
      ∙ append-nil (trim s))
