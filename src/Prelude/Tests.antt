-- ===== src/Prelude/Tests.antt =====
-- Boolean tests on the native numbers, and the conditional.
use Prim.Native.Nat.{ℕ, zero, suc, ◌≤◌, ◌<◌, compare, Ordering}
use mathlib.Core.Path.{◌≡◌, refl}
use mathlib.Core.Logic.{◌↔◌, ◌⊎◌, inl, inr}
use mathlib.Core.Bool.{Bool, true, false}
use mathlib.Core.Option.{Option, none, some}
use native.Mathlib.Omega.{arith}

-- These compute to `compare`, which `ground` and `grind` read with no lemma listed.
abbrev pub ltb : ℕ → ℕ → Bool
ltb a b = elim (compare a b) [ Ordering.lt ↦ true | _ ↦ false ]

abbrev pub leb : ℕ → ℕ → Bool
leb a b = elim (compare a b) [ Ordering.gt ↦ false | _ ↦ true ]

infix 50 ◌==◌
abbrev pub ◌==◌ : ℕ → ℕ → Bool
a == b = elim (compare a b) [ Ordering.eq ↦ true | _ ↦ false ]

infix 1 if◌then◌else◌
abbrev pub if◌then◌else◌ {ℓ} : {A : Type ℓ} → Bool → A → A → A
if true then x else y = x
if false then x else y = y

-- `omega` reads a test through such lemmas.
pub ltb→lt : (a b : ℕ) → ltb a b ≡ true → a < b
ltb→lt a b h = ground arith

pub lt→ltb : (a b : ℕ) → a < b → ltb a b ≡ true
lt→ltb a b h = ground arith

pub leb→le : (a b : ℕ) → leb a b ≡ true → a ≤ b
leb→le a b h = ground arith

pub ==_iff : (a b : ℕ) → ((a == b) ≡ true) ↔ (a ≡ b)
==_iff a b = ground arith

pub ruleset tests = (arith, ltb→lt, lt→ltb, leb→le)

-- To split on a computed value and keep the equation.
pub Bool-cases : (b : Bool) → (b ≡ true) ⊎ (b ≡ false)
Bool-cases true = inl refl
Bool-cases false = inr refl

pub Option-cases {ℓ} : {A : Type ℓ} (o : Option A) → (o ≡ none) ⊎ ((a : A) × (o ≡ some a))
Option-cases none = inl refl
Option-cases (some a) = inr (a, refl)

-- A test that fails.
pub ==_refl : (a : ℕ) → (a == a) ≡ true
==_refl a = ground arith

-- Whether a test passes at the first values, so many of them, by evaluation.
unfoldable pub passes_on : (ℕ → Bool) → ℕ → Bool
passes_on test zero = true
passes_on test (suc last) = let rest = passes_on test last in if test last then rest else false

pub passes_on_lookup :
    (test : ℕ → Bool) (size x : ℕ) → x < size → passes_on test size ≡ true → test x ≡ true
unfolding passes_on
passes_on_lookup test zero x inside all = absurd (omega arith)
passes_on_lookup test (suc last) x inside all = ground (arith, passes_on_lookup test last x)

-- `o == some x`.
abbrev pub found_is : Option ℕ → ℕ → Bool
found_is none x = false
found_is (some y) x = y == x

pub found_is_iff : (o : Option ℕ) (x : ℕ) → (found_is o x ≡ true) ↔ (o ≡ some x)
found_is_iff none x = ground arith
found_is_iff (some y) x = ground arith
