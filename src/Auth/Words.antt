-- ===== src/Auth/Words.antt =====
-- Words in any case and texts without white space at their ends, in terms that do not use the
-- program's own functions on texts, for `verify` of backend/src/auth.hpp.
use frag.Prelude.{
  ℕ, suc, ◌+◌, ◌≤◌, ◌<◌, ◌≡◌, ◌↔◌, refl, sym, ap, ◌∙◌, ◌⊎◌, inl, inr, true, false, [], ◌∷◌, ◌++◌,
  arith, All, length, length-append, drop, Bool-cases,
}
use mathlib.Core.Path.{ap₂}
use frag.Text.{Bytes}
use frag.Utils.Case.{lower_char, to_lower}
use frag.Utils.Trim.{is_blank, trim}
use frag.Utils.Trim.Laws.{Blank, HasSolidEnds, IsTrimmed}
use frag.Utils.Trim.Unique.{trim_unique}

-- The letters of a word, each as it is or as a capital.
abbrev pub InAnyCase : Bytes → Bytes → Type 0
InAnyCase [] [] = Unit
InAnyCase [] (l ∷ word) = ⊥
InAnyCase (c ∷ s) [] = ⊥
InAnyCase (c ∷ s) (l ∷ word) =
    ((c ≡ l) ⊎ ((b'A' ≤ c) × (c ≤ b'Z') × (c + 32 ≡ l))) × InAnyCase s word

abbrev pub IsWhite : ℕ → Type 0
IsWhite c = (c ≡ b' ') ⊎ ((c ≡ b'\t') ⊎ ((c ≡ b'\r') ⊎ (c ≡ b'\n')))

-- `t` is `s` without the white space at its ends.
pub record IsStripped (s t : Bytes) : Type 0 where
  pub before : Bytes
  pub after : Bytes
  pub splits : s ≡ before ++ (t ++ after)
  pub before_white : All IsWhite before
  pub after_white : All IsWhite after
  pub first_solid : (c : ℕ) (rest : Bytes) → t ≡ c ∷ rest → IsWhite c → ⊥
  pub last_solid : (front : Bytes) (c : ℕ) → t ≡ front ++ (c ∷ []) → IsWhite c → ⊥

is_blank_iff : (c : ℕ) → (is_blank c ≡ true) ↔ IsWhite c
unfolding is_blank
is_blank_iff c = ground arith

Blank-IsWhite : (s : Bytes) → Blank s → All IsWhite s
Blank-IsWhite [] h = tt
Blank-IsWhite (c ∷ s) (e, h) = ((is_blank_iff c).0 e, Blank-IsWhite s h)

IsWhite-Blank : (s : Bytes) → All IsWhite s → Blank s
IsWhite-Blank [] h = tt
IsWhite-Blank (c ∷ s) (e, h) = ((is_blank_iff c).1 e, IsWhite-Blank s h)

abbrev head_or : ℕ → Bytes → ℕ
head_or d [] = d
head_or d (c ∷ s) = c

abbrev last_or : ℕ → Bytes → ℕ
last_or d [] = d
last_or d (c ∷ s) = last_or c s

last_or-append : (d : ℕ) (front : Bytes) (c : ℕ) → last_or d (front ++ (c ∷ [])) ≡ c
last_or-append d [] c = refl
last_or-append d (x ∷ front) c = last_or-append x front c

-- A text that is not empty ends in a byte.
splits_last : (c : ℕ) (s : Bytes) → (front : Bytes) × (last : ℕ) × (c ∷ s ≡ front ++ (last ∷ []))
splits_last c [] = ([], c, refl)
splits_last c (d ∷ s) = let (front, last, e) = splits_last d s in (c ∷ front, last, ap (◌∷◌ c) e)

no_white : (c : ℕ) → is_blank c ≡ false → IsWhite c → ⊥
no_white c e h = cc (e, (is_blank_iff c).1 h)

pub IsTrimmed-IsStripped : (s t : Bytes) → IsTrimmed s t → IsStripped s t
IsTrimmed-IsStripped s t h = record {
  before = h.before;
  after = h.after;
  splits = h.splits;
  before_white = Blank-IsWhite h.before h.before_blank;
  after_white = Blank-IsWhite h.after h.after_blank;
  first_solid = λ c rest e white. elim h.ends [
    | inl none ↦ cc (e, none)
    | inr ends ↦
        let equal : ends.first ≡ c = ap (head_or 0) (sym ends.from_first ∙ e) in
        no_white ends.first ends.first_solid (rw equal white)
  ];
  last_solid = λ front c e white. elim h.ends [
    | inl none ↦
        let none_left : length (front ++ (c ∷ [])) ≡ 0 = ap length (sym e ∙ none) in
        absurd (omega (arith, none_left, length-append front (c ∷ [])))
    | inr ends ↦
        let equal : ends.last ≡ c =
          sym (last_or-append 0 ends.front ends.last)
          ∙ ap (last_or 0) (sym ends.to_last ∙ e)
          ∙ last_or-append 0 front c in
        no_white ends.last ends.last_solid (rw equal white)
  ];
}

IsStripped-ends : (s t : Bytes) → IsStripped s t → (t ≡ []) ⊎ HasSolidEnds t
IsStripped-ends s [] h = inl refl
IsStripped-ends s (c ∷ t) h =
    let (front, last, e) = splits_last c t in
    inr (record {
      first = c;
      rest = t;
      front = front;
      last = last;
      from_first = refl;
      to_last = e;
      first_solid = elim (Bool-cases (is_blank c)) [
        | inl blank ↦ absurd (h.first_solid c t refl ((is_blank_iff c).0 blank))
        | inr solid ↦ solid
      ];
      last_solid = elim (Bool-cases (is_blank last)) [
        | inl blank ↦ absurd (h.last_solid front last e ((is_blank_iff last).0 blank))
        | inr solid ↦ solid
      ];
    })

pub IsStripped-trim : (s t : Bytes) → IsStripped s t → trim s ≡ t
IsStripped-trim s t h = trim_unique s t (record {
  before = h.before;
  after = h.after;
  splits = h.splits;
  before_blank = IsWhite-Blank h.before h.before_white;
  after_blank = IsWhite-Blank h.after h.after_white;
  ends = IsStripped-ends s t h;
})

lower_char_iff :
    (c l : ℕ)
    → (l < b'A') ⊎ (b'Z' < l)
    → (lower_char c ≡ l) ↔ ((c ≡ l) ⊎ ((b'A' ≤ c) × (c ≤ b'Z') × (c + 32 ≡ l)))
unfolding lower_char
lower_char_iff c l small = ground arith

-- A word without capitals.
abbrev pub IsLower : Bytes → Type 0
IsLower = All (λ l. (l < b'A') ⊎ (b'Z' < l))

pub to_lower-InAnyCase : (s word : Bytes) → IsLower word → to_lower s ≡ word → InAnyCase s word
unfolding to_lower
to_lower-InAnyCase [] [] small e = tt
to_lower-InAnyCase [] (l ∷ word) small e = cc e
to_lower-InAnyCase (c ∷ s) [] small e = cc e
to_lower-InAnyCase (c ∷ s) (l ∷ word) (small, smalls) e = (
  (lower_char_iff c l small).0 (ap (head_or 0) e),
  to_lower-InAnyCase s word smalls (ap (drop 1) e),
)

pub InAnyCase-to_lower : (s word : Bytes) → IsLower word → InAnyCase s word → to_lower s ≡ word
unfolding to_lower
InAnyCase-to_lower [] [] small h = refl
InAnyCase-to_lower [] (l ∷ word) small h = absurd h
InAnyCase-to_lower (c ∷ s) [] small h = absurd h
InAnyCase-to_lower (c ∷ s) (l ∷ word) (small, smalls) (here, h) =
    ap₂ ◌∷◌ ((lower_char_iff c l small).1 here) (InAnyCase-to_lower s word smalls h)

pub length-InAnyCase : (s word : Bytes) → InAnyCase s word → length s ≡ length word
length-InAnyCase [] [] h = refl
length-InAnyCase [] (l ∷ word) h = absurd h
length-InAnyCase (c ∷ s) [] h = absurd h
length-InAnyCase (c ∷ s) (l ∷ word) (_, h) = ap suc (length-InAnyCase s word h)
