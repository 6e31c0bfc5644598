-- ===== src/Utils/Split/Laws.antt =====
-- What the pieces of a split spell.
use frag.Prelude.{
  ℕ, List, [], ◌∷◌, ◌++◌, ◌≡◌, ◌≢◌, refl, ap, false, inl, inr, arith, ◌==◌, ==_refl, if◌then◌else◌,
  All, append_assoc, Bool-cases, is_empty,
}
use frag.Text.{Bytes}
use frag.Utils.Split.{split_from, split}

-- Every piece with a delimiter behind it.
abbrev pub terminated : ℕ → List Bytes → Bytes
terminated delim [] = []
terminated delim (piece ∷ pieces) = piece ++ (delim ∷ terminated delim pieces)

abbrev pub Lacks : ℕ → Bytes → Type 0
Lacks delim = All (λ c. c ≢ delim)

concat-not-empty : (s : Bytes) (c : ℕ) → is_empty (s ++ c ∷ []) ≡ false
concat-not-empty [] c = refl
concat-not-empty (x ∷ s) c = refl

module _ (delim : ℕ) where
  -- The text ends in `last`; a delimiter is missing there unless `last` is one.
  terminated-split_from :
      (s item : Bytes) (last : ℕ)
      → terminated delim (split_from delim item (s ++ last ∷ []))
        ≡ item ++ (s ++ (if last == delim then last ∷ [] else last ∷ delim ∷ []))
  unfolding split_from
  terminated-split_from [] item last = elim (Bool-cases (last == delim)) [
    | inl e ↦ let same : last ≡ delim = ground arith in rw (e, same)
    | inr e ↦ rw (e, concat-not-empty item last) (append_assoc item (last ∷ []) (delim ∷ []))
  ]
  terminated-split_from (c ∷ s) item last = elim (Bool-cases (c == delim)) [
    | inl e ↦ let same : c ≡ delim = ground arith in rw (e, terminated-split_from s [] last, same)
    | inr e ↦
        rw (e, terminated-split_from s (item ++ c ∷ []) last)
          (append_assoc item (c ∷ [])
            (s ++ (if last == delim then last ∷ [] else last ∷ delim ∷ [])))
  ]

  Lacks-concat : (s : Bytes) (c : ℕ) → Lacks delim s → c ≢ delim → Lacks delim (s ++ c ∷ [])
  Lacks-concat [] c h ne = (ne, tt)
  Lacks-concat (x ∷ s) c (hx, h) ne = (hx, Lacks-concat s c h ne)

  split_from-Lacks :
      (s item : Bytes) → Lacks delim item → All (Lacks delim) (split_from delim item s)
  unfolding split_from
  split_from-Lacks [] item h = elim (Bool-cases (is_empty item)) [
    | inl e ↦ rw e tt
    | inr e ↦ rw e (h, tt)
  ]
  split_from-Lacks (c ∷ s) item h = elim (Bool-cases (c == delim)) [
    | inl e ↦ rw e (h, split_from-Lacks s [] tt)
    | inr e ↦ rw e (split_from-Lacks s (item ++ c ∷ []) (Lacks-concat item c h (ground arith)))
  ]

  -- A delimiter at the very end opens no further piece.
  split_from_trailing :
      (s item : Bytes) (last : ℕ)
      → last ≢ delim
      → split_from delim item (s ++ last ∷ delim ∷ []) ≡ split_from delim item (s ++ last ∷ [])
  unfolding split_from
  split_from_trailing [] item last ne = elim (Bool-cases (last == delim)) [
    | inl e ↦ absurd (ne (ground arith))
    | inr e ↦ rw (e, ==_refl delim, concat-not-empty item last)
  ]
  split_from_trailing (c ∷ s) item last ne = elim (Bool-cases (c == delim)) [
    | inl e ↦ rw e (ap (◌∷◌ item) (split_from_trailing s [] last ne))
    | inr e ↦ rw e (split_from_trailing s (item ++ c ∷ []) last ne)
  ]

-- The pieces of a text that is not empty, each with the delimiter behind it, spell the text, with a
-- delimiter added if it does not end in one.
pub terminated-split :
    (s : Bytes) (last delim : ℕ)
    → terminated delim (split (s ++ last ∷ []) delim)
      ≡ s ++ (if last == delim then last ∷ [] else last ∷ delim ∷ [])
unfolding split
terminated-split s last delim = terminated-split_from delim s [] last

-- No piece of any text holds the delimiter.
pub split-Lacks : (s : Bytes) (delim : ℕ) → All (Lacks delim) (split s delim)
unfolding split
split-Lacks s delim = split_from-Lacks delim s [] tt

pub split_trailing :
    (s : Bytes) (last delim : ℕ)
    → last ≢ delim
    → split (s ++ last ∷ delim ∷ []) delim ≡ split (s ++ last ∷ []) delim
unfolding split
split_trailing s last delim ne = split_from_trailing delim s [] last ne
