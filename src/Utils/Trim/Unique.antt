-- ===== src/Utils/Trim/Unique.antt =====
-- White space at the ends of a text, for `trim` of backend/src/utils.hpp.
use frag.Prelude.{
  ℕ, ◌+◌, ◌-◌, ◌≡◌, inl, inr, refl, ap, ◌∙◌, false, [], ◌∷◌, ◌++◌, some, none, Option, arith,
  length, length-append, take-append, append_assoc, if◌then◌else◌,
}
use frag.Text.{Bytes}
use frag.Utils.Trim.{is_blank, first_not_blank, last_not_blank, trim}
use frag.Utils.Trim.Laws.{Blank, HasSolidEnds, IsTrimmed, trim_found}
use frag.Utils.Trim.Padding.{trim-cons}

trim-append : (before s : Bytes) → Blank before → trim (before ++ s) ≡ trim s
trim-append [] s h = refl
trim-append (c ∷ before) s (e, h) = trim-cons c (before ++ s) e ∙ trim-append before s h

trim-Blank : (s : Bytes) → Blank s → trim s ≡ []
unfolding trim
trim-Blank [] h = refl
trim-Blank (c ∷ s) (e, h) = trim-cons c s e ∙ trim-Blank s h

last_kept : (i k : ℕ) (s : Bytes) → Blank s → last_not_blank i (some k) s ≡ some k
unfolding last_not_blank
last_kept i k [] h = refl
last_kept i k (c ∷ s) (e, h) = rw e (last_kept (i + 1) k s h)

last_behind :
    (front after : Bytes) (last i : ℕ) (found : Option ℕ)
    → is_blank last ≡ false
    → Blank after
    → last_not_blank i found (front ++ (last ∷ after)) ≡ some (i + length front)
unfolding last_not_blank
last_behind [] after last i found solid h =
    let here : (if is_blank last then found else some i) ≡ some i = rw solid in
    ap (λ o. last_not_blank (i + 1) o after) here
    ∙ last_kept (i + 1) i after h
    ∙ ap some (omega arith)
last_behind (c ∷ front) after last i found solid h =
    last_behind front after last (i + 1) (if is_blank c then found else some i) solid h
    ∙ ap some (omega arith)

trim-solid_ends : (t after : Bytes) → HasSolidEnds t → Blank after → trim (t ++ after) ≡ t
unfolding first_not_blank
trim-solid_ends t after ends h =
    let first : first_not_blank 0 (t ++ after) ≡ some 0 =
      rw ends.from_first (rw ends.first_solid) in
    let last : last_not_blank 0 none (t ++ after) ≡ some (0 + length ends.front) =
      rw (ends.to_last, append_assoc ends.front (ends.last ∷ []) after)
        (last_behind ends.front after ends.last 0 none ends.last_solid h) in
    let all : 0 + length ends.front - 0 + 1 ≡ length t =
      rw ends.to_last (omega (arith, length-append ends.front (ends.last ∷ []))) in
    trim_found (t ++ after) 0 (0 + length ends.front) first last ∙ rw all (take-append t after)

-- Nothing else is a text without the blanks at its ends.
pub trim_unique : (s t : Bytes) → IsTrimmed s t → trim s ≡ t
trim_unique s t h = rw h.splits (
    trim-append h.before (t ++ h.after) h.before_blank ∙ elim h.ends [
      | inl e ↦ rw e (trim-Blank h.after h.after_blank)
      | inr ends ↦ trim-solid_ends t h.after ends h.after_blank
    ])
