-- ===== src/Database/Behaviour/Memory/Sort.antt =====
-- Fragments sorted by their timestamps.
use mathlib.Core.List.{Perm}
use mathlib.Core.List.Perm
use frag.Prelude.{inl, inr, List, [], ◌∷◌, arith, if◌then◌else◌, All, Bool-cases}
use frag.Prelude.Int.{◌≤ℤ◌, leb_ℤ}
use frag.Fragment.{Fragment}
use frag.Database.Table.{IsSorted}

insert_sorted : Fragment → List Fragment → List Fragment
insert_sorted f [] = f ∷ []
insert_sorted f (g ∷ rows) =
    if leb_ℤ f.timestamp g.timestamp then f ∷ g ∷ rows else g ∷ insert_sorted f rows

unfoldable pub sort : List Fragment → List Fragment
unfolding insert_sorted
sort [] = []
sort (f ∷ rows) = insert_sorted f (sort rows)

insert_sorted-perm : (f : Fragment) (rows : List Fragment) → Perm (insert_sorted f rows) (f ∷ rows)
unfolding insert_sorted
insert_sorted-perm f [] = Perm.refl (f ∷ [])
insert_sorted-perm f (g ∷ rows) = elim (Bool-cases (leb_ℤ f.timestamp g.timestamp)) [
  | inl e ↦ rw e (Perm.refl (f ∷ g ∷ rows))
  | inr e ↦ rw e (Perm.trans (Perm.cons g (insert_sorted-perm f rows)) (Perm.swap f g rows))
]

pub sort-perm : (rows : List Fragment) → Perm (sort rows) rows
unfolding sort
sort-perm [] = Perm.refl []
sort-perm (f ∷ rows) = Perm.trans (insert_sorted-perm f (sort rows)) (Perm.cons f (sort-perm rows))

-- What comes before both a fragment and some rows comes before the rows with it.
insert_sorted-All :
    (f g : Fragment) (rows : List Fragment)
    → g.timestamp ≤ℤ f.timestamp
    → All (λ h. g.timestamp ≤ℤ h.timestamp) rows
    → All (λ h. g.timestamp ≤ℤ h.timestamp) (insert_sorted f rows)
unfolding insert_sorted
insert_sorted-All f g [] le h = (le, tt)
insert_sorted-All f g (k ∷ rows) le (p, h) = elim (Bool-cases (leb_ℤ f.timestamp k.timestamp)) [
  | inl e ↦ rw e (le, (p, h))
  | inr e ↦ rw e (p, insert_sorted-All f g rows le h)
]

All-trans :
    (f g : Fragment) (rows : List Fragment)
    → f.timestamp ≤ℤ g.timestamp
    → All (λ h. g.timestamp ≤ℤ h.timestamp) rows
    → All (λ h. f.timestamp ≤ℤ h.timestamp) rows
All-trans f g [] le h = tt
All-trans f g (k ∷ rows) le (p, h) = (omega arith, All-trans f g rows le h)

insert_sorted-IsSorted :
    (f : Fragment) (rows : List Fragment) → IsSorted rows → IsSorted (insert_sorted f rows)
unfolding insert_sorted
insert_sorted-IsSorted f [] s = (tt, tt)
insert_sorted-IsSorted f (g ∷ rows) (p, s) = elim (Bool-cases (leb_ℤ f.timestamp g.timestamp)) [
  | inl e ↦
      let le : f.timestamp ≤ℤ g.timestamp = ground arith in
      rw e ((le, All-trans f g rows le p), (p, s))
  | inr e ↦ rw e (insert_sorted-All f g rows (ground arith) p, insert_sorted-IsSorted f rows s)
]

pub sort-IsSorted : (rows : List Fragment) → IsSorted (sort rows)
unfolding sort
sort-IsSorted [] = tt
sort-IsSorted (f ∷ rows) = insert_sorted-IsSorted f (sort rows) (sort-IsSorted rows)
