-- ===== src/Database/Table/Laws.antt =====
-- The laws of the table.
use frag.Prelude.{
  suc, ◌≡◌, refl, ap, Bool, false, ◌||◌, inl, inr, List, [], ◌∷◌, ◌++◌, arith, if◌then◌else◌, All,
  Bool-cases,
}
use frag.Prelude.Int.{ℤ}
use frag.Text.{Bytes, same}
use frag.Text.Laws.{same_iff}
use frag.Fragment.{Fragment}
use frag.Database.Table.{
  keep, count_rows, has_key, has_id, insert_row, delete_row, purge_rows, HasDistinctIds,
}

All-keep {κ} :
    (P : Fragment → Type κ) (test : Fragment → Bool) (rows : List Fragment)
    → All P rows
    → All P (keep test rows)
unfolding keep
All-keep P test [] h = tt
All-keep P test (f ∷ rows) (p, h) = elim (Bool-cases (test f)) [
  | inl e ↦ rw e (p, All-keep P test rows h)
  | inr e ↦ rw e (All-keep P test rows h)
]

keep-HasDistinctIds :
    (test : Fragment → Bool) (rows : List Fragment)
    → HasDistinctIds rows
    → HasDistinctIds (keep test rows)
unfolding keep
keep-HasDistinctIds test [] h = tt
keep-HasDistinctIds test (f ∷ rows) (p, h) = elim (Bool-cases (test f)) [
  | inl e ↦
      rw e (All-keep (λ g. same g.id f.id ≡ false) test rows p, keep-HasDistinctIds test rows h)
  | inr e ↦ rw e (keep-HasDistinctIds test rows h)
]

fresh-append :
    (f : Fragment) (rows : List Fragment)
    → has_id f.id rows ≡ false
    → HasDistinctIds rows
    → HasDistinctIds (rows ++ (f ∷ []))
unfolding has_id
fresh-append f [] e h = (tt, tt)
fresh-append f (g ∷ rows) e (p, h) =
    let ne : same f.id g.id ≡ false = ground (arith, same_iff f.id g.id, same_iff g.id f.id) in
    (extend rows p ne, fresh-append f rows (ground arith) h)
  where
    extend :
        (xs : List Fragment)
        → All (λ x. same x.id g.id ≡ false) xs
        → same f.id g.id ≡ false
        → All (λ x. same x.id g.id ≡ false) (xs ++ (f ∷ []))
    extend [] a ne = (ne, tt)
    extend (x ∷ xs) (q, a) ne = (q, extend xs a ne)

insert_row-HasDistinctIds :
    (f : Fragment) (rows : List Fragment) → HasDistinctIds rows → HasDistinctIds (insert_row f rows)
unfolding insert_row
insert_row-HasDistinctIds f rows h = elim (Bool-cases (has_id f.id rows)) [
  | inl e ↦ rw e h
  | inr e ↦ rw e (fresh-append f rows e h)
]

-- The table after the four operations that change it.
pub data Change : List Fragment → List Fragment → Type 0 where
  inserts : (f : Fragment) (rows : List Fragment) → Change rows (insert_row f rows)
  deletes : (id : Bytes) (rows : List Fragment) → Change rows (delete_row id rows)
  purges : (now : ℤ) (rows : List Fragment) → Change rows (purge_rows now rows)
  fails : (rows : List Fragment) → Change rows rows

-- Ids stay distinct under every change.
Change-HasDistinctIds :
    {rows rows' : List Fragment} → Change rows rows' → HasDistinctIds rows → HasDistinctIds rows'
unfolding delete_row purge_rows
Change-HasDistinctIds (inserts f rows) h = insert_row-HasDistinctIds f rows h
Change-HasDistinctIds (deletes id rows) h = keep-HasDistinctIds _ rows h
Change-HasDistinctIds (purges now rows) h = keep-HasDistinctIds _ rows h
Change-HasDistinctIds (fails rows) h = h

-- With distinct ids at most one row has a given id.
count_none :
    (id : Bytes) (rows : List Fragment)
    → All (λ g. same g.id id ≡ false) rows
    → count_rows (has_key id) rows ≡ 0
unfolding count_rows
count_none id [] h = refl
count_none id (f ∷ rows) (e, h) = rw e (count_none id rows h)

count_id :
    (id : Bytes) (rows : List Fragment)
    → HasDistinctIds rows
    → count_rows (has_key id) rows ≡ (if has_id id rows then 1 else 0)
unfolding count_rows has_id
count_id id [] h = refl
count_id id (f ∷ rows) (p, h) = elim (Bool-cases (same f.id id)) [
  | inl e ↦ let eq = (same_iff f.id id).0 e in rw e (ap suc (count_none id rows (rw eq at p)))
  | inr e ↦ rw e (count_id id rows h)
]

-- A row stays exactly if it passes the test.
has_id-delete_row :
    (id j : Bytes) (rows : List Fragment)
    → has_id j (delete_row id rows) ≡ (if same id j then false else has_id j rows)
unfolding has_id delete_row keep
has_id-delete_row id j [] = ground arith
has_id-delete_row id j (f ∷ rows) =
    ground (arith, same_iff f.id id, same_iff f.id j, same_iff id j, has_id-delete_row id j rows)

has_id-append :
    (f : Fragment) (j : Bytes) (rows : List Fragment)
    → has_id j (rows ++ (f ∷ [])) ≡ (same f.id j || has_id j rows)
unfolding has_id
has_id-append f j [] = refl
has_id-append f j (g ∷ rows) = ground (arith, has_id-append f j rows)

has_id-insert_row :
    (f : Fragment) (j : Bytes) (rows : List Fragment)
    → has_id j (insert_row f rows) ≡ (same f.id j || has_id j rows)
unfolding insert_row
has_id-insert_row f j rows = elim (Bool-cases (has_id f.id rows)) [
  | inr e ↦ rw e (has_id-append f j rows)
  | inl e ↦ elim (Bool-cases (same f.id j)) [
    | inl equal ↦ rw (e, equal) (rw (← (same_iff f.id j).0 equal) e)
    | inr other ↦ rw (e, other)
  ]
]
