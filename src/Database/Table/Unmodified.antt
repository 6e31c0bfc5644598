-- ===== src/Database/Table/Unmodified.antt =====
-- A row of the table is never modified: it stays as it is for as long as its id is there.
use frag.Prelude.{
  ◌≡◌, refl, ap, ◌∙◌, Bool, true, false, inl, inr, List, [], ◌∷◌, ◌++◌, arith, All, Bool-cases,
}
use frag.Text.{Bytes, same}
use frag.Text.Laws.{same_iff}
use frag.Fragment.{Fragment}
use frag.Database.Table.{keep, has_id, insert_row, delete_row, purge_rows, HasDistinctIds, HasRow}
use frag.Database.Table.Laws.{Change, inserts, deletes, purges, fails}

pub HasRow-append :
    (f : Fragment) (rows more : List Fragment) → HasRow f rows → HasRow f (rows ++ more)
HasRow-append f [] more h = absurd h
HasRow-append f (g ∷ rows) more (inl e) = inl e
HasRow-append f (g ∷ rows) more (inr h) = inr (HasRow-append f rows more h)

pub HasRow-keep :
    (f : Fragment) (test : Fragment → Bool) (rows : List Fragment)
    → test f ≡ true
    → HasRow f rows
    → HasRow f (keep test rows)
unfolding keep
HasRow-keep f test [] passes h = absurd h
HasRow-keep f test (g ∷ rows) passes (inl e) =
    let same_test : test g ≡ true = ap test e ∙ passes in rw same_test (inl e)
HasRow-keep f test (g ∷ rows) passes (inr h) = elim (Bool-cases (test g)) [
  | inl e ↦ rw e (inr (HasRow-keep f test rows passes h))
  | inr e ↦ rw e (HasRow-keep f test rows passes h)
]

-- No other row has the id of a row that is filtered out.
other_ids :
    (id : Bytes) (test : Fragment → Bool) (rows : List Fragment)
    → All (λ g. same g.id id ≡ false) rows
    → has_id id (keep test rows) ≡ false
unfolding keep has_id
other_ids id test [] h = refl
other_ids id test (g ∷ rows) (e, h) = elim (Bool-cases (test g)) [
  | inl passes ↦ rw (passes, e) (other_ids id test rows h)
  | inr dropped ↦ rw dropped (other_ids id test rows h)
]

row_id :
    (f : Fragment) (id : Bytes) (rows : List Fragment)
    → HasRow f rows
    → All (λ g. same g.id id ≡ false) rows
    → same f.id id ≡ false
row_id f id [] h all = absurd h
row_id f id (g ∷ rows) (inl e) (other, all) = rw (ap (λ r. r.id) e) at other
row_id f id (g ∷ rows) (inr h) (other, all) = row_id f id rows h all

has_id-keep :
    (f : Fragment) (test : Fragment → Bool) (rows : List Fragment)
    → HasDistinctIds rows
    → HasRow f rows
    → test f ≡ false
    → has_id f.id (keep test rows) ≡ false
unfolding keep has_id
has_id-keep f test [] distinct h dropped = absurd h
has_id-keep f test (g ∷ rows) (others, distinct) (inl e) dropped =
    let same_test : test g ≡ false = ap test e ∙ dropped in
    rw same_test (other_ids f.id test rows (rw (ap (λ r. r.id) e) at others))
has_id-keep f test (g ∷ rows) (others, distinct) (inr h) dropped =
    let apart : same f.id g.id ≡ false = row_id f g.id rows h others in
    let later = has_id-keep f test rows distinct h dropped in
    ground (arith, same_iff f.id g.id, same_iff g.id f.id)

keep-unmodified :
    (f : Fragment) (test : Fragment → Bool) (rows : List Fragment)
    → HasDistinctIds rows
    → HasRow f rows
    → has_id f.id (keep test rows) ≡ true
    → HasRow f (keep test rows)
keep-unmodified f test rows distinct h there = elim (Bool-cases (test f)) [
  | inl passes ↦ HasRow-keep f test rows passes h
  | inr dropped ↦ cc (has_id-keep f test rows distinct h dropped, there)
]

-- A row is in the table after a change if its id is.
pub Change-HasRow :
    {rows rows' : List Fragment} (f : Fragment)
    → Change rows rows'
    → HasDistinctIds rows
    → HasRow f rows
    → has_id f.id rows' ≡ true
    → HasRow f rows'
unfolding insert_row delete_row purge_rows
Change-HasRow f (inserts g rows) distinct h there = elim (Bool-cases (has_id g.id rows)) [
  | inl known ↦ rw known h
  | inr new ↦ rw new (HasRow-append f rows (g ∷ []) h)
]
Change-HasRow f (deletes id rows) distinct h there = keep-unmodified f _ rows distinct h there
Change-HasRow f (purges now rows) distinct h there = keep-unmodified f _ rows distinct h there
Change-HasRow f (fails rows) distinct h there = h
