-- ===== src/Utils/Split/RoundTrip.antt =====
-- `split` of backend/src/utils.hpp on pieces that are joined by the delimiter.
use frag.Prelude.{
  ℕ, List, [], ◌∷◌, ◌++◌, ◌≡◌, refl, ap, ◌∙◌, false, arith, ◌==◌, ==_refl, All, append_assoc,
  append-nil, is_empty,
}
use frag.Text.{Bytes}
use frag.Utils.Split.{split_from, split}
use frag.Utils.Split.Laws.{Lacks}

-- The pieces with a delimiter between any two.
abbrev pub joined_by : ℕ → List Bytes → Bytes
joined_by delim [] = []
joined_by delim (piece ∷ []) = piece
joined_by delim (piece ∷ next ∷ pieces) = piece ++ (delim ∷ joined_by delim (next ∷ pieces))

-- The last piece, if there is one, is not empty.
abbrev pub EndsFull : List Bytes → Type 0
EndsFull [] = Unit
EndsFull (piece ∷ []) = is_empty piece ≡ false
EndsFull (piece ∷ next ∷ pieces) = EndsFull (next ∷ pieces)

module _ (delim : ℕ) where
  split_from-piece :
      (piece item s : Bytes)
      → Lacks delim piece
      → split_from delim item (piece ++ (delim ∷ s)) ≡ (item ++ piece) ∷ split_from delim [] s
  unfolding split_from
  split_from-piece [] item s h = rw (==_refl delim, append-nil item) refl
  split_from-piece (c ∷ piece) item s (ne, h) =
      let other : (c == delim) ≡ false = ground (arith, ne) in
      rw other (
        split_from-piece piece (item ++ c ∷ []) s h
        ∙ ap (λ p. p ∷ split_from delim [] s) (append_assoc item (c ∷ []) piece))

  split_from-last :
      (piece item : Bytes)
      → Lacks delim piece
      → is_empty (item ++ piece) ≡ false
      → split_from delim item piece ≡ (item ++ piece) ∷ []
  unfolding split_from
  split_from-last [] item h full =
      let full' : is_empty item ≡ false = rw (append-nil item) at full in
      rw (full', append-nil item) refl
  split_from-last (c ∷ piece) item (ne, h) full =
      let other : (c == delim) ≡ false = ground (arith, ne) in
      let same = append_assoc item (c ∷ []) piece in
      rw other (split_from-last piece (item ++ c ∷ []) h (rw same full) ∙ ap (λ p. p ∷ []) same)

  -- Pieces without the delimiter of which the last is not empty, joined by the delimiter, are split
  -- into themselves.
  pub split-joined_by :
      (pieces : List Bytes)
      → All (Lacks delim) pieces
      → EndsFull pieces
      → split (joined_by delim pieces) delim ≡ pieces
  unfolding split split_from
  split-joined_by [] h full = refl
  split-joined_by (piece ∷ []) (lacks, _) full = split_from-last piece [] lacks full
  split-joined_by (piece ∷ next ∷ pieces) (lacks, h) full =
      split_from-piece piece [] (joined_by delim (next ∷ pieces)) lacks
      ∙ ap (◌∷◌ piece) (split-joined_by (next ∷ pieces) h full)
