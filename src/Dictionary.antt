-- ===== src/Dictionary.antt =====
-- std::unordered_map keyed by texts, as an association list: `get` is find, `put` is the write
-- through `m[key] = value`.
use frag.Prelude.{
  false, List, [], ◌∷◌, ◌++◌, Option, none, some, ◌≡◌, ◌≢◌, refl, sym, ap, ◌∙◌, inl, inr, arith,
  if◌then◌else◌, All, All-append, append-nil, append_assoc, Bool-cases,
}
use frag.Text.{Bytes, same}
use frag.Text.Laws.{same_iff, same_refl}

module _ {ℓ} {V : Type ℓ} where
  unfoldable pub get : Bytes → List (Bytes × V) → Option V
  get key [] = none
  get key ((k, v) ∷ m) = if same k key then some v else get key m

  unfoldable pub put : Bytes → V → List (Bytes × V) → List (Bytes × V)
  put key v [] = (key, v) ∷ []
  put key v ((k, w) ∷ m) = if same k key then (key, v) ∷ m else (k, w) ∷ put key v m

  pub get-put :
      (key j : Bytes) (v : V) (m : List (Bytes × V))
      → get j (put key v m) ≡ (if same key j then some v else get j m)
  unfolding get put
  get-put key j v [] = refl
  get-put key j v ((k, w) ∷ m) =
      ground (arith, same_iff k key, same_iff key j, same_iff k j, get-put key j v m)

  pub get-put_self : (key : Bytes) (v : V) (m : List (Bytes × V)) → get key (put key v m) ≡ some v
  get-put_self key v m = rw (get-put key key v m, same_refl key)

  pub get-put_ne :
      (key j : Bytes) (v : V) (m : List (Bytes × V))
      → same key j ≡ false
      → get j (put key v m) ≡ get j m
  get-put_ne key j v m e = rw (get-put key j v m, e)

  -- The writes of some pairs, the first one first.
  abbrev pub put_all : List (Bytes × V) → List (Bytes × V) → List (Bytes × V)
  put_all m [] = m
  put_all m ((key, v) ∷ pairs) = put_all (put key v m) pairs

  -- No pair has the key.
  abbrev pub Lacks : Bytes → List (Bytes × V) → Type 0
  Lacks key m = All (λ pair. pair.0 ≢ key) m

  abbrev pub HasDistinctKeys : List (Bytes × V) → Type 0
  HasDistinctKeys [] = Unit
  HasDistinctKeys ((key, v) ∷ pairs) = Lacks key pairs × HasDistinctKeys pairs

  put_new :
      (key : Bytes) (v : V) (m : List (Bytes × V))
      → Lacks key m
      → put key v m ≡ m ++ ((key, v) ∷ [])
  unfolding put
  put_new key v [] h = refl
  put_new key v ((k, w) ∷ m) (ne, h) = elim (Bool-cases (same k key)) [
    | inl e ↦ absurd (ne ((same_iff k key).0 e))
    | inr e ↦ rw e (ap (◌∷◌ (k, w)) (put_new key v m h))
  ]

  put_all-append :
      (pairs m : List (Bytes × V))
      → HasDistinctKeys pairs
      → All (λ pair. Lacks pair.0 m) pairs
      → put_all m pairs ≡ m ++ pairs
  put_all-append [] m distinct new = sym (append-nil m)
  put_all-append ((key, v) ∷ pairs) m (differ, distinct) (new, news) =
      ap (λ m'. put_all m' pairs) (put_new key v m new)
      ∙ put_all-append pairs (m ++ ((key, v) ∷ [])) distinct (still_new pairs differ news)
      ∙ append_assoc m ((key, v) ∷ []) pairs
    where
      still_new :
          (later : List (Bytes × V))
          → Lacks key later
          → All (λ pair. Lacks pair.0 m) later
          → All (λ pair. Lacks pair.0 (m ++ ((key, v) ∷ []))) later
      still_new [] differ news = tt
      still_new (pair ∷ later) (other, differ) (known, news) = (
        All-append (λ known. known.0 ≢ pair.0) m ((key, v) ∷ []) known ((λ e. other (sym e)), tt),
        still_new later differ news,
      )

  pub put_all-new : (pairs : List (Bytes × V)) → HasDistinctKeys pairs → put_all [] pairs ≡ pairs
  put_all-new pairs distinct = put_all-append pairs [] distinct (nothing_known pairs)
    where
      nothing_known : (later : List (Bytes × V)) → All (λ pair. Lacks pair.0 []) later
      nothing_known [] = tt
      nothing_known (pair ∷ later) = (tt, nothing_known later)
