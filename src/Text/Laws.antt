-- ===== src/Text/Laws.antt =====
-- The laws of the text operations that the components use.
use frag.Prelude.{
  ℕ, ◌+◌, ◌≤◌, ◌≡◌, ◌≢◌, refl, ap, ◌∙◌, ◌↔◌, true, false, All, inl, inr, [], ◌∷◌, ◌++◌, some, arith,
  ◌==◌, ==_refl, length, drop, leb, length-append, drop-append, Bool-cases,
}
use frag.Text.{Bytes, same, starts_with, find_at, find}

pub same_iff : (s t : Bytes) → (same s t ≡ true) ↔ (s ≡ t)
unfolding same
same_iff (x ∷ s) (y ∷ t) = ground (arith, same_iff s t)
same_iff _ _ = ground arith

pub same_refl : (s : Bytes) → same s s ≡ true
same_refl s = (same_iff s s).1 refl

pub starts_with-append : (s t : Bytes) → starts_with s (s ++ t) ≡ true
unfolding starts_with
starts_with-append [] t = refl
starts_with-append (c ∷ s) t = rw (==_refl c) (starts_with-append s t)

-- A text found at its head.
pub find_at-append : (wanted rest : Bytes) (i : ℕ) → find_at wanted (wanted ++ rest) i ≡ some i
unfolding find_at
find_at-append [] [] i = unfold starts_with in refl
find_at-append [] (c ∷ rest) i = unfold starts_with in refl
find_at-append (c ∷ wanted) rest i = rw (starts_with-append (c ∷ wanted) rest)

-- A text is found at or behind the place where the search starts.
find_at_ge : (wanted s : Bytes) (i j : ℕ) → find_at wanted s i ≡ some j → i ≤ j
unfolding find_at
find_at_ge wanted [] i j e = ground arith
find_at_ge wanted (c ∷ s) i j e = elim (Bool-cases (starts_with wanted (c ∷ s))) [
  | inl here ↦ ground arith
  | inr later ↦ omega (arith, find_at_ge wanted s (i + 1) j (rw later at e))
]

pub find_ge : (s wanted : Bytes) (i j : ℕ) → find s wanted i ≡ some j → i ≤ j
unfolding find
find_ge s wanted i j e = elim (Bool-cases (leb i (length s))) [
  | inl inside ↦ find_at_ge wanted (drop i s) i j (rw inside at e)
  | inr outside ↦ ground arith
]

-- A search that starts behind a prefix of known length.
pub find-append :
    (front s wanted : Bytes)
    → find (front ++ s) wanted (length front) ≡ find_at wanted s (length front)
unfolding find
find-append front s wanted =
    let fits : leb (length front) (length (front ++ s)) ≡ true =
      ground (arith, length-append front s) in
    rw (fits, drop-append front s)

pub find_zero : (s wanted : Bytes) → find s wanted 0 ≡ find_at wanted s 0
unfolding find
find_zero s wanted = ground arith

-- Where enough bytes are there, those behind them do not matter.
starts_with-prefix :
    (wanted s t : Bytes)
    → length wanted ≤ length s
    → starts_with wanted (s ++ t) ≡ starts_with wanted s
unfolding starts_with
starts_with-prefix [] s t h = refl
starts_with-prefix (w ∷ wanted) [] t h = absurd (omega arith)
starts_with-prefix (w ∷ wanted) (c ∷ s) t h = ground (arith, starts_with-prefix wanted s t)

starts_with-length : (wanted s : Bytes) → starts_with wanted s ≡ true → length wanted ≤ length s
unfolding starts_with
starts_with-length [] s e = omega arith
starts_with-length (w ∷ wanted) [] e = cc
starts_with-length (w ∷ wanted) (c ∷ s) e = ground (arith, starts_with-length wanted s)

-- What is found lies within the text, and is found there too when the text goes on.
pub find_at-extend :
    (wanted s t : Bytes) (i j : ℕ)
    → find_at wanted s i ≡ some j
    → (j + length wanted ≤ i + length s) × (find_at wanted (s ++ t) i ≡ some j)
unfolding find_at
find_at-extend [] [] t i j e =
    let here : some i ≡ some j = unfold starts_with in e in
    (unfold starts_with in ground arith, find_at-append [] t i ∙ here)
find_at-extend (w ∷ wanted) [] t i j e = unfold starts_with in cc
find_at-extend wanted (c ∷ s) t i j e = elim (Bool-cases (starts_with wanted (c ∷ s))) [
  | inl here ↦
      let fits = starts_with-length wanted (c ∷ s) here in
      let still = starts_with-prefix wanted (c ∷ s) t fits ∙ here in
      (ground arith, rw still (rw here at e))
  | inr other ↦
      let (fits, later) = find_at-extend wanted s t (i + 1) j (rw other at e) in
      let behind = find_at_ge wanted s (i + 1) j (rw other at e) in
      let still = starts_with-prefix wanted (c ∷ s) t (omega arith) ∙ other in
      (omega arith, rw still later)
]

-- A search passes over bytes that are not the first one of what is wanted.
pub find_at-skip :
    (c : ℕ) (wanted front s : Bytes) (i : ℕ)
    → All (λ x. x ≢ c) front
    → find_at (c ∷ wanted) (front ++ s) i ≡ find_at (c ∷ wanted) s (i + length front)
unfolding find_at starts_with
find_at-skip c wanted [] s i h = ap (find_at (c ∷ wanted) s) (omega arith)
find_at-skip c wanted (x ∷ front) s i (ne, h) =
    let other : (c == x) ≡ false = ground (arith, ne) in
    rw other (find_at-skip c wanted front s (i + 1) h ∙ ap (find_at (c ∷ wanted) s) (omega arith))
