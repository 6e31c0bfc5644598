-- ===== src/App/Config/Skips.antt =====
-- Texts in which the search of `load_config` (backend/src/main.cpp) for a key finds nothing.
use mathlib.Core.Path.{ap₂}
use frag.Prelude.{
  ℕ, ◌+◌, ◌≡◌, ◌≢◌, ◌⊎◌, refl, sym, ap, ◌∙◌, false, ◌==◌, inl, inr, some, [], ◌∷◌, ◌++◌, arith, All,
  append_assoc, length, length-append, Bool-cases,
}
use frag.Text.{Bytes, find, find_at, starts_with}
use frag.Text.Laws.{find_zero, find_at-append, find_at-skip}
use frag.Utils.Split.Laws.{Lacks}
use frag.Json.Read.{quoted}

-- What can stand behind a quoted text: a colon, a comma, a bracket or a brace.
abbrev pub IsSeparator : ℕ → Type 0
IsSeparator c = (c ≡ b':') ⊎ ((c ≡ b',') ⊎ (c ≡ b']'))

-- A byte of a name: no quote and no separator.
abbrev pub IsNameChar : ℕ → Type 0
IsNameChar c = (c ≢ b'"') × (c ≢ b':') × (c ≢ b',') × (c ≢ b']') × (c ≢ b'[')

abbrev pub IsName : Bytes → Type 0
IsName = All IsNameChar

pub IsName-Lacks : (key : Bytes) → IsName key → Lacks b'"' key × Lacks b':' key × Lacks b'[' key
IsName-Lacks [] h = (tt, tt, tt)
IsName-Lacks (c ∷ key) ((quote, colon, _, _, bracket), h) =
    let (q, l, b) = IsName-Lacks key h in ((quote, q), (colon, l), (bracket, b))

-- No occurrence of the quoted key begins in the text, whatever follows.
pub Skips : Bytes → Bytes → Type 0
Skips key t =
    (rest : Bytes) (i : ℕ)
    → find_at (quoted key) (t ++ rest) i ≡ find_at (quoted key) rest (i + length t)

module _ (key : Bytes) (name : IsName key) where
  pub Skips-append : (s t : Bytes) → Skips key s → Skips key t → Skips key (s ++ t)
  unfolding Skips
  Skips-append s t hs ht rest i =
      ap (λ u. find_at (quoted key) u i) (append_assoc s t rest)
      ∙ hs (t ++ rest) i
      ∙ ht rest (i + length s)
      ∙ ap (find_at (quoted key) rest) (omega (arith, length-append s t))

  pub Skips-bare : (s : Bytes) → Lacks b'"' s → Skips key s
  unfolding Skips
  Skips-bare s h rest i = find_at-skip b'"' (key ++ (b'"' ∷ [])) s rest i h

  -- A quoted text that is not the key, at its opening quote and at its closing one.
  other_quoted :
      (k v rest : Bytes)
      → Lacks b'"' k
      → Lacks b'"' v
      → v ≢ k
      → starts_with (k ++ (b'"' ∷ [])) (v ++ (b'"' ∷ rest)) ≡ false
  unfolding starts_with
  other_quoted [] [] rest hk hv ne = absurd (ne refl)
  other_quoted [] (c ∷ v) rest hk (hc, hv) ne = ground arith
  other_quoted (x ∷ k) [] rest (hx, hk) hv ne = ground arith
  other_quoted (x ∷ k) (c ∷ v) rest (hx, hk) (hc, hv) ne = elim (Bool-cases (x == c)) [
    | inr e ↦ rw e
    | inl e ↦
        let same : x ≡ c = ground arith in
        rw e (other_quoted k v rest hk hv (λ p. ne (ap₂ (λ a b. a ∷ b) (sym same) p)))
  ]

  closing :
      (k : Bytes) (c : ℕ) (rest : Bytes)
      → IsName k
      → IsSeparator c
      → starts_with (quoted k) (b'"' ∷ c ∷ rest) ≡ false
  unfolding starts_with
  closing [] c rest h e = ground arith
  closing (x ∷ k) c rest (h, _) e = ground arith

  pass_quote :
      (u : Bytes) (i : ℕ)
      → starts_with (quoted key) (b'"' ∷ u) ≡ false
      → find_at (quoted key) (b'"' ∷ u) i ≡ find_at (quoted key) u (i + 1)
  unfolding find_at
  pass_quote u i other = rw other

  pub Skips-quoted :
      (v : Bytes) (c : ℕ) (s : Bytes)
      → Lacks b'"' v
      → v ≢ key
      → IsSeparator c
      → Skips key (c ∷ s)
      → Skips key (quoted v ++ (c ∷ s))
  unfolding Skips
  Skips-quoted v c s plain ne separator h rest i =
      let behind : Bytes = c ∷ (s ++ rest) in
      let text : (quoted v ++ (c ∷ s)) ++ rest ≡ b'"' ∷ (v ++ (b'"' ∷ behind)) =
        simp append_assoc in
      let opening : starts_with (quoted key) (b'"' ∷ (v ++ (b'"' ∷ behind))) ≡ false =
        unfold starts_with in other_quoted key v behind (IsName-Lacks key name).0 plain ne in
      rw text (
        pass_quote (v ++ (b'"' ∷ behind)) i opening
        ∙ find_at-skip b'"' (key ++ (b'"' ∷ [])) v (b'"' ∷ behind) (i + 1) plain
        ∙ pass_quote behind (i + 1 + length v) (closing key c (s ++ rest) name separator)
        ∙ h rest (i + 1 + length v + 1)
        ∙ ap (find_at (quoted key) rest) {x = i + 1 + length v + 1 + length (c ∷ s)}
            (omega (arith, length-append (quoted v) (c ∷ s), length-append v (b'"' ∷ []))))

-- A text of which a part is the key's own occurrence.
pub find_behind :
    (key front tail : Bytes)
    → Skips key front
    → find (front ++ (quoted key ++ tail)) (quoted key) 0 ≡ some (length front)
unfolding Skips
find_behind key front tail h =
    find_zero (front ++ (quoted key ++ tail)) (quoted key)
    ∙ h (quoted key ++ tail) 0
    ∙ find_at-append (quoted key) tail (0 + length front)
    ∙ ap some (omega arith)
