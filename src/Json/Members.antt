-- ===== src/Json/Members.antt =====
-- The scanning reader of backend/src/handlers.cpp on the JSON texts that the browser client sends:
-- the members of an object, without white space, and with values that need no escapes.
pub mod Extract
use frag.Prelude.{
  ℕ, suc, ◌+◌, ◌≡◌, ◌≢◌, ◌⊎◌, refl, sym, ap, ◌∙◌, Bool, true, false, ◌&&◌, inl, inr, List, [], ◌∷◌,
  ◌++◌, some, arith, ◌==◌, ==_refl, All, length, length-append, Bool-cases, append_assoc,
}
use mathlib.Core.Path.{ap₂}
use frag.Text.{Bytes, starts_with, find_at}
use frag.Text.Laws.{find_at-append}
use frag.Json.Read.{quoted}

-- No quote and no backslash.
abbrev pub Plain : Bytes → Type 0
Plain = All (λ c. (c ≢ b'"') × (c ≢ b'\\'))

-- A text that can be a key of the reader: the colon and the comma that stand between the quotes of
-- two texts do not begin it.
abbrev pub IsKey : Bytes → Type 0
IsKey [] = Unit
IsKey (c ∷ key) = (c ≢ b':') × (c ≢ b',') × Plain (c ∷ key)

-- "key":"value",
abbrev pub entry : Bytes × Bytes → Bytes
entry (key, value) = quoted key ++ (b':' ∷ (quoted value ++ (b',' ∷ [])))

abbrev pub entries : List (Bytes × Bytes) → Bytes
entries [] = []
entries (m ∷ ms) = entry m ++ entries ms

-- Members whose key and value are plain and differ from a key.
abbrev pub Differs : Bytes → List (Bytes × Bytes) → Type 0
Differs key = All (λ m. (Plain m.0 × (m.0 ≢ key)) × (Plain m.1 × (m.1 ≢ key)))

module _ (key : Bytes) (is_key : IsKey key) where
  -- Without a quote no occurrence starts.
  skip-Plain :
      (v rest : Bytes) (i : ℕ)
      → Plain v
      → find_at (quoted key) (v ++ rest) i ≡ find_at (quoted key) rest (i + length v)
  unfolding find_at
  skip-Plain [] rest i h = let e : i + 0 ≡ i = omega arith in rw e
  skip-Plain (c ∷ v) rest i ((hc, _), h) =
      let e : i + 1 + length v ≡ i + suc (length v) = omega arith in
      let other : starts_with (quoted key) (c ∷ (v ++ rest)) ≡ false =
        unfold starts_with in ground arith in
      rw (other, ← e) (skip-Plain v rest (i + 1) h)

  -- A quoted text that is not the key.
  other_text :
      (k v rest : Bytes)
      → Plain k
      → Plain v
      → v ≢ k
      → starts_with (k ++ (b'"' ∷ [])) (v ++ (b'"' ∷ rest)) ≡ false
  unfolding starts_with
  other_text [] [] rest hk hv ne = absurd (ne refl)
  other_text [] (c ∷ v) rest hk ((hc, _), hv) ne = ground arith
  other_text (x ∷ k) [] rest ((hx, _), hk) hv ne = ground arith
  other_text (x ∷ k) (c ∷ v) rest (hx, hk) (hc, hv) ne = elim (Bool-cases (x == c)) [
    | inr e ↦ rw e
    | inl e ↦
        let same : x ≡ c = ground arith in
        rw e (other_text k v rest hk hv (λ p. ne (ap₂ (λ a b. a ∷ b) (sym same) p)))
  ]

  key-Plain : (k : Bytes) → IsKey k → Plain k
  key-Plain [] h = tt
  key-Plain (c ∷ k) (_, _, h) = h

  -- The closing quote of a text, in front of a colon or a comma.
  closing_quote :
      (k : Bytes) (c : ℕ) (rest : Bytes)
      → IsKey k
      → (c ≡ b':') ⊎ (c ≡ b',')
      → starts_with (quoted k) (b'"' ∷ c ∷ rest) ≡ false
  unfolding starts_with
  closing_quote [] c rest h e = ground arith
  closing_quote (x ∷ k) c rest (h1, h2, _) e = ground arith

  -- A whole quoted text with the byte behind it.
  skip_quoted :
      (v rest : Bytes) (c i : ℕ)
      → Plain v
      → v ≢ key
      → (c ≡ b':') ⊎ (c ≡ b',')
      → find_at (quoted key) (quoted v ++ (c ∷ rest)) i
        ≡ find_at (quoted key) rest (i + length (quoted v) + 1)
  unfolding find_at
  skip_quoted v rest c i plain ne e =
      let opening : starts_with (quoted key) (b'"' ∷ (v ++ (b'"' ∷ c ∷ rest))) ≡ false =
        unfold starts_with in other_text key v (c ∷ rest) (key-Plain key is_key) plain ne in
      let inner = skip-Plain v (b'"' ∷ c ∷ rest) (i + 1) plain in
      let closing = closing_quote key c rest is_key e in
      let behind : starts_with (quoted key) (c ∷ rest) ≡ false =
        unfold starts_with in ground arith in
      let moved : i + 1 + length v + 1 + 1 ≡ i + length (quoted v) + 1 =
        omega (arith, length-append v (b'"' ∷ [])) in
      rw (append_assoc v (b'"' ∷ []) (c ∷ rest), opening, inner, closing, behind, moved)

  -- The members in front of the key's own.
  pub skip_entries :
      (ms : List (Bytes × Bytes)) (rest : Bytes) (i : ℕ)
      → Differs key ms
      → find_at (quoted key) (entries ms ++ rest) i
        ≡ find_at (quoted key) rest (i + length (entries ms))
  skip_entries [] rest i h = let e : i + 0 ≡ i = omega arith in rw e
  skip_entries (m ∷ ms) rest i (((pk, nk), (pv, nv)), h) =
      let behind = entries ms ++ rest in
      let text : entry m ++ entries ms ++ rest
          ≡ quoted m.0 ++ (b':' ∷ (quoted m.1 ++ (b',' ∷ behind))) =
        simp append_assoc in
      let moved : i + length (quoted m.0) + 1 + length (quoted m.1) + 1 + length (entries ms)
          ≡ i + length (entry m ++ entries ms) =
        omega (
          arith,
          length-append (entry m) (entries ms),
          length-append (quoted m.0) (b':' ∷ (quoted m.1 ++ (b',' ∷ []))),
          length-append (quoted m.1) (b',' ∷ []),
        ) in
      rw text (
        skip_quoted m.0 (quoted m.1 ++ (b',' ∷ behind)) b':' i pk nk (inl refl)
        ∙ skip_quoted m.1 behind b',' (i + length (quoted m.0) + 1) pv nv (inr refl)
        ∙ skip_entries ms rest (i + length (quoted m.0) + 1 + length (quoted m.1) + 1) h
        ∙ rw moved refl)
