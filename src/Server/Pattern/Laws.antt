-- ===== src/Server/Pattern/Laws.antt =====
-- Which paths a pattern matches, and what it captures.
use frag.Prelude.{
  ◌≡◌, ◌↔◌, ◌⊎◌, refl, ◌∙◌, true, false, inl, inr, List, [], ◌∷◌, Option, none, some, arith, ◌==◌,
  ==_iff, length, drop, Bool-cases,
}
use frag.Text.{Bytes, same}
use frag.Text.Laws.{same_iff}
use frag.Dictionary.{get, put, get-put_self, get-put_ne}
use frag.Utils.Split.{split}
use frag.Server.Pattern.{is_param, match_parts, match_pattern}

-- Part by part: a parameter stands for any part, any other part for itself.
abbrev pub IsMatch : List Bytes → List Bytes → Type 0
IsMatch [] [] = Unit
IsMatch [] (c ∷ cp) = ⊥
IsMatch (p ∷ pp) [] = ⊥
IsMatch (p ∷ pp) (c ∷ cp) = ((is_param p ≡ true) ⊎ (p ≡ c)) × IsMatch pp cp

IsMatch-length : (pp cp : List Bytes) → IsMatch pp cp → length pp ≡ length cp
IsMatch-length [] [] h = refl
IsMatch-length [] (c ∷ cp) h = absurd h
IsMatch-length (p ∷ pp) [] h = absurd h
IsMatch-length (p ∷ pp) (c ∷ cp) (_, h) = omega (arith, IsMatch-length pp cp h)

-- That a match is found.
abbrev pub Finds : Option (List (Bytes × Bytes)) → Type 0
Finds none = ⊥
Finds (some params) = Unit

match_parts_iff :
    (pp cp : List Bytes) (params : List (Bytes × Bytes))
    → length pp ≡ length cp
    → Finds (match_parts pp cp params) ↔ IsMatch pp cp
unfolding match_parts
match_parts_iff [] [] params n = (λ _. tt, λ _. tt)
match_parts_iff [] (c ∷ cp) params n = absurd (omega arith)
match_parts_iff (p ∷ pp) [] params n = absurd (omega arith)
match_parts_iff (p ∷ pp) (c ∷ cp) params n = elim (Bool-cases (is_param p)) [
  | inl e ↦
      let ih = match_parts_iff pp cp (put (drop 1 p) c params) (omega arith) in
      rw e (λ f. (inl refl, ih.0 f), λ m. ih.1 m.1)
  | inr e ↦ elim (Bool-cases (same p c)) [
    | inl equal ↦
        let ih = match_parts_iff pp cp params (omega arith) in
        rw (e, equal) (λ f. (inr ((same_iff p c).0 equal), ih.0 f), λ m. ih.1 m.1)
    | inr other ↦ rw (e, other) (λ f. absurd f, λ m. absurd (literal (same_iff p c) other m.0))
  ]
]
  where
    literal : (iff : (same p c ≡ true) ↔ (p ≡ c)) → same p c ≡ false → (false ≡ true) ⊎ (p ≡ c) → ⊥
    literal iff other (inl h) = cc
    literal iff other (inr h) = cc (iff.1 h)

-- A pattern matches a path exactly when they have as many parts and each part of the pattern is a
-- parameter or equals the part of the path.
pub match_pattern_iff :
    (pattern_text path : Bytes)
    → Finds (match_pattern pattern_text path) ↔ IsMatch (split pattern_text b'/') (split path b'/')
unfolding match_pattern
match_pattern_iff pattern_text path =
    let pp = split pattern_text b'/' in
    let cp = split path b'/' in
    elim (Bool-cases (length pp == length cp)) [
      | inl e ↦ rw e (match_parts_iff pp cp [] ((==_iff _ _).0 e))
      | inr e ↦
          rw e (
            λ f. absurd f,
            λ m. cc (e, (==_iff (length pp) (length cp)).1 (IsMatch-length pp cp m)),
          )
    ]

-- No later parameter has this name.
abbrev pub Unnamed : Bytes → List Bytes → Type 0
Unnamed name [] = Unit
Unnamed name (p ∷ pp) = ((is_param p ≡ false) ⊎ (same (drop 1 p) name ≡ false)) × Unnamed name pp

abbrev pub HasDistinctNames : List Bytes → Type 0
HasDistinctNames [] = Unit
HasDistinctNames (p ∷ pp) = ((is_param p ≡ false) ⊎ Unnamed (drop 1 p) pp) × HasDistinctNames pp

-- Each parameter of the pattern is found under its name, with the part of the path in its place.
abbrev pub Captures : List Bytes → List Bytes → List (Bytes × Bytes) → Type 0
Captures (p ∷ pp) (c ∷ cp) params =
    ((is_param p ≡ false) ⊎ (get (drop 1 p) params ≡ some c)) × Captures pp cp params
Captures _ _ params = Unit

get-match_parts :
    (pp cp : List Bytes) (params final : List (Bytes × Bytes)) (name : Bytes)
    → match_parts pp cp params ≡ some final
    → Unnamed name pp
    → get name final ≡ get name params
unfolding match_parts
get-match_parts [] cp params final name e u = cc
get-match_parts (p ∷ pp) [] params final name e u = cc
get-match_parts (p ∷ pp) (c ∷ cp) params final name e (u, us) = elim (Bool-cases (is_param p)) [
  | inl param ↦
      get-match_parts pp cp (put (drop 1 p) c params) final name (rw param at e) us
      ∙ get-put_ne (drop 1 p) name c params (ground (arith, param))
  | inr literal ↦ get-match_parts pp cp params final name (ground arith) us
]

match_parts-Captures :
    (pp cp : List Bytes) (params final : List (Bytes × Bytes))
    → match_parts pp cp params ≡ some final
    → HasDistinctNames pp
    → Captures pp cp final
unfolding match_parts
match_parts-Captures [] cp params final e d = tt
match_parts-Captures (p ∷ pp) [] params final e d = tt
match_parts-Captures (p ∷ pp) (c ∷ cp) params final e (u, d) = elim (Bool-cases (is_param p)) [
  | inl param ↦
      let e' = rw param at e in
      (
        inr (
            get-match_parts pp cp (put (drop 1 p) c params) final (drop 1 p) e'
              (distinct p pp param u)
            ∙ get-put_self (drop 1 p) c params),
        match_parts-Captures pp cp (put (drop 1 p) c params) final e' d,
      )
  | inr literal ↦ (inl literal, match_parts-Captures pp cp params final (ground arith) d)
]
  where
    distinct :
        (q : Bytes) (qs : List Bytes)
        → is_param q ≡ true
        → (is_param q ≡ false) ⊎ Unnamed (drop 1 q) qs
        → Unnamed (drop 1 q) qs
    distinct q qs param (inl literal) = cc (param, literal)
    distinct q qs param (inr u) = u

-- When a pattern whose parameters have different names matches a path, each parameter is found
-- under its name with the part of the path in its place.
match_pattern-Captures :
    (pattern_text path : Bytes) (params : List (Bytes × Bytes))
    → match_pattern pattern_text path ≡ some params
    → HasDistinctNames (split pattern_text b'/')
    → Captures (split pattern_text b'/') (split path b'/') params
unfolding match_pattern
match_pattern-Captures pattern_text path params e d =
    match_parts-Captures (split pattern_text b'/') (split path b'/') [] params (ground arith) d
