-- ===== src/App/Config/Reads.antt =====
-- What the readers of `load_config` (backend/src/main.cpp) find behind a key.
use frag.Prelude.{
  ℕ, ◌+◌, ◌-◌, ◌≡◌, ◌≢◌, sym, ap, ◌∙◌, Option, some, [], ◌∷◌, ◌++◌, arith, All-append, append_assoc,
  length, length-append, take-append, drop, drop-append, drop_behind,
}
use frag.Text.{Bytes, codes, find, substr}
use frag.Text.Laws.{find-append, find_at-append, find_at-skip}
use frag.Utils.Split.Laws.{Lacks}
use frag.Json.Read.{quoted}
use frag.App.Config.{number_at, or_default, text_at, tokens_at}
use frag.App.Config.Tokens.{read_tokens}
use frag.App.Config.Skips.{IsName, IsName-Lacks, Skips, find_behind}

module _ (key : Bytes) (name : IsName key) (front : Bytes) (skips : Skips key front) where
  quoted-Lacks-colon : Lacks b':' (quoted key)
  quoted-Lacks-colon = (
    (λ e. absurd (omega (arith, e))),
    All-append (λ c. c ≢ b':') key (b'"' ∷ []) (IsName-Lacks key name).1
        ((λ e. absurd (omega (arith, e))), tt),
  )

  -- The colon behind the key.
  colon_behind :
      (tail : Bytes)
      → find (front ++ (quoted key ++ (b':' ∷ tail))) (b':' ∷ []) (length front)
        ≡ some (length (front ++ quoted key))
  colon_behind tail =
      find-append front (quoted key ++ (b':' ∷ tail)) (b':' ∷ [])
      ∙ find_at-skip b':' [] (quoted key) (b':' ∷ tail) (length front) quoted-Lacks-colon
      ∙ find_at-append (b':' ∷ []) tail (length front + length (quoted key))
      ∙ ap some (sym (length-append front (quoted key)))

  tail_behind :
      (c : ℕ) (tail : Bytes)
      → drop (length (front ++ quoted key) + 1) (front ++ (quoted key ++ (c ∷ tail))) ≡ tail
  tail_behind c tail =
      rw (← append_assoc front (quoted key) (c ∷ tail)) (drop_behind (front ++ quoted key) c tail)

  pub number_at-behind {ℓ} :
      {A : Type ℓ} (tail : Bytes) (parse : Bytes → Option A) (d : A)
      → number_at (front ++ (quoted key ++ (b':' ∷ tail))) (quoted key) parse d
        ≡ or_default (parse tail) d
  unfolding number_at
  number_at-behind tail parse d = rw (
    find_behind key front (b':' ∷ tail) skips,
    number_at,
    colon_behind tail,
    tail_behind b':' tail,
  )

  -- The text between the quotes behind the colon.
  text_at-found :
      (json d : Bytes) (key_pos colon qs qe : ℕ)
      → find json (quoted key) 0 ≡ some key_pos
      → find json (b':' ∷ []) key_pos ≡ some colon
      → find json (b'"' ∷ []) (colon + 1) ≡ some qs
      → find json (b'"' ∷ []) (qs + 1) ≡ some qe
      → text_at json (quoted key) d ≡ substr json (qs + 1) (qe - qs - 1)
  unfolding text_at
  text_at-found json d key_pos colon qs qe at_key at_colon opens closes =
      rw (at_key, text_at, at_colon, opens, closes)

  pub text_at-behind :
      (v rest d : Bytes)
      → Lacks b'"' v
      → text_at (front ++ (quoted key ++ (b':' ∷ (quoted v ++ rest)))) (quoted key) d ≡ v
  text_at-behind v rest d plain =
      let json : Bytes = front ++ (quoted key ++ (b':' ∷ (quoted v ++ rest))) in
      let before : Bytes = (front ++ quoted key) ++ (b':' ∷ []) in
      let inside : Bytes = before ++ (b'"' ∷ []) in
      let at_open : json ≡ before ++ (b'"' ∷ (v ++ (b'"' ∷ rest))) = simp append_assoc in
      let at_value : json ≡ inside ++ (v ++ (b'"' ∷ rest)) = simp append_assoc in
      let n : length (front ++ quoted key) + 1 ≡ length before =
        omega (arith, length-append (front ++ quoted key) (b':' ∷ [])) in
      let k : length before + 1 ≡ length inside = omega (arith, length-append before (b'"' ∷ [])) in
      let opens : find json (b'"' ∷ []) (length (front ++ quoted key) + 1) ≡ some (length before) =
        rw (at_open, n)
          (find-append before (b'"' ∷ (v ++ (b'"' ∷ rest))) (b'"' ∷ [])
            ∙ find_at-append (b'"' ∷ []) (v ++ (b'"' ∷ rest)) (length before)) in
      let closes : find json (b'"' ∷ []) (length before + 1) ≡ some (length inside + length v) =
        rw (at_value, k)
          (find-append inside (v ++ (b'"' ∷ rest)) (b'"' ∷ [])
            ∙ find_at-skip b'"' [] v (b'"' ∷ rest) (length inside) plain
            ∙ find_at-append (b'"' ∷ []) rest (length inside + length v)) in
      let count : length inside + length v - length before - 1 ≡ length v = omega (arith, k) in
      let value : substr json (length before + 1) (length inside + length v - length before - 1)
          ≡ v =
        rw (count, k, at_value, drop-append inside (v ++ (b'"' ∷ rest)))
          (take-append v (b'"' ∷ rest)) in
      text_at-found json d (length front) (length (front ++ quoted key)) (length before)
        (length inside + length v) (find_behind key front _ skips) (colon_behind _) opens closes
      ∙ value

tokens_at-found :
    (json : Bytes) (key_pos open_pos close_pos : ℕ)
    → find json (codes "\"tokens\"") 0 ≡ some key_pos
    → find json (b'[' ∷ []) key_pos ≡ some open_pos
    → find json (b']' ∷ []) open_pos ≡ some close_pos
    → tokens_at json ≡ read_tokens (substr json (open_pos + 1) (close_pos - open_pos - 1))
unfolding tokens_at
tokens_at-found json key_pos open_pos close_pos at_key opens closes =
    rw (at_key, tokens_at, opens, closes)

pub tokens_at-behind :
    (front inner rest : Bytes)
    → Skips (codes "tokens") front
    → Lacks b']' inner
    → tokens_at (front ++ (codes "\"tokens\":[" ++ (inner ++ (b']' ∷ rest)))) ≡ read_tokens inner
tokens_at-behind front inner rest skips no_bracket =
    let json : Bytes = front ++ (codes "\"tokens\":[" ++ (inner ++ (b']' ∷ rest))) in
    let before : Bytes = front ++ codes "\"tokens\":" in
    let inside : Bytes = before ++ (b'[' ∷ []) in
    let at_open : json ≡ before ++ (b'[' ∷ (inner ++ (b']' ∷ rest))) = simp append_assoc in
    let at_inner : json ≡ inside ++ (inner ++ (b']' ∷ rest)) = simp append_assoc in
    let k : length before + 1 ≡ length inside = omega (arith, length-append before (b'[' ∷ [])) in
    let opens : find json (b'[' ∷ []) (length front) ≡ some (length before) =
      find-append front (codes "\"tokens\":[" ++ (inner ++ (b']' ∷ rest))) (b'[' ∷ [])
      ∙ find_at-skip b'[' [] (codes "\"tokens\":") (b'[' ∷ (inner ++ (b']' ∷ rest))) (length front)
          (ground arith)
      ∙ find_at-append (b'[' ∷ []) (inner ++ (b']' ∷ rest)) (length front + 9)
      ∙ ap some (omega (arith, length-append front (codes "\"tokens\":"))) in
    let closes : find json (b']' ∷ []) (length before)
        ≡ some (length before + length (b'[' ∷ inner)) =
      ap (λ j. find j (b']' ∷ []) (length before)) at_open
      ∙ find-append before (b'[' ∷ (inner ++ (b']' ∷ rest))) (b']' ∷ [])
      ∙ find_at-skip b']' [] (b'[' ∷ inner) (b']' ∷ rest) (length before)
          ((λ e. absurd (omega (arith, e))), no_bracket)
      ∙ find_at-append (b']' ∷ []) rest (length before + length (b'[' ∷ inner)) in
    let count : length before + length (b'[' ∷ inner) - length before - 1 ≡ length inner =
      omega arith in
    let value : substr json (length before + 1)
          (length before + length (b'[' ∷ inner) - length before - 1)
        ≡ inner =
      rw (count, k, at_inner, drop-append inside (inner ++ (b']' ∷ rest)))
        (take-append inner (b']' ∷ rest)) in
    tokens_at-found json (length front) (length before) (length before + length (b'[' ∷ inner))
      (find_behind (codes "tokens") front (b':' ∷ b'[' ∷ (inner ++ (b']' ∷ rest))) skips) opens
      closes
    ∙ ap read_tokens value
