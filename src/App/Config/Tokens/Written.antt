-- ===== src/App/Config/Tokens/Written.antt =====
-- The token loop of `load_config` (backend/src/main.cpp) on written tokens.
use frag.Prelude.{
  ℕ, zero, suc, ◌+◌, ◌-◌, ◌≤◌, ◌≡◌, ◌≢◌, refl, sym, ap, ◌∙◌, true, false, ◌==◌, List, [], ◌∷◌, ◌++◌,
  some, arith, ltb, All, append_assoc, append-nil, length, length-append, take-append, drop,
  drop-append,
}
use mathlib.Core.Path.{ap₂}
use frag.Text.{Bytes, find, substr}
use frag.Text.Laws.{find-append, find_at-append, find_at-skip}
use frag.Utils.Split.Laws.{Lacks}
use frag.Json.Read.{quoted}
use frag.App.Config.Tokens.{token_end, token_loop, read_tokens}

-- A token without quotes and backslashes.
abbrev pub IsToken : Bytes → Type 0
IsToken t = Lacks b'"' t × Lacks b'\\' t

-- Tokens between quotes, with commas between them.
abbrev pub more_tokens : List Bytes → Bytes
more_tokens [] = []
more_tokens (t ∷ ts) = b',' ∷ (quoted t ++ more_tokens ts)

abbrev pub token_list : List Bytes → Bytes
token_list [] = []
token_list (t ∷ ts) = quoted t ++ more_tokens ts

token_end_here : (rest : Bytes) (qe : ℕ) → token_end (b'"' ∷ rest) qe ≡ qe
unfolding token_end
token_end_here [] qe = refl
token_end_here (c ∷ rest) qe = refl

token_end_on :
    (c : ℕ) (s : Bytes) (qe : ℕ)
    → c ≢ b'"'
    → c ≢ b'\\'
    → s ≢ []
    → token_end (c ∷ s) qe ≡ token_end s (qe + 1)
unfolding token_end
token_end_on c [] qe quote slash full = absurd (full refl)
token_end_on c (d ∷ s) qe quote slash full =
    let no_quote : (c == b'"') ≡ false = ground (arith, quote) in
    let no_slash : (c == b'\\') ≡ false = ground (arith, slash) in rw (no_slash, no_quote) refl

closed_full : (t rest : Bytes) → t ++ (b'"' ∷ rest) ≢ []
closed_full [] rest e = cc e
closed_full (c ∷ t) rest e = cc e

-- The inner loop stops at the closing quote.
token_end-closing :
    (t rest : Bytes) (qe : ℕ) → IsToken t → token_end (t ++ (b'"' ∷ rest)) qe ≡ qe + length t
token_end-closing [] rest qe h = token_end_here rest qe ∙ omega arith
token_end-closing (c ∷ t) rest qe ((quote, quotes), (slash, slashes)) =
    token_end_on c (t ++ (b'"' ∷ rest)) qe quote slash (closed_full t rest)
    ∙ token_end-closing t rest (qe + 1) (quotes, slashes)
    ∙ omega arith

-- One round of the outer loop.
token_loop-round :
    (rounds : ℕ) (arr : Bytes) (p qs qe : ℕ)
    → ltb p (length arr) ≡ true
    → find arr (b'"' ∷ []) p ≡ some qs
    → token_end (drop (qs + 1) arr) (qs + 1) ≡ qe
    → token_loop (suc rounds) arr p
      ≡ substr arr (qs + 1) (qe - qs - 1) ∷ token_loop rounds arr (qe + 1)
unfolding token_loop
token_loop-round rounds arr p qs qe inside opens ends = rw (inside, opens, token_loop, ends)

token_loop-next :
    (rounds : ℕ) (arr front gap t rest : Bytes)
    → arr ≡ front ++ (gap ++ (quoted t ++ rest))
    → Lacks b'"' gap
    → IsToken t
    → token_loop (suc rounds) arr (length front)
      ≡ t ∷ token_loop rounds arr (length (front ++ (gap ++ quoted t)))
token_loop-next rounds arr front gap t rest e no_quote token =
    let before : Bytes = front ++ gap in
    let inside : Bytes = before ++ (b'"' ∷ []) in
    let at_gap : arr ≡ front ++ (gap ++ (b'"' ∷ (t ++ (b'"' ∷ rest)))) = e ∙ simp append_assoc in
    let at_token : arr ≡ inside ++ (t ++ (b'"' ∷ rest)) = e ∙ simp append_assoc in
    let k : length front + length gap + 1 ≡ length inside =
      omega (arith, length-append before (b'"' ∷ []), length-append front gap) in
    let room : ltb (length front) (length arr) ≡ true = ground (
      arith,
      ap length at_gap,
      length-append front (gap ++ (b'"' ∷ (t ++ (b'"' ∷ rest)))),
      length-append gap (b'"' ∷ (t ++ (b'"' ∷ rest))),
    ) in
    let opens : find arr (b'"' ∷ []) (length front) ≡ some (length front + length gap) =
      ap (λ a. find a (b'"' ∷ []) (length front)) at_gap
      ∙ find-append front (gap ++ (b'"' ∷ (t ++ (b'"' ∷ rest)))) (b'"' ∷ [])
      ∙ find_at-skip b'"' [] gap (b'"' ∷ (t ++ (b'"' ∷ rest))) (length front) no_quote
      ∙ find_at-append (b'"' ∷ []) (t ++ (b'"' ∷ rest)) (length front + length gap) in
    let behind : drop (length front + length gap + 1) arr ≡ t ++ (b'"' ∷ rest) =
      rw (k, at_token) (drop-append inside (t ++ (b'"' ∷ rest))) in
    let ends : token_end (drop (length front + length gap + 1) arr) (length front + length gap + 1)
        ≡ length front + length gap + 1 + length t =
      rw behind (token_end-closing t rest (length front + length gap + 1) token) in
    let count : length front + length gap + 1 + length t - (length front + length gap) - 1
        ≡ length t =
      omega arith in
    let after : length front + length gap + 1 + length t + 1 ≡ length (front ++ (gap ++ quoted t)) =
      omega (
        arith,
        length-append front (gap ++ quoted t),
        length-append gap (quoted t),
        length-append t (b'"' ∷ []),
      ) in
    token_loop-round rounds arr (length front) (length front + length gap)
      (length front + length gap + 1 + length t) room opens ends
    ∙ ap₂ (λ token p. token ∷ token_loop rounds arr p)
        (rw (count, behind) (take-append t (b'"' ∷ rest))) after

loop_more :
    (ts : List Bytes) (rounds : ℕ) (arr front : Bytes)
    → All IsToken ts
    → arr ≡ front ++ more_tokens ts
    → length ts ≤ rounds
    → token_loop rounds arr (length front) ≡ ts
loop_more [] zero arr front h e enough = unfold token_loop in refl
loop_more [] (suc rounds) arr front h e enough =
    let over : ltb (length front) (length arr) ≡ false =
      ground (arith, ap length (e ∙ append-nil front)) in
    unfold token_loop in rw over refl
loop_more (t ∷ ts) zero arr front h e enough = absurd (omega (arith, enough))
loop_more (t ∷ ts) (suc rounds) arr front (token, h) e enough =
    let later : arr ≡ (front ++ (b',' ∷ quoted t)) ++ more_tokens ts =
      e ∙ sym (append_assoc front (b',' ∷ quoted t) (more_tokens ts)) in
    token_loop-next rounds arr front (b',' ∷ []) t (more_tokens ts) e
      ((λ c. absurd (omega (arith, c))), tt) token
    ∙ ap (◌∷◌ t)
        (loop_more ts rounds arr (front ++ (b',' ∷ quoted t)) h later (omega (arith, enough)))

length-more_tokens : (ts : List Bytes) → length ts ≤ length (more_tokens ts)
length-more_tokens [] = omega arith
length-more_tokens (t ∷ ts) =
    omega (arith, length-more_tokens ts, length-append (quoted t) (more_tokens ts))

-- Written tokens are read back.
pub read_tokens-token_list : (ts : List Bytes) → All IsToken ts → read_tokens (token_list ts) ≡ ts
unfolding read_tokens
read_tokens-token_list [] h = unfold token_loop in refl
read_tokens-token_list (t ∷ ts) (token, h) =
    let rest : Bytes = (t ++ (b'"' ∷ [])) ++ more_tokens ts in
    let enough : length ts ≤ length rest =
      omega (arith, length-more_tokens ts, length-append (t ++ (b'"' ∷ [])) (more_tokens ts)) in
    token_loop-next (length rest) (token_list (t ∷ ts)) [] [] t (more_tokens ts) refl tt token
    ∙ ap (◌∷◌ t) (loop_more ts (length rest) (token_list (t ∷ ts)) (quoted t) h refl enough)
