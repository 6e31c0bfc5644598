-- ===== src/Auth/Laws.antt =====
-- Which header values `verify` of backend/src/auth.hpp accepts, in terms that do not use the
-- program's own functions on texts.
use frag.Prelude.{
  ℕ, zero, suc, ◌≡◌, ◌≢◌, ◌↔◌, refl, sym, ap, ◌∙◌, ◌⊎◌, inl, inr, true, false, List, [], ◌∷◌, ◌++◌,
  arith, length, take, drop, take-append, drop-append, Bool-cases,
}
use frag.Text.{Bytes, codes, same}
use frag.Text.Laws.{same_iff}
use frag.Utils.Case.{to_lower}
use frag.Utils.Trim.{trim}
use frag.Utils.Trim.Laws.{trim-IsTrimmed}
use frag.Auth.Words.{
  InAnyCase, IsStripped, IsTrimmed-IsStripped, IsStripped-trim, to_lower-InAnyCase,
  InAnyCase-to_lower, length-InAnyCase,
}
use frag.Auth.{Auth, contains, bearer, presented, verify, empty}

-- A configured token.
abbrev pub IsToken : List Bytes → Bytes → Type 0
IsToken [] t = ⊥
IsToken (x ∷ xs) t = (x ≡ t) ⊎ IsToken xs t

contains_iff : (tokens : List Bytes) (t : Bytes) → (contains tokens t ≡ true) ↔ IsToken tokens t
unfolding contains
contains_iff [] t = (λ h. cc, λ h. absurd h)
contains_iff (x ∷ xs) t = ground (arith, same_iff x t, contains_iff xs t)

-- What a header value presents: behind the word "bearer " in any case the rest without white space
-- at its ends, and without that word itself.
pub data Presents (header_value t : Bytes) : Type 0 where
  scheme :
      (word rest : Bytes)
      → header_value ≡ word ++ rest
      → InAnyCase word (codes "bearer ")
      → IsStripped rest t
      → Presents header_value t
  raw :
      ((word rest : Bytes) → header_value ≡ word ++ rest → InAnyCase word (codes "bearer ") → ⊥)
      → header_value ≡ t
      → Presents header_value t

presented-bearer :
    (word rest : Bytes) → InAnyCase word (codes "bearer ") → presented (word ++ rest) ≡ trim rest
unfolding presented same
presented-bearer word rest h =
    let n : length word ≡ 7 = length-InAnyCase word (codes "bearer ") h in
    let front : take 7 (word ++ rest) ≡ word = rw (← n) (take-append word rest) in
    let back : drop 7 (word ++ rest) ≡ rest = rw (← n) (drop-append word rest) in
    let e : to_lower word ≡ bearer = InAnyCase-to_lower word bearer (ground arith) h in
    rw (front, back, e)

presented_raw :
    (header_value : Bytes)
    → to_lower (take 7 header_value) ≢ bearer
    → presented header_value ≡ header_value
unfolding presented same
presented_raw h ne = ground (arith, same_iff (to_lower (take 7 h)) bearer)

take-drop : (n : ℕ) (s : Bytes) → s ≡ take n s ++ drop n s
take-drop zero s = refl
take-drop (suc n) [] = refl
take-drop (suc n) (c ∷ s) = ap (◌∷◌ c) (take-drop n s)

presented-Presents : (h : Bytes) → Presents h (presented h)
presented-Presents h = elim (Bool-cases (same (to_lower (take 7 h)) bearer)) [
  | inl found ↦
      let any =
        to_lower-InAnyCase (take 7 h) bearer (ground arith)
          ((same_iff (to_lower (take 7 h)) bearer).0 found) in
      let e : presented h ≡ trim (drop 7 h) =
        ap presented (take-drop 7 h) ∙ presented-bearer (take 7 h) (drop 7 h) any in
      scheme (take 7 h) (drop 7 h) (take-drop 7 h) any
        (rw e (IsTrimmed-IsStripped (drop 7 h) (trim (drop 7 h)) (trim-IsTrimmed (drop 7 h))))
  | inr lacks ↦
      let ne : to_lower (take 7 h) ≢ bearer =
        λ e. cc (lacks, (same_iff (to_lower (take 7 h)) bearer).1 e) in
      raw
        (λ word rest split any.
          let n : length word ≡ 7 = length-InAnyCase word bearer any in
          let front : take 7 h ≡ word = rw (split, ← n) (take-append word rest) in
          ne (ap to_lower front ∙ InAnyCase-to_lower word bearer (ground arith) any))
        (sym (presented_raw h ne))
]

Presents-presented : (h t : Bytes) → Presents h t → presented h ≡ t
Presents-presented h t (scheme word rest split any stripped) =
    ap presented split ∙ presented-bearer word rest any ∙ IsStripped-trim rest t stripped
Presents-presented h t (raw lacks e) =
    presented_raw h (λ found.
      lacks (take 7 h) (drop 7 h) (take-drop 7 h)
        (to_lower-InAnyCase (take 7 h) bearer (ground arith) found))
    ∙ e

-- A header value is accepted exactly when it is not empty and presents a configured token: behind
-- the seven bytes of 'bearer ', each letter small or capital, the rest without spaces, tabs and
-- line ends at both ends; and without those seven bytes the header value itself.
pub verify_iff :
    (auth : Auth) (header_value : Bytes)
    → (verify auth header_value ≡ true)
      ↔ ((header_value ≢ []) × (t : Bytes) × Presents header_value t × IsToken auth.tokens t)
unfolding verify
verify_iff auth [] = (λ h. cc, λ h. absurd (h.0 refl))
verify_iff auth (c ∷ s) = (
  λ h. (
    (λ e. cc e),
    presented (c ∷ s),
    presented-Presents (c ∷ s),
    (contains_iff auth.tokens (presented (c ∷ s))).0 h,
  ),
  λ (_, t, presents, token).
      (contains_iff auth.tokens (presented (c ∷ s))).1
        (rw (Presents-presented (c ∷ s) t presents) token),
)

-- With no token configured every header value is refused.
pub verify_no_tokens :
    (auth : Auth) (header_value : Bytes) → empty auth ≡ true → verify auth header_value ≡ false
unfolding verify empty
verify_no_tokens auth header_value h = ground arith
