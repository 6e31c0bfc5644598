-- ===== src/App/Config/Tokens/Fuel.antt =====
-- The rounds given to the token loop are enough.
use frag.Prelude.{
  ℕ, zero, suc, ◌+◌, ◌≤◌, ◌≡◌, refl, false, inl, inr, [], ◌∷◌, arith, ltb, length, drop,
  Option-cases,
}
use frag.Text.{Bytes, find}
use frag.Text.Laws.{find_ge}
use frag.App.Config.Tokens.{token_end, token_loop}

token_end_ge : (s : Bytes) (qe : ℕ) → qe ≤ token_end s qe
unfolding token_end
token_end_ge [] qe = omega arith
token_end_ge (c ∷ []) qe = ground arith
token_end_ge (c ∷ d ∷ s) qe = ground (arith, token_end_ge s (qe + 2), token_end_ge (d ∷ s) (qe + 1))

-- Any two numbers of rounds that are at least the number of bytes from the position on give the
-- same tokens.
token_loop_enough :
    (f g : ℕ) (arr : Bytes) (p : ℕ)
    → length arr ≤ p + f
    → length arr ≤ p + g
    → token_loop f arr p ≡ token_loop g arr p
unfolding token_loop
token_loop_enough zero zero arr p h k = refl
token_loop_enough zero (suc g) arr p h k =
    let over : ltb p (length arr) ≡ false = ground arith in rw over
token_loop_enough (suc f) zero arr p h k =
    let over : ltb p (length arr) ≡ false = ground arith in rw over
token_loop_enough (suc f) (suc g) arr p h k = elim (Option-cases (find arr (b'"' ∷ []) p)) [
  | inl e ↦ rw (e, token_loop)
  | inr (qs, e) ↦
      let qe = token_end (drop (qs + 1) arr) (qs + 1) in
      let forward = find_ge arr (b'"' ∷ []) p qs e in
      let grown = token_end_ge (drop (qs + 1) arr) (qs + 1) in
      rw (e, token_loop, token_loop_enough f g arr (qe + 1) (omega arith) (omega arith))
]
