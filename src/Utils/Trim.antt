-- ===== src/Utils/Trim.antt =====
-- `trim` of backend/src/utils.hpp.
pub mod Laws
pub mod Padding
pub mod Unique
use frag.Prelude.{
  ℕ, ◌+◌, ◌-◌, Bool, ◌||◌, [], ◌∷◌, Option, none, some, ◌==◌, if◌then◌else◌, length, take, drop,
}
use frag.Text.{Bytes, substr}

-- The bytes of " \t\r\n".
unfoldable pub is_blank : ℕ → Bool
is_blank c = c == b' ' || c == b'\t' || c == b'\r' || c == b'\n'

pub first_not_blank : ℕ → Bytes → Option ℕ
first_not_blank i [] = none
first_not_blank i (c ∷ s) = if is_blank c then first_not_blank (i + 1) s else some i

-- The last position so far is carried along.
pub last_not_blank : ℕ → Option ℕ → Bytes → Option ℕ
last_not_blank i found [] = found
last_not_blank i found (c ∷ s) = last_not_blank (i + 1) (if is_blank c then found else some i) s

unfoldable pub trim : Bytes → Bytes
unfolding first_not_blank last_not_blank
trim s = elim (first_not_blank 0 s) [
  | none ↦ []
  | some start ↦ elim (last_not_blank 0 none s) [
    | none ↦ []
    | some end ↦ substr s start (end - start + 1)
  ]
]
