-- ===== src/RateLimiter/Window.antt =====
-- What one window of an address permits, whatever the other addresses do.
use Prim.Native.Nat.{min}
use frag.Prelude.{
  ℕ, ◌+◌, ◌-◌, ◌<◌, ◌≡◌, refl, ◌∙◌, true, false, inl, inr, List, [], ◌∷◌, arith, leb, if◌then◌else◌,
  All, Bool-cases,
}
use frag.Prelude.Int.{pos, leb_ℤ}
use frag.Text.{Bytes, same}
use frag.Text.Laws.{same_iff, same_refl}
use frag.Dictionary.{put, get-put_self, get-put_ne}
use frag.RateLimiter.{Entry, RateLimiter, entry_of, is_expired, allow}

-- The calls of one address, and how many of its calls are permitted.
unfoldable pub count_calls : Bytes → List (Bytes × ℕ) → ℕ
count_calls ip [] = 0
count_calls ip ((j, _) ∷ calls) = (if same j ip then 1 else 0) + count_calls ip calls

unfoldable pub permitted : RateLimiter → Bytes → List (Bytes × ℕ) → ℕ
permitted r ip [] = 0
permitted r ip ((j, now) ∷ calls) =
    (if same j ip then (if (allow r j now).1 then 1 else 0) else 0)
    + permitted (allow r j now).0 ip calls

pub allow-max : (r : RateLimiter) (ip : Bytes) (now : ℕ) → (allow r ip now).0.max ≡ r.max
unfolding allow
allow-max r ip now = ground arith

-- The entry of another address stays as it is.
pub entry_of-allow_ne :
    (r : RateLimiter) (ip j : Bytes) (now : ℕ)
    → same j ip ≡ false
    → entry_of (allow r j now).0 ip ≡ entry_of r ip
unfolding allow entry_of
entry_of-allow_ne r ip j now e = ground (
  arith,
  get-put_ne j ip (record { window_start = now; count = 1 }) r.table e,
  get-put_ne j ip (record (entry_of r j) { count = (entry_of r j).count + 1 }) r.table e,
)

entry_of-put_self :
    (r : RateLimiter) (ip : Bytes) (e : Entry)
    → entry_of (record r { table = put ip e r.table }) ip ≡ e
unfolding entry_of
entry_of-put_self r ip e = rw (get-put_self ip e r.table, entry_of)

module _ (r : RateLimiter) (ip : Bytes) (now m : ℕ) (limited : r.max ≡ pos m)
    (positive : 0 < m) where
  -- Within its window a call is counted, and permitted as long as the count is within the limit.
  pub allow_within :
      is_expired (entry_of r ip) now ≡ false
      → (entry_of (allow r ip now).0 ip
          ≡ record (entry_of r ip) { count = (entry_of r ip).count + 1 })
        × ((allow r ip now).1 ≡ leb ((entry_of r ip).count + 1) m)
  unfolding allow
  allow_within e =
      let next : Entry = record (entry_of r ip) { count = (entry_of r ip).count + 1 } in
      (ground (arith, entry_of-put_self r ip next), ground arith)

  -- The first call after the window opens another.
  pub allow_expired :
      is_expired (entry_of r ip) now ≡ true
      → (entry_of (allow r ip now).0 ip ≡ record { window_start = now; count = 1 })
        × ((allow r ip now).1 ≡ true)
  unfolding allow
  allow_expired e =
      let next : Entry = record { window_start = now; count = 1 } in
      (ground (arith, entry_of-put_self r ip next), ground arith)

-- No call of the list comes after the window that starts at `start`.
abbrev pub Within : ℕ → List (Bytes × ℕ) → Type 0
Within start = All (λ call. is_expired (record { window_start = start; count = 0 }) call.1 ≡ false)

-- Whether a window is over depends on its start alone.
pub is_expired-start :
    (e : Entry) (now : ℕ)
    → is_expired e now ≡ is_expired (record { window_start = e.window_start; count = 0 }) now
unfolding is_expired
is_expired-start e now = refl

permitted-Within :
    (r : RateLimiter) (ip : Bytes) (calls : List (Bytes × ℕ)) (m start count : ℕ)
    → r.max ≡ pos m
    → 0 < m
    → entry_of r ip ≡ record { window_start = start; count = count }
    → Within start calls
    → permitted r ip calls ≡ min (count_calls ip calls) (m - count)
unfolding permitted count_calls
permitted-Within r ip [] m start count limited positive e h = omega arith
permitted-Within r ip ((j, now) ∷ calls) m start count limited positive e (h, hs) =
    elim (Bool-cases (same j ip)) [
      | inr other ↦
          let later : permitted (allow r j now).0 ip calls
              ≡ min (count_calls ip calls) (m - count) =
            permitted-Within (allow r j now).0 ip calls m start count (allow-max r j now ∙ limited)
              positive (entry_of-allow_ne r ip j now other ∙ e) hs in
          rw other (omega arith)
      | inl equal ↦
          let open_ : is_expired (entry_of r ip) now ≡ false = rw e (is_expired-start _ now ∙ h) in
          let (entry, answer) = allow_within r ip now m limited positive open_ in
          let answer' : (allow r ip now).1 ≡ leb (count + 1) m = answer ∙ rw e in
          let later : permitted (allow r ip now).0 ip calls
              ≡ min (count_calls ip calls) (m - (count + 1)) =
            permitted-Within (allow r ip now).0 ip calls m start (count + 1)
              (allow-max r ip now ∙ limited) positive (entry ∙ rw e) hs in
          rw ((same_iff j ip).0 equal, same_refl ip, answer') (ground (arith, later))
    ]

-- With a positive limit, and for calls that all lie in the present window of an address, as many
-- calls of the address are permitted as there are, but at most as many as the limit leaves room
-- for, however the calls of other addresses lie between.
pub permitted-eq-min :
    (r : RateLimiter) (ip : Bytes) (calls : List (Bytes × ℕ)) (m : ℕ)
    → r.max ≡ pos m
    → 0 < m
    → Within (entry_of r ip).window_start calls
    → permitted r ip calls ≡ min (count_calls ip calls) (m - (entry_of r ip).count)
permitted-eq-min r ip calls m limited positive h =
    permitted-Within r ip calls m (entry_of r ip).window_start (entry_of r ip).count limited
      positive refl h

-- A limit of zero or less permits every call and records nothing.
pub allow_disabled :
    (r : RateLimiter) (ip : Bytes) (now : ℕ)
    → leb_ℤ r.max (pos 0) ≡ true
    → allow r ip now ≡ (r, true)
unfolding allow
allow_disabled r ip now h = rw h
