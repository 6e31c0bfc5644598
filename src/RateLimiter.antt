-- ===== src/RateLimiter.antt =====
-- backend/src/rate_limiter.hpp: the per-address limiter. A reading of the steady clock is a number
-- of nanoseconds, an argument of each call. The mutex makes the calls a sequence.
pub mod Window
pub mod Burst
use frag.Prelude.{
  ℕ, ◌+◌, ◌-◌, ◌*◌, ◌/◌, ◌^◌, Bool, true, false, List, [], ◌∷◌, Option, none, some, leb,
  if◌then◌else◌,
}
use frag.Prelude.Int.{ℤ, pos, leb_ℤ}
use frag.Text.{Bytes}
use frag.Dictionary.{get, put}

pub record Entry : Type 0 where
  pub window_start : ℕ
  pub count : ℕ

pub record RateLimiter : Type 0 where
  pub max : ℤ
  pub table : List (Bytes × Entry)

-- `RateLimiter(max_per_minute)`.
abbrev pub rate_limiter : ℤ → RateLimiter
rate_limiter max_per_minute = record { max = max_per_minute; table = [] }

-- `table_[ip]`: an address that is not in the table gets the default entry.
unfoldable pub entry_of : RateLimiter → Bytes → Entry
entry_of r ip = elim (get ip r.table) [
  | none ↦ record { window_start = 0; count = 0 }
  | some entry ↦ entry
]

abbrev pub second : ℕ
second = 1_000_000_000

-- `elapsed >= 60`. Where `now` lies before the start of the window the difference is negative in
-- the code and 0 here; neither reaches 60.
unfoldable pub is_expired : Entry → ℕ → Bool
is_expired entry now = leb 60 ((now - entry.window_start) / second)

-- Whether the request is permitted, and the limiter after it.
unfoldable pub allow : RateLimiter → Bytes → ℕ → RateLimiter × Bool
allow r ip now =
    let entry = entry_of r ip in
    if leb_ℤ r.max (pos 0)
    then (r, true)
    else if is_expired entry now
    then (record r { table = put ip (record { window_start = now; count = 1 }) r.table }, true)
    else (
      record r { table = put ip (record entry { count = entry.count + 1 }) r.table },
      leb_ℤ (pos (entry.count + 1)) r.max,
    )

-- A sequence of calls, each an address and a time, and the answers.
unfoldable pub run : RateLimiter → List (Bytes × ℕ) → RateLimiter
run r [] = r
run r ((ip, now) ∷ calls) = run (allow r ip now).0 calls

unfoldable pub answers : RateLimiter → List (Bytes × ℕ) → List Bool
answers r [] = []
answers r ((ip, now) ∷ calls) = (allow r ip now).1 ∷ answers (allow r ip now).0 calls
