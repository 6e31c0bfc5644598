-- ===== src/RateLimiter/Burst.antt =====
-- The limit holds for each window, and the windows start when the first call of one comes: around
-- the end of a window nearly twice the limit goes through.
use frag.Prelude.{
  ℕ, zero, suc, ◌+◌, ◌-◌, ◌*◌, ◌≤◌, ◌<◌, ◌≡◌, refl, ap, ◌∙◌, true, false, List, [], ◌∷◌, ◌++◌,
  append-nil, arith,
}
use frag.Prelude.Int.{pos}
use frag.Text.{Bytes}
use frag.RateLimiter.{Entry, RateLimiter, entry_of, second, is_expired, allow, answers}
use frag.RateLimiter.Window.{allow-max, allow_within, allow_expired, is_expired-start}

abbrev pub repeat {ℓ} : {A : Type ℓ} → ℕ → A → List A
repeat zero a = []
repeat (suc n) a = a ∷ repeat n a

open_at :
    (start now : ℕ)
    → now < start + 60 * second
    → is_expired (record { window_start = start; count = 0 }) now ≡ false
unfolding is_expired
open_at start now h = ground arith

over_at : (e : Entry) (now : ℕ) → e.window_start + 60 * second ≤ now → is_expired e now ≡ true
unfolding is_expired
over_at e now h = ground arith

-- Calls at one moment of the window, as long as the limit leaves room, and then other calls.
answers_room :
    (n : ℕ) (r : RateLimiter) (ip : Bytes) (now m start count : ℕ) (calls : List (Bytes × ℕ))
    → r.max ≡ pos m
    → 0 < m
    → entry_of r ip ≡ record { window_start = start; count = count }
    → now < start + 60 * second
    → count + n ≤ m
    → (after : RateLimiter) × (answers r (repeat n (ip, now) ++ calls)
        ≡ repeat n true ++ answers after calls)
      × (after.max ≡ pos m)
      × (entry_of after ip ≡ record { window_start = start; count = count + n })
unfolding answers
answers_room zero r ip now m start count calls limited positive e h room =
    let same : count + 0 ≡ count = omega arith in (r, refl, limited, rw same e)
answers_room (suc n) r ip now m start count calls limited positive e h room =
    let open_ : is_expired (entry_of r ip) now ≡ false =
      rw e (is_expired-start _ now ∙ open_at start now h) in
    let (entry, answer) = allow_within r ip now m limited positive open_ in
    let answer' : (allow r ip now).1 ≡ true = answer ∙ rw e (ground arith) in
    let (after, rest, limit, last) =
      answers_room n (allow r ip now).0 ip now m start (count + 1) calls
        (allow-max r ip now ∙ limited) positive (entry ∙ rw e) h (omega arith) in
    let same : count + 1 + n ≡ count + suc n = omega arith in
    (after, rw answer' (ap (◌∷◌ true) rest), limit, rw (← same) last)

abbrev pub burst : Bytes → ℕ → ℕ → List (Bytes × ℕ)
burst ip m t =
    (ip, t)
    ∷ (repeat (m - 1) (ip, t + 60 * second - 1)
        ++ ((ip, t + 60 * second) ∷ repeat (m - 1) (ip, t + 60 * second)))

repeat-append : (n k : ℕ) → repeat n true ++ (true ∷ repeat k true) ≡ repeat (n + suc k) true
repeat-append zero k = let e : 0 + suc k ≡ suc k = omega arith in rw e
repeat-append (suc n) k =
    let e : suc n + suc k ≡ suc (n + suc k) = omega arith in
    rw e (ap (◌∷◌ true) (repeat-append n k))

module _ (r : RateLimiter) (ip : Bytes) (m : ℕ) (limited : r.max ≡ pos m) (positive : 0 < m) where
  answers_window :
      (t now : ℕ) (calls : List (Bytes × ℕ))
      → is_expired (entry_of r ip) t ≡ true
      → now < t + 60 * second
      → (after : RateLimiter) × (answers r ((ip, t) ∷ (repeat (m - 1) (ip, now) ++ calls))
          ≡ true ∷ (repeat (m - 1) true ++ answers after calls))
        × (after.max ≡ pos m)
        × ((entry_of after ip).window_start ≡ t)
  unfolding answers
  answers_window t now calls over h =
      let (entry, answer) = allow_expired r ip t m limited positive over in
      let (after, rest, limit, last) =
        answers_room (m - 1) (allow r ip t).0 ip now m t 1 calls (allow-max r ip t ∙ limited)
          positive entry h (omega arith) in
      (after, rw answer (ap (◌∷◌ true) rest), limit, rw last refl)

  -- All at one moment.
  answers_moment :
      (t : ℕ)
      → is_expired (entry_of r ip) t ≡ true
      → answers r ((ip, t) ∷ repeat (m - 1) (ip, t)) ≡ true ∷ repeat (m - 1) true
  unfolding answers
  answers_moment t over =
      let (_, all, _, _) = answers_window t t [] over (omega arith) in
      rw (append-nil {A = Bytes × ℕ} (repeat (m - 1) (ip, t)), append-nil (repeat (m - 1) true)) at
        all

-- With a positive limit and an address whose window is over, twice the limit of calls are all
-- permitted: one that opens a window, one less than the limit in its last nanosecond, and as many
-- as the limit in the nanosecond after it.
pub answers-burst :
    (r : RateLimiter) (ip : Bytes) (m t : ℕ)
    → r.max ≡ pos m
    → 0 < m
    → is_expired (entry_of r ip) t ≡ true
    → answers r (burst ip m t) ≡ repeat (m + m) true
answers-burst r ip m t limited positive over =
    let count : suc (m - 1 + suc (m - 1)) ≡ m + m = omega arith in
    let t' : ℕ = t + 60 * second in
    let (after, first, limit, start) =
      answers_window r ip m limited positive t (t' - 1) ((ip, t') ∷ repeat (m - 1) (ip, t')) over
        (omega arith) in
    let rest = answers_moment after ip m limit positive t' (over_at _ t' (omega (arith, start))) in
    first
    ∙ ap (λ l. true ∷ (repeat (m - 1) true ++ l)) rest
    ∙ ap (◌∷◌ true) (repeat-append (m - 1) (m - 1))
    ∙ ap (λ n. repeat n true) count
