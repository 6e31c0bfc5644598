-- ===== src/App/Cleanup/Stop.antt =====
-- What the clean-up thread of backend/src/main.cpp still does once the stop flag is set.
use frag.Prelude.{ℕ, ◌+◌, ◌≤◌, ◌≡◌, ◌⊎◌, inl, inr, refl, true, arith}
use frag.Database.Sqlite.{Sqlite}
use frag.App.Cleanup.{
  CleanupPhase, CleanupThread, Tick, Ticks, testing, sleeping, purging, ended, signals, changes,
  sleeps, ends, wakes, breaks, purges, still, then_,
}

module _ (sqlite : Sqlite) where
  -- The steps of the thread itself, and the clean-ups among them.
  unfoldable pub own_steps : {t u : CleanupThread sqlite} → Tick sqlite t u → ℕ
  own_steps (signals t) = 0
  own_steps (changes t w) = 0
  own_steps _ = 1

  unfoldable pub clean_ups : {t u : CleanupThread sqlite} → Tick sqlite t u → ℕ
  clean_ups (purges t _) = 1
  clean_ups _ = 0

  unfoldable pub all_steps : {t u : CleanupThread sqlite} → Ticks sqlite t u → ℕ
  all_steps (still t) = 0
  all_steps (then_ tick ticks) = own_steps tick + all_steps ticks

  unfoldable pub all_clean_ups : {t u : CleanupThread sqlite} → Ticks sqlite t u → ℕ
  all_clean_ups (still t) = 0
  all_clean_ups (then_ tick ticks) = clean_ups tick + all_clean_ups ticks

  -- The steps and the clean-ups that are left once the flag is set.
  unfoldable steps_left : CleanupPhase → ℕ
  steps_left purging = 2
  steps_left testing = 1
  steps_left sleeping = 1
  steps_left ended = 0

  unfoldable clean_ups_left : CleanupPhase → ℕ
  clean_ups_left purging = 1
  clean_ups_left _ = 0

  one_bound :
      {t u : CleanupThread sqlite} (tick : Tick sqlite t u)
      → t.g_stop ≡ true
      → (u.g_stop ≡ true)
        × (own_steps tick + steps_left u.phase ≤ steps_left t.phase)
        × (clean_ups tick + clean_ups_left u.phase ≤ clean_ups_left t.phase)
  unfolding own_steps clean_ups steps_left clean_ups_left
  one_bound (signals t) h = (refl, omega arith, omega arith)
  one_bound (changes t w) h = (h, omega arith, omega arith)
  one_bound (sleeps t p g) h = cc (g, h)
  one_bound (ends t p g) h = (h, rw p (omega arith), rw p (omega arith))
  one_bound (wakes t p g) h = cc (g, h)
  one_bound (breaks t p g) h = (h, rw p (omega arith), rw p (omega arith))
  one_bound (purges t p) h = (h, rw p (omega arith), rw p (omega arith))

  run_bound :
      {t u : CleanupThread sqlite} (ticks : Ticks sqlite t u)
      → t.g_stop ≡ true
      → (u.g_stop ≡ true)
        × (all_steps ticks + steps_left u.phase ≤ steps_left t.phase)
        × (all_clean_ups ticks + clean_ups_left u.phase ≤ clean_ups_left t.phase)
  unfolding all_steps all_clean_ups
  run_bound (still t) h = (h, omega arith, omega arith)
  run_bound (then_ tick ticks) h =
      let (h', steps, rounds) = one_bound tick h in
      let (last, steps', rounds') = run_bound ticks h' in
      (last, omega (arith, steps, steps'), omega (arith, rounds, rounds'))

  abbrev GoesOn : CleanupThread sqlite → Type 0
  GoesOn u = (v : CleanupThread sqlite) × ((tick : Tick sqlite u v) × (own_steps tick ≡ 1))

  goes_on : (u : CleanupThread sqlite) → u.g_stop ≡ true → (u.phase ≡ ended) ⊎ GoesOn u
  unfolding own_steps
  goes_on u h = by_phase u.phase refl
    where
      by_phase : (phase : CleanupPhase) → u.phase ≡ phase → (u.phase ≡ ended) ⊎ GoesOn u
      by_phase testing p = inr (_, (ends u p h, refl))
      by_phase sleeping p = inr (_, (breaks u p h, refl))
      by_phase purging p = inr (_, (purges u p, refl))
      by_phase ended p = inl p

  left_bounds : (phase : CleanupPhase) → (steps_left phase ≤ 2) × (clean_ups_left phase ≤ 1)
  unfolding steps_left clean_ups_left
  left_bounds testing = (omega arith, omega arith)
  left_bounds sleeping = (omega arith, omega arith)
  left_bounds purging = (omega arith, omega arith)
  left_bounds ended = (omega arith, omega arith)

  -- Once the stop flag is set, on every run the clean-up thread makes at most two more steps, among
  -- them at most one clean-up, whatever other threads do to the database; and as long as it has not
  -- ended it can make a step.
  pub stop_bounds_clean_up :
      {t u : CleanupThread sqlite} (ticks : Ticks sqlite t u)
      → t.g_stop ≡ true
      → (all_steps ticks ≤ 2) × (all_clean_ups ticks ≤ 1) × ((u.phase ≡ ended) ⊎ GoesOn u)
  stop_bounds_clean_up {t = t} {u = u} ticks h =
      let (stopped, steps, rounds) = run_bound ticks h in
      let (most, most_rounds) = left_bounds t.phase in
      (omega (arith, steps, most), omega (arith, rounds, most_rounds), goes_on u stopped)
