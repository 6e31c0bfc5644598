-- ===== src/App/Process/Stop.antt =====
-- A stop that comes while the server runs ends the process.
use frag.Prelude.{ℕ, ◌+◌, ◌≤◌, ◌≡◌, ◌≢◌, refl, sym, ◌∙◌, false, arith}
use frag.Prelude.Int.{ℤ}
use frag.Server.Lifecycle.{Sockets, close_listener}
use frag.App.Process.{
  ServerPhase, MainPhase, Process, Step, Run, signals, opens, fails, marks, enters, leaves, accepts,
  retries, breaks, stops, closes, joins, done, next, starting, opened, looping, accepting, finished,
  polling, stopping, joining, exited,
}

-- The steps that a phase has still to do once the server is to stop.
unfoldable pub server_work : ServerPhase → ℕ
server_work starting = 4
server_work opened = 3
server_work looping = 1
server_work accepting = 2
server_work finished = 0

unfoldable pub main_work : MainPhase → ℕ
main_work polling = 3
main_work stopping = 2
main_work joining = 1
main_work exited = 0

module _ (sockets : Sockets) (port : ℤ) where
  abbrev pub work : Process sockets → ℕ
  work p = server_work p.server + main_work p.main

  -- `stop` has reset `running_` of a server that had set it.
  pub record Stopped (p : Process sockets) : Type 0 where
    pub resets : p.listener.running ≡ false
    pub has_stopped : p.main ≢ polling
    pub has_run : (p.server ≢ starting) × (p.server ≢ opened)

  -- Every step but a signal counts.
  unfoldable pub moves : {p q : Process sockets} → Step sockets port p q → ℕ
  moves (signals p) = 0
  moves _ = 1

  unfoldable pub total_moves : {p q : Process sockets} → Run sockets port p q → ℕ
  total_moves (done p) = 0
  total_moves (next step run) = moves step + total_moves run

  Stopped-Step :
      {p q : Process sockets} (step : Step sockets port p q)
      → Stopped p
      → Stopped q × (moves step + work q ≤ work p)
  unfolding server_work main_work close_listener moves
  Stopped-Step (signals p) h =
      (record { resets = h.resets; has_stopped = h.has_stopped; has_run = h.has_run }, omega arith)
  Stopped-Step (opens p l net s e) h = absurd (h.has_run.0 s)
  Stopped-Step (fails p msg l net s e) h = absurd (h.has_run.0 s)
  Stopped-Step (marks p s) h = absurd (h.has_run.1 s)
  Stopped-Step (enters p s r) h = cc (r, h.resets)
  Stopped-Step (leaves p s r) h =
      (record { resets = r; has_stopped = h.has_stopped; has_run = (cc, cc) }, rw s (omega arith))
  Stopped-Step (accepts p fd s) h = (
    record { resets = h.resets; has_stopped = h.has_stopped; has_run = (cc, cc) },
    rw s (omega arith),
  )
  Stopped-Step (retries p s r) h = cc (r, h.resets)
  Stopped-Step (breaks p s r) h =
      (record { resets = r; has_stopped = h.has_stopped; has_run = (cc, cc) }, rw s (omega arith))
  Stopped-Step (stops p m g) h = absurd (h.has_stopped m)
  Stopped-Step (closes p m) h =
      (record { resets = h.resets; has_stopped = cc; has_run = h.has_run }, rw m (omega arith))
  Stopped-Step (joins p m s) h =
      (record { resets = h.resets; has_stopped = cc; has_run = h.has_run }, rw m (omega arith))

  pub Stopped-Run :
      {p q : Process sockets} (run : Run sockets port p q)
      → Stopped p
      → Stopped q × (total_moves run + work q ≤ work p)
  unfolding total_moves
  Stopped-Run (done p) h = (h, omega arith)
  Stopped-Run (next step run) h =
      let (h', fewer) = Stopped-Step step h in
      let (last, rest) = Stopped-Run run h' in (last, omega (arith, fewer, rest))

  followed_by :
      {p q r : Process sockets} → Run sockets port p q → Run sockets port q r → Run sockets port p r
  followed_by (done p) later = later
  followed_by (next step run) later = next step (followed_by run later)

  abbrev ServerEnds : Process sockets → Type 0
  ServerEnds p =
      (q : Process sockets) × Run sockets port p q × (q.server ≡ finished) × (q.main ≡ p.main)

  server_ends : (p : Process sockets) → Stopped p → ServerEnds p
  server_ends p h = ends p.server refl
    where
      ends : (phase : ServerPhase) → p.server ≡ phase → ServerEnds p
      ends starting s = absurd (h.has_run.0 s)
      ends opened s = absurd (h.has_run.1 s)
      ends looping s = (_, next (leaves p s h.resets) (done _), refl, refl)
      ends accepting s = (_, next (breaks p s h.resets) (done _), refl, refl)
      ends finished s = (p, done p, s, refl)

  main_ends :
      (p : Process sockets)
      → p.server ≡ finished
      → p.main ≢ polling
      → (q : Process sockets) × Run sockets port p q × (q.main ≡ exited)
  main_ends p s h = ends p.main refl
    where
      ends :
          (phase : MainPhase)
          → p.main ≡ phase
          → (q : Process sockets) × Run sockets port p q × (q.main ≡ exited)
      ends polling m = absurd (h m)
      ends stopping m = (_, next (closes p m) (next (joins _ refl s) (done _)), refl)
      ends joining m = (_, next (joins p m s) (done _), refl)
      ends exited m = (p, done p, m)

  -- The socket is closed first, so that `accept` can return.
  closes_first :
      (p : Process sockets) → Stopped p → (q : Process sockets) × Run sockets port p q × Stopped q
  closes_first p h = closed p.main refl
    where
      closed :
          (phase : MainPhase)
          → p.main ≡ phase
          → (q : Process sockets) × Run sockets port p q × Stopped q
      closed stopping m = (_, next (closes p m) (done _), (Stopped-Step (closes p m) h).0)
      closed _ m = (p, done p, h)

  -- Once main has reset the flag of a server that had set it, every run makes, apart from signals,
  -- at most as many steps as were left to do, accepted connections included; and from wherever the
  -- run has come, some run goes on to the exit of main, on which a blocked accept returns.
  pub exits_behind_stop :
      {p q : Process sockets} (run : Run sockets port p q)
      → Stopped p
      → (total_moves run + work q ≤ work p)
        × ((r : Process sockets) × Run sockets port q r × (r.main ≡ exited))
  exits_behind_stop {q = q} run h =
      let (h_q, bound) = Stopped-Run run h in
      let (a, to_a, h_a) = closes_first q h_q in
      let (b, to_b, s, m) = server_ends a h_a in
      let (r, to_r, e) = main_ends b s (λ polls. h_a.has_stopped (sym m ∙ polls)) in
      (bound, (r, followed_by to_a (followed_by to_b to_r), e))
