-- ===== src/App/Process/Race.antt =====
-- A stop that comes before `start` has set `running_` is lost.
use frag.Prelude.{◌≡◌, ◌≢◌, ◌⊎◌, refl, true, false, [], inl, inr, arith}
use frag.Prelude.Int.{ℤ}
use frag.Database.Operations.{ok}
use frag.Server.Lifecycle.{Sockets, Listener, new_listener, open_listener, close_listener}
use frag.App.Process.{
  Process, launched, Step, Run, signals, opens, fails, marks, enters, leaves, accepts, retries,
  breaks, stops, closes, joins, done, next, opened, looping, accepting, finished, joining,
}

module _ (sockets : Sockets) (port : ℤ) where
  -- The main thread waits for the server's thread, which runs, or is about to set `running_`.
  pub record Lost (p : Process sockets) : Type 0 where
    pub waits : p.main ≡ joining
    pub server_runs :
        (p.server ≡ opened)
        ⊎ (((p.server ≡ looping) ⊎ (p.server ≡ accepting)) × (p.listener.running ≡ true))

  Lost-Step : {p q : Process sockets} → Step sockets port p q → Lost p → Lost q
  Lost-Step (signals p) h = record { waits = h.waits; server_runs = h.server_runs }
  Lost-Step (opens p l net s e) h = ground (arith, s, h.server_runs)
  Lost-Step (fails p msg l net s e) h = ground (arith, s, h.server_runs)
  Lost-Step (marks p s) h = record { waits = h.waits; server_runs = inr (inl refl, refl) }
  Lost-Step (enters p s r) h = record { waits = h.waits; server_runs = inr (inr refl, r) }
  Lost-Step (leaves p s r) h = ground (arith, s, r, h.server_runs)
  Lost-Step (accepts p fd s) h = record {
    waits = h.waits;
    server_runs = inr (inl refl, ground (arith, s, h.server_runs));
  }
  Lost-Step (retries p s r) h = record { waits = h.waits; server_runs = inr (inl refl, r) }
  Lost-Step (breaks p s r) h = ground (arith, s, r, h.server_runs)
  Lost-Step (stops p m g) h = cc (m, h.waits)
  Lost-Step (closes p m) h = cc (m, h.waits)
  Lost-Step (joins p m s) h = ground (arith, s, h.server_runs)

  Lost-Run : {p q : Process sockets} → Run sockets port p q → Lost p → Lost q
  Lost-Run (done p) h = h
  Lost-Run (next step run) h = Lost-Run run (Lost-Step step h)

  -- The state in which the signal came first, and `main` has stopped the server between `listen` and
  -- `running_ = true`.
  abbrev pub late : Listener → sockets.Net → Process sockets
  late l net = record {
    g_stop = true;
    listener = (close_listener sockets (record l { running = false }) net).0;
    net = (close_listener sockets (record l { running = false }) net).1;
    server = opened;
    main = joining;
    accepted = [];
  }

  reaches_late :
      (net net' : sockets.Net) (l : Listener)
      → open_listener sockets port new_listener net ≡ (ok tt, l, net')
      → Run sockets port (launched sockets net) (late l net')
  reaches_late net net' l opens_it = next (signals _) (
      next (opens _ l net' refl opens_it)
        (next (stops _ refl refl) (next (closes _ refl) (done _))))

  -- If the socket can be opened, a run leads from the launch to a state where the signal has come
  -- and main has stopped the server between listen and running_ = true; and on every run from there
  -- main stays in join and the server never finishes.
  pub late_start_hangs :
      (net net' : sockets.Net) (l : Listener)
      → open_listener sockets port new_listener net ≡ (ok tt, l, net')
      → (q : Process sockets) → Run sockets port (late l net') q
      → Run sockets port (launched sockets net) (late l net')
        × (q.main ≡ joining)
        × (q.server ≢ finished)
  late_start_hangs net net' l opens_it q run =
      let h = Lost-Run run (record { waits = refl; server_runs = inl refl }) in
      (reaches_late net net' l opens_it, h.waits, ground (arith, h.server_runs))
