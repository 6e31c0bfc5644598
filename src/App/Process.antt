-- ===== src/App/Process.antt =====
-- The threads of `main` (backend/src/main.cpp) that start and stop the server: the main thread,
-- which waits for the stop flag, and the thread in `HttpServer::start` (backend/src/server.cpp).
-- A step is what one thread does between two accesses of the shared variables.
pub mod Stop
pub mod Race
use frag.Prelude.{ℕ, ◌≡◌, Bool, true, false, List, [], ◌∷◌}
use frag.Prelude.Int.{ℤ}
use frag.Text.{Bytes}
use frag.Database.Operations.{Result, ok, throw}
use frag.Server.Lifecycle.{Sockets, Listener, new_listener, open_listener, close_listener}

-- Where `start` is: before the socket is open; behind it, with `running_` not yet set; at the test
-- of the accept loop; in `accept`; or back.
pub data ServerPhase : Type 0 where
  starting opened looping accepting finished : ServerPhase

-- Where `main` is: in the loop over the stop flag; in `stop` behind `running_ = false`; in
-- `join`; or back, with the exit code 0.
pub data MainPhase : Type 0 where
  polling stopping joining exited : MainPhase

module _ (sockets : Sockets) where
  pub record Process : Type 0 where
    pub g_stop : Bool
    pub listener : Listener
    pub net : sockets.Net
    pub server : ServerPhase
    pub main : MainPhase
    -- The descriptors of the connections that were accepted, the last first.
    pub accepted : List ℕ

  abbrev pub launched : sockets.Net → Process
  launched net = record {
    g_stop = false;
    listener = new_listener;
    net = net;
    server = starting;
    main = polling;
    accepted = [];
  }

  abbrev set_running : Bool → Process → Process
  set_running running p = record p { listener = record (p.listener) { running = running } }

  pub data Step (port : ℤ) : Process → Process → Type 0 where
    -- `on_signal`.
    signals : (p : Process) → Step port p (record p { g_stop = true })
    opens :
        (p : Process) (l : Listener) (net : sockets.Net)
        → p.server ≡ starting
        → open_listener sockets port p.listener p.net ≡ (ok tt, l, net)
        → Step port p (record p { listener = l; net = net; server = opened })
    -- `start` throws, and the thread of the server sets the stop flag.
    fails :
        (p : Process) (msg : Bytes) (l : Listener) (net : sockets.Net)
        → p.server ≡ starting
        → open_listener sockets port p.listener p.net ≡ (throw msg, l, net)
        → Step port p (record p { listener = l; net = net; g_stop = true; server = finished })
    marks :
        (p : Process)
        → p.server ≡ opened
        → Step port p (record (set_running true p) { server = looping })
    enters :
        (p : Process)
        → p.server ≡ looping
        → p.listener.running ≡ true
        → Step port p (record p { server = accepting })
    leaves :
        (p : Process)
        → p.server ≡ looping
        → p.listener.running ≡ false
        → Step port p (record p { server = finished })
    -- `accept` returns a descriptor, and a thread is started for it.
    accepts :
        (p : Process) (client_fd : ℕ)
        → p.server ≡ accepting
        → Step port p (record p { server = looping; accepted = client_fd ∷ p.accepted })
    -- `accept` returns an error: `continue`, or `break` if the server does not run.
    retries :
        (p : Process)
        → p.server ≡ accepting
        → p.listener.running ≡ true
        → Step port p (record p { server = looping })
    breaks :
        (p : Process)
        → p.server ≡ accepting
        → p.listener.running ≡ false
        → Step port p (record p { server = finished })
    stops :
        (p : Process)
        → p.main ≡ polling
        → p.g_stop ≡ true
        → Step port p (record (set_running false p) { main = stopping })
    closes :
        (p : Process)
        → p.main ≡ stopping
        → Step port p (record p {
          listener = (close_listener sockets p.listener p.net).0;
          net = (close_listener sockets p.listener p.net).1;
          main = joining;
        })
    joins :
        (p : Process)
        → p.main ≡ joining
        → p.server ≡ finished
        → Step port p (record p { main = exited })

  pub data Run (port : ℤ) : Process → Process → Type 0 where
    done : (p : Process) → Run port p p
    next : {p q r : Process} → Step port p q → Run port q r → Run port p r
