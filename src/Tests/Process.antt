-- ===== src/Tests/Process.antt =====
-- The start and the stop of the process of backend/src/main.cpp, on sockets that count the calls
-- and a database in memory.
use frag.Prelude.{◌≡◌, ◌≢◌, ◌≤◌, ◌⊎◌, refl, ℕ, ◌+◌, true, false, [], Option, none, some}
use frag.Prelude.Int.{pos}
use frag.Text.{Bytes, codes}
use frag.Http.{empty_request}
use frag.Database.Operations.{ok, throw, open_database}
use frag.Database.Opening.{Executes, BreaksOff, setup, open_database_cases}
use frag.Database.Behaviour.{IsFailure}
use frag.Database.Behaviour.Memory.{memory}
use frag.Server.Lifecycle.{Sockets, Listener, new_listener, open_listener}
use frag.Server.Connection.{respond}
use frag.App.Process.{Process, Run, launched, done, accepting, stopping, joining, exited, finished}
use frag.App.Process.Stop.{total_moves, work, exits_behind_stop}
use frag.App.Process.Race.{late, late_start_hangs}
use frag.App.System.{cleanup}
use frag.App.Cleanup.{CleanupThread, Tick, ended, testing, purging, purges, still, then_}
use frag.App.Cleanup.Stop.{all_steps, all_clean_ups, own_steps, stop_bounds_clean_up}
use frag.App.StartUp.{Application, application, start_up}
use frag.App.StartUp.Laws.{warned-Discloses}
use frag.Handlers.Routes.{Discloses}
use frag.App.Config.{load_config}
use frag.Tests.Storing.{world}

-- The state is the number of calls; every call succeeds with the descriptor 3.
abbrev sockets : Sockets
sockets = record {
  Net = ℕ;
  socket = λ n. (some 3, n + 1);
  reuse_address = λ fd n. n + 1;
  bind = λ fd port n. (true, n + 1);
  listen = λ fd n. (true, n + 1);
  close = λ fd n. n + 1;
}

abbrev listening : Listener
listening = record { running = false; server_fd = some 3 }

opened_port : open_listener sockets (pos 8080) new_listener 0 ≡ (ok tt, listening, 4)
unfolding open_listener
opened_port = refl

-- The main thread has reset the flag while the server waits in `accept`.
abbrev stopped : Process sockets
stopped = record {
  g_stop = true;
  listener = listening;
  net = 4;
  server = accepting;
  main = stopping;
  accepted = [];
}

exits_behind_stop_example :
    (total_moves sockets (pos 8080) (done stopped) + work sockets (pos 8080) stopped
      ≤ work sockets (pos 8080) stopped)
    × ((r : Process sockets) × Run sockets (pos 8080) stopped r × (r.main ≡ exited))
exits_behind_stop_example =
    exits_behind_stop sockets (pos 8080) (done stopped)
      (record { resets = refl; has_stopped = cc; has_run = (cc, cc) })

late_start_hangs_example :
    Run sockets (pos 8080) (launched sockets 0) (late sockets (pos 8080) listening 4)
    × ((late sockets (pos 8080) listening 4).main ≡ joining)
    × ((late sockets (pos 8080) listening 4).server ≢ finished)
unfolding open_listener
late_start_hangs_example =
    late_start_hangs sockets (pos 8080) 0 4 listening refl (late sockets (pos 8080) listening 4)
      (done _)

abbrev purged_thread : CleanupThread memory
purged_thread = record { g_stop = true; phase = testing; world = cleanup memory world }

abbrev purging_thread : CleanupThread memory
purging_thread = record { g_stop = true; phase = purging; world = world }

stop_bounds_clean_up_example :
    (all_steps memory (then_ (purges purging_thread refl) (still purged_thread)) ≤ 2)
    × (all_clean_ups memory (then_ (purges purging_thread refl) (still purged_thread)) ≤ 1)
    × ((testing ≡ ended)
        ⊎ ((v : CleanupThread memory) × ((tick : Tick memory purged_thread v) × (own_steps memory
                  tick
                ≡ 1))))
stop_bounds_clean_up_example =
    stop_bounds_clean_up memory (then_ (purges purging_thread refl) (still purged_thread)) refl

open_database_cases_example :
    ((db : memory.Conn) × (open_database memory (codes "frag.db") ≡ ok db)
      × Executes memory db setup (memory.open_db (codes "frag.db")).1)
    ⊎ ((msg : Bytes) × (open_database memory (codes "frag.db") ≡ throw msg)
        × (IsFailure (memory.open_db (codes "frag.db")).0
            ⊎ BreaksOff memory setup (memory.open_db (codes "frag.db")).1))
open_database_cases_example = open_database_cases memory (codes "frag.db")

-- Without a configuration file there are no tokens.
abbrev no_file : Bytes → Option Bytes
no_file path = none

abbrev app : Application memory
app = application memory (load_config none) (memory.open_db (codes "frag.db")).1 (pos 0)

warned-Discloses_example :
    Discloses memory app.context empty_request world (respond app.server.routes empty_request world)
unfolding start_up application load_config frag.App.CommandLine.invocation open_database
warned-Discloses_example =
    warned-Discloses memory no_file (pos 0) [] app refl refl empty_request world
