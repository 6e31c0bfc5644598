-- ===== src/App/Cleanup.antt =====
-- The clean-up thread of `main` (backend/src/main.cpp). It shares the stop flag with the main thread
-- and the database with the connections; a step is what it does between two of its accesses.
pub mod Stop
use frag.Prelude.{ℕ, ◌+◌, ◌*◌, ◌≤◌, ◌≡◌, ◌⊎◌, inl, inr, refl, Bool, true, false, arith}
use frag.Database.Sqlite.{Sqlite}
use frag.Handlers.{World}
use frag.App.System.{cleanup}

-- Where the thread is: at the test of the loop; asleep, or at the test behind it; before the round
-- of the clean-up; or behind the loop.
pub data CleanupPhase : Type 0 where
  testing sleeping purging ended : CleanupPhase

module _ (sqlite : Sqlite) where
  pub record CleanupThread : Type 0 where
    pub g_stop : Bool
    pub phase : CleanupPhase
    pub world : World sqlite.Conn

  pub data Tick : CleanupThread → CleanupThread → Type 0 where
    -- The stop flag is set, or another thread changes the database.
    signals : (t : CleanupThread) → Tick t (record t { g_stop = true })
    changes : (t : CleanupThread) (w : World sqlite.Conn) → Tick t (record t { world = w })
    sleeps :
        (t : CleanupThread)
        → t.phase ≡ testing
        → t.g_stop ≡ false
        → Tick t (record t { phase = sleeping })
    ends :
        (t : CleanupThread)
        → t.phase ≡ testing
        → t.g_stop ≡ true
        → Tick t (record t { phase = ended })
    wakes :
        (t : CleanupThread)
        → t.phase ≡ sleeping
        → t.g_stop ≡ false
        → Tick t (record t { phase = purging })
    breaks :
        (t : CleanupThread)
        → t.phase ≡ sleeping
        → t.g_stop ≡ true
        → Tick t (record t { phase = ended })
    purges :
        (t : CleanupThread)
        → t.phase ≡ purging
        → Tick t (record t { phase = testing; world = cleanup sqlite t.world })

  pub data Ticks : CleanupThread → CleanupThread → Type 0 where
    still : (t : CleanupThread) → Ticks t t
    then_ : {t u v : CleanupThread} → Tick t u → Ticks u v → Ticks t v
