-- ===== src/App/System.antt =====
-- The running server of backend/src/main.cpp: connections and the clean-up thread work on one
-- database. Each call of the store is one step, and the steps come in any order.
pub mod Durable
use frag.Prelude.{◌≡◌, true, inl, inr, []}
use frag.Prelude.Int.{ℤ, ◌≤ℤ◌}
use frag.Text.Number.RoundTrip.{IsInt64}
use frag.Http.{HttpRequest}
use frag.Fragment.{Fragment}
use frag.Database.Sqlite.{Sqlite}
use frag.Database.Operations.{purge_expired}
use frag.Database.Table.{has_id, HasDistinctIds, HasRow}
use frag.Database.Table.Laws.{Change, purges, fails}
use frag.Database.Table.Unmodified.{Change-HasRow}
use frag.Database.Behaviour.{SqliteLaws}
use frag.Database.Refines.{purge_expired_cases}
use frag.Server.Connection.{respond}
use frag.Handlers.{AppContext, World, register_routes}
use frag.Handlers.Storage.{respond-Change}

module _ (sqlite : Sqlite) where
  -- One round of the clean-up thread behind its sleep; an exception is printed and forgotten.
  unfoldable pub cleanup : World sqlite.Conn → World sqlite.Conn
  cleanup w = record w { db = (purge_expired sqlite w.clock w.db).1 }

module _ (sqlite : Sqlite) (ctx : AppContext) where
  -- What can happen next: a request, a round of the clean-up, or time that passes.
  pub data Step : World sqlite.Conn → World sqlite.Conn → Type 0 where
    serves :
        (req : HttpRequest) (w : World sqlite.Conn)
        → Step w (respond (register_routes sqlite ctx []) req w).1
    cleans : (w : World sqlite.Conn) → IsInt64 w.clock → Step w (cleanup sqlite w)
    waits :
        (w : World sqlite.Conn) (clock : ℤ) → w.clock ≤ℤ clock → Step w (record w { clock = clock })

  pub data Run : World sqlite.Conn → World sqlite.Conn → Type 0 where
    done : (w : World sqlite.Conn) → Run w w
    next : {w w' w'' : World sqlite.Conn} → Step w w' → Run w' w'' → Run w w''

module _ (sqlite : Sqlite) (laws : SqliteLaws sqlite) (ctx : AppContext) where
  open laws use {rows}

  cleanup-Change :
      (w : World sqlite.Conn) → IsInt64 w.clock → Change (rows w.db) (rows (cleanup sqlite w).db)
  unfolding cleanup
  cleanup-Change w small = elim (purge_expired_cases sqlite laws w.clock w.db small) [
    | inl (inl (_, _, same, _)) ↦ rw same (fails (rows w.db))
    | inl (inr (_, after)) ↦ rw after (purges w.clock (rows w.db))
    | inr (_, same, _) ↦ rw same (fails (rows w.db))
  ]

  Step-Change : {w w' : World sqlite.Conn} → Step sqlite ctx w w' → Change (rows w.db) (rows w'.db)
  Step-Change (serves req w) = respond-Change sqlite laws ctx req w
  Step-Change (cleans w small) = cleanup-Change w small
  Step-Change (waits w clock later) = fails (rows w.db)

  -- For every SQLite that behaves as documented: behind a request, a clean-up or passing time, a
  -- row of a table with distinct ids is still there, unmodified, if its id is.
  pub Step-HasRow :
      {w w' : World sqlite.Conn} (f : Fragment)
      → Step sqlite ctx w w'
      → HasDistinctIds (rows w.db)
      → HasRow f (rows w.db)
      → has_id f.id (rows w'.db) ≡ true
      → HasRow f (rows w'.db)
  Step-HasRow f step distinct h there = Change-HasRow f (Step-Change step) distinct h there
