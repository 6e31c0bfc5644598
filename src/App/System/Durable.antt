-- ===== src/App/System/Durable.antt =====
-- What becomes of a stored fragment on a run of the server of backend/src/main.cpp.
use frag.Prelude.{◌≡◌, inl, inr, refl, false, not}
use frag.Fragment.{Fragment}
use frag.Database.Sqlite.{Sqlite}
use frag.Database.Table.{is_overdue, purge_rows, HasRow}
use frag.Database.Table.Unmodified.{HasRow-keep}
use frag.Database.Behaviour.{SqliteLaws}
use frag.Database.Refines.{purge_expired_cases}
use frag.Handlers.{AppContext, World}
use frag.Handlers.Storage.Durable.{Deletes, respond-HasRow}
use frag.App.System.{cleanup, Step, serves, cleans, waits, Run, done, next}

module _ (sqlite : Sqlite) (ctx : AppContext) (f : Fragment) where
  -- The step is no authorized deletion of the row's id, and no clean-up at a time at which its time
  -- to live is over.
  abbrev pub Spares : {w w' : World sqlite.Conn} → Step sqlite ctx w w' → Type 0
  Spares (serves req w) = Deletes ctx f req → ⊥
  Spares (cleans w small) = is_overdue w.clock f ≡ false
  Spares (waits w clock later) = Unit

  abbrev pub AllSpare : {w w' : World sqlite.Conn} → Run sqlite ctx w w' → Type 0
  AllSpare (done w) = Unit
  AllSpare (next step run) = Spares step × AllSpare run

module _ (sqlite : Sqlite) (laws : SqliteLaws sqlite) (ctx : AppContext) (f : Fragment) where
  open laws use {rows}

  Step-HasRow_spared :
      {w w' : World sqlite.Conn} (step : Step sqlite ctx w w')
      → Spares sqlite ctx f step
      → HasRow f (rows w.db)
      → HasRow f (rows w'.db)
  unfolding cleanup purge_rows
  Step-HasRow_spared (serves req w) spared h = respond-HasRow sqlite laws ctx f req w spared h
  Step-HasRow_spared (cleans w small) spared h =
      elim (purge_expired_cases sqlite laws w.clock w.db small) [
        | inl (inl (_, _, same, _)) ↦ rw same h
        | inl (inr (_, after)) ↦
            rw after
              (HasRow-keep f (λ g. not (is_overdue w.clock g)) (rows w.db) (rw spared refl) h)
        | inr (_, same, _) ↦ rw same h
      ]
  Step-HasRow_spared (waits w clock later) spared h = h

  -- For every SQLite that behaves as documented and every run of requests, clean-ups and passing
  -- time, in any order: a row of the table is still there, unmodified, at the end, if no request of
  -- the run is an authorized DELETE on the path of its id and no clean-up comes when its time to
  -- live is over.
  pub Run-HasRow :
      {w w' : World sqlite.Conn} (run : Run sqlite ctx w w')
      → AllSpare sqlite ctx f run
      → HasRow f (rows w.db)
      → HasRow f (rows w'.db)
  Run-HasRow (done w) all h = h
  Run-HasRow (next step run) (spared, all) h = Run-HasRow run all (Step-HasRow_spared step spared h)
