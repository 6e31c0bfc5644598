-- ===== src/Database/Opening.antt =====
-- The constructor of the class `Database` (backend/src/database.cpp): when it throws.
use frag.Prelude.{
  ℕ, ◌≡◌, ◌≢◌, ◌⊎◌, refl, inl, inr, List, [], ◌∷◌, arith, ◌==◌, ◌||◌, ==_iff, Bool-cases,
}
use frag.Text.{Bytes, codes}
use frag.Database.Sqlite.{Sqlite, sqlite_ok, sqlite_row, sqlite_done}
use frag.Database.Operations.{
  Result, ok, throw, error_text, exec_error, exec_sql, then_exec, check, schema_sql, open_database,
}
use frag.Database.Behaviour.{IsFailure}

-- The statements that set a new connection up, in their order.
abbrev pub setup : List Bytes
setup =
    codes "PRAGMA journal_mode=WAL"
    ∷ codes "PRAGMA synchronous=NORMAL"
    ∷ codes "PRAGMA foreign_keys=ON"
    ∷ schema_sql
    ∷ []

check_cases :
    (rc : ℕ) (context : Bytes)
    → (check rc context ≡ ok tt) ⊎ (IsFailure rc × ((msg : Bytes) × (check rc context ≡ throw msg)))
unfolding check
check_cases rc context =
    elim (Bool-cases (rc == sqlite_ok || rc == sqlite_row || rc == sqlite_done)) [
      | inl good ↦ inl (rw good refl)
      | inr bad ↦ inr (ground arith, (error_text rc context, rw bad refl))
    ]

module _ (sqlite : Sqlite) where
  open sqlite use {Conn, open_db, exec}

  -- Statements that are all executed, one after the other.
  pub data Executes (last : Conn) : List Bytes → Conn → Type 0 where
    all_done : Executes last [] last
    one_more :
        (sql : Bytes) (sqls : List Bytes) (c : Conn)
        → (exec sql c).0 ≡ sqlite_ok
        → Executes last sqls (exec sql c).2
        → Executes last (sql ∷ sqls) c

  -- Statements of which one fails behind others that are executed.
  pub data BreaksOff : List Bytes → Conn → Type 0 where
    here :
        (sql : Bytes) (sqls : List Bytes) (c : Conn)
        → (exec sql c).0 ≢ sqlite_ok
        → BreaksOff (sql ∷ sqls) c
    later :
        (sql : Bytes) (sqls : List Bytes) (c : Conn)
        → (exec sql c).0 ≡ sqlite_ok
        → BreaksOff sqls (exec sql c).2
        → BreaksOff (sql ∷ sqls) c

  abbrev exec_all : Result Conn → List Bytes → Result Conn
  exec_all r [] = r
  exec_all r (sql ∷ sqls) = exec_all (then_exec sqlite r sql) sqls

  exec_all_throw : (msg : Bytes) (sqls : List Bytes) → exec_all (throw msg) sqls ≡ throw msg
  exec_all_throw msg [] = refl
  exec_all_throw msg (sql ∷ sqls) = exec_all_throw msg sqls

  abbrev Setting : Result Conn → List Bytes → Conn → Type 0
  Setting result sqls c =
      ((db : Conn) × (result ≡ ok db) × Executes db sqls c)
      ⊎ ((msg : Bytes) × (result ≡ throw msg) × BreaksOff sqls c)

  exec_sql_cases :
      (sql : Bytes) (c : Conn)
      → (((exec sql c).0 ≡ sqlite_ok) × (exec_sql sqlite sql c ≡ ok (exec sql c).2))
        ⊎ (((exec sql c).0 ≢ sqlite_ok) × ((msg : Bytes) × (exec_sql sqlite sql c ≡ throw msg)))
  unfolding exec_sql
  exec_sql_cases sql c = elim (Bool-cases ((exec sql c).0 == sqlite_ok)) [
    | inl good ↦ inl ((==_iff _ _).0 good, rw good)
    | inr bad ↦
        inr (λ e. cc (bad, (==_iff _ _).1 e), (exec_error sqlite (exec sql c).1, rw bad refl))
  ]

  exec_all-Setting : (sqls : List Bytes) (c : Conn) → Setting (exec_all (ok c) sqls) sqls c
  exec_all-Setting [] c = inl (c, refl, all_done)
  exec_all-Setting (sql ∷ sqls) c = elim (exec_sql_cases sql c) [
    | inr (bad, (msg, e)) ↦ rw e (inr (msg, exec_all_throw msg sqls, here sql sqls c bad))
    | inl (good, e) ↦ rw e (elim (exec_all-Setting sqls (exec sql c).2) [
      | inl (db, r, all) ↦ inl (db, r, one_more sql sqls c good all)
      | inr (msg, r, off) ↦ inr (msg, r, later sql sqls c good off)
    ])
  ]

  -- For every SQLite, opening the database gives a connection on which the three pragmas and the
  -- schema were executed in their order, or it throws: because opening fails, or because one of
  -- these statements fails behind others that were executed.
  pub open_database_cases :
      (path : Bytes)
      → ((db : Conn) × (open_database sqlite path ≡ ok db) × Executes db setup (open_db path).1)
        ⊎ ((msg : Bytes) × (open_database sqlite path ≡ throw msg)
            × (IsFailure (open_db path).0 ⊎ BreaksOff setup (open_db path).1))
  unfolding open_database
  open_database_cases path = elim (check_cases (open_db path).0 (codes "open")) [
    | inr (failed, (msg, e)) ↦ rw (e, open_database) (inr (msg, refl, inl failed))
    | inl e ↦
        rw (e, open_database)
          (elim (exec_all-Setting setup (open_db path).1) [
            | inl (db, r, all) ↦ inl (db, r, all)
            | inr (msg, r, off) ↦ inr (msg, r, inr off)
          ])
  ]
