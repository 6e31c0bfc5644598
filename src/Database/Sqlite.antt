-- ===== src/Database/Sqlite.antt =====
-- The calls of the SQLite C interface that the program makes. SQLite is not part of the
-- repository: its connection, its statements and these calls are parameters.
use frag.Prelude.{ℕ, Option}
use frag.Prelude.Int.{ℤ}
use frag.Text.{Bytes}

pub record Sqlite : Type 1 where
  pub Conn : Type 0
  pub Stmt : Type 0
  -- sqlite3_open: a result code and the connection.
  pub open_db : Bytes → ℕ × Conn
  -- sqlite3_exec: a result code and the error message, if any.
  pub exec : Bytes → Conn → ℕ × Option Bytes × Conn
  -- sqlite3_prepare_v2.
  pub prepare : Bytes → Conn → ℕ × Stmt
  -- sqlite3_bind_text with length -1 and sqlite3_bind_int64, by the index of the parameter.
  pub bind_text : ℕ → Bytes → Stmt → Stmt
  pub bind_int64 : ℕ → ℤ → Stmt → Stmt
  -- sqlite3_step.
  pub step : Stmt → Conn → ℕ × Stmt × Conn
  -- sqlite3_column_text (`none` is a null pointer) and sqlite3_column_int64.
  pub column_text : ℕ → Stmt → Option Bytes
  pub column_int64 : ℕ → Stmt → ℤ
  -- sqlite3_changes.
  pub changes : Conn → ℕ
  -- A bound on the rows that a statement can still deliver; not a call, but what makes a loop over
  -- the rows end.
  pub row_limit : Stmt → Conn → ℕ

abbrev pub sqlite_ok : ℕ
sqlite_ok = 0

abbrev pub sqlite_row : ℕ
sqlite_row = 100

abbrev pub sqlite_done : ℕ
sqlite_done = 101
