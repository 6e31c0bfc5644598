-- ===== src/Database/Operations.antt =====
-- The class `Database`. Each method takes the connection and returns it after the calls.
-- Finalising a statement has no effect on the tables and is left out.
use frag.Prelude.{
  ℕ, zero, suc, ◌+◌, Bool, ◌||◌, List, [], ◌∷◌, ◌++◌, Option, none, some, ltb, ◌==◌, if◌then◌else◌,
}
use frag.Prelude.Int.{ℤ, pos}
use frag.Text.{Bytes, codes, c_str}
use frag.Text.Number.{print_nat}
use frag.Fragment.{Fragment}
use frag.Database.Sqlite.{Sqlite, sqlite_ok, sqlite_row, sqlite_done}

-- A method returns, or throws std::runtime_error with a message.
pub data Result {ℓ} (A : Type ℓ) : Type ℓ where
  ok : A → Result A
  throw : Bytes → Result A

-- The message of `check`.
abbrev pub error_text : ℕ → Bytes → Bytes
error_text rc context = codes "SQLite error (" ++ (context ++ (codes "): " ++ print_nat rc))

-- `check(rc, context)`.
unfoldable pub check : ℕ → Bytes → Result (Unit {0})
check rc context =
    if rc == sqlite_ok || rc == sqlite_row || rc == sqlite_done
    then ok tt
    else throw (error_text rc context)

unfoldable pub insert_sql : Bytes
insert_sql =
    codes
      "INSERT OR IGNORE INTO fragments (id, message_id, chat_id, sender_hash, payload, timestamp, ttl) VALUES (?,?,?,?,?,?,?)"

unfoldable pub get_sql : Bytes
get_sql =
    codes
      "SELECT id, message_id, chat_id, sender_hash, payload, timestamp, ttl FROM fragments WHERE chat_id = ? AND timestamp > ? ORDER BY timestamp ASC"

unfoldable pub get_message_sql : Bytes
get_message_sql =
    codes
      "SELECT id, message_id, chat_id, sender_hash, payload, timestamp, ttl FROM fragments WHERE message_id = ? ORDER BY timestamp ASC"

unfoldable pub delete_sql : Bytes
delete_sql = codes "DELETE FROM fragments WHERE id = ?"

unfoldable pub purge_sql : Bytes
purge_sql = codes "DELETE FROM fragments WHERE ttl > 0 AND (timestamp + ttl) <= ?"

unfoldable pub count_sql : Bytes
count_sql = codes "SELECT COUNT(*) FROM fragments"

unfoldable pub schema_sql : Bytes
schema_sql =
    codes
      "CREATE TABLE IF NOT EXISTS fragments (id TEXT PRIMARY KEY, message_id TEXT NOT NULL, chat_id TEXT NOT NULL, sender_hash TEXT NOT NULL, payload TEXT NOT NULL, timestamp INTEGER NOT NULL, ttl INTEGER NOT NULL DEFAULT 0); CREATE INDEX IF NOT EXISTS idx_frag_chat ON fragments(chat_id, timestamp); CREATE INDEX IF NOT EXISTS idx_frag_msg ON fragments(message_id);"

module _ (sqlite : Sqlite) where
  open sqlite use {
    Conn, Stmt, open_db, exec, prepare, bind_text, bind_int64, step, column_text, column_int64,
    changes, row_limit,
  }

  -- The message of `exec`.
  abbrev pub exec_error : Option Bytes → Bytes
  exec_error none = codes "SQLite exec error: (unknown)"
  exec_error (some text) = codes "SQLite exec error: " ++ text

  -- `Database::exec`.
  unfoldable pub exec_sql : Bytes → Conn → Result Conn
  exec_sql sql db =
      let (rc, err, db') = exec sql db in if rc == sqlite_ok then ok db' else throw (exec_error err)

  abbrev pub then_exec : Result Conn → Bytes → Result Conn
  then_exec (ok db) sql = exec_sql sql db
  then_exec (throw msg) sql = throw msg

  -- The constructor: the connection opened, three pragmas and `init_schema`.
  unfoldable pub open_database : Bytes → Result Conn
  unfolding exec_sql check schema_sql
  open_database path =
      let (rc, db) = open_db path in
      elim (check rc (codes "open")) [
        | throw msg ↦ throw msg
        | ok _ ↦
            then_exec
              (then_exec
                (then_exec (exec_sql (codes "PRAGMA journal_mode=WAL") db)
                  (codes "PRAGMA synchronous=NORMAL"))
                (codes "PRAGMA foreign_keys=ON"))
              schema_sql
      ]

  -- The seven values of an insert; a text is bound up to its first NUL.
  unfoldable pub bind_fragment : Fragment → Stmt → Stmt
  bind_fragment f stmt = bind_int64 7 f.ttl (
      bind_int64 6 f.timestamp (
        bind_text 5 (c_str f.payload) (
          bind_text 4 (c_str f.sender_hash) (
            bind_text 3 (c_str f.chat_id)
              (bind_text 2 (c_str f.message_id) (bind_text 1 (c_str f.id) stmt))))))

  unfoldable pub insert_fragment : Fragment → Conn → Result Bool × Conn
  insert_fragment f db =
      let (rc, stmt) = prepare insert_sql db in
      elim (check rc (codes "prepare insert")) [
        | throw msg ↦ (throw msg, db)
        | ok _ ↦
            let (rc', _, db') = step (bind_fragment f stmt) db in
            elim (check rc' (codes "step insert")) [
              | throw msg ↦ (throw msg, db')
              | ok _ ↦ (ok (ltb 0 (changes db')), db')
            ]
      ]

  -- `col_text`: a null pointer gives the empty text, and a C string ends at its NUL.
  unfoldable pub col_text : ℕ → Stmt → Bytes
  col_text c stmt = elim (column_text c stmt) [ none ↦ [] | some p ↦ c_str p ]

  unfoldable pub read_row : Stmt → Fragment
  read_row stmt = record {
    id = col_text 0 stmt;
    message_id = col_text 1 stmt;
    chat_id = col_text 2 stmt;
    sender_hash = col_text 3 stmt;
    payload = col_text 4 stmt;
    timestamp = column_int64 5 stmt;
    ttl = column_int64 6 stmt;
  }

  -- `while (sqlite3_step(stmt) == SQLITE_ROW)`, with a bound on the rounds. Every other code ends
  -- the loop, an error too.
  unfoldable pub fetch_rows : ℕ → Stmt → Conn → List Fragment × Conn
  fetch_rows zero stmt db = ([], db)
  fetch_rows (suc rounds) stmt db =
      let (rc, stmt', db') = step stmt db in
      let (rest, last) = fetch_rows rounds stmt' db' in
      if rc == sqlite_row then (read_row stmt' ∷ rest, last) else ([], db')

  unfoldable pub fetch_all : Stmt → Conn → Result (List Fragment) × Conn
  fetch_all stmt db = let (rows, db') = fetch_rows (row_limit stmt db + 1) stmt db in (ok rows, db')

  unfoldable pub get_fragments : Bytes → ℤ → Conn → Result (List Fragment) × Conn
  get_fragments chat_id since db =
      let (rc, stmt) = prepare get_sql db in
      elim (check rc (codes "prepare get")) [
        | throw msg ↦ (throw msg, db)
        | ok _ ↦ fetch_all (bind_int64 2 since (bind_text 1 (c_str chat_id) stmt)) db
      ]

  unfoldable pub get_message_fragments : Bytes → Conn → Result (List Fragment) × Conn
  get_message_fragments message_id db =
      let (rc, stmt) = prepare get_message_sql db in
      elim (check rc (codes "prepare get_msg")) [
        | throw msg ↦ (throw msg, db)
        | ok _ ↦ fetch_all (bind_text 1 (c_str message_id) stmt) db
      ]

  unfoldable pub delete_fragment : Bytes → Conn → Result Bool × Conn
  delete_fragment id db =
      let (rc, stmt) = prepare delete_sql db in
      elim (check rc (codes "prepare delete")) [
        | throw msg ↦ (throw msg, db)
        | ok _ ↦
            let (rc', _, db') = step (bind_text 1 (c_str id) stmt) db in
            elim (check rc' (codes "step delete")) [
              | throw msg ↦ (throw msg, db')
              | ok _ ↦ (ok (ltb 0 (changes db')), db')
            ]
      ]

  -- `now` is the reading of the clock. The code of the step is not looked at.
  unfoldable pub purge_expired : ℤ → Conn → Result ℕ × Conn
  purge_expired now db =
      let (rc, stmt) = prepare purge_sql db in
      elim (check rc (codes "prepare purge")) [
        | throw msg ↦ (throw msg, db)
        | ok _ ↦ let (_, _, db') = step (bind_int64 1 now stmt) db in (ok (changes db'), db')
      ]

  unfoldable pub get_fragment_count : Conn → Result ℤ × Conn
  get_fragment_count db =
      let (rc, stmt) = prepare count_sql db in
      elim (check rc (codes "prepare count")) [
        | throw msg ↦ (throw msg, db)
        | ok _ ↦
            let (rc', stmt', db') = step stmt db in
            (ok (if rc' == sqlite_row then column_int64 0 stmt' else pos 0), db')
      ]
