-- ===== src/Database/Behaviour.antt =====
-- What the program relies on of SQLite: the documented behaviour of the calls and of the SQL
-- statements of database.cpp, over the rows of the table `fragments`.
pub mod Memory
use mathlib.Core.List.{Perm}
use frag.Prelude.{
  ℕ, suc, ◌+◌, ◌<◌, ◌≤◌, ◌≡◌, ◌≢◌, ◌⊎◌, Bool, true, false, List, [], ◌∷◌, Option, some,
  if◌then◌else◌, All, length,
}
use frag.Prelude.Int.{ℤ, pos, ◌+ℤ◌}
use frag.Text.{Bytes}
use frag.Text.Number.RoundTrip.{IsInt64}
use frag.Fragment.{Fragment}
use frag.Database.Sqlite.{Sqlite, sqlite_ok, sqlite_row, sqlite_done}
use frag.Database.Operations.{
  insert_sql, get_sql, get_message_sql, delete_sql, purge_sql, count_sql,
}
use frag.Database.Table.{
  keep, count_rows, has_key, has_id, insert_row, delete_row, is_overdue, purge_rows, in_chat,
  in_message, IsSorted,
}

-- A code that is neither of the three that stand for success.
abbrev pub IsFailure : ℕ → Type 0
IsFailure rc = (rc ≢ sqlite_ok) × (rc ≢ sqlite_row) × (rc ≢ sqlite_done)

-- No call fails.
pub record IsReliable (sqlite : Sqlite) : Type 0 where
  pub prepares : (sql : Bytes) (c : sqlite.Conn) → IsFailure (sqlite.prepare sql c).0 → ⊥
  pub steps : (stmt : sqlite.Stmt) (c : sqlite.Conn) → IsFailure (sqlite.step stmt c).0 → ⊥

module _ (sqlite : Sqlite) where
  open sqlite use {
    Conn, Stmt, prepare, bind_text, bind_int64, step, column_text, column_int64, changes, row_limit,
  }

  -- The values of a row bound to the parameters of an insert.
  abbrev pub bind_row : Fragment → Stmt → Stmt
  bind_row r stmt = bind_int64 7 r.ttl (
      bind_int64 6 r.timestamp (
        bind_text 5 r.payload (
          bind_text 4 r.sender_hash
            (bind_text 3 r.chat_id (bind_text 2 r.message_id (bind_text 1 r.id stmt))))))

  -- The columns of the current row of a statement.
  pub record Shows (stmt : Stmt) (f : Fragment) : Type 0 where
    pub id : column_text 0 stmt ≡ some f.id
    pub message_id : column_text 1 stmt ≡ some f.message_id
    pub chat_id : column_text 2 stmt ≡ some f.chat_id
    pub sender_hash : column_text 3 stmt ≡ some f.sender_hash
    pub payload : column_text 4 stmt ≡ some f.payload
    pub timestamp : column_int64 5 stmt ≡ f.timestamp
    pub ttl : column_int64 6 stmt ≡ f.ttl

  -- A step that is done has changed the rows to `after`, and counts `n` changes; a step that fails
  -- leaves the rows as they are, and what the connection counts behind it is left open.
  abbrev pub Writes : (Conn → List Fragment) → Stmt → Conn → List Fragment → ℕ → Type 0
  Writes rows stmt c after n =
      (((step stmt c).0 ≡ sqlite_done)
        × (rows (step stmt c).2 ≡ after)
        × (changes (step stmt c).2 ≡ n))
      ⊎ (IsFailure (step stmt c).0 × (rows (step stmt c).2 ≡ rows c))

  pub record SqliteLaws : Type 1 where
    -- The rows of the table.
    pub rows : Conn → List Fragment
    -- The statements that select rows, and the rows that one has still to deliver.
    pub IsSelect : Stmt → Conn → Type 0
    pub pending : Stmt → Conn → List Fragment
    pub prepare_code :
        (sql : Bytes) (c : Conn) → ((prepare sql c).0 ≡ sqlite_ok) ⊎ IsFailure (prepare sql c).0
    pub insert_step :
        (r : Fragment) (c : Conn)
        → (prepare insert_sql c).0 ≡ sqlite_ok
        → Writes rows
            (bind_row r (prepare insert_sql c).1)
            c
            (insert_row r (rows c))
            (if has_id r.id (rows c) then 0 else 1)
    pub delete_step :
        (id : Bytes) (c : Conn)
        → (prepare delete_sql c).0 ≡ sqlite_ok
        → Writes rows
            (bind_text 1 id (prepare delete_sql c).1)
            c
            (delete_row id (rows c))
            (count_rows (has_key id) (rows c))
    -- Where a sum leaves 64 bits SQLite takes the floating-point number, which is above every time.
    pub purge_step :
        (now : ℤ) (c : Conn)
        → (prepare purge_sql c).0 ≡ sqlite_ok
        → IsInt64 now
        → Writes rows
            (bind_int64 1 now (prepare purge_sql c).1)
            c
            (purge_rows now (rows c))
            (count_rows (is_overdue now) (rows c))
    pub count_step :
        (c : Conn)
        → (prepare count_sql c).0 ≡ sqlite_ok
        → (((step (prepare count_sql c).1 c).0 ≡ sqlite_row)
            × (column_int64 0 (step (prepare count_sql c).1 c).1 ≡ pos (length (rows c))))
          ⊎ IsFailure (step (prepare count_sql c).1 c).0
    pub count_rows_same : (c : Conn) → rows (step (prepare count_sql c).1 c).2 ≡ rows c
    -- The order among equal timestamps is left open.
    pub get_select :
        (chat_id : Bytes) (since : ℤ) (c : Conn)
        → (prepare get_sql c).0 ≡ sqlite_ok
        → IsSelect (bind_int64 2 since (bind_text 1 chat_id (prepare get_sql c).1)) c
          × Perm
              (pending (bind_int64 2 since (bind_text 1 chat_id (prepare get_sql c).1)) c)
              (keep (in_chat chat_id since) (rows c))
          × IsSorted (pending (bind_int64 2 since (bind_text 1 chat_id (prepare get_sql c).1)) c)
    pub get_message_select :
        (message_id : Bytes) (c : Conn)
        → (prepare get_message_sql c).0 ≡ sqlite_ok
        → IsSelect (bind_text 1 message_id (prepare get_message_sql c).1) c
          × Perm
              (pending (bind_text 1 message_id (prepare get_message_sql c).1) c)
              (keep (in_message message_id) (rows c))
          × IsSorted (pending (bind_text 1 message_id (prepare get_message_sql c).1) c)
    pub select_limit :
        (stmt : Stmt) (c : Conn) → IsSelect stmt c → length (pending stmt c) ≤ row_limit stmt c
    pub select_rows_same :
        (stmt : Stmt) (c : Conn) → IsSelect stmt c → rows (step stmt c).2 ≡ rows c
    -- A step delivers the next row, is done, or fails.
    pub select_step :
        (stmt : Stmt) (c : Conn)
        → IsSelect stmt c
        → (((step stmt c).0 ≡ sqlite_row)
            × IsSelect (step stmt c).1 (step stmt c).2
            × ((f : Fragment) × (pending stmt c ≡ f ∷ pending (step stmt c).1 (step stmt c).2)
                × Shows (step stmt c).1 f))
          ⊎ ((((step stmt c).0 ≡ sqlite_done) × (pending stmt c ≡ [])) ⊎ IsFailure (step stmt c).0)
