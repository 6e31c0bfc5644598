-- ===== src/Database/Refines/Select.antt =====
-- What the two queries return.
use mathlib.Core.List.{Perm}
use mathlib.Core.Path.{ap₂}
use frag.Prelude.{
  ℕ, zero, suc, ◌+◌, ◌<◌, ◌≡◌, ◌⊎◌, inl, inr, refl, sym, ap, ◌∙◌, Bool, false, List, [], ◌∷◌, ◌++◌,
  map, arith, ◌==◌, ==_iff, some, length,
}
use frag.Prelude.Int.{ℤ}
use frag.Text.{Bytes, codes, c_str}
use frag.Fragment.{Fragment}
use frag.Database.Sqlite.{Sqlite, sqlite_row}
use frag.Database.Operations.{
  Result, ok, throw, get_sql, get_message_sql, col_text, read_row, fetch_rows, fetch_all,
  get_fragments, get_message_fragments,
}
use frag.Database.Table.{keep, in_chat, in_message, IsSorted, stored}
use frag.Database.Behaviour.{IsFailure, SqliteLaws, Shows}
use frag.Database.Refines.{check-ok, check_failure}

module _ (sqlite : Sqlite) (laws : SqliteLaws sqlite) where
  open sqlite use {Conn, Stmt, prepare, bind_text, bind_int64, step, column_text, row_limit}
  open laws use {
    rows, IsSelect, pending, prepare_code, get_select, get_message_select, select_limit,
    select_rows_same, select_step,
  }

  col_text-some :
      (c : ℕ) (stmt : Stmt) (p : Bytes)
      → column_text c stmt ≡ some p
      → col_text sqlite c stmt ≡ c_str p
  unfolding col_text
  col_text-some c stmt p e = rw (e, col_text)

  read_row-Shows :
      (stmt : Stmt) (f : Fragment) → Shows sqlite stmt f → read_row sqlite stmt ≡ stored f
  unfolding read_row stored
  read_row-Shows stmt f s = cc (
    col_text-some 0 stmt f.id s.id,
    col_text-some 1 stmt f.message_id s.message_id,
    col_text-some 2 stmt f.chat_id s.chat_id,
    col_text-some 3 stmt f.sender_hash s.sender_hash,
    col_text-some 4 stmt f.payload s.payload,
    s.timestamp,
    s.ttl,
  )

  -- Steps that each deliver a row, from one state of a statement to a later one.
  pub data Delivers (last : Stmt) (at_last : Conn) : Stmt → Conn → Type 0 where
    none_yet : Delivers last at_last last at_last
    row_before :
        (stmt : Stmt) (c : Conn)
        → (step stmt c).0 ≡ sqlite_row
        → Delivers last at_last (step stmt c).1 (step stmt c).2
        → Delivers last at_last stmt c

  -- After some rows a step of the statement fails.
  abbrev pub FailsLater : Stmt → Conn → Type 0
  FailsLater stmt c =
      (last : Stmt) × ((at_last : Conn) × Delivers last at_last stmt c
        × IsFailure (step last at_last).0)

  -- The rows found, up to the first step that fails.
  abbrev pub Fetches : Stmt → Conn → List Fragment → List Fragment → Type 0
  Fetches stmt c found fs =
      (rest : List Fragment) × (map stored found ≡ fs ++ rest) × ((rest ≡ []) ⊎ FailsLater stmt c)

  later_too :
      (stmt : Stmt) (c : Conn) (rest : List Fragment)
      → (step stmt c).0 ≡ sqlite_row
      → (rest ≡ []) ⊎ FailsLater (step stmt c).1 (step stmt c).2
      → (rest ≡ []) ⊎ FailsLater stmt c
  later_too stmt c rest row (inl all) = inl all
  later_too stmt c rest row (inr (last, (at_last, rows_before, failed))) =
      inr (last, (at_last, row_before stmt c row rows_before, failed))

  fetch_rows-Fetches :
      (rounds : ℕ) (stmt : Stmt) (c : Conn)
      → length (pending stmt c) < rounds
      → IsSelect stmt c
      → Fetches stmt c (pending stmt c) (fetch_rows sqlite rounds stmt c).0
        × (rows (fetch_rows sqlite rounds stmt c).1 ≡ rows c)
  unfolding fetch_rows
  fetch_rows-Fetches zero stmt c enough selects = elim enough [ ]
  fetch_rows-Fetches (suc rounds) stmt c enough selects = elim (select_step stmt c selects) [
    | inl (row, selects', (f, found, shows)) ↦
        let fewer : length (pending (step stmt c).1 (step stmt c).2) < rounds =
          omega (arith, ap length found) in
        let ((rest, splits, ends), same) =
          fetch_rows-Fetches rounds (step stmt c).1 (step stmt c).2 fewer selects' in
        rw ((==_iff _ _).1 row, found)
          (
            (
              rest,
              ap₂ (λ x xs. x ∷ xs) (sym (read_row-Shows _ f shows)) splits,
              later_too stmt c rest row ends,
            ),
            same ∙ select_rows_same stmt c selects,
          )
    | inr (inl (done, none_left)) ↦
        let other : ((step stmt c).0 == sqlite_row) ≡ false = ground (arith, done) in
        rw (other, none_left) (([], refl, inl refl), select_rows_same stmt c selects)
    | inr (inr failed) ↦
        let other : ((step stmt c).0 == sqlite_row) ≡ false = ground (arith, failed.1) in
        rw other (
          (map stored (pending stmt c), refl, inr (stmt, (c, none_yet, failed))),
          select_rows_same stmt c selects,
        )
  ]

  -- The values of the query of a chat.
  abbrev pub chat_since : Bytes → ℤ → Stmt → Stmt
  chat_since chat_id since stmt = bind_int64 2 since (bind_text 1 chat_id stmt)

  -- The query cannot be prepared and throws, or it returns rows of the table that pass the test in
  -- the order of their timestamps: all of them, unless a step fails. The table stays as it is.
  abbrev pub Returns :
      Bytes → (Stmt → Stmt) → Result (List Fragment) × Conn → Conn → (Fragment → Bool) → Type 0
  Returns sql bind result c test =
      (((msg : Bytes) × (result.0 ≡ throw msg) × IsFailure (prepare sql c).0)
        ⊎ ((found : List Fragment) × ((fs : List Fragment) × (result.0 ≡ ok fs)
              × Fetches (bind (prepare sql c).1) c found fs)
            × Perm found (keep test (rows c))
            × IsSorted found))
      × (rows result.1 ≡ rows c)

  fetch_all-Returns :
      (sql : Bytes) (bind : Stmt → Stmt) (c : Conn) (test : Fragment → Bool)
      → IsSelect (bind (prepare sql c).1) c
        × Perm (pending (bind (prepare sql c).1) c) (keep test (rows c))
        × IsSorted (pending (bind (prepare sql c).1) c)
      → Returns sql bind (fetch_all sqlite (bind (prepare sql c).1) c) c test
  unfolding fetch_all
  fetch_all-Returns sql bind c test (selects, same_rows, sorted) =
      let stmt = bind (prepare sql c).1 in
      let (fetched, same) =
        fetch_rows-Fetches (row_limit stmt c + 1) stmt c
          (omega (arith, select_limit stmt c selects)) selects in
      (inr (pending stmt c, (_, refl, fetched), same_rows, sorted), same)

  -- For every SQLite that behaves as documented, the query of a chat returns rows of the chat that
  -- came after the time, in the order of their timestamps: all of them, or those up to a step that
  -- fails; or it throws because it cannot be prepared. The rows stay as they are.
  pub get_fragments-Returns :
      (chat_id : Bytes) (since : ℤ) (c : Conn)
      → Returns get_sql
          (chat_since (c_str chat_id) since)
          (get_fragments sqlite chat_id since c)
          c
          (in_chat (c_str chat_id) since)
  unfolding get_fragments
  get_fragments-Returns chat_id since c = elim (prepare_code get_sql c) [
    | inr bad ↦
        let (msg, e) = check_failure _ (codes "prepare get") bad in
        rw (e, get_fragments) (inl (msg, refl, bad), refl)
    | inl good ↦
        let e = check-ok _ (codes "prepare get") good in
        rw (e, get_fragments)
          (fetch_all-Returns get_sql (chat_since (c_str chat_id) since) c _
            (get_select (c_str chat_id) since c good))
  ]

  -- For every SQLite that behaves as documented, the query of a message returns rows of the message
  -- in the order of their timestamps: all of them, or those up to a step that fails; or it throws
  -- because it cannot be prepared. The rows stay as they are.
  pub get_message_fragments-Returns :
      (message_id : Bytes) (c : Conn)
      → Returns get_message_sql
          (bind_text 1 (c_str message_id))
          (get_message_fragments sqlite message_id c)
          c
          (in_message (c_str message_id))
  unfolding get_message_fragments
  get_message_fragments-Returns message_id c = elim (prepare_code get_message_sql c) [
    | inr bad ↦
        let (msg, e) = check_failure _ (codes "prepare get_msg") bad in
        rw (e, get_message_fragments) (inl (msg, refl, bad), refl)
    | inl good ↦
        let e = check-ok _ (codes "prepare get_msg") good in
        rw (e, get_message_fragments)
          (fetch_all-Returns get_message_sql (bind_text 1 (c_str message_id)) c _
            (get_message_select (c_str message_id) c good))
  ]
