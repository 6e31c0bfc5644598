-- ===== src/Database/Refines.antt =====
-- The class `Database` does what the table promises, whenever SQLite behaves as documented.
pub mod Select
use frag.Prelude.{
  ℕ, zero, suc, ◌+◌, ◌<◌, ◌≡◌, ◌⊎◌, inl, inr, refl, sym, ap, ◌∙◌, Bool, true, false, ◌||◌, not,
  List, [], ◌∷◌, arith, ltb, ◌==◌, ==_iff, if◌then◌else◌, length, All, Bool-cases,
}
use frag.Prelude.Int.{ℤ, pos, ◌+ℤ◌}
use frag.Text.{Bytes, codes, c_str}
use frag.Text.Number.RoundTrip.{IsInt64}
use frag.Fragment.{Fragment}
use frag.Database.Sqlite.{Sqlite, sqlite_ok, sqlite_row, sqlite_done}
use frag.Database.Operations.{
  Result, ok, throw, error_text, check, insert_sql, delete_sql, purge_sql, count_sql,
  insert_fragment, delete_fragment, purge_expired, get_fragment_count, bind_fragment,
}
use frag.Database.Table.{
  count_rows, has_key, has_id, insert_row, delete_row, is_overdue, purge_rows, stored,
}
use frag.Database.Behaviour.{IsFailure, SqliteLaws, bind_row}

pub check-ok : (rc : ℕ) (context : Bytes) → rc ≡ sqlite_ok → check rc context ≡ ok tt
unfolding check
check-ok rc context h = ground arith

pub check_done : (rc : ℕ) (context : Bytes) → rc ≡ sqlite_done → check rc context ≡ ok tt
unfolding check
check_done rc context h = ground arith

pub check_failure :
    (rc : ℕ) (context : Bytes) → IsFailure rc → (msg : Bytes) × (check rc context ≡ throw msg)
unfolding check
check_failure rc context h = (error_text rc context, ground arith)

positive_count :
    (id : Bytes) (rows : List Fragment) → ltb 0 (count_rows (has_key id) rows) ≡ has_id id rows
unfolding count_rows has_id
positive_count id [] = refl
positive_count id (f ∷ rows) = ground (arith, positive_count id rows)

positive_change : (b : Bool) → ltb 0 (if b then 0 else 1) ≡ not b
positive_change true = refl
positive_change false = refl

-- The call throws, for the reason given, and leaves the rows as they are, or it returns a value with
-- the rows after it.
abbrev pub Ends :
    {A C : Type 0} → (C → List Fragment) → Type 0 → Result A × C → C → A → List Fragment → Type 0
Ends rows reason result c value after =
    ((msg : Bytes) × (result.0 ≡ throw msg) × (rows result.1 ≡ rows c) × reason)
    ⊎ ((result.0 ≡ ok value) × (rows result.1 ≡ after))

-- A statement cannot be prepared, or its step fails.
abbrev pub StepFails :
    (sqlite : Sqlite) → Bytes → (sqlite.Stmt → sqlite.Stmt) → sqlite.Conn → Type 0
StepFails sqlite sql bind c =
    IsFailure (sqlite.prepare sql c).0 ⊎ IsFailure (sqlite.step (bind (sqlite.prepare sql c).1) c).0

-- What makes storing or deleting throw.
abbrev pub InsertFails : (sqlite : Sqlite) → Fragment → sqlite.Conn → Type 0
InsertFails sqlite f c = StepFails sqlite insert_sql (bind_row sqlite f) c

abbrev pub DeleteFails : (sqlite : Sqlite) → Bytes → sqlite.Conn → Type 0
DeleteFails sqlite id c = StepFails sqlite delete_sql (sqlite.bind_text 1 id) c

module _ (sqlite : Sqlite) (laws : SqliteLaws sqlite) where
  open sqlite use {Conn, Stmt, prepare, step, changes}
  open laws use {
    rows, prepare_code, insert_step, delete_step, purge_step, count_step, count_rows_same,
  }

  -- For every SQLite that behaves as documented, storing a fragment reports whether its id was new,
  -- and the rows after it are those of inserting or ignoring it; or it throws because SQLite fails
  -- to prepare or to step, and the rows stay as they are.
  pub insert_fragment-Ends :
      (f : Fragment) (c : Conn)
      → Ends rows
          (InsertFails sqlite (stored f) c)
          (insert_fragment sqlite f c)
          c
          (not (has_id (stored f).id (rows c)))
          (insert_row (stored f) (rows c))
  unfolding insert_fragment bind_fragment stored
  insert_fragment-Ends f c = elim (prepare_code insert_sql c) [
    | inr bad ↦
        let (msg, e) = check_failure _ (codes "prepare insert") bad in
        rw (e, insert_fragment) (inl (msg, refl, refl, inl bad))
    | inl good ↦
        let e = check-ok _ (codes "prepare insert") good in
        elim (insert_step (stored f) c good) [
          | inl (done, after, n) ↦
              let e' = check_done _ (codes "step insert") done in
              rw (e, insert_fragment, e', n) (inr (ap ok (positive_change _), after))
          | inr (failed, after) ↦
              let (msg, e') = check_failure _ (codes "step insert") failed in
              rw (e, insert_fragment, e') (inl (msg, refl, after, inr failed))
        ]
  ]

  -- For every SQLite that behaves as documented, deleting reports whether there was a row with the
  -- id, and the rows after it are those without the id; or it throws because SQLite fails to
  -- prepare or to step, and the rows stay as they are.
  pub delete_fragment-Ends :
      (id : Bytes) (c : Conn)
      → Ends rows
          (DeleteFails sqlite (c_str id) c)
          (delete_fragment sqlite id c)
          c
          (has_id (c_str id) (rows c))
          (delete_row (c_str id) (rows c))
  unfolding delete_fragment
  delete_fragment-Ends id c = elim (prepare_code delete_sql c) [
    | inr bad ↦
        let (msg, e) = check_failure _ (codes "prepare delete") bad in
        rw (e, delete_fragment) (inl (msg, refl, refl, inl bad))
    | inl good ↦
        let e = check-ok _ (codes "prepare delete") good in
        elim (delete_step (c_str id) c good) [
          | inl (done, after, n) ↦
              let e' = check_done _ (codes "step delete") done in
              rw (e, delete_fragment, e', n)
                (inr (ap ok (positive_count (c_str id) (rows c)), after))
          | inr (failed, after) ↦
              let (msg, e') = check_failure _ (codes "step delete") failed in
              rw (e, delete_fragment, e') (inl (msg, refl, after, inr failed))
        ]
  ]

  -- For every SQLite that behaves as documented and every time that is an int64_t, purging removes
  -- what is overdue and reports how many rows that were; or it throws because it cannot be
  -- prepared; or its step fails, and then it removes nothing and returns without an exception what
  -- the connection counts.
  pub purge_expired_cases :
      (now : ℤ) (c : Conn)
      → IsInt64 now
      → Ends rows
          (IsFailure (prepare purge_sql c).0)
          (purge_expired sqlite now c)
          c
          (count_rows (is_overdue now) (rows c))
          (purge_rows now (rows c))
        ⊎ (((purge_expired sqlite now c).0 ≡ ok (changes (purge_expired sqlite now c).1))
            × (rows (purge_expired sqlite now c).1 ≡ rows c)
            × IsFailure (step (sqlite.bind_int64 1 now (prepare purge_sql c).1) c).0)
  unfolding purge_expired
  purge_expired_cases now c small = elim (prepare_code purge_sql c) [
    | inr bad ↦
        let (msg, e) = check_failure _ (codes "prepare purge") bad in
        rw (e, purge_expired) (inl (inl (msg, refl, refl, bad)))
    | inl good ↦
        let e = check-ok _ (codes "prepare purge") good in
        elim (purge_step now c good small) [
          | inl (done, after, n) ↦ rw (e, purge_expired, n) (inl (inr (refl, after)))
          | inr (failed, after) ↦ rw (e, purge_expired) (inr (refl, after, failed))
        ]
  ]

  -- For every SQLite that behaves as documented, counting gives the number of rows; or it throws
  -- because it cannot be prepared; or its step fails, and then it gives 0. The rows stay as they
  -- are.
  pub get_fragment_count_cases :
      (c : Conn)
      → Ends rows
          (IsFailure (prepare count_sql c).0)
          (get_fragment_count sqlite c)
          c
          (pos (length (rows c)))
          (rows c)
        ⊎ (((get_fragment_count sqlite c).0 ≡ ok (pos 0))
            × (rows (get_fragment_count sqlite c).1 ≡ rows c)
            × IsFailure (step (prepare count_sql c).1 c).0)
  unfolding get_fragment_count
  get_fragment_count_cases c = elim (prepare_code count_sql c) [
    | inr bad ↦
        let (msg, e) = check_failure _ (codes "prepare count") bad in
        rw (e, get_fragment_count) (inl (inl (msg, refl, refl, bad)))
    | inl good ↦
        let e = check-ok _ (codes "prepare count") good in
        elim (count_step c good) [
          | inl (row, n) ↦
              rw (e, get_fragment_count, (==_iff _ _).1 row, n)
                (inl (inr (refl, count_rows_same c)))
          | inr failed ↦
              let other : ((step (prepare count_sql c).1 c).0 == sqlite_row) ≡ false =
                ground (arith, failed.1) in
              rw (e, get_fragment_count, other) (inr (refl, count_rows_same c, failed))
        ]
  ]
