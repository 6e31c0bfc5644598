-- ===== src/Database/Behaviour/Memory.antt =====
-- A database in memory that behaves as SQLite is relied on to: the documented behaviour can be met.
pub mod Sort
pub mod Reliable
use mathlib.Core.List.{Perm}
use mathlib.Core.List.Perm
use frag.Prelude.{
  ℕ, zero, suc, ◌+◌, ◌<◌, ◌≤◌, ◌≡◌, ◌⊎◌, inl, inr, refl, sym, ap, Bool, true, false, List, [], ◌∷◌,
  Option, none, some, arith, ◌==◌, if◌then◌else◌, length, Bool-cases,
}
use frag.Prelude.Int.{ℤ, pos}
use frag.Text.{Bytes, same}
use frag.Fragment.{Fragment}
use frag.Database.Sqlite.{Sqlite, sqlite_ok, sqlite_row, sqlite_done}
use frag.Database.Operations.{
  insert_sql, get_sql, get_message_sql, delete_sql, purge_sql, count_sql,
}
use frag.Database.Table.{
  keep, count_rows, has_key, has_id, insert_row, delete_row, is_overdue, purge_rows, in_chat,
  in_message, IsSorted,
}
use frag.Database.Behaviour.{IsFailure, SqliteLaws, bind_row, Shows}
use Sort.{sort, sort-perm, sort-IsSorted}

pub data Kind : Type 0 where
  inserts gets gets_message deletes purges counts other : Kind

unfoldable pub kind_of : Bytes → Kind
unfolding insert_sql get_sql get_message_sql delete_sql purge_sql count_sql same
kind_of sql =
    if same sql insert_sql
    then inserts
    else if same sql get_sql
    then gets
    else if same sql get_message_sql
    then gets_message
    else if same sql delete_sql
    then deletes
    else if same sql purge_sql
    then purges
    else if same sql count_sql
    then counts
    else other

pub record Connection : Type 0 where
  pub table : List Fragment
  pub changed : ℕ

-- A statement holds what is bound to it, the row it shows, and the rows to come once it has begun.
pub record Statement : Type 0 where
  pub kind : Kind
  pub texts : ℕ → Bytes
  pub ints : ℕ → ℤ
  pub shown : Option Fragment
  pub queue : Option (List Fragment)

abbrev set_at {ℓ} : {A : Type ℓ} → ℕ → A → (ℕ → A) → ℕ → A
set_at i v f j = if i == j then v else f j

abbrev row_of : Statement → Fragment
row_of st = record {
  id = st.texts 1;
  message_id = st.texts 2;
  chat_id = st.texts 3;
  sender_hash = st.texts 4;
  payload = st.texts 5;
  timestamp = st.ints 6;
  ttl = st.ints 7;
}

unfoldable pub selection : Kind → Statement → List Fragment → List Fragment
selection gets st rows = sort (keep (in_chat (st.texts 1) (st.ints 2)) rows)
selection gets_message st rows = sort (keep (in_message (st.texts 1)) rows)
selection _ st rows = []

unfoldable pub remaining : Option (List Fragment) → Statement → List Fragment → List Fragment
remaining none st rows = selection st.kind st rows
remaining (some queue) st rows = queue

unfoldable pub advance : List Fragment → Statement → Connection → ℕ × Statement × Connection
advance [] st c = (sqlite_done, st, c)
advance (f ∷ rest) st c = (sqlite_row, record st { shown = some f; queue = some rest }, c)

unfoldable pub step_kind : Kind → Statement → Connection → ℕ × Statement × Connection
unfolding advance
step_kind inserts st c = (
  sqlite_done,
  st,
  record {
    table = insert_row (row_of st) c.table;
    changed = if has_id (st.texts 1) c.table then 0 else 1;
  },
)
step_kind deletes st c = (
  sqlite_done,
  st,
  record {
    table = delete_row (st.texts 1) c.table;
    changed = count_rows (has_key (st.texts 1)) c.table;
  },
)
step_kind purges st c = (
  sqlite_done,
  st,
  record {
    table = purge_rows (st.ints 1) c.table;
    changed = count_rows (is_overdue (st.ints 1)) c.table;
  },
)
step_kind counts st c = (sqlite_row, record st { ints = λ _. pos (length c.table) }, c)
step_kind gets st c = advance (remaining st.queue st c.table) st c
step_kind gets_message st c = advance (remaining st.queue st c.table) st c
step_kind other st c = (sqlite_done, st, c)

abbrev text_column : ℕ → Fragment → Bytes
text_column zero f = f.id
text_column (suc zero) f = f.message_id
text_column (suc (suc zero)) f = f.chat_id
text_column (suc (suc (suc zero))) f = f.sender_hash
text_column (suc (suc (suc (suc i)))) f = f.payload

abbrev int_column : ℕ → Option Fragment → Statement → ℤ
int_column i none st = st.ints i
int_column i (some f) st = if i == 5 then f.timestamp else f.ttl

abbrev shown_text : ℕ → Option Fragment → Option Bytes
shown_text i none = none
shown_text i (some f) = some (text_column i f)

abbrev pub memory : Sqlite
memory = record {
  Conn = Connection;
  Stmt = Statement;
  open_db = λ path. (sqlite_ok, record { table = []; changed = 0 });
  exec = λ sql c. (sqlite_ok, none, c);
  prepare = λ sql c. (
    sqlite_ok,
    record { kind = kind_of sql; texts = λ _. []; ints = λ _. pos 0; shown = none; queue = none },
  );
  bind_text = λ i v st. record st { texts = set_at i v st.texts };
  bind_int64 = λ i v st. record st { ints = set_at i v st.ints };
  step = λ st c. step_kind st.kind st c;
  column_text = λ i st. shown_text i st.shown;
  column_int64 = λ i st. int_column i st.shown st;
  changes = λ c. c.changed;
  row_limit = λ st c. length (remaining st.queue st c.table);
}

abbrev pub IsQuery : Kind → Type 0
IsQuery gets = Unit
IsQuery gets_message = Unit
IsQuery _ = ⊥

abbrev pub left_over : Statement → Connection → List Fragment
left_over st c = remaining st.queue st c.table

step_query :
    (k : Kind) (st : Statement) (c : Connection)
    → IsQuery k
    → step_kind k st c ≡ advance (left_over st c) st c
unfolding step_kind
step_query gets st c h = refl
step_query gets_message st c h = refl
step_query _ st c h = absurd h

-- A step of a query delivers the next row or is done; the table stays as it is.
pub record StepsOn (st : Statement) (c : Connection) (result : ℕ × Statement × Connection)
    : Type 0 where
  pub same_table : result.2.table ≡ c.table
  pub goes :
      ((result.0 ≡ sqlite_row)
        × IsQuery result.1.kind
        × ((f : Fragment) × (left_over st c ≡ f ∷ left_over result.1 result.2)
            × (result.1.shown ≡ some f)))
      ⊎ ((((result.0 ≡ sqlite_done) × (left_over st c ≡ []))) ⊎ IsFailure result.0)

advance-StepsOn :
    (left : List Fragment) (st : Statement) (c : Connection)
    → IsQuery st.kind
    → left_over st c ≡ left
    → StepsOn st c (advance left st c)
unfolding advance remaining
advance-StepsOn [] st c q e = record { same_table = refl; goes = inr (inl (refl, e)) }
advance-StepsOn (f ∷ rest) st c q e = record {
  same_table = refl;
  goes = inl (refl, q, (f, e, refl));
}

pub step_query-StepsOn :
    (st : Statement) (c : Connection) → IsQuery st.kind → StepsOn st c (step_kind st.kind st c)
step_query-StepsOn st c q =
    rw (step_query st.kind st c q) (advance-StepsOn (left_over st c) st c q refl)

-- The same as the law of a query's step has it.
abbrev pub GoesAs : Statement → Connection → ℕ × Statement × Connection → Type 0
GoesAs st c result =
    ((result.0 ≡ sqlite_row)
      × IsQuery result.1.kind
      × ((f : Fragment) × (left_over st c ≡ f ∷ left_over result.1 result.2)
          × Shows memory result.1 f))
    ⊎ (((result.0 ≡ sqlite_done) × (left_over st c ≡ [])) ⊎ IsFailure result.0)

pub select_goes :
    (st : Statement) (c : Connection) (result : ℕ × Statement × Connection)
    → StepsOn st c result
    → GoesAs st c result
select_goes st c result on = elim on.goes [
  | inl (row, q, (f, left, shown)) ↦ inl (
    row,
    q,
    (
      f,
      left,
      record {
        id = rw shown;
        message_id = rw shown;
        chat_id = rw shown;
        sender_hash = rw shown;
        payload = rw shown;
        timestamp = rw shown;
        ttl = rw shown;
      },
    ),
  )
  | inr ends ↦ inr ends
]

unfoldable pub memory_laws : SqliteLaws memory
unfolding step_kind kind_of remaining selection
memory_laws = record {
  rows = λ c. c.table;
  IsSelect = λ st c. IsQuery st.kind;
  pending = left_over;
  prepare_code = λ sql c. inl refl;
  insert_step = λ r c e. inl (refl, refl, refl);
  delete_step = λ id c e. inl (refl, refl, refl);
  purge_step = λ now c e small. inl (refl, refl, refl);
  count_step = λ c e. inl (refl, refl);
  count_rows_same = λ c. refl;
  get_select = λ chat_id since c e. (tt, sort-perm _, sort-IsSorted _);
  get_message_select = λ message_id c e. (tt, sort-perm _, sort-IsSorted _);
  select_limit = λ st c q. omega arith;
  select_rows_same = λ st c q. (step_query-StepsOn st c q).same_table;
  select_step = λ st c q. select_goes st c _ (step_query-StepsOn st c q);
}
