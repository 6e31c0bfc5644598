-- ===== src/Database/Table.antt =====
-- What the table of fragments promises, without SQLite: rows with distinct ids, insertion that
-- ignores a known id, deletion by id, removal of what is overdue, and selection.
pub mod Laws
pub mod Unmodified
use frag.Prelude.{
  ℕ, suc, ◌≡◌, ◌⊎◌, Bool, true, false, ◌&&◌, ◌||◌, not, List, [], ◌∷◌, ◌++◌, if◌then◌else◌, All,
}
use frag.Prelude.Int.{ℤ, pos, ◌+ℤ◌, ◌≤ℤ◌, leb_ℤ, ltb_ℤ}
use frag.Text.{Bytes, same, c_str}
use frag.Fragment.{Fragment}

-- The rows that pass a test, and their number.
unfoldable pub keep : (Fragment → Bool) → List Fragment → List Fragment
keep test [] = []
keep test (f ∷ rows) = if test f then f ∷ keep test rows else keep test rows

unfoldable pub count_rows : (Fragment → Bool) → List Fragment → ℕ
count_rows test [] = 0
count_rows test (f ∷ rows) = if test f then suc (count_rows test rows) else count_rows test rows

abbrev pub has_key : Bytes → Fragment → Bool
has_key id f = same f.id id

unfoldable pub has_id : Bytes → List Fragment → Bool
has_id id [] = false
has_id id (f ∷ rows) = has_key id f || has_id id rows

-- "INSERT OR IGNORE" with the primary key `id`.
unfoldable pub insert_row : Fragment → List Fragment → List Fragment
insert_row f rows = if has_id f.id rows then rows else rows ++ (f ∷ [])

-- "DELETE … WHERE id = ?".
unfoldable pub delete_row : Bytes → List Fragment → List Fragment
delete_row id rows = keep (λ f. not (has_key id f)) rows

-- "ttl > 0 AND (timestamp + ttl) <= ?".
unfoldable pub is_overdue : ℤ → Fragment → Bool
is_overdue now f = ltb_ℤ (pos 0) f.ttl && leb_ℤ (f.timestamp +ℤ f.ttl) now

unfoldable pub purge_rows : ℤ → List Fragment → List Fragment
purge_rows now rows = keep (λ f. not (is_overdue now f)) rows

-- "chat_id = ? AND timestamp > ?" and "message_id = ?".
unfoldable pub in_chat : Bytes → ℤ → Fragment → Bool
in_chat chat_id since f = same f.chat_id chat_id && ltb_ℤ since f.timestamp

unfoldable pub in_message : Bytes → Fragment → Bool
in_message message_id f = same f.message_id message_id

-- "ORDER BY timestamp ASC".
abbrev pub IsSorted : List Fragment → Type 0
IsSorted [] = Unit
IsSorted (f ∷ rows) = All (λ g. f.timestamp ≤ℤ g.timestamp) rows × IsSorted rows

-- The primary key.
abbrev pub HasDistinctIds : List Fragment → Type 0
HasDistinctIds [] = Unit
HasDistinctIds (f ∷ rows) = All (λ g. same g.id f.id ≡ false) rows × HasDistinctIds rows

-- A row of the table.
abbrev pub HasRow : Fragment → List Fragment → Type 0
HasRow f [] = ⊥
HasRow f (g ∷ rows) = (g ≡ f) ⊎ HasRow f rows

-- A fragment as it is stored: each text up to its first NUL.
unfoldable pub stored : Fragment → Fragment
stored f = record {
  id = c_str f.id;
  message_id = c_str f.message_id;
  chat_id = c_str f.chat_id;
  sender_hash = c_str f.sender_hash;
  payload = c_str f.payload;
  timestamp = f.timestamp;
  ttl = f.ttl;
}
