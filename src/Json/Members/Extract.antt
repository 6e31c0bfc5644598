-- ===== src/Json/Members/Extract.antt =====
-- `extract_string` and `extract_int` of backend/src/handlers.cpp on an object in which other members
-- stand before the one that is asked for.
use frag.Prelude.{
  ℕ, ◌+◌, ◌≡◌, ◌⊎◌, refl, sym, ap, ◌∙◌, false, inl, inr, List, [], ◌∷◌, ◌++◌, none, some, arith,
  ◌==◌, length, length-append, append_assoc, drop, drop-append,
}
use frag.Prelude.Int.{ℤ}
use frag.Text.{Bytes, starts_with, find_at, find}
use frag.Text.Laws.{find_at-append, find-append, find_zero}
use frag.Text.Number.{stoll}
use frag.Json.Read.{quoted, read_value, value_start, extract_string, extract_int, skip_blanks}
use frag.Json.Escape.{read_value_end}
use frag.Json.Members.{Plain, IsKey, entry, entries, Differs, skip_entries}

tail_cases : (v : Bytes) → (v ≡ []) ⊎ ((d : ℕ) × ((v' : Bytes) × (v ≡ d ∷ v')))
tail_cases [] = inl refl
tail_cases (d ∷ v) = inr (d, (v, refl))

-- A plain text is read up to its closing quote.
pub read_value-Plain : (v rest : Bytes) → Plain v → read_value (v ++ (b'"' ∷ rest)) ≡ v
unfolding read_value
read_value-Plain [] rest h = read_value_end rest
read_value-Plain (c ∷ v) rest ((not_quote, not_backslash), h) =
    let quote : (c == b'"') ≡ false = ground arith in
    let backslash : (c == b'\\') ≡ false = ground arith in
    elim (tail_cases v) [
      | inl empty ↦ rw (empty, quote, backslash, read_value, read_value_end rest)
      | inr (d, (v', more)) ↦
          rw (more, quote, backslash, read_value)
            (ap (◌∷◌ c) (rw more at (read_value-Plain v rest h)))
    ]

module _ (key : Bytes) (front tail : Bytes) where
  abbrev around : Bytes
  around = front ++ (quoted key ++ (b':' ∷ tail))

  abbrev IsFirst : Type 0
  IsFirst = find_at (quoted key) around 0 ≡ some (length front)

  before_colon : around ≡ (front ++ quoted key) ++ (b':' ∷ tail)
  before_colon = sym (append_assoc front (quoted key) (b':' ∷ tail))

  behind_colon : around ≡ ((front ++ quoted key) ++ (b':' ∷ [])) ++ tail
  behind_colon = simp append_assoc

  length_behind :
      length ((front ++ quoted key) ++ (b':' ∷ [])) ≡ length front + length (quoted key) + 1
  length_behind =
      omega
        (arith, length-append (front ++ quoted key) (b':' ∷ []), length-append front (quoted key))

  value_start_at :
      IsFirst → value_start around key ≡ some (length ((front ++ quoted key) ++ (b':' ∷ [])))
  unfolding value_start
  value_start_at first =
      let found : find around (quoted key) 0 ≡ some (length front) =
        find_zero around (quoted key) ∙ first in
      let place = length-append front (quoted key) in
      let colon : find around (b':' ∷ []) (length front + length (quoted key))
          ≡ some (length front + length (quoted key)) =
        rw (before_colon, ← place)
          (find-append (front ++ quoted key) (b':' ∷ tail) (b':' ∷ [])
            ∙ find_at-append (b':' ∷ []) tail (length (front ++ quoted key))) in
      rw (found, value_start, colon, length_behind)

  extract_int_at :
      (default_val : ℤ)
      → IsFirst
      → extract_int around key default_val
        ≡ elim (stoll (skip_blanks tail)) [ none ↦ default_val | some n ↦ n ]
  unfolding extract_int
  extract_int_at default_val first =
      let rest : drop (length ((front ++ quoted key) ++ (b':' ∷ []))) around ≡ tail =
        rw behind_colon (drop-append ((front ++ quoted key) ++ (b':' ∷ [])) tail) in
      rw (value_start_at first, extract_int, rest)

  extract_string_at :
      (text : Bytes) → tail ≡ b'"' ∷ text → IsFirst → extract_string around key ≡ read_value text
  unfolding extract_string
  extract_string_at text opens first =
      let front' : Bytes = (front ++ quoted key) ++ (b':' ∷ []) in
      let split : around ≡ front' ++ (b'"' ∷ text) = behind_colon ∙ rw opens refl in
      let quote : find around (b'"' ∷ []) (length front') ≡ some (length front') = rw split (
        find-append front' (b'"' ∷ text) (b'"' ∷ [])
        ∙ find_at-append (b'"' ∷ []) text (length front')) in
      let rest : drop (length front' + 1) around ≡ text = rw split (
        rw (append_assoc front' (b'"' ∷ []) text, length-append front' (b'"' ∷ [])) at
          (drop-append (front' ++ (b'"' ∷ [])) text)) in
      rw (value_start_at first, extract_string, quote, rest)

-- The members of an object up to one member, and the text behind that member's colon.
abbrev pub object : List (Bytes × Bytes) → Bytes → Bytes → Bytes
object ms key tail = around key (b'{' ∷ entries ms) tail

module _ (key : Bytes) (is_key : IsKey key) (ms : List (Bytes × Bytes))
    (differs : Differs key ms) where
  object-IsFirst : (tail : Bytes) → IsFirst key (b'{' ∷ entries ms) tail
  unfolding find_at starts_with
  object-IsFirst tail =
      skip_entries key is_key ms (quoted key ++ (b':' ∷ tail)) 1 differs
      ∙ find_at-append (quoted key) (b':' ∷ tail) (1 + length (entries ms))
      ∙ ap some (omega arith)

  -- The reader finds the value of a member, where the members in front of it are plain and neither a
  -- key nor a value of them is the key.
  pub extract_string-object :
      (value rest : Bytes)
      → Plain value
      → extract_string (object ms key (quoted value ++ rest)) key ≡ value
  extract_string-object value rest plain =
      extract_string_at key (b'{' ∷ entries ms) (quoted value ++ rest) (value ++ (b'"' ∷ rest))
        (simp append_assoc) (object-IsFirst (quoted value ++ rest))
      ∙ read_value-Plain value rest plain

  pub extract_int-object :
      (tail : Bytes) (default_val : ℤ)
      → extract_int (object ms key tail) key default_val
        ≡ elim (stoll (skip_blanks tail)) [ none ↦ default_val | some n ↦ n ]
  extract_int-object tail default_val =
      extract_int_at key (b'{' ∷ entries ms) tail default_val (object-IsFirst tail)

entries-append : (xs ys : List (Bytes × Bytes)) → entries (xs ++ ys) ≡ entries xs ++ entries ys
entries-append [] ys = refl
entries-append (m ∷ xs) ys =
    rw (entries-append xs ys) (sym (append_assoc (entry m) (entries xs) (entries ys)))

-- In an object whose members are written one behind the other, the reader finds the value of a
-- member if that value and the members in front of it have no quote and no backslash, no key or
-- value in front of it is the key, and the key is plain and begins with neither a colon nor a
-- comma.
pub extract_string-among :
    (key value : Bytes) (before after : List (Bytes × Bytes)) (last tail : Bytes)
    → IsKey key
    → Differs key before
    → Plain value
    → extract_string (object (before ++ ((key, value) ∷ after)) last tail) key ≡ value
extract_string-among key value before after last tail is_key differs plain =
    let rest : Bytes = b',' ∷ (entries after ++ (quoted last ++ (b':' ∷ tail))) in
    let text : object (before ++ ((key, value) ∷ after)) last tail
        ≡ object before key (quoted value ++ rest) =
      rw (entries-append before ((key, value) ∷ after)) (simp append_assoc) in
    rw text (extract_string-object key is_key before differs value rest plain)
