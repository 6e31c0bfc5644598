-- ===== src/Json/Grammar/Fragments.antt =====
-- `fragment_to_json` and `fragments_array` of backend/src/handlers.cpp against the grammar of JSON.
use frag.Prelude.{
  zero, suc, ◌+◌, ◌≤◌, ◌≢◌, refl, [], ◌∷◌, ◌++◌, List, All, arith, append_assoc, append-nil,
}
use frag.Prelude.Int.{ℤ, pos, negsuc}
use frag.Text.{Bytes, codes}
use frag.Text.Number.{print_nat, print_int}
use frag.Text.Number.Numeral.{print_nat-Numeral}
use frag.Utils.JsonEscape.{json_escape}
use frag.Fragment.{Fragment}
use frag.Json.Build.{fragment_to_json, more_fragments, fragments_array}
use frag.Json.Read.{quoted}
use frag.Json.Escape.{Spells, end, plain, json_escape-Spells}
use frag.Json.Grammar.{
  SpellsInt, Value, string, number, array, object, Values, no_values, value, Members, no_members,
  member, Denotes, number_text, string_text, empty_array, array_text, object_text, Elements,
  last_element, next_element, Entries, last_entry, next_entry,
}

pub print_int-SpellsInt : (x : ℤ) → SpellsInt (print_int x) x
unfolding print_int
print_int-SpellsInt (pos zero) = unfold print_nat in SpellsInt.zero
print_int-SpellsInt (pos (suc n)) = SpellsInt.positive (print_nat-Numeral (suc n) (omega arith))
print_int-SpellsInt (negsuc n) = SpellsInt.negative (print_nat-Numeral (n + 1) (omega arith))

-- The text between quotes of a text without escapes, which stands for itself.
abbrev pub IsPlain : Bytes → Type 0
IsPlain = All (λ c. (0x20 ≤ c) × (c ≢ b'"') × (c ≢ b'\\'))

pub IsPlain-Spells : (s : Bytes) → IsPlain s → Spells s s
IsPlain-Spells [] h = end
IsPlain-Spells (c ∷ s) ((control, quote, slash), h) = plain control quote slash (IsPlain-Spells s h)

pub escaped_text : (s : Bytes) → Denotes (quoted (json_escape s)) (string s)
escaped_text s = string_text refl (json_escape-Spells s)

pub int_text : (x : ℤ) → Denotes (print_int x) (number x)
int_text x = number_text (print_int-SpellsInt x)

abbrev pub fragment_value : Fragment → Value
fragment_value f = object (
    member (codes "id") (string f.id) (
      member (codes "message_id") (string f.message_id) (
        member (codes "chat_id") (string f.chat_id) (
          member (codes "sender_hash") (string f.sender_hash) (
            member (codes "payload") (string f.payload) (
              member (codes "timestamp") (number f.timestamp)
                (member (codes "ttl") (number f.ttl) no_members)))))))

abbrev pub fragment_values : List Fragment → Values
fragment_values [] = no_values
fragment_values (f ∷ frags) = value (fragment_value f) (fragment_values frags)

-- A member that is followed by others.
abbrev pub with_entry : Bytes → Bytes → Bytes → Bytes
with_entry key of_value rest = quoted key ++ (b':' ∷ (of_value ++ (b',' ∷ rest)))

pub with_entry-Entries :
    (key : Bytes) {of_value rest : Bytes} {v : Value} {ms : Members}
    → IsPlain key
    → Denotes of_value v
    → Entries rest ms
    → Entries (with_entry key of_value rest) (member key v ms)
with_entry-Entries key h d e = next_entry refl (IsPlain-Spells key h) d e

pub ends_with_entry :
    (key : Bytes) {of_value : Bytes} {v : Value}
    → IsPlain key
    → Denotes of_value v
    → Entries (quoted key ++ (b':' ∷ of_value)) (member key v no_members)
ends_with_entry key h d = last_entry refl (IsPlain-Spells key h) d

fragment_to_json-Denotes : (f : Fragment) → Denotes (fragment_to_json f) (fragment_value f)
unfolding fragment_to_json
fragment_to_json-Denotes f = object_text (simp append_assoc) (
    with_entry-Entries (codes "id") (ground arith) (escaped_text f.id) (
      with_entry-Entries (codes "message_id") (ground arith) (escaped_text f.message_id) (
        with_entry-Entries (codes "chat_id") (ground arith) (escaped_text f.chat_id) (
          with_entry-Entries (codes "sender_hash") (ground arith) (escaped_text f.sender_hash) (
            with_entry-Entries (codes "payload") (ground arith) (escaped_text f.payload) (
              with_entry-Entries (codes "timestamp") (ground arith) (int_text f.timestamp)
                (ends_with_entry (codes "ttl") (ground arith) (int_text f.ttl))))))))

more_fragments-Elements :
    (f : Fragment) (frags : List Fragment)
    → Elements (fragment_to_json f ++ more_fragments frags) (fragment_values (f ∷ frags))
unfolding more_fragments
more_fragments-Elements f [] =
    last_element (rw (append-nil (fragment_to_json f)) (fragment_to_json-Denotes f))
more_fragments-Elements f (g ∷ frags) =
    next_element refl (fragment_to_json-Denotes f) (more_fragments-Elements g frags)

-- For every list of fragments, the array that is written is a JSON text that denotes the fragments'
-- objects in their order, with all bytes of their texts and both numbers.
pub fragments_array-Denotes :
    (frags : List Fragment) → Denotes (fragments_array frags) (array (fragment_values frags))
unfolding fragments_array
fragments_array-Denotes [] = empty_array
fragments_array-Denotes (f ∷ frags) =
    array_text (simp append_assoc) (more_fragments-Elements f frags)
