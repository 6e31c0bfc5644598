-- ===== src/Json/Escape.antt =====
-- What `json_escape` writes, against the grammar of JSON strings (RFC 8259) and against the
-- program's own reader.
use frag.Prelude.{
  ℕ, ◌+◌, ◌-◌, ◌*◌, ◌/◌, ◌%◌, ◌<◌, ◌≤◌, ◌≡◌, ◌≢◌, ◌⊎◌, inl, inr, refl, ap, true, false, ◌&&◌, ◌||◌,
  [], ◌∷◌, ◌++◌, Option, none, some, arith, leb, ltb, ◌==◌, if◌then◌else◌, All, append_assoc,
  passes_on, passes_on_lookup, found_is, found_is_iff, Bool-cases,
}
use frag.Text.{Bytes}
use frag.Utils.JsonEscape.{hex_digit, escape_byte, json_escape}
use frag.Json.Read.{read_value}

-- The two-byte escapes of the grammar.
unfoldable pub short_escape : ℕ → Option ℕ
short_escape e =
    if e == b'"' || e == b'\\' || e == b'/'
    then some e
    else if e == b'b'
    then some 8
    else if e == b'f'
    then some 12
    else if e == b'n'
    then some 10
    else if e == b'r'
    then some 13
    else if e == b't'
    then some 9
    else none

unfoldable pub json_hex : ℕ → Option ℕ
json_hex c =
    if leb b'0' c && leb c b'9'
    then some (c - b'0')
    else if leb b'a' c && leb c b'f'
    then some (c - b'a' + 10)
    else if leb b'A' c && leb c b'F'
    then some (c - b'A' + 10)
    else none

-- The text between the quotes of a JSON string, and the bytes that it stands for: bytes from 0x20
-- on but the quote and the backslash stand for themselves, the others are escaped.
pub data Spells : Bytes → Bytes → Type 0 where
  end : Spells [] []
  plain :
      {c : ℕ} {text value : Bytes}
      → 0x20 ≤ c
      → c ≢ b'"'
      → c ≢ b'\\'
      → Spells text value
      → Spells (c ∷ text) (c ∷ value)
  short :
      {slash e c : ℕ} {text value : Bytes}
      → slash ≡ b'\\'
      → short_escape e ≡ some c
      → Spells text value
      → Spells (slash ∷ e ∷ text) (c ∷ value)
  unicode :
      {c x y h l : ℕ} {front text value : Bytes}
      → front ≡ b'\\' ∷ b'u' ∷ b'0' ∷ b'0' ∷ x ∷ y ∷ text
      → json_hex x ≡ some h
      → json_hex y ≡ some l
      → c ≡ h * 16 + l
      → Spells text value
      → Spells front (c ∷ value)

hex_digit_table : passes_on (λ d. found_is (json_hex (hex_digit d)) d) 16 ≡ true
unfolding passes_on json_hex hex_digit
hex_digit_table = refl

json_hex-hex_digit : (d : ℕ) → d < 16 → json_hex (hex_digit d) ≡ some d
json_hex-hex_digit d h =
    (found_is_iff _ _).0
      (passes_on_lookup (λ d. found_is (json_hex (hex_digit d)) d) 16 d h hex_digit_table)

-- What is written for one byte.
data Written (c : ℕ) : Bytes → Type 0 where
  as_is : 0x20 ≤ c → c ≢ b'"' → c ≢ b'\\' → {out : Bytes} → out ≡ c ∷ [] → Written c out
  as_short :
      (e : ℕ) → short_escape e ≡ some c → {out : Bytes} → out ≡ b'\\' ∷ e ∷ [] → Written c out
  as_unicode :
      c < 0x20
      → {out : Bytes}
      → out ≡ b'\\' ∷ b'u' ∷ b'0' ∷ b'0' ∷ hex_digit (c / 16) ∷ hex_digit (c % 16) ∷ []
      → Written c out

byte-Written : (c : ℕ) → Written c (escape_byte c)
unfolding escape_byte short_escape
byte-Written c = elim (Bool-cases (c == b'"')) [
  | inl e ↦ as_short b'"' (ground arith) (ground arith)
  | inr e1 ↦ elim (Bool-cases (c == b'\\')) [
    | inl e ↦ as_short b'\\' (ground arith) (ground arith)
    | inr e2 ↦ elim (Bool-cases (c == b'\n')) [
      | inl e ↦ as_short b'n' (ground arith) (ground arith)
      | inr e3 ↦ elim (Bool-cases (c == b'\r')) [
        | inl e ↦ as_short b'r' (ground arith) (ground arith)
        | inr e4 ↦ elim (Bool-cases (c == b'\t')) [
          | inl e ↦ as_short b't' (ground arith) (ground arith)
          | inr e5 ↦ elim (Bool-cases (ltb c 0x20)) [
            | inl e ↦ as_unicode (ground arith) (rw (e1, e2, e3, e4, e5, e))
            | inr e ↦
                as_is (ground arith) (ground arith) (ground arith) (rw (e1, e2, e3, e4, e5, e))
          ]
        ]
      ]
    ]
  ]
]

Written-Spells :
    (c : ℕ) (out text value : Bytes)
    → Written c out
    → Spells text value
    → Spells (out ++ text) (c ∷ value)
Written-Spells c out text value (as_is lo q b e) s = rw e (plain lo q b s)
Written-Spells c out text value (as_short x h e) s = rw e (short refl h s)
Written-Spells c out text value (as_unicode lo e) s = rw e (
    unicode refl (json_hex-hex_digit (c / 16) (omega arith))
      (json_hex-hex_digit (c % 16) (omega arith)) (omega arith) s)

-- For every text, what the escaping gives is the content of a JSON string (RFC 8259) that stands
-- for the text.
pub json_escape-Spells : (s : Bytes) → Spells (json_escape s) s
unfolding json_escape
json_escape-Spells [] = end
json_escape-Spells (c ∷ s) =
    Written-Spells c (escape_byte c) (json_escape s) s (byte-Written c) (json_escape-Spells s)

-- The bytes that the program's own reader gives back: the control bytes that have no escape of two
-- bytes are written as "\u00xy", which it does not know.
abbrev pub IsReadable : ℕ → Type 0
IsReadable c = (0x20 ≤ c) ⊎ ((c ≡ b'\n') ⊎ ((c ≡ b'\r') ⊎ (c ≡ b'\t')))

read_value-byte :
    (c : ℕ) (rest : Bytes)
    → IsReadable c
    → rest ≢ []
    → read_value (escape_byte c ++ rest) ≡ c ∷ read_value rest
unfolding read_value escape_byte
read_value-byte c [] h ne = absurd (ne refl)
read_value-byte c (x ∷ rest) h ne = ground arith

closing-ne-nil : (s rest : Bytes) → s ++ (b'"' ∷ rest) ≢ []
closing-ne-nil [] rest = cc
closing-ne-nil (c ∷ s) rest = cc

pub read_value_end : (rest : Bytes) → read_value (b'"' ∷ rest) ≡ []
unfolding read_value
read_value_end [] = refl
read_value_end (c ∷ rest) = refl

-- From an escaped text and a closing quote the reader gives back the text, whatever follows, if
-- each of its bytes is from 0x20 on or a line feed, a carriage return or a tab.
pub read_value-json_escape :
    (s rest : Bytes) → All IsReadable s → read_value (json_escape s ++ (b'"' ∷ rest)) ≡ s
unfolding json_escape
read_value-json_escape [] rest h = read_value_end rest
read_value-json_escape (c ∷ s) rest (hc, h) =
    rw
      (
        append_assoc (escape_byte c) (json_escape s) (b'"' ∷ rest),
        read_value-byte c (json_escape s ++ (b'"' ∷ rest)) hc (closing-ne-nil (json_escape s) rest),
      )
      (ap (◌∷◌ c) (read_value-json_escape s rest h))

-- A hexadecimal digit is neither a quote nor a backslash.
hex_digit_solid :
    (d : ℕ) → d < 16 → ((hex_digit d == b'"') ≡ false) × ((hex_digit d == b'\\') ≡ false)
unfolding hex_digit
hex_digit_solid d h = (ground arith, ground arith)

-- An escaped control byte that is not a line feed, a carriage return or a tab is not read back:
-- whatever follows the closing quote, the reader gives the letter u, two zeros and the two
-- hexadecimal digits of the byte.
pub read_value-json_escape_control :
    (c : ℕ) (rest : Bytes)
    → c < 0x20
    → c ≢ b'\n'
    → c ≢ b'\r'
    → c ≢ b'\t'
    → read_value (json_escape (c ∷ []) ++ (b'"' ∷ rest))
      ≡ b'u' ∷ b'0' ∷ b'0' ∷ hex_digit (c / 16) ∷ hex_digit (c % 16) ∷ []
unfolding read_value json_escape
read_value-json_escape_control c rest small lf cr tab =
    let escaped : escape_byte c
        ≡ b'\\' ∷ b'u' ∷ b'0' ∷ b'0' ∷ hex_digit (c / 16) ∷ hex_digit (c % 16) ∷ [] =
      unfold escape_byte in ground arith in
    let x = hex_digit_solid (c / 16) (omega arith) in
    let y = hex_digit_solid (c % 16) (omega arith) in
    rw (escaped, x.0, x.1, y.0, y.1, read_value_end rest) refl
