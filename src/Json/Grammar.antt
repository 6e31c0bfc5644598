-- ===== src/Json/Grammar.antt =====
-- The grammar of JSON texts (RFC 8259) without white space, fractions and exponents, as a relation between a text and its value, for what backend/src/handlers.cpp writes. It is a grammar of bytes: which of
-- them make up UTF-8 is left open.
pub mod Fragments
use frag.Prelude.{ℕ, ◌+◌, ◌≡◌, Bool, true, false, [], ◌∷◌, ◌++◌}
use frag.Prelude.Int.{ℤ, pos, negsuc}
use frag.Text.{Bytes, codes}
use frag.Text.Number.Numeral.{Numeral}
use frag.Json.Read.{quoted}
use frag.Json.Escape.{Spells}

pub data SpellsInt : Bytes → ℤ → Type 0 where
  zero : SpellsInt (b'0' ∷ []) (pos 0)
  minus_zero : SpellsInt (b'-' ∷ b'0' ∷ []) (pos 0)
  positive : {text : Bytes} {n : ℕ} → Numeral text n → SpellsInt text (pos n)
  negative : {text : Bytes} {n : ℕ} → Numeral text (n + 1) → SpellsInt (b'-' ∷ text) (negsuc n)

mutual
  pub data Value : Type 0 where
    null : Value
    boolean : Bool → Value
    number : ℤ → Value
    string : Bytes → Value
    array : Values → Value
    object : Members → Value

  pub data Values : Type 0 where
    no_values : Values
    value : Value → Values → Values

  pub data Members : Type 0 where
    no_members : Members
    member : Bytes → Value → Members → Members

mutual
  pub data Denotes : Bytes → Value → Type 0 where
    null_text : Denotes (codes "null") null
    true_text : Denotes (codes "true") (boolean true)
    false_text : Denotes (codes "false") (boolean false)
    number_text : {text : Bytes} {x : ℤ} → SpellsInt text x → Denotes text (number x)
    string_text :
        {inner text v : Bytes} → text ≡ quoted inner → Spells inner v → Denotes text (string v)
    empty_array : Denotes (b'[' ∷ b']' ∷ []) (array no_values)
    array_text :
        {inner text : Bytes} {vs : Values}
        → text ≡ b'[' ∷ (inner ++ (b']' ∷ []))
        → Elements inner vs
        → Denotes text (array vs)
    empty_object : Denotes (b'{' ∷ b'}' ∷ []) (object no_members)
    object_text :
        {inner text : Bytes} {ms : Members}
        → text ≡ b'{' ∷ (inner ++ (b'}' ∷ []))
        → Entries inner ms
        → Denotes text (object ms)

  pub data Elements : Bytes → Values → Type 0 where
    last_element : {text : Bytes} {v : Value} → Denotes text v → Elements text (value v no_values)
    next_element :
        {front rest text : Bytes} {v : Value} {vs : Values}
        → text ≡ front ++ (b',' ∷ rest)
        → Denotes front v
        → Elements rest vs
        → Elements text (value v vs)

  pub data Entries : Bytes → Members → Type 0 where
    last_entry :
        {name key of_value text : Bytes} {v : Value}
        → text ≡ quoted name ++ (b':' ∷ of_value)
        → Spells name key
        → Denotes of_value v
        → Entries text (member key v no_members)
    next_entry :
        {name key of_value rest text : Bytes} {v : Value} {ms : Members}
        → text ≡ quoted name ++ (b':' ∷ (of_value ++ (b',' ∷ rest)))
        → Spells name key
        → Denotes of_value v
        → Entries rest ms
        → Entries text (member key v ms)
