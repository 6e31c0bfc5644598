-- ===== src/Text.antt =====
-- The operations of std::string that the program calls. A text is the list of its bytes; a
-- position is a number and `none` stands for std::string::npos.
pub mod Laws
pub mod Number
use Prim.Native.Char.{code}
use Prim.Native.String.{String}
use frag.Prelude.{
  ℕ, zero, suc, ◌+◌, ◌-◌, Bool, true, false, ◌&&◌, ◌||◌, not, List, [], ◌∷◌, ◌++◌, Option, none,
  some, leb, ◌==◌, if◌then◌else◌, length, take, drop,
}

abbrev pub Bytes : Type 0
Bytes = List ℕ

-- The bytes of an ASCII literal.
abbrev pub codes : String → Bytes
codes String.[] = []
codes (String.◌∷◌ c s) = code c ∷ codes s

-- `a == b`.
unfoldable pub same : Bytes → Bytes → Bool
same [] [] = true
same (x ∷ xs) (y ∷ ys) = x == y && same xs ys
same _ _ = false

-- Whether `s` begins with `pattern_text`.
unfoldable pub starts_with : Bytes → Bytes → Bool
starts_with [] s = true
starts_with (p ∷ ps) [] = false
starts_with (p ∷ ps) (c ∷ s) = p == c && starts_with ps s

-- The search of `find` from the head of `s`, which stands at position `i`.
unfoldable pub find_at : Bytes → Bytes → ℕ → Option ℕ
unfolding starts_with
find_at wanted [] i = if starts_with wanted [] then some i else none
find_at wanted (c ∷ s) i = if starts_with wanted (c ∷ s) then some i else find_at wanted s (i + 1)

-- `s.find(wanted, from)`.
unfoldable pub find : Bytes → Bytes → ℕ → Option ℕ
unfolding find_at
find s wanted from = if leb from (length s) then find_at wanted (drop from s) from else none

-- `s.substr(from)` and `s.substr(from, count)` at a position within the text.
abbrev pub substr_from : Bytes → ℕ → Bytes
substr_from s from = drop from s

abbrev pub substr : Bytes → ℕ → ℕ → Bytes
substr s from count = take count (drop from s)

-- The text that a C function reads from `s.c_str()`: it ends before the first NUL.
unfoldable pub c_str : Bytes → Bytes
c_str [] = []
c_str (c ∷ s) = let rest = c_str s in if c == 0 then [] else c ∷ rest
