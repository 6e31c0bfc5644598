-- ===== src/Text/Number.antt =====
-- Numbers in texts: std::stoull, std::stoll and std::stoi, which throw (`none`) where no digit
-- stands or the value is out of range, and the decimal print of an integer.
pub mod RoundTrip
pub mod Digits
pub mod Numeral
use frag.Prelude.{
  ℕ, zero, suc, ◌+◌, ◌-◌, ◌*◌, ◌/◌, ◌%◌, ◌^◌, Bool, true, false, ◌&&◌, ◌||◌, List, [], ◌∷◌, ◌++◌,
  Option, none, some, leb, ltb, ◌==◌, if◌then◌else◌,
}
use frag.Prelude.Int.{ℤ, pos, negsuc}
use frag.Text.{Bytes}

-- std::isspace in the C locale.
unfoldable pub is_space : ℕ → Bool
is_space c = c == b' ' || leb 9 c && leb c 13

unfoldable pub skip_space : Bytes → Bytes
skip_space [] = []
skip_space (c ∷ s) = if is_space c then skip_space s else c ∷ s

unfoldable pub is_digit : ℕ → Bool
is_digit c = leb b'0' c && leb c b'9'

-- The number that the digits at the head of the text spell, after `acc`.
unfoldable pub digits_from : ℕ → Bytes → ℕ
digits_from acc [] = acc
digits_from acc (c ∷ s) =
    let more = digits_from (acc * 10 + (c - b'0')) s in if is_digit c then more else acc

-- `none` where the text does not begin with a digit.
unfoldable pub magnitude : Bytes → Option ℕ
unfolding digits_from
magnitude [] = none
magnitude (c ∷ s) = if is_digit c then some (digits_from 0 (c ∷ s)) else none

-- The sign at the head of the text (`true` is minus), and what follows it.
unfoldable pub read_sign : Bytes → Bool × Bytes
read_sign [] = (false, [])
read_sign (c ∷ s) =
    if c == b'-' then (true, s) else if c == b'+' then (false, s) else (false, c ∷ s)

-- The sign and the magnitude of the number at the head of a text.
unfoldable pub read_number : Bytes → Bool × Option ℕ
unfolding is_space skip_space is_digit magnitude read_sign
read_number s = let (negative, rest) = read_sign (skip_space s) in (negative, magnitude rest)

-- `std::stoull`: a minus negates modulo 2^64.
abbrev unsigned : Bool × Option ℕ → Option ℕ
unsigned (negative, none) = none
unsigned (negative, some n) =
    if ltb n (2 ^ 64) then some (if negative then (2 ^ 64 - n) % 2 ^ 64 else n) else none

unfoldable pub stoull : Bytes → Option ℕ
unfolding read_number
stoull s = unsigned (read_number s)

-- The signed integer of a magnitude, if it lies from -limit to limit - 1.
abbrev signed : ℕ → Bool × Option ℕ → Option ℤ
signed limit (negative, none) = none
signed limit (false, some n) = if ltb n limit then some (pos n) else none
signed limit (true, some n) =
    if leb n limit then some (if n == 0 then pos 0 else negsuc (n - 1)) else none

-- `std::stoll` and `std::stoi`.
unfoldable pub stoll : Bytes → Option ℤ
unfolding read_number
stoll s = signed (2 ^ 63) (read_number s)

unfoldable pub stoi : Bytes → Option ℤ
unfolding read_number
stoi s = signed (2 ^ 31) (read_number s)

-- The decimal print of a number, the last digit first to come; each round divides by ten, so as
-- many rounds as the number and one more are enough.
pub print_from : ℕ → ℕ → Bytes → Bytes
print_from zero n out = out
print_from (suc rounds) n out =
    let more = print_from rounds (n / 10) ((b'0' + n % 10) ∷ out) in
    if ltb n 10 then (b'0' + n) ∷ out else more

unfoldable pub print_nat : ℕ → Bytes
unfolding print_from
print_nat n = print_from (n + 1) n []

unfoldable pub print_int : ℤ → Bytes
unfolding print_nat
print_int (pos n) = print_nat n
print_int (negsuc n) = b'-' ∷ print_nat (n + 1)
