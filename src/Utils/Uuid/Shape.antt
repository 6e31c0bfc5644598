-- ===== src/Utils/Uuid/Shape.antt =====
-- The shape of a version 4 UUID (RFC 4122), and that `uuid4` has it.
use frag.Prelude.{
  ℕ, zero, suc, ◌+◌, ◌*◌, ◌/◌, ◌%◌, ◌^◌, ◌≤◌, ◌<◌, ◌≡◌, ◌⊎◌, refl, ap, ◌∷◌, ◌++◌, arith, length,
  All,
}
use frag.Text.{Bytes}
use frag.Utils.JsonEscape.{hex_digit}
use frag.Utils.Uuid.{padded_hex, with_version, with_variant, uuid4}

-- A digit or a letter from a to f.
abbrev pub IsHexDigit : ℕ → Type 0
IsHexDigit c = ((b'0' ≤ c) × (c ≤ b'9')) ⊎ ((b'a' ≤ c) × (c ≤ b'f'))

abbrev pub IsHex : ℕ → Bytes → Type 0
IsHex n text = (length text ≡ n) × All IsHexDigit text

-- Groups of 8, 4, 4, 4 and 12 digits; the third begins with the version 4, the fourth with the
-- variant, which is one of 8, 9, a and b.
pub record IsUuid4 (text : Bytes) : Type 0 where
  pub time_low : Bytes
  pub time_mid : Bytes
  pub time_high : Bytes
  pub variant : ℕ
  pub clock : Bytes
  pub node : Bytes
  pub groups :
      text
      ≡ time_low
        ++ (b'-'
            ∷ (time_mid
                ++ (b'-' ∷ ((b'4' ∷ time_high) ++ (b'-' ∷ ((variant ∷ clock) ++ (b'-' ∷ node)))))))
  pub time_low_hex : IsHex 8 time_low
  pub time_mid_hex : IsHex 4 time_mid
  pub time_high_hex : IsHex 3 time_high
  pub is_variant : (variant ≡ b'8') ⊎ ((variant ≡ b'9') ⊎ ((variant ≡ b'a') ⊎ (variant ≡ b'b')))
  pub clock_hex : IsHex 3 clock
  pub node_hex : IsHex 12 node

hex_digit-IsHexDigit : (d : ℕ) → d < 16 → IsHexDigit (hex_digit d)
unfolding hex_digit
hex_digit-IsHexDigit d h = ground arith

padded_hex-IsHex : (width n : ℕ) → IsHex width (padded_hex width n)
unfolding padded_hex
padded_hex-IsHex zero n = (refl, tt)
padded_hex-IsHex (suc width) n =
    let (long, digits) = padded_hex-IsHex width n in
    (ap suc long, (hex_digit-IsHexDigit ((n / 16 ^ width) % 16) (omega arith), digits))

version_digit : (hi : ℕ) → hex_digit ((with_version hi % 2 ^ 16 / 16 ^ 3) % 16) ≡ b'4'
unfolding with_version hex_digit
version_digit hi =
    let four : ((hi / 2 ^ 16 * 2 ^ 16 + 0x4000 + hi % 2 ^ 12) % 2 ^ 16 / 16 ^ 3) % 16 ≡ 4 =
      omega arith in
    rw four refl

variant_digit :
    (lo : ℕ)
    → (hex_digit (((with_variant lo / 2 ^ 48) % 2 ^ 16 / 16 ^ 3) % 16) ≡ b'8')
      ⊎ ((hex_digit (((with_variant lo / 2 ^ 48) % 2 ^ 16 / 16 ^ 3) % 16) ≡ b'9')
          ⊎ ((hex_digit (((with_variant lo / 2 ^ 48) % 2 ^ 16 / 16 ^ 3) % 16) ≡ b'a')
              ⊎ (hex_digit (((with_variant lo / 2 ^ 48) % 2 ^ 16 / 16 ^ 3) % 16) ≡ b'b')))
unfolding with_variant hex_digit
variant_digit lo =
    let low : 8 ≤ ((2 ^ 63 + lo % 2 ^ 62) / 2 ^ 48 % 2 ^ 16 / 16 ^ 3) % 16 = omega arith in
    let high : ((2 ^ 63 + lo % 2 ^ 62) / 2 ^ 48 % 2 ^ 16 / 16 ^ 3) % 16 < 12 = omega arith in
    ground (arith, low, high)

-- Whatever the two random words, the text has groups of 8, 4, 4, 4 and 12 lower-case hexadecimal
-- digits with dashes between them, the third beginning with 4 and the fourth with 8, 9, a or b.
pub uuid4-IsUuid4 : (random_hi random_lo : ℕ) → IsUuid4 (uuid4 random_hi random_lo)
unfolding uuid4 padded_hex
uuid4-IsUuid4 random_hi random_lo =
    let hi = with_version random_hi in
    let lo = with_variant random_lo in
    record {
      time_low = padded_hex 8 ((hi / 2 ^ 32) % 2 ^ 32);
      time_mid = padded_hex 4 ((hi / 2 ^ 16) % 2 ^ 16);
      time_high = padded_hex 3 (hi % 2 ^ 16);
      variant = hex_digit (((lo / 2 ^ 48) % 2 ^ 16 / 16 ^ 3) % 16);
      clock = padded_hex 3 ((lo / 2 ^ 48) % 2 ^ 16);
      node = padded_hex 12 (lo % 2 ^ 48);
      groups = rw (version_digit random_hi) refl;
      time_low_hex = padded_hex-IsHex 8 _;
      time_mid_hex = padded_hex-IsHex 4 _;
      time_high_hex = padded_hex-IsHex 3 _;
      is_variant = variant_digit random_lo;
      clock_hex = padded_hex-IsHex 3 _;
      node_hex = padded_hex-IsHex 12 _;
    }
