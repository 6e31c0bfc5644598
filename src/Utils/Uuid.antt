-- ===== src/Utils/Uuid.antt =====
-- `uuid4` of backend/src/utils.hpp, over the two words that the random generator gives.
pub mod Shape
use frag.Prelude.{ℕ, zero, suc, ◌+◌, ◌*◌, ◌/◌, ◌%◌, ◌^◌, [], ◌∷◌, ◌++◌}
use frag.Text.{Bytes}
use frag.Utils.JsonEscape.{hex_digit}

-- "%0<width>x" of a number that has at most `width` hexadecimal digits.
unfoldable pub padded_hex : ℕ → ℕ → Bytes
padded_hex zero n = []
padded_hex (suc width) n = hex_digit ((n / 16 ^ width) % 16) ∷ padded_hex width n

-- `(hi & 0xFFFFFFFFFFFF0FFF) | 0x4000`: bits 12 to 15 are replaced.
unfoldable pub with_version : ℕ → ℕ
with_version hi = hi / 2 ^ 16 * 2 ^ 16 + 0x4000 + hi % 2 ^ 12

-- `(lo & 0x3FFFFFFFFFFFFFFF) | 0x8000000000000000`: the two highest bits are replaced.
unfoldable pub with_variant : ℕ → ℕ
with_variant lo = 2 ^ 63 + lo % 2 ^ 62

-- The text that `snprintf` writes; the casts cut each part to its width.
unfoldable pub uuid4 : ℕ → ℕ → Bytes
unfolding with_version with_variant padded_hex
uuid4 random_hi random_lo =
    let hi = with_version random_hi in
    let lo = with_variant random_lo in
    padded_hex 8 ((hi / 2 ^ 32) % 2 ^ 32)
    ++ (b'-'
        ∷ (padded_hex 4 ((hi / 2 ^ 16) % 2 ^ 16)
            ++ (b'-'
                ∷ (padded_hex 4 (hi % 2 ^ 16)
                    ++ (b'-'
                        ∷ (padded_hex 4 ((lo / 2 ^ 48) % 2 ^ 16)
                            ++ (b'-' ∷ padded_hex 12 (lo % 2 ^ 48))))))))
