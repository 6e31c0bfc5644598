-- ===== src/Utils/Case.antt =====
-- `to_lower` of backend/src/utils.hpp: std::tolower in the C locale, byte by byte.
use frag.Prelude.{ℕ, ◌+◌, ◌&&◌, leb, if◌then◌else◌, map}
use frag.Text.{Bytes}

unfoldable pub lower_char : ℕ → ℕ
lower_char c = if leb b'A' c && leb c b'Z' then c + 32 else c

unfoldable pub to_lower : Bytes → Bytes
unfolding lower_char
to_lower s = map lower_char s
