-- ===== src/Utils/Split.antt =====
-- `split` of backend/src/utils.hpp: pieces read by std::getline up to the delimiter.
pub mod Laws
pub mod RoundTrip
use frag.Prelude.{ℕ, List, [], ◌∷◌, ◌++◌, ◌==◌, if◌then◌else◌, is_empty}
use frag.Text.{Bytes}

-- `item` holds what the current call of getline has extracted. At the end of the text a call that
-- has extracted nothing fails, and its piece is not pushed.
split_from : ℕ → Bytes → Bytes → List Bytes
split_from delim item [] = if is_empty item then [] else item ∷ []
split_from delim item (c ∷ s) =
    let closed = item ∷ split_from delim [] s in
    let longer = split_from delim (item ++ c ∷ []) s in if c == delim then closed else longer

unfoldable pub split : Bytes → ℕ → List Bytes
unfolding split_from
split s delim = split_from delim [] s
