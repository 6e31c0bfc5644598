-- ===== src/Auth.antt =====
-- backend/src/auth.hpp: the check of an Authorization header against the configured tokens.
pub mod Words
pub mod Laws
use frag.Prelude.{Bool, true, false, ◌||◌, List, [], ◌∷◌, if◌then◌else◌, is_empty, take, drop}
use frag.Text.{Bytes, codes, same, substr, substr_from}
use frag.Utils.Case.{to_lower}
use frag.Utils.Trim.{trim}

pub record Auth : Type 0 where
  pub tokens : List Bytes

-- `std::find(…) != tokens_.end()`.
unfoldable pub contains : List Bytes → Bytes → Bool
contains [] token = false
contains (t ∷ tokens) token = same t token || contains tokens token

abbrev pub bearer : Bytes
bearer = codes "bearer "

-- The token of a header value: what follows "Bearer ", in any case, trimmed; or all of it.
unfoldable pub presented : Bytes → Bytes
presented header_value =
    if same (to_lower (substr header_value 0 7)) bearer
    then trim (substr_from header_value 7)
    else header_value

unfoldable pub verify : Auth → Bytes → Bool
unfolding presented contains
verify auth header_value =
    if is_empty header_value then false else contains auth.tokens (presented header_value)

-- `empty()`.
unfoldable pub empty : Auth → Bool
empty auth = is_empty auth.tokens
