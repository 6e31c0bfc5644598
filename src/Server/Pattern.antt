-- ===== src/Server/Pattern.antt =====
-- `match_pattern`: patterns such as "/api/fragments/:id" against the path of a request.
pub mod Laws
use frag.Prelude.{
  ℕ, Bool, true, false, List, [], ◌∷◌, Option, none, some, ◌==◌, if◌then◌else◌, length, drop,
}
use frag.Text.{Bytes, same}
use frag.Dictionary.{put}
use frag.Utils.Split.{split}

-- `!p.empty() && p[0] == ':'`.
unfoldable pub is_param : Bytes → Bool
is_param [] = false
is_param (c ∷ p) = c == b':'

-- The loop over the parts of the pattern and of the path, which are equally many.
unfoldable pub match_parts :
    List Bytes → List Bytes → List (Bytes × Bytes) → Option (List (Bytes × Bytes))
unfolding is_param
match_parts [] cp params = some params
match_parts (p ∷ pp) [] params = none
match_parts (p ∷ pp) (c ∷ cp) params =
    let captured = match_parts pp cp (put (drop 1 p) c params) in
    let next = match_parts pp cp params in
    if is_param p then captured else if same p c then next else none

-- The captured parameters where the path matches, and `none` where it does not.
unfoldable pub match_pattern : Bytes → Bytes → Option (List (Bytes × Bytes))
match_pattern pattern_text path =
    let pp = split pattern_text b'/' in
    let cp = split path b'/' in if length pp == length cp then match_parts pp cp [] else none
