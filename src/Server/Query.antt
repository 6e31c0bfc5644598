-- ===== src/Server/Query.antt =====
-- `parse_query`: the parameters of a query string.
pub mod RoundTrip
use frag.Prelude.{◌+◌, List, [], ◌∷◌, none, some, take}
use frag.Text.{Bytes, find, substr_from}
use frag.Dictionary.{put}
use frag.Utils.Split.{split}
use frag.Utils.UrlDecode.{url_decode}

-- One round: a pair without '=' is a key with an empty value.
unfoldable pub add_pair : List (Bytes × Bytes) → Bytes → List (Bytes × Bytes)
add_pair result pair = elim (find pair (b'=' ∷ []) 0) [
  | none ↦ put (url_decode pair) [] result
  | some eq ↦ put (url_decode (take eq pair)) (url_decode (substr_from pair (eq + 1))) result
]

unfoldable pub add_pairs : List (Bytes × Bytes) → List Bytes → List (Bytes × Bytes)
add_pairs result [] = result
add_pairs result (pair ∷ pairs) = add_pairs (add_pair result pair) pairs

unfoldable pub parse_query : Bytes → List (Bytes × Bytes)
unfolding add_pair add_pairs
parse_query query_string = add_pairs [] (split query_string b'&')
