-- ===== src/Json/Build.antt =====
-- `fragment_to_json` and `fragments_array`.
use frag.Prelude.{List, [], ◌∷◌, ◌++◌}
use frag.Text.{Bytes, codes}
use frag.Text.Number.{print_int}
use frag.Utils.JsonEscape.{json_escape}
use frag.Fragment.{Fragment}

unfoldable pub fragment_to_json : Fragment → Bytes
fragment_to_json f =
    codes "{\"id\":\""
    ++ (json_escape f.id
        ++ (codes "\",\"message_id\":\""
            ++ (json_escape f.message_id
                ++ (codes "\",\"chat_id\":\""
                    ++ (json_escape f.chat_id
                        ++ (codes "\",\"sender_hash\":\""
                            ++ (json_escape f.sender_hash
                                ++ (codes "\",\"payload\":\""
                                    ++ (json_escape f.payload
                                        ++ (codes "\",\"timestamp\":"
                                            ++ (print_int f.timestamp
                                                ++ (codes ",\"ttl\":"
                                                    ++ (print_int f.ttl ++ codes "}")))))))))))))

-- The fragments from the second on, each behind a comma.
unfoldable pub more_fragments : List Fragment → Bytes
more_fragments [] = []
more_fragments (f ∷ frags) = b',' ∷ (fragment_to_json f ++ more_fragments frags)

unfoldable pub fragments_array : List Fragment → Bytes
unfolding more_fragments
fragments_array [] = codes "[]"
fragments_array (f ∷ frags) = b'[' ∷ (fragment_to_json f ++ (more_fragments frags ++ codes "]"))
