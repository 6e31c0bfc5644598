-- ===== src/App/Config/Denoted.antt =====
-- The written configuration of App.Config.Written against the grammar of JSON.
use frag.Prelude.{refl, [], ◌∷◌, ◌++◌, List, arith, All, append_assoc, append-nil}
use frag.Prelude.Int.{pos}
use frag.Text.{Bytes, codes}
use frag.Text.Number.{print_int}
use frag.Json.Read.{quoted}
use frag.Json.Grammar.{
  Value, string, number, array, object, Values, no_values, value, no_members, member, Denotes,
  string_text, empty_array, array_text, object_text, Elements, last_element, next_element,
}
use frag.Json.Grammar.Fragments.{
  IsPlain, IsPlain-Spells, int_text, with_entry-Entries, ends_with_entry,
}
use frag.Utils.Split.Laws.{Lacks}
use frag.App.Config.{Config}
use frag.App.Config.Tokens.Written.{token_list, more_tokens}
use frag.App.Config.Written.{print_config, IsNoKey, IsWritable}

plain_text : (s : Bytes) → IsPlain s → Denotes (quoted s) (string s)
plain_text s h = string_text refl (IsPlain-Spells s h)

abbrev string_values : List Bytes → Values
string_values [] = no_values
string_values (t ∷ ts) = value (string t) (string_values ts)

more_tokens-Elements :
    (t : Bytes) (ts : List Bytes)
    → All (λ t. IsPlain t × Lacks b']' t × IsNoKey t) (t ∷ ts)
    → Elements (quoted t ++ more_tokens ts) (string_values (t ∷ ts))
more_tokens-Elements t [] ((plain, _, _), _) =
    last_element (rw (append-nil (quoted t)) (plain_text t plain))
more_tokens-Elements t (u ∷ ts) ((plain, _, _), h) =
    next_element refl (plain_text t plain) (more_tokens-Elements u ts h)

token_list-Denotes :
    (ts : List Bytes)
    → All (λ t. IsPlain t × Lacks b']' t × IsNoKey t) ts
    → Denotes (b'[' ∷ (token_list ts ++ (b']' ∷ []))) (array (string_values ts))
token_list-Denotes [] h = empty_array
token_list-Denotes (t ∷ ts) h = array_text refl (more_tokens-Elements t ts h)

abbrev pub config_value : Config → Value
config_value c = object (
    member (codes "port") (number c.port) (
      member (codes "tokens") (array (string_values c.tokens)) (
        member (codes "db_path") (string c.db_path) (
          member (codes "cors_origin") (string c.cors_origin) (
            member (codes "cleanup_interval_sec") (number c.cleanup_interval_sec) (
              member (codes "max_payload_bytes") (number (pos c.max_payload_bytes))
                (member (codes "rate_limit_per_ip") (number c.rate_limit_per_ip) no_members)))))))

pub print_config-Denotes : (c : Config) → IsWritable c → Denotes (print_config c) (config_value c)
unfolding print_int
print_config-Denotes c h = object_text (simp append_assoc) (
    with_entry-Entries (codes "port") (ground arith) (int_text c.port) (
      with_entry-Entries (codes "tokens") (ground arith) (token_list-Denotes c.tokens h.tokens) (
        with_entry-Entries (codes "db_path") (ground arith) (plain_text c.db_path h.db_path.0) (
          with_entry-Entries (codes "cors_origin") (ground arith)
            (plain_text c.cors_origin h.cors_origin.0)
            (with_entry-Entries (codes "cleanup_interval_sec") (ground arith)
              (int_text c.cleanup_interval_sec)
              (with_entry-Entries (codes "max_payload_bytes") (ground arith)
                (int_text (pos c.max_payload_bytes))
                (ends_with_entry (codes "rate_limit_per_ip") (ground arith)
                  (int_text c.rate_limit_per_ip))))))))
