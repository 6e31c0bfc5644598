-- ===== src/App/Config/Written.antt =====
-- A configuration file that is written as JSON without white space, for `load_config` of
-- backend/src/main.cpp.
use frag.Prelude.{◌<◌, ◌^◌, ◌≢◌, List, [], ◌∷◌, ◌++◌, All}
use frag.Text.{Bytes, codes}
use frag.Text.Number.{print_nat, print_int}
use frag.Text.Number.RoundTrip.{IsInt32}
use frag.Utils.Split.Laws.{Lacks}
use frag.Json.Read.{quoted}
use frag.Json.Grammar.Fragments.{IsPlain}
use frag.App.Config.{Config}
use frag.App.Config.Tokens.Written.{IsToken, token_list}

-- The members, each with the comma or the brace behind it.
abbrev pub port_text : Config → Bytes
port_text c = codes "{\"port\":" ++ (print_int c.port ++ codes ",")

abbrev pub tokens_text : Config → Bytes
tokens_text c = codes "\"tokens\":[" ++ (token_list c.tokens ++ codes "],")

abbrev pub db_text : Config → Bytes
db_text c = codes "\"db_path\":" ++ (quoted c.db_path ++ codes ",")

abbrev pub cors_text : Config → Bytes
cors_text c = codes "\"cors_origin\":" ++ (quoted c.cors_origin ++ codes ",")

abbrev pub cleanup_text : Config → Bytes
cleanup_text c =
    codes "\"cleanup_interval_sec\":" ++ (print_int c.cleanup_interval_sec ++ codes ",")

abbrev pub max_text : Config → Bytes
max_text c = codes "\"max_payload_bytes\":" ++ (print_nat c.max_payload_bytes ++ codes ",")

abbrev pub rate_text : Config → Bytes
rate_text c = codes "\"rate_limit_per_ip\":" ++ (print_int c.rate_limit_per_ip ++ codes "}")

abbrev pub print_config : Config → Bytes
print_config c =
    port_text c
    ++ (tokens_text c
        ++ (db_text c ++ (cors_text c ++ (cleanup_text c ++ (max_text c ++ rate_text c)))))

abbrev pub keys : List Bytes
keys =
    codes "port"
    ∷ codes "tokens"
    ∷ codes "db_path"
    ∷ codes "cors_origin"
    ∷ codes "cleanup_interval_sec"
    ∷ codes "max_payload_bytes"
    ∷ codes "rate_limit_per_ip"
    ∷ []

abbrev pub IsNoKey : Bytes → Type 0
IsNoKey v = All (λ key. v ≢ key) keys

-- Numbers in range, and texts without control bytes, quotes and backslashes that are no keys; the
-- tokens have no closing bracket either.
pub record IsWritable (c : Config) : Type 0 where
  pub port : IsInt32 c.port
  pub cleanup_interval_sec : IsInt32 c.cleanup_interval_sec
  pub max_payload_bytes : c.max_payload_bytes < 2 ^ 64
  pub rate_limit_per_ip : IsInt32 c.rate_limit_per_ip
  pub tokens : All (λ t. IsPlain t × Lacks b']' t × IsNoKey t) c.tokens
  pub db_path : IsPlain c.db_path × IsNoKey c.db_path
  pub cors_origin : IsPlain c.cors_origin × IsNoKey c.cors_origin

pub IsPlain-IsToken : (s : Bytes) → IsPlain s → IsToken s
IsPlain-IsToken [] h = (tt, tt)
IsPlain-IsToken (c ∷ s) ((_, quote, slash), h) =
    let (quotes, slashes) = IsPlain-IsToken s h in ((quote, quotes), (slash, slashes))
