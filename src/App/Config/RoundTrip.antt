-- ===== src/App/Config/RoundTrip.antt =====
-- `load_config` of backend/src/main.cpp reads a written configuration back.
use frag.Prelude.{
  ℕ, ◌<◌, ◌^◌, ◌≡◌, ◌≢◌, refl, ap, ◌∙◌, some, List, [], ◌∷◌, ◌++◌, arith, All, All-append,
  append_assoc,
}
use frag.Prelude.Int.{ℤ}
use frag.Text.{Bytes, codes}
use frag.Text.Number.{is_digit, stoi, stoull, print_nat, print_int}
use frag.Text.Number.RoundTrip.{IsInt32, NoDigit, stoi-print_int, stoull-print_nat}
use frag.Utils.Split.Laws.{Lacks}
use frag.Json.Read.{quoted}
use frag.Json.Grammar.Fragments.{IsPlain}
use frag.App.Config.{Config, default_config, load_config, number_at, or_default, text_at, tokens_at}
use frag.App.Config.Tokens.Written.{IsToken, token_list, more_tokens, read_tokens-token_list}
use frag.App.Config.Skips.{IsName, Skips, Skips-bare}
use frag.App.Config.Reads.{number_at-behind, text_at-behind, tokens_at-behind}
use frag.App.Config.Written.{
  port_text, tokens_text, db_text, cors_text, cleanup_text, max_text, rate_text, print_config,
  IsNoKey, IsWritable, IsPlain-IsToken,
}
use frag.App.Config.Denoted.{config_value, print_config-Denotes}
use frag.Json.Grammar.{Denotes}
use frag.App.Config.Members.{port-Skips}
use frag.App.Config.Fronts.{before_db, before_cors, before_cleanup, before_max, before_rate}

comma_ends : (rest : Bytes) → NoDigit (b',' ∷ rest)
unfolding is_digit
comma_ends rest = refl

-- The readers on a member that is written behind a text without its key.
module _ (json key front : Bytes) (name : IsName key) (skips : Skips key front) where
  read_int :
      (x d : ℤ) (rest : Bytes)
      → IsInt32 x
      → NoDigit rest
      → json ≡ front ++ (quoted key ++ (b':' ∷ (print_int x ++ rest)))
      → number_at json (quoted key) stoi d ≡ x
  read_int x d rest bound ends e = rw e (
      number_at-behind key name front skips (print_int x ++ rest) stoi d
      ∙ ap (λ o. or_default o d) (stoi-print_int x rest bound ends))

  read_nat :
      (n d : ℕ) (rest : Bytes)
      → n < 2 ^ 64
      → NoDigit rest
      → json ≡ front ++ (quoted key ++ (b':' ∷ (print_nat n ++ rest)))
      → number_at json (quoted key) stoull d ≡ n
  read_nat n d rest bound ends e = rw e (
      number_at-behind key name front skips (print_nat n ++ rest) stoull d
      ∙ ap (λ o. or_default o d) (stoull-print_nat n rest bound ends))

  read_text :
      (v d rest : Bytes)
      → Lacks b'"' v
      → json ≡ front ++ (quoted key ++ (b':' ∷ (quoted v ++ rest)))
      → text_at json (quoted key) d ≡ v
  read_text v d rest plain e = rw e (text_at-behind key name front skips v rest d plain)

tokens_plain :
    (ts : List Bytes)
    → All (λ t. IsPlain t × Lacks b']' t × IsNoKey t) ts
    → All IsToken ts × Lacks b']' (more_tokens ts)
tokens_plain [] h = (tt, tt)
tokens_plain (t ∷ ts) ((plain, bracket, _), h) =
    let token = IsPlain-IsToken t plain in
    let (tokens, brackets) = tokens_plain ts h in
    (
      (token, tokens),
      (
        (λ e. absurd (omega (arith, e))),
        (
          (λ e. absurd (omega (arith, e))),
          All-append (λ c. c ≢ b']') (t ++ (b'"' ∷ [])) (more_tokens ts)
              (All-append (λ c. c ≢ b']') t (b'"' ∷ []) bracket (ground arith)) brackets,
        ),
      ),
    )

list_plain :
    (ts : List Bytes)
    → All (λ t. IsPlain t × Lacks b']' t × IsNoKey t) ts
    → Lacks b']' (token_list ts)
list_plain [] h = tt
list_plain (t ∷ ts) h = (tokens_plain (t ∷ ts) h).1.1

brace_ends : NoDigit (b'}' ∷ [])
unfolding is_digit
brace_ends = refl

module _ (c : Config) (h : IsWritable c) where
  -- What stands behind a member.
  abbrev behind_cleanup : Bytes
  behind_cleanup = max_text c ++ rate_text c

  abbrev behind_cors : Bytes
  behind_cors = cleanup_text c ++ behind_cleanup

  abbrev behind_db : Bytes
  behind_db = cors_text c ++ behind_cors

  abbrev behind_tokens : Bytes
  behind_tokens = db_text c ++ behind_db

  abbrev behind_port : Bytes
  behind_port = tokens_text c ++ behind_tokens

  read_port : number_at (print_config c) (codes "\"port\"") stoi default_config.port ≡ c.port
  read_port =
      read_int (print_config c) (codes "port") (codes "{") (ground arith)
        (Skips-bare (codes "port") (ground arith) (codes "{") (ground arith)) c.port
        default_config.port (b',' ∷ behind_port) h.port (comma_ends behind_port) (simp append_assoc)

  read_config_tokens : tokens_at (print_config c) ≡ c.tokens
  read_config_tokens =
      let json : print_config c
          ≡ port_text c
            ++ (codes "\"tokens\":[" ++ (token_list c.tokens ++ (b']' ∷ b',' ∷ behind_tokens))) =
        simp append_assoc in
      rw json (
        tokens_at-behind (port_text c) (token_list c.tokens) (b',' ∷ behind_tokens)
          (port-Skips (codes "tokens") (ground arith) c h (λ v n. n.1.0) (ground arith))
          (list_plain c.tokens h.tokens)
        ∙ read_tokens-token_list c.tokens (tokens_plain c.tokens h.tokens).0)

  read_db : text_at (print_config c) (codes "\"db_path\"") default_config.db_path ≡ c.db_path
  read_db =
      read_text (print_config c) (codes "db_path") (port_text c ++ tokens_text c) (ground arith)
        (before_db c h (codes "db_path") (ground arith) (λ v n. n.1.1.0) (ground arith)
          (ground arith))
        c.db_path default_config.db_path (b',' ∷ behind_db)
        (IsPlain-IsToken c.db_path h.db_path.0).0 (simp append_assoc)

  read_cors :
      text_at (print_config c) (codes "\"cors_origin\"") default_config.cors_origin ≡ c.cors_origin
  read_cors =
      read_text (print_config c) (codes "cors_origin") ((port_text c ++ tokens_text c) ++ db_text c)
        (ground arith)
        (before_cors c h (codes "cors_origin") (ground arith) (λ v n. n.1.1.1.0) (ground arith)
          (ground arith) (ground arith))
        c.cors_origin default_config.cors_origin (b',' ∷ behind_cors)
        (IsPlain-IsToken c.cors_origin h.cors_origin.0).0 (simp append_assoc)

  read_cleanup :
      number_at
        (print_config c)
        (codes "\"cleanup_interval_sec\"")
        stoi
        default_config.cleanup_interval_sec
      ≡ c.cleanup_interval_sec
  read_cleanup =
      read_int (print_config c) (codes "cleanup_interval_sec")
        (((port_text c ++ tokens_text c) ++ db_text c) ++ cors_text c) (ground arith)
        (before_cleanup c h (codes "cleanup_interval_sec") (ground arith) (λ v n. n.1.1.1.1.0)
          (ground arith) (ground arith) (ground arith) (ground arith))
        c.cleanup_interval_sec default_config.cleanup_interval_sec (b',' ∷ behind_cleanup)
        h.cleanup_interval_sec (comma_ends behind_cleanup) (simp append_assoc)

  read_max :
      number_at
        (print_config c)
        (codes "\"max_payload_bytes\"")
        stoull
        default_config.max_payload_bytes
      ≡ c.max_payload_bytes
  read_max =
      read_nat (print_config c) (codes "max_payload_bytes")
        ((((port_text c ++ tokens_text c) ++ db_text c) ++ cors_text c) ++ cleanup_text c)
        (ground arith)
        (before_max c h (codes "max_payload_bytes") (ground arith) (λ v n. n.1.1.1.1.1.0)
          (ground arith) (ground arith) (ground arith) (ground arith) (ground arith))
        c.max_payload_bytes default_config.max_payload_bytes (b',' ∷ rate_text c)
        h.max_payload_bytes (comma_ends (rate_text c)) (simp append_assoc)

  read_rate :
      number_at
        (print_config c)
        (codes "\"rate_limit_per_ip\"")
        stoi
        default_config.rate_limit_per_ip
      ≡ c.rate_limit_per_ip
  read_rate =
      read_int (print_config c) (codes "rate_limit_per_ip")
        (((((port_text c ++ tokens_text c) ++ db_text c) ++ cors_text c) ++ cleanup_text c)
          ++ max_text c)
        (ground arith)
        (before_rate c h (codes "rate_limit_per_ip") (ground arith) (λ v n. n.1.1.1.1.1.1.0)
          (ground arith) (ground arith) (ground arith) (ground arith) (ground arith) (ground arith))
        c.rate_limit_per_ip default_config.rate_limit_per_ip (b'}' ∷ []) h.rate_limit_per_ip
        brace_ends (simp append_assoc)

-- For a configuration whose integers fit into 32 bits and whose payload limit fits into 64, whose
-- texts have no control byte, quote or backslash and are not the name of a member, and whose tokens
-- have no closing bracket: the text that is written without white space is a JSON text that denotes
-- the configuration, and it is loaded as it was.
pub load_config-print_config :
    (c : Config)
    → IsWritable c
    → Denotes (print_config c) (config_value c) × (load_config (some (print_config c)) ≡ c)
unfolding load_config
load_config-print_config c h = (
  print_config-Denotes c h,
  rw
      (
        read_port c h,
        read_config_tokens c h,
        read_db c h,
        read_cors c h,
        read_cleanup c h,
        read_max c h,
        read_rate c h,
      )
      refl,
)
