-- ===== src/App/Config.antt =====
-- `Config` and `load_config`: a configuration file is scanned for each key.
pub mod Tokens
pub mod Skips
pub mod Reads
pub mod Written
pub mod Members
pub mod Fronts
pub mod Denoted
pub mod RoundTrip
use frag.Prelude.{ℕ, ◌+◌, ◌-◌, List, [], ◌∷◌, Option, none, some, take, drop}
use frag.Prelude.Int.{ℤ, pos}
use frag.Text.{Bytes, codes, find, substr, substr_from}
use frag.Text.Number.{stoi, stoull}
use Tokens.{read_tokens}

pub record Config : Type 0 where
  pub port : ℤ
  pub tokens : List Bytes
  pub db_path : Bytes
  pub cors_origin : Bytes
  pub cleanup_interval_sec : ℤ
  pub max_payload_bytes : ℕ
  pub rate_limit_per_ip : ℤ

abbrev pub default_config : Config
default_config = record {
  port = pos 8080;
  tokens = [];
  db_path = codes "frag.db";
  cors_origin = codes "*";
  cleanup_interval_sec = pos 3600;
  max_payload_bytes = 65536;
  rate_limit_per_ip = pos 60;
}

abbrev or_default {ℓ} : {A : Type ℓ} → Option A → A → A
or_default none d = d
or_default (some a) d = a

-- The number behind the colon that follows a key, read by `parse`; the default where the key or
-- the colon is missing, or `parse` throws.
unfoldable pub number_at {ℓ} : {A : Type ℓ} → Bytes → Bytes → (Bytes → Option A) → A → A
number_at json key parse d = elim (find json key 0) [
  | none ↦ d
  | some key_pos ↦ elim (find json (b':' ∷ []) key_pos) [
    | none ↦ d
    | some colon ↦ or_default (parse (substr_from json (colon + 1))) d
  ]
]

-- `colon + 1` where the colon may be npos: the sum is then 0.
abbrev after_colon : Option ℕ → ℕ
after_colon none = 0
after_colon (some colon) = colon + 1

-- The text between the two quotes that follow a key.
unfoldable pub text_at : Bytes → Bytes → Bytes → Bytes
text_at json key d = elim (find json key 0) [
  | none ↦ d
  | some key_pos ↦ elim (find json (b'"' ∷ []) (after_colon (find json (b':' ∷ []) key_pos))) [
    | none ↦ d
    | some qs ↦ elim (find json (b'"' ∷ []) (qs + 1)) [
      | none ↦ d
      | some qe ↦ substr json (qs + 1) (qe - qs - 1)
    ]
  ]
]

-- The tokens between the brackets that follow the key.
unfoldable pub tokens_at : Bytes → List Bytes
unfolding read_tokens
tokens_at json = elim (find json (codes "\"tokens\"") 0) [
  | none ↦ []
  | some tokens_pos ↦ elim (find json (b'[' ∷ []) tokens_pos) [
    | none ↦ []
    | some open_pos ↦ elim (find json (b']' ∷ []) open_pos) [
      | none ↦ []
      | some close_pos ↦ read_tokens (substr json (open_pos + 1) (close_pos - open_pos - 1))
    ]
  ]
]

-- `load_config`, of the contents of the file; `none` where it cannot be opened.
unfoldable pub load_config : Option Bytes → Config
unfolding number_at text_at tokens_at
load_config none = default_config
load_config (some json) = record {
  port = number_at json (codes "\"port\"") stoi default_config.port;
  tokens = tokens_at json;
  db_path = text_at json (codes "\"db_path\"") default_config.db_path;
  cors_origin = text_at json (codes "\"cors_origin\"") default_config.cors_origin;
  cleanup_interval_sec =
      number_at json (codes "\"cleanup_interval_sec\"") stoi default_config.cleanup_interval_sec;
  max_payload_bytes =
      number_at json (codes "\"max_payload_bytes\"") stoull default_config.max_payload_bytes;
  rate_limit_per_ip =
      number_at json (codes "\"rate_limit_per_ip\"") stoi default_config.rate_limit_per_ip;
}
