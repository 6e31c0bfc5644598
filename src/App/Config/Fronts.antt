-- ===== src/App/Config/Fronts.antt =====
-- The texts in front of a member of a written configuration (backend/src/main.cpp), which the search
-- for the member's key skips.
use frag.Prelude.{◌≢◌, ◌++◌}
use frag.Text.{Bytes, codes}
use frag.App.Config.{Config}
use frag.App.Config.Skips.{IsName, Skips, Skips-append}
use frag.App.Config.Written.{
  port_text, tokens_text, db_text, cors_text, cleanup_text, max_text, IsNoKey, IsWritable,
}
use frag.App.Config.Members.{
  port-Skips, tokens-Skips, db-Skips, cors-Skips, cleanup-Skips, max-Skips,
}

module _ (c : Config) (h : IsWritable c) where
  -- The texts in front of a member, for its key.
  module _ (key : Bytes) (name : IsName key) (other : (v : Bytes) → IsNoKey v → v ≢ key) where
    pub before_db :
        codes "port" ≢ key → codes "tokens" ≢ key → Skips key (port_text c ++ tokens_text c)
    before_db p t =
        Skips-append key name (port_text c) (tokens_text c) (port-Skips key name c h other p)
          (tokens-Skips key name c h other t)

    pub before_cors :
        codes "port" ≢ key
        → codes "tokens" ≢ key
        → codes "db_path" ≢ key
        → Skips key ((port_text c ++ tokens_text c) ++ db_text c)
    before_cors p t d =
        Skips-append key name (port_text c ++ tokens_text c) (db_text c) (before_db p t)
          (db-Skips key name c h other d)

    pub before_cleanup :
        codes "port" ≢ key
        → codes "tokens" ≢ key
        → codes "db_path" ≢ key
        → codes "cors_origin" ≢ key
        → Skips key (((port_text c ++ tokens_text c) ++ db_text c) ++ cors_text c)
    before_cleanup p t d o =
        Skips-append key name ((port_text c ++ tokens_text c) ++ db_text c) (cors_text c)
          (before_cors p t d) (cors-Skips key name c h other o)

    pub before_max :
        codes "port" ≢ key
        → codes "tokens" ≢ key
        → codes "db_path" ≢ key
        → codes "cors_origin" ≢ key
        → codes "cleanup_interval_sec" ≢ key
        → Skips key
            ((((port_text c ++ tokens_text c) ++ db_text c) ++ cors_text c) ++ cleanup_text c)
    before_max p t d o i =
        Skips-append key name (((port_text c ++ tokens_text c) ++ db_text c) ++ cors_text c)
          (cleanup_text c) (before_cleanup p t d o) (cleanup-Skips key name c h other i)

    pub before_rate :
        codes "port" ≢ key
        → codes "tokens" ≢ key
        → codes "db_path" ≢ key
        → codes "cors_origin" ≢ key
        → codes "cleanup_interval_sec" ≢ key
        → codes "max_payload_bytes" ≢ key
        → Skips key (
            ((((port_text c ++ tokens_text c) ++ db_text c) ++ cors_text c) ++ cleanup_text c)
            ++ max_text c)
    before_rate p t d o i m =
        Skips-append key name
          ((((port_text c ++ tokens_text c) ++ db_text c) ++ cors_text c) ++ cleanup_text c)
          (max_text c) (before_max p t d o i) (max-Skips key name c h other m)
