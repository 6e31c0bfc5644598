-- ===== src/App/StartUp.antt =====
-- `main` of backend/src/main.cpp up to the threads: the command line, the configuration, the
-- database and the server with its routes.
pub mod Laws
use frag.Prelude.{Bool, [], List, Option, is_empty}
use frag.Prelude.Int.{ℤ}
use frag.Text.{Bytes}
use frag.Auth.{Auth, empty}
use frag.RateLimiter.{rate_limiter}
use frag.Database.Sqlite.{Sqlite}
use frag.Database.Operations.{Result, ok, throw, open_database}
use frag.Server.Connection.{HttpServer}
use frag.Handlers.{AppContext, World, register_routes}
use frag.App.Config.{Config, load_config}
use frag.App.CommandLine.{Invocation, invocation, usage, serves}

module _ (sqlite : Sqlite) where
  -- What `main` has built when the threads start.
  pub record Application : Type 0 where
    pub config : Config
    pub context : AppContext
    pub server : HttpServer (World sqlite.Conn)
    pub db : sqlite.Conn
    -- Whether the warning that no tokens are configured was printed.
    pub warned : Bool

  -- The ways in which `main` goes on: it prints the usage text and returns 0; an exception is
  -- printed and it returns 1; or the threads start.
  pub data StartUp : Type 0 where
    prints_usage : StartUp
    fatal : Bytes → StartUp
    launches : Application → StartUp

  -- `now` is the reading of the clock.
  unfoldable pub application : Config → sqlite.Conn → ℤ → Application
  application cfg db now =
      let ctx : AppContext = record {
        auth = record { tokens = cfg.tokens };
        max_payload_bytes = cfg.max_payload_bytes;
        start_time = now;
      } in
      record {
        config = cfg;
        context = ctx;
        server = record {
          cors_origin = cfg.cors_origin;
          routes = register_routes sqlite ctx [];
          rate_limiter = rate_limiter cfg.rate_limit_per_ip;
        };
        db = db;
        warned = is_empty cfg.tokens;
      }

  -- The `try` block, behind the constructor of the database.
  abbrev pub launch : Config → ℤ → Result sqlite.Conn → StartUp
  launch cfg now (throw msg) = fatal msg
  launch cfg now (ok db) = launches (application cfg db now)

  abbrev pub start_with : (Bytes → Option Bytes) → ℤ → Invocation → StartUp
  start_with file now usage = prints_usage
  start_with file now (serves path) =
      let cfg = load_config (file path) in launch cfg now (open_database sqlite cfg.db_path)

  -- `file` gives the contents of a file that can be opened.
  unfoldable pub start_up : (Bytes → Option Bytes) → ℤ → List Bytes → StartUp
  start_up file now args = start_with file now (invocation args)
