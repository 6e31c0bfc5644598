-- ===== src/Tests/Configured.antt =====
-- A configuration that is written and read back, and an insert that another one interrupts
-- (backend/src/main.cpp, backend/src/database.cpp).
use frag.Prelude.{◌≡◌, refl, true, false, some, [], ◌∷◌, arith}
use frag.Prelude.Int.{pos, negsuc}
use frag.Text.{Bytes, codes}
use frag.Database.Operations.{ok, insert_fragment}
use frag.Database.Table.{stored}
use frag.Database.Interleaving.{insert_interrupted, interrupted_duplicate}
use frag.Database.Behaviour.Memory.{memory, memory_laws}
use frag.Database.Behaviour.Memory.Reliable.{memory-IsReliable}
use frag.App.Config.{Config, load_config}
use frag.App.Config.Written.{print_config, IsWritable}
use frag.App.Config.Denoted.{config_value}
use frag.Json.Grammar.{Denotes}
use frag.App.Config.RoundTrip.{load_config-print_config}
use frag.Tests.Storing.{first_fragment, second_fragment, conn}

abbrev busy_config : Config
busy_config = record {
  port = pos 443;
  tokens = codes "secret" ∷ codes "other" ∷ [];
  db_path = codes "/var/lib/frag.db";
  cors_origin = [];
  cleanup_interval_sec = negsuc 0;
  max_payload_bytes = 1048576;
  rate_limit_per_ip = pos 5;
}

busy_config-IsWritable : IsWritable busy_config
busy_config-IsWritable = record {
  port = ground arith;
  cleanup_interval_sec = ground arith;
  max_payload_bytes = omega arith;
  rate_limit_per_ip = ground arith;
  tokens = ground arith;
  db_path = ground arith;
  cors_origin = ground arith;
}

load_config-print_config_example :
    Denotes (print_config busy_config) (config_value busy_config)
    × (load_config (some (print_config busy_config)) ≡ busy_config)
load_config-print_config_example = load_config-print_config busy_config busy_config-IsWritable

interrupted_duplicate_example :
    ((insert_fragment memory first_fragment conn).0 ≡ ok false)
    × ((insert_interrupted memory
          (λ d. (insert_fragment memory second_fragment d).1)
          first_fragment
          conn).0
        ≡ ok true)
    × ((insert_interrupted memory
          (λ d. (insert_fragment memory second_fragment d).1)
          first_fragment
          conn).1.table
        ≡ first_fragment ∷ second_fragment ∷ [])
unfolding memory_laws frag.Database.Table.stored frag.Database.Table.has_id frag.Text.same
    frag.Text.c_str
interrupted_duplicate_example =
    interrupted_duplicate memory memory_laws memory-IsReliable first_fragment second_fragment conn
      refl refl
