-- ===== src/App/CommandLine.antt =====
-- The command line of `main`.
use frag.Prelude.{Bool, ◌||◌, List, [], ◌∷◌, if◌then◌else◌}
use frag.Text.{Bytes, codes, same}

-- What the arguments ask for: the usage text, or a run with a configuration file.
pub data Invocation : Type 0 where
  usage : Invocation
  serves : Bytes → Invocation

abbrev is_config_flag : Bytes → Bool
is_config_flag arg = same arg (codes "-c") || same arg (codes "--config")

abbrev is_help_flag : Bytes → Bool
is_help_flag arg = same arg (codes "--help") || same arg (codes "-h")

-- The loop over the arguments behind the program's name. A last "-c" has no file and is ignored.
unfoldable pub parse_args : Bytes → List Bytes → Invocation
parse_args config_path [] = serves config_path
parse_args config_path (arg ∷ []) =
    if is_config_flag arg
    then serves config_path
    else if is_help_flag arg
    then usage
    else serves config_path
parse_args config_path (arg ∷ value ∷ args) =
    let with_value = parse_args value args in
    let without = parse_args config_path (value ∷ args) in
    if is_config_flag arg then with_value else if is_help_flag arg then usage else without

unfoldable pub invocation : List Bytes → Invocation
unfolding parse_args same
invocation args = parse_args (codes "config.json") args
