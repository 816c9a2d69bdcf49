-- ===== src/Options.antt =====
-- src/Options.hpp, src/Options.cpp and src/Filesystem.hpp: the command line. Parsing it is
-- `boost::program_options`: the options that it found are an argument. The file system, the
-- environment, the joining of paths and the prefix of the installation are parameters. What is
-- printed is left out.
pub mod Found
use mavtables.Prelude.{
  Bool, true, false, not, Option, none, some, List, [], Bytes, codes, ℕ, if◌then◌else◌,
}
use mavtables.Prelude.Exception.{Result, ok, err, runtime_error}

-- `variables_map`
pub record Arguments : Type 0 where
  pub help : Bool
  pub version : Bool
  pub ast : Bool
  pub config : Option Bytes
  pub loglevel : Option ℕ

-- `none` is a member that nothing has been written to.
pub record Options : Type 0 where
  pub continue_on : Bool
  pub loglevel : ℕ
  pub config_file : Bytes
  pub print_ast : Option Bool
  pub run_firewall : Option Bool

module _ (exists : Bytes → Bool) (getenv : Bytes → Option Bytes) (join : Bytes → Bytes → Bytes)
    (prefix_config : Bytes) where
  -- Each place falls through to the next one.
  abbrev pub from_prefix : Option Bytes
  from_prefix = if exists prefix_config then some prefix_config else none

  abbrev pub from_home : Option Bytes → Option Bytes
  from_home none = from_prefix
  from_home (some home) =
      if exists (join home (codes ".mavtablesrc"))
      then some (join home (codes ".mavtablesrc"))
      else from_prefix

  abbrev pub from_directory : Option Bytes
  from_directory =
      if exists (codes ".mavtablesrc")
      then some (codes ".mavtablesrc")
      else from_home (getenv (codes "HOME"))

  abbrev pub from_environment : Option Bytes → Option Bytes
  from_environment none = from_directory
  from_environment (some path) = if exists path then some path else from_directory

  unfoldable pub find_config : Option Bytes
  find_config = from_environment (getenv (codes "MAVTABLES_CONFIG_PATH"))

  -- The members as the constructor begins.
  abbrev pub fresh : Options
  fresh = record {
    continue_on = true;
    loglevel = 0;
    config_file = [];
    print_ast = none;
    run_firewall = none;
  }

  abbrev pub chosen : Option Bytes → Option Bytes
  chosen none = find_config
  chosen (some file) = if exists file then some file else none

  abbrev pub level_or : Option ℕ → ℕ
  level_or none = 0
  level_or (some n) = n

  abbrev pub configured : Arguments → Option Bytes → Result (Unit {0}) × Options
  configured a none = (err runtime_error, record fresh { continue_on = false })
  configured a (some file) = (
    ok tt,
    record fresh {
      config_file = file;
      loglevel = level_or a.loglevel;
      print_ast = some a.ast;
      run_firewall = some (not a.ast);
    },
  )

  -- The constructor.
  unfoldable pub make : Arguments → Result (Unit {0}) × Options
  unfolding find_config
  make a =
      if a.help
      then (ok tt, record fresh { continue_on = false })
      else if a.version
      then (ok tt, record fresh { continue_on = false })
      else configured a (chosen a.config)
