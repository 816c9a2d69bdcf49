-- ===== src/Main.antt =====
-- src/mavtables.cpp: the program. What the constructor of the options has given, the reading of a
-- configuration, the making of an application and its run are arguments.
use mavtables.Prelude.{ℕ, Bool, true, false, Option, none, some, List, [], ◌∷◌, ◌++◌, Bytes}
use mavtables.Prelude.Exception.{Result, ok, err}
use mavtables.Options.{Options}

pub data Exit : Type 0 where
  exit_success exit_failure : Exit

pub data Effect : Type 0 where
  print_ast : Bytes → Effect
  set_level : ℕ → Effect
  run_app : Effect

-- A member that nothing has been written to is read as any value.
abbrev pub flag : Bool → Option Bool → Bool
flag any none = any
flag any (some b) = b

module _ {A B : Type 0} (load : Bytes → Result A) (make_app : A → Result B)
    (run : B → Result (Unit {0})) where
  abbrev pub after_run : Result (Unit {0}) → Exit × List Effect
  after_run (ok v) = (Exit.exit_success, run_app ∷ [])
  after_run (err e) = (Exit.exit_failure, run_app ∷ [])

  abbrev pub with_app : Result B → Exit × List Effect
  with_app (ok app) = after_run (run app)
  with_app (err e) = (Exit.exit_failure, [])

  abbrev pub behind : List Effect → Exit × List Effect → Exit × List Effect
  behind effects (exit, more) = (exit, effects ++ more)

  abbrev pub run_if : Bool → Options → A → Exit × List Effect
  run_if false o config = (Exit.exit_success, [])
  run_if true o config = behind (set_level o.loglevel ∷ []) (with_app (make_app config))

  abbrev pub printed : Bool → Options → List Effect
  printed false o = []
  printed true o = print_ast o.config_file ∷ []

  abbrev pub with_config : Bool → Options → Result A → Exit × List Effect
  with_config any o (err e) = (Exit.exit_failure, [])
  with_config any o (ok config) =
      behind (printed (flag any o.print_ast) o) (run_if (flag any o.run_firewall) o config)

  abbrev pub if_valid : Bool → Bool → Options → Exit × List Effect
  if_valid any false o = (Exit.exit_success, [])
  if_valid any true o = with_config any o (load o.config_file)

  unfoldable pub main : Bool → Result (Unit {0}) × Options → Exit × List Effect
  main any (err e, o) = (Exit.exit_failure, [])
  main any (ok v, o) = if_valid any o.continue_on o
