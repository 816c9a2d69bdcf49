-- ===== src/Options/Found.antt =====
-- Which configuration file is used.
use mavtables.Prelude.{
  ◌≡◌, refl, ap, Bool, Option, none, some, List, [], ◌∷◌, Bytes, codes, if◌then◌else◌,
}
use mavtables.Options.{find_config, from_environment, from_directory, from_home}

module _ (exists : Bytes → Bool) (getenv : Bytes → Option Bytes) (join : Bytes → Bytes → Bytes)
    (prefix_config : Bytes) where
  abbrev maybe : Option Bytes → List Bytes → List Bytes
  maybe none rest = rest
  maybe (some path) rest = path ∷ rest

  abbrev in_home : Option Bytes → Option Bytes
  in_home none = none
  in_home (some home) = some (join home (codes ".mavtablesrc"))

  -- The places, the first one first.
  abbrev pub candidates : List Bytes
  candidates =
      maybe (getenv (codes "MAVTABLES_CONFIG_PATH"))
        (codes ".mavtablesrc" ∷ maybe (in_home (getenv (codes "HOME"))) (prefix_config ∷ []))

  unfoldable pub first_existing : List Bytes → Option Bytes
  first_existing [] = none
  first_existing (path ∷ paths) =
      let rest = first_existing paths in if exists path then some path else rest

  from_home-first :
      (home : Option Bytes)
      → from_home exists getenv join prefix_config home
        ≡ first_existing (maybe (in_home home) (prefix_config ∷ []))
  unfolding first_existing
  from_home-first none = refl
  from_home-first (some home) = refl

  from_directory-first :
      from_directory exists getenv join prefix_config
      ≡ first_existing
          (codes ".mavtablesrc" ∷ maybe (in_home (getenv (codes "HOME"))) (prefix_config ∷ []))
  unfolding first_existing
  from_directory-first =
      ap (λ o. if exists (codes ".mavtablesrc") then some (codes ".mavtablesrc") else o)
        (from_home-first (getenv (codes "HOME")))

  from_environment-first :
      (variable : Option Bytes)
      → from_environment exists getenv join prefix_config variable
        ≡ first_existing (
            maybe variable
              (codes ".mavtablesrc" ∷ maybe (in_home (getenv (codes "HOME"))) (prefix_config ∷ [])))
  unfolding first_existing
  from_environment-first none = from_directory-first
  from_environment-first (some path) =
      ap (λ o. if exists path then some path else o) from_directory-first

  -- The configuration file is the first that exists of the path in the environment, if it is set, the
  -- one in the current directory, the one in the home directory, if there is one, and that of the
  -- installation; there is none if none of them exists.
  pub find_config-first : find_config exists getenv join prefix_config ≡ first_existing candidates
  unfolding find_config
  find_config-first = from_environment-first (getenv (codes "MAVTABLES_CONFIG_PATH"))
