-- ===== src/Start/Main.antt =====
-- `main`: which part of the program runs.
use nix_sandwich.Prelude.{
  Bool, not, ◌||◌, Option, none, some, List, [], Bytes, bytes_eq, if◌then◌else◌,
}
use nix_sandwich.NarExpander.Options.{ExpanderOptions}
use nix_sandwich.Start.Config.{Settings, load_config, cfg_to_nar_expander_options}

-- The flags, but for the download speed.
pub record Flags : Type 0 where
  pub sim : Bytes
  pub sim_base : Bytes
  pub analyze : Bool
  pub nar_expand : Bool
  pub nar_collapse : Bool
  pub args : List Bytes

-- What runs: the differ behind AWS Lambda, a simulation with its two files, the analysis of logs, one
-- of the filters, or the substituter and the differ, if they are wanted.
pub data Mode : Type 0 where
  lambda : Mode
  simulation : Bytes → Bytes → Mode
  analysis : List Bytes → Mode
  expansion collapse : ExpanderOptions → Mode
  servers : Bool → Bool → Mode

-- `panicIfTrue`
abbrev pub panic_if_true : {A : Type 0} → Bool → A → Option A
panic_if_true b a = if b then none else some a

-- The `switch` over the flags.
unfoldable pub mode_of : Settings → Flags → Option Mode
unfolding cfg_to_nar_expander_options
mode_of cfg flags =
    if not (bytes_eq flags.sim []) || not (bytes_eq flags.sim_base [])
    then panic_if_true (bytes_eq flags.sim [] || bytes_eq flags.sim_base [])
        (simulation flags.sim_base flags.sim)
    else if flags.analyze
    then some (analysis flags.args)
    else if flags.nar_expand
    then some (expansion (cfg_to_nar_expander_options cfg))
    else if flags.nar_collapse
    then some (collapse (cfg_to_nar_expander_options cfg))
    else some (servers cfg.run_substituter cfg.run_differ)

-- For the environment, with AWS_LAMBDA_RUNTIME_API in it; `none` is a panic.
unfoldable pub main : Option Settings → Bytes → Flags → Option Mode
unfolding load_config mode_of
main env api flags = elim (load_config env) [
  | none ↦ none
  | some cfg ↦ if not (bytes_eq api []) then some lambda else mode_of cfg flags
]
