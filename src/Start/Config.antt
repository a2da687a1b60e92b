-- ===== src/Start/Config.antt =====
-- `config` and `loadConfig` of config.go, `makeDifferUrl` of subst.go, and the route of the differ's
-- handler. What fromenv reads from the environment, and the parser and the printer of urls, are parameters.
use nix_sandwich.Prelude.{
  ℕ, Bool, false, not, ◌&&◌, ◌||◌, Option, none, some, [], ◌∷◌, ◌++◌, Bytes, codes, bytes_eq,
  has_prefix, ◌==◌, if◌then◌else◌,
}
use nix_sandwich.Algo.Atoi.{ℤ}
use nix_sandwich.NarExpander.Options.{ExpanderOptions}

-- `config`, with durations in nanoseconds.
pub record Settings : Type 0 where
  pub upstream : Bytes
  pub differ : Bytes
  pub differ_bind : Bytes
  pub substituter_bind : Bytes
  pub catalog_update_freq : ℤ
  pub diff_algo : Bytes
  pub min_file_size : ℤ
  pub max_file_size : ℤ
  pub max_nar_size : ℤ
  pub run_substituter : Bool
  pub run_differ : Bool
  pub analytics_file : Bytes
  pub nar_exp_buffer_ent : ℤ
  pub nar_exp_buffer_bytes : ℤ
  pub subst_idle_time : ℤ

-- `strings.IndexByte(s, c) >= 0`
abbrev pub has_byte : Bytes → ℕ → Bool
has_byte [] c = false
has_byte (d ∷ s) c = d == c || has_byte s c

-- The port of the differ where neither a port nor a scheme nor a path is given.
unfoldable pub with_port : Bytes → Bytes
with_port differ =
    if not (has_byte differ b'/') && not (has_byte differ b':')
    then differ ++ codes ":7420"
    else differ

-- For what fromenv made of the environment; `none` is a panic.
unfoldable pub load_config : Option Settings → Option Settings
unfolding with_port
load_config none = none
load_config (some c) = some (record c { differ = with_port c.differ })

-- `cfgToNarExpanderOptions`
unfoldable pub cfg_to_nar_expander_options : Settings → ExpanderOptions
cfg_to_nar_expander_options cfg = record {
  buffer_entries = cfg.nar_exp_buffer_ent;
  buffer_bytes = cfg.nar_exp_buffer_bytes;
}

-- `url.URL`: the parts that the program sets, and what a url has besides (user, query and fragment).
pub record Url : Type 0 where
  pub scheme : Bytes
  pub host : Bytes
  pub path : Bytes
  pub more : Bytes

abbrev pub differ_path : Bytes
differ_path = codes "/nix-sandwich-differ"

-- `makeDifferUrl`, with `url.Parse` and `URL.String`; `none` is a panic.
unfoldable pub make_differ_url : (Bytes → Option Url) → (Url → Bytes) → Bytes → Option Bytes
make_differ_url parse print d =
    if has_prefix d (codes "http://") || has_prefix d (codes "https://")
    then elim (parse d) [ none ↦ none | some u ↦ some (print (record u { path = differ_path })) ]
    else some (print (record { scheme = codes "https"; host = d; path = differ_path; more = [] }))

-- `getHander`: whether a path leads to the handler of the differ, or is not found.
unfoldable pub differ_serves : Bytes → Bool
differ_serves path = bytes_eq path differ_path
