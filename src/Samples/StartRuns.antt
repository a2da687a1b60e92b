-- ===== src/Samples/StartRuns.antt =====
-- Starts of the program with the defaults of config.go.
use nix_sandwich.Prelude.{
  ◌≡◌, refl, true, false, Option, none, some, [], ◌∷◌, ◌++◌, Bytes, codes, bytes_eq, if◌then◌else◌,
}
use nix_sandwich.Algo.Atoi.{pos}
use nix_sandwich.Start.Config.{Settings, load_config, Url, make_differ_url}
use nix_sandwich.Start.Main.{Flags, lambda, simulation, analysis, servers, main}

abbrev set_to : Bytes → Settings
set_to differ = record {
  upstream = codes "cache.nixos.org";
  differ = differ;
  differ_bind = codes ":7420";
  substituter_bind = codes "127.0.0.1:7419";
  catalog_update_freq = pos 3600000000000;
  diff_algo = codes "zstd-3,xdelta-1";
  min_file_size = pos 16384;
  max_file_size = pos 681574400;
  max_nar_size = pos 1073741824;
  run_substituter = true;
  run_differ = false;
  analytics_file = codes "default";
  nar_exp_buffer_ent = pos 0;
  nar_exp_buffer_bytes = pos 0;
  subst_idle_time = pos 0;
}

-- The spelling of a url whose host needs no escapes.
abbrev print_plain : Url → Bytes
print_plain u = u.scheme ++ codes "://" ++ u.host ++ u.path ++ u.more

abbrev local_url : Url
local_url = record { scheme = codes "http"; host = codes "localhost:7420"; path = []; more = [] }

abbrev parse_local : Bytes → Option Url
parse_local d = if bytes_eq d (codes "http://localhost:7420") then some local_url else none

local_made :
    make_differ_url parse_local print_plain (codes "http://localhost:7420")
    ≡ some (codes "http://localhost:7420/nix-sandwich-differ")
unfolding make_differ_url
local_made = refl

named_loaded :
    load_config (some (set_to (codes "differ.example")))
    ≡ some (set_to (codes "differ.example:7420"))
unfolding load_config
named_loaded = refl

named_made :
    make_differ_url parse_local print_plain (codes "differ.example:7420")
    ≡ some (codes "https://differ.example:7420/nix-sandwich-differ")
unfolding make_differ_url
named_made = refl

abbrev no_flags : Flags
no_flags = record {
  sim = [];
  sim_base = [];
  analyze = false;
  nar_expand = false;
  nar_collapse = false;
  args = [];
}

starts_servers : main (some (set_to (codes "d"))) [] no_flags ≡ some (servers true false)
unfolding main
starts_servers = refl

starts_lambda : main (some (set_to (codes "d"))) (codes "127.0.0.1:9001") no_flags ≡ some lambda
unfolding main
starts_lambda = refl

needs_both : main (some (set_to (codes "d"))) [] (record no_flags { sim = codes "paths" }) ≡ none
unfolding main
needs_both = refl

simulates :
    main
      (some (set_to (codes "d")))
      []
      (record no_flags { sim = codes "paths"; sim_base = codes "bases"; analyze = true })
    ≡ some (simulation (codes "bases") (codes "paths"))
unfolding main
simulates = refl

analyzes :
    main
      (some (set_to (codes "d")))
      []
      (record no_flags { analyze = true; args = codes "log.jsonl" ∷ [] })
    ≡ some (analysis (codes "log.jsonl" ∷ []))
unfolding main
analyzes = refl
