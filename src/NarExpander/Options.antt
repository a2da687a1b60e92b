-- ===== src/NarExpander/Options.antt =====
-- `narExpanderOptions`, its `defaults`, and how `ExpandNar` and `CollapseNar` use them.
use nix_sandwich.Prelude.{ℕ, ◌*◌, Option, none, some, ◌==◌, if◌then◌else◌}
use nix_sandwich.Algo.Atoi.{ℤ, pos, negsuc}
use nix_sandwich.External.NarTools.{NarTools}

-- Both are integers that may be negative.
pub record ExpanderOptions : Type 0 where
  pub buffer_entries : ℤ
  pub buffer_bytes : ℤ

abbrev pub or_else : ℕ → ℤ → ℤ
or_else n (pos m) = if m == 0 then pos n else pos m
or_else n (negsuc m) = negsuc m

-- For the number of processors.
unfoldable pub defaults : ℕ → ExpanderOptions → ExpanderOptions
defaults cpus o = record {
  buffer_entries = or_else (4 * cpus) o.buffer_entries;
  buffer_bytes = or_else (128 * 1024 * 1024) o.buffer_bytes;
}

-- The size of the channel and the capacity of the semaphore; `none` is the panic of a channel of
-- negative size. The semaphore of a negative capacity is not modelled.
abbrev pub sizes_of : ExpanderOptions → Option (ℕ × ℤ)
sizes_of o = elim o.buffer_entries [ pos n ↦ some (n, o.buffer_bytes) | negsuc n ↦ none ]

unfoldable pub buffers : ℕ → ExpanderOptions → Option (ℕ × ℤ)
unfolding defaults
buffers cpus o = sizes_of (defaults cpus o)
