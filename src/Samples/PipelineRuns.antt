-- ===== src/Samples/PipelineRuns.antt =====
-- A run of the two goroutines of narexpander.go on a nar of one file, with a channel of one slot.
use nix_sandwich.Algo.Atoi.{pos}
use nix_sandwich.NarExpander.Options.{buffers}
use nix_sandwich.Prelude.{ℕ, ◌≡◌, refl, arith, false, none, some, List, [], ◌∷◌, codes, ok}
use nix_sandwich.NarExpander.Entries.{ExpandError, NarEntry}
use nix_sandwich.NarExpander.Expand.{expand_nar}
use nix_sandwich.NarExpander.Actions.{expanding, Action, acquire, put, expand_actions}
use nix_sandwich.NarExpander.Pipeline.{
  entry, idle, writing, State, state, started, acquired, sent, received, wrote, Steps, here, next,
  all_written,
}
use nix_sandwich.NarExpander.Pipeline.Result.{nar_of-Ended}
use nix_sandwich.Samples.NarRuns.{storing_tools, program}

abbrev program_entry : NarEntry
program_entry = record {
  h = program.header;
  r = some (record { written = codes "run"; failed = false });
  release_fails = false;
}

abbrev first : State
first = started (expand_actions 2 storing_tools (program ∷ []) none)

abbrev program_actions : List Action
program_actions = acquire 2 ∷ put program_entry 2 ∷ []

small_actions : expand_actions 2 storing_tools (program ∷ []) none ≡ program_actions
unfolding expand_actions nix_sandwich.NarExpander.Expand.expand_entry
small_actions = refl

-- The file has three bytes, but waits only for the two that the semaphore has.
abbrev queued : State
queued = state [] (entry program_entry 2 ∷ []) idle 2 [] []

abbrev at_hand : State
at_hand = state [] [] (writing program_entry 2) 2 [] []

abbrev finished : State
finished = state [] [] idle 0 (program.header ∷ []) (program ∷ [])

to_queued : Steps 2 1 storing_tools 2 (started program_actions) queued
to_queued =
    next 1 _ _ _
      (next 0 _ _ _ (here _) (acquired 2 (put program_entry 2 ∷ []) [] idle 0 [] [] (omega arith)))
      (sent program_entry 2 [] [] idle 2 [] [] (omega arith))

to_finished : Steps 2 1 storing_tools 4 (started program_actions) finished
unfolding nix_sandwich.NarExpander.Entries.write_content
to_finished =
    next 3 _ at_hand _ (next 2 _ _ _ to_queued (received program_entry 2 [] [] 2 [] []))
      (wrote program_entry 2 program [] [] 2 [] [] refl refl)

from_start :
    (n : ℕ) (s : State)
    → Steps 2 1 storing_tools n (started program_actions) s
    → Steps 2 1 storing_tools n first s
unfolding expand_actions nix_sandwich.NarExpander.Expand.expand_entry
from_start n s steps = steps

nar_of-Ended_example : expand_nar storing_tools (program ∷ []) none ≡ ok (program ∷ [])
nar_of-Ended_example =
    nar_of-Ended expanding 2 1 storing_tools (program ∷ []) none 4 finished (ok (program ∷ []))
      (from_start 4 finished to_finished) (all_written 0 (program.header ∷ []) (program ∷ []))

-- The defaults, on four processors.
default_buffers :
    buffers 4 (record { buffer_entries = pos 0; buffer_bytes = pos 0 }) ≡ some (16, pos 134217728)
unfolding buffers
default_buffers = refl
