-- ===== src/Subst/Idle.antt =====
-- The start of `serve`, and the idle exit: `alive`, which `fw` calls before and behind each handler,
-- and `exitOnIdle`. Times are nanoseconds since 1970 on a clock that does not go back.
pub mod Exit
use nix_sandwich.Prelude.{
  ℕ, ◌+◌, ◌-◌, ◌*◌, ◌/◌, ◌^◌, Bool, true, false, Option, none, some, List, [], ◌∷◌, ltb, ◌==◌,
  if◌then◌else◌,
}

-- What `serve` does with the listeners of systemd: its own listener, or the first of them, with or
-- without the idle exit.
pub data Listening : Type 0 where
  own_listener : Listening
  activated : Bool → Listening

-- For the number of listeners, if it can be told, and `SubstIdleTime`; `none` is a panic.
unfoldable pub listen : Option ℕ → ℕ → Option Listening
listen none idle = none
listen (some n) idle = some (if n == 0 then own_listener else activated (ltb 0 idle))

abbrev pub second : ℕ
second = 10 ^ 9

-- The clock, `lastReq` in seconds, the requests that are being handled, and whether the program has
-- ended.
pub record Watch : Type 0 where
  pub now : ℕ
  pub last_req : ℕ
  pub in_flight : ℕ
  pub exited : Bool

abbrev pub started_at : ℕ → Watch
started_at now = record { now = now; last_req = 0; in_flight = 0; exited = false }

-- `alive`
unfoldable pub alive : Watch → Watch
alive w = record w { last_req = w.now / second }

-- `time.Since` of the last request.
abbrev pub since_last : Watch → ℕ
since_last w = w.now - w.last_req * second

-- A request comes in or has been handled, time passes, or the ticker of `exitOnIdle` ticks.
pub data Event : Type 0 where
  begins ends ticks : Event
  passes : ℕ → Event

unfoldable pub step : ℕ → Watch → Event → Watch
unfolding alive
step idle w begins = record (alive w) { in_flight = w.in_flight + 1 }
step idle w ends = record (alive w) { in_flight = w.in_flight - 1 }
step idle w ticks = record w { exited = ltb idle (since_last w) }
step idle w (passes n) = record w { now = w.now + n }

-- Events up to the end of the program.
unfoldable pub watch : ℕ → Watch → List Event → Watch
unfolding step
watch idle w [] = w
watch idle w (e ∷ es) = let rest = watch idle (step idle w e) es in if w.exited then w else rest
