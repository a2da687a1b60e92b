-- ===== src/Samples/IdleRuns.antt =====
-- A quarter of an hour of idle time, as module.nix sets it.
use nix_sandwich.Prelude.{ℕ, ◌+◌, ◌*◌, ◌≡◌, refl, true, false, some, List, [], ◌∷◌}
use nix_sandwich.Subst.Idle.{
  activated, listen, second, started_at, Event, begins, ends, ticks, passes, step, watch,
}
use nix_sandwich.Subst.Idle.Exit.{request_times, TickOf, tick_exits}

abbrev quarter : ℕ
quarter = 900 * second

abbrev morning : ℕ
morning = 1700000000 * second

one_listener : listen (some 1) quarter ≡ some (activated true)
unfolding listen
one_listener = refl

-- A request of a minute, and a tick a minute later.
abbrev short_visit : List Event
short_visit = begins ∷ passes (60 * second) ∷ ends ∷ passes (60 * second) ∷ []

short_visit_on : (watch quarter (started_at morning) short_visit).exited ≡ false
unfolding watch
short_visit_on = refl

tick_exits_example :
    TickOf quarter
      (watch quarter (started_at morning) short_visit)
      (step quarter (watch quarter (started_at morning) short_visit) ticks)
      (request_times morning short_visit)
tick_exits_example = tick_exits quarter morning short_visit short_visit_on

-- A request that takes longer than the idle time is cut off.
abbrev long_visit : List Event
long_visit = begins ∷ passes (901 * second) ∷ ticks ∷ []

long_visit_cut_off :
    watch quarter (started_at morning) long_visit
    ≡ record { now = morning + 901 * second; last_req = 1700000000; in_flight = 1; exited = true }
unfolding watch
long_visit_cut_off = refl

-- Without a request, the first tick ends the program.
no_visit_exits :
    (watch quarter (started_at morning) (passes (60 * second) ∷ ticks ∷ [])).exited ≡ true
unfolding watch
no_visit_exits = refl
