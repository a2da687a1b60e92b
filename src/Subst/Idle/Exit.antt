-- ===== src/Subst/Idle/Exit.antt =====
-- When the program ends for idleness.
use nix_sandwich.Prelude.{
  append-nil, append_assoc, subst, sym, ℕ, ◌+◌, ◌/◌, ◌≤◌, ◌<◌, ◌≡◌, ◌⊎◌, inl, inr, refl, arith,
  true, false, Bool-cases, List, [], ◌∷◌, ◌++◌, All, All-append, ltb, if◌then◌else◌, ltb→lt, ltb→le,
}
use nix_sandwich.Subst.Idle.{
  second, Watch, started_at, alive, since_last, Event, begins, ends, ticks, passes, step, watch,
}

-- The times at which requests came in or had been handled, from a time on.
abbrev pub request_times : ℕ → List Event → List ℕ
request_times now [] = []
request_times now (begins ∷ es) = now ∷ request_times now es
request_times now (ends ∷ es) = now ∷ request_times now es
request_times now (ticks ∷ es) = request_times now es
request_times now (passes n ∷ es) = request_times (now + n) es

abbrev pub Any : (ℕ → Type 0) → List ℕ → Type 0
Any P [] = false ≡ true
Any P (x ∷ xs) = P x ⊎ Any P xs

-- The last request is the newest of the times, in seconds, or there was none.
record IsWatched (w : Watch) (times : List ℕ) : Type 0 where
  newest : All (λ t. t / second ≤ w.last_req) times
  past : All (λ t. t ≤ w.now) times
  one_of : (w.last_req ≡ 0) ⊎ Any (λ t. w.last_req ≡ t / second) times

module _ {P Q : ℕ → Type 0} (f : (t : ℕ) → P t → Q t) where
  each_time : (ts : List ℕ) → All P ts → All Q ts
  each_time [] h = tt
  each_time (t ∷ ts) (p, h) = (f t p, each_time ts h)

  some_time : (ts : List ℕ) → Any P ts → Any Q ts
  some_time [] h = h
  some_time (t ∷ ts) (inl p) = inl (f t p)
  some_time (t ∷ ts) (inr h) = inr (some_time ts h)

module _ (P : ℕ → Type 0) where
  Any-append_left : (xs ys : List ℕ) → Any P xs → Any P (xs ++ ys)
  Any-append_left [] ys h = cc
  Any-append_left (x ∷ xs) ys (inl p) = inl p
  Any-append_left (x ∷ xs) ys (inr h) = inr (Any-append_left xs ys h)

  Any-append_right : (xs ys : List ℕ) → Any P ys → Any P (xs ++ ys)
  Any-append_right [] ys h = h
  Any-append_right (x ∷ xs) ys h = inr (Any-append_right xs ys h)

-- A request that comes in or has been handled.
alive-IsWatched :
    (w w' : Watch) (times : List ℕ)
    → IsWatched w times
    → w'.now ≡ w.now
    → w'.last_req ≡ w.now / second
    → IsWatched w' (times ++ w.now ∷ [])
alive-IsWatched w w' times h same last = record {
  newest =
      All-append _ times (w.now ∷ []) (each_time (λ t p. omega (arith, p, last)) times h.past)
        (omega (arith, last), tt);
  past =
      All-append _ times (w.now ∷ []) (each_time (λ t p. omega (arith, p, same)) times h.past)
        (omega (arith, same), tt);
  one_of = inr (Any-append_right _ times (w.now ∷ []) (inl last));
}

-- Where nothing comes in, only time may pass.
idle-IsWatched :
    (w w' : Watch) (times : List ℕ)
    → IsWatched w times
    → w.now ≤ w'.now
    → w'.last_req ≡ w.last_req
    → IsWatched w' (times ++ [])
idle-IsWatched w w' times h later same = rw (append-nil times) (record {
  newest = each_time (λ t p. omega (arith, p, same)) times h.newest;
  past = each_time (λ t p. omega (arith, p, later)) times h.past;
  one_of = rw same h.one_of;
})

step-IsWatched :
    (idle : ℕ) (w : Watch) (e : Event) (times : List ℕ)
    → IsWatched w times
    → IsWatched (step idle w e) (times ++ request_times w.now (e ∷ []))
unfolding step alive
step-IsWatched idle w begins times h = alive-IsWatched w _ times h refl refl
step-IsWatched idle w ends times h = alive-IsWatched w _ times h refl refl
step-IsWatched idle w ticks times h = idle-IsWatched w _ times h (omega arith) refl
step-IsWatched idle w (passes n) times h = idle-IsWatched w _ times h (omega arith) refl

request_times-step :
    (idle : ℕ) (w : Watch) (e : Event) (es : List Event)
    → request_times w.now (e ∷ es)
      ≡ request_times w.now (e ∷ []) ++ request_times (step idle w e).now es
unfolding step alive
request_times-step idle w begins es = refl
request_times-step idle w ends es = refl
request_times-step idle w ticks es = refl
request_times-step idle w (passes n) es = refl

watch-IsWatched :
    (idle : ℕ) (w : Watch) (es : List Event) (times : List ℕ)
    → IsWatched w times
    → (watch idle w es).exited ≡ false
    → IsWatched (watch idle w es) (times ++ request_times w.now es)
unfolding watch
watch-IsWatched idle w [] times h on = rw (append-nil times) h
watch-IsWatched idle w (e ∷ es) times h on = elim (Bool-cases w.exited) [
  | inl off ↦ cc (rw off at on)
  | inr still ↦
      let rest = watch idle (step idle w e) es in
      let going : rest.exited ≡ false =
        subst (λ b. (if b then w else rest).exited ≡ false) still on in
      let next =
        watch-IsWatched idle (step idle w e) es (times ++ request_times w.now (e ∷ []))
          (step-IsWatched idle w e times h) going in
      subst (λ b. IsWatched (if b then w else rest) (times ++ request_times w.now (e ∷ es)))
        (sym still)
        (rw (request_times-step idle w e es) (
          subst (IsWatched rest)
            (append_assoc times (request_times w.now (e ∷ []))
              (request_times (step idle w e).now es))
            next))
]

-- At a tick: the program ends, and the time lies behind all requests, less a second; or it goes on,
-- and there was a request within the time, or the time has not passed since 1970.
abbrev pub TickOf : ℕ → Watch → Watch → List ℕ → Type 0
TickOf idle w w' times =
    ((w'.exited ≡ true) × All (λ t. t + idle < w.now + second) times)
    ⊎ ((w'.exited ≡ false) × ((w.now ≤ idle) ⊎ Any (λ t. w.now ≤ t + idle) times))

-- After any events that the program has not ended at, its next tick ends it only if every time at
-- which a request came in, or at which one had been handled, lies longer ago than the idle time less a
-- second (a request that is still being handled since before then does not keep it on); and it goes on
-- only if one came in or had been handled within the idle time, or the clock shows no more than the
-- idle time.
pub tick_exits :
    (idle now : ℕ) (es : List Event)
    → (watch idle (started_at now) es).exited ≡ false
    → TickOf idle
        (watch idle (started_at now) es)
        (step idle (watch idle (started_at now) es) ticks)
        (request_times now es)
unfolding step
tick_exits idle now es on =
    let w = watch idle (started_at now) es in
    let h =
      watch-IsWatched idle (started_at now) es []
        (record { newest = tt; past = tt; one_of = inl refl }) on in
    elim (Bool-cases (ltb idle (since_last w))) [
      | inl over ↦
          let gap = ltb→lt idle (since_last w) over in
          inl (over, each_time (λ t p. omega (arith, gap, p)) (request_times now es) h.newest)
      | inr soon ↦
          let gap = ltb→le idle (since_last w) soon in
          inr (
            soon,
            elim h.one_of [
              | inl never ↦ inl (omega (arith, gap, never))
              | inr some_req ↦
                  inr (some_time (λ t p. omega (arith, gap, p)) (request_times now es) some_req)
            ],
          )
    ]
