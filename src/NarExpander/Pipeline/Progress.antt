-- ===== src/NarExpander/Pipeline/Progress.antt =====
-- The two goroutines do not wait for one another for ever.
use nix_sandwich.Prelude.{
  zero, suc, subst, ℕ, ◌+◌, ◌*◌, ◌≡◌, ◌≤◌, ◌<◌, sym, arith, false, Bool-cases, Option-cases, ◌==◌,
  ◌⊎◌, inl, inr, Option, none, some, List, [], ◌∷◌, length, length-append, Bytes, Outcome, ok, err,
}
use nix_sandwich.External.NarTools.{Header, NarFile, Output, NarTools}
use nix_sandwich.NarExpander.Entries.{
  ExpandError, run_failed, size_mismatch, NarEntry, write_content, io_copy,
}
use nix_sandwich.NarExpander.Actions.{Action, acquire, put, put_error, die, Filter, actions, nar_of}
use nix_sandwich.NarExpander.Pipeline.{
  Item, entry, error, Writer, idle, writing, stopped, State, state, started, Step, acquired, sent,
  sent_error, received, received_error, refused, copy_failed, release_failed, wrote, Steps, here,
  next, Ended, all_written, gave_up,
}
use nix_sandwich.NarExpander.Pipeline.Result.{nar_of-Ended}
use nix_sandwich.NarExpander.Pipeline.Bounds.{Sound, actions-Sound}

-- What is left to do: an action is three steps, an item in the channel two, one at the writer's hand one.
abbrev writer_work : Writer → ℕ
writer_work idle = 0
writer_work (writing x k) = 1
writer_work (stopped e k) = 0

abbrev pub work : State → ℕ
work s = 3 * length s.reader + 2 * length s.queue + writer_work s.writer

-- The reading side panics.
pub data Dead : State → Type 0 where
  dead :
      (acts : List Action) (q : List Item) (w : Writer) (u : ℕ) (b : List Header)
      (fs : List NarFile)
      → Dead (state (die ∷ acts) q w u b fs)

Step-work :
    (capacity slots : ℕ) (tools : NarTools) (s t : State)
    → Step capacity slots tools s t
    → work t < work s
Step-work capacity slots tools _ _ (acquired n acts q w u b fs room) = omega arith
Step-work capacity slots tools _ _ (sent x k acts q w u b fs free) =
    omega (arith, length-append q (entry x k ∷ []))
Step-work capacity slots tools _ _ (sent_error e acts q w u b fs free) =
    omega (arith, length-append q (error e ∷ []))
Step-work capacity slots tools _ _ (received x k acts q u b fs) = omega arith
Step-work capacity slots tools _ _ (received_error e acts q u b fs) = omega arith
Step-work capacity slots tools _ _ (refused x k acts q u b fs h) = omega arith
Step-work capacity slots tools _ _ (copy_failed x k o e acts q u b fs h r c) = omega arith
Step-work capacity slots tools _ _ (release_failed x k o bytes acts q u b fs h r c l) = omega arith
Step-work capacity slots tools _ _ (wrote x k f acts q u b fs h w) = omega arith

Steps-work :
    (capacity slots : ℕ) (tools : NarTools) (n : ℕ) (s t : State)
    → Steps capacity slots tools n s t
    → n + work t ≤ work s
Steps-work capacity slots tools _ _ _ (here s) = omega arith
Steps-work capacity slots tools _ _ _ (next n s t v steps step) =
    omega
      (arith, Steps-work capacity slots tools n s t steps, Step-work capacity slots tools t v step)

io_copy-cases :
    (o : Output) (n : ℕ)
    → ((bytes : Bytes) × (io_copy o n ≡ ok bytes)) ⊎ ((e : ExpandError) × (io_copy o n ≡ err e))
unfolding io_copy
io_copy-cases o n = elim (Bool-cases o.failed) [
  | inl bad ↦ inr (run_failed, rw bad)
  | inr good ↦ elim (Bool-cases (length o.written == n)) [
    | inl same ↦ inl (o.written, rw (good, same))
    | inr other ↦ inr (size_mismatch, rw (good, other))
  ]
]

write_content-bare :
    (x : NarEntry) → x.r ≡ none → write_content x ≡ ok (record { header = x.h; content = [] })
unfolding write_content
write_content-bare x h = rw (write_content, h)

write_content-copied :
    (x : NarEntry) (o : Output) (bytes : Bytes)
    → x.r ≡ some o
    → io_copy o x.h.size ≡ ok bytes
    → x.release_fails ≡ false
    → write_content x ≡ ok (record { header = x.h; content = bytes })
unfolding write_content
write_content-copied x o bytes h c r = rw (write_content, h, c, r)

module _ (capacity slots : ℕ) (tools : NarTools) where
  abbrev pub CanStep : State → Type 0
  CanStep s = (t : State) × Step capacity slots tools s t

  -- An entry at hand is written, or the writer stops.
  writing-CanStep :
      (x : NarEntry) (k : ℕ) (acts : List Action) (q : List Item) (u : ℕ) (b : List Header)
      (fs : List NarFile)
      → CanStep (state acts q (writing x k) u b fs)
  writing-CanStep x k acts q u b fs = elim (Bool-cases (tools.header_ok b x.h)) [
    | inr bad ↦ (_, refused x k acts q u b fs bad)
    | inl fine ↦ elim (Option-cases x.r) [
      | inl bare ↦ (_, wrote x k _ acts q u b fs fine (write_content-bare x bare))
      | inr (o, r) ↦ elim (io_copy-cases o x.h.size) [
        | inr (e, c) ↦ (_, copy_failed x k o e acts q u b fs fine r c)
        | inl (bytes, c) ↦ elim (Bool-cases x.release_fails) [
          | inl fails ↦ (_, release_failed x k o bytes acts q u b fs fine r c fails)
          | inr released ↦
              (_, wrote x k _ acts q u b fs fine (write_content-copied x o bytes r c released))
        ]
      ]
    ]
  ]

  abbrev pub Goes : State → Type 0
  Goes s = CanStep s ⊎ (((o : Outcome ExpandError (List NarFile)) × Ended tools s o) ⊎ Dead s)

  -- With an empty channel and an idle writer, the semaphore is free.
  reader-Goes :
      (acts : List Action) (u : ℕ) (b : List Header) (fs : List NarFile)
      → 0 < slots
      → Sound capacity slots (state acts [] idle u b fs)
      → Goes (state acts [] idle u b fs)
  reader-Goes [] u b fs h i = inr (inl (_, all_written u b fs))
  reader-Goes (acquire n ∷ acts) u b fs h i =
      let (free, small, later) = i.fits in
      inl (_, acquired n acts [] idle u b fs (omega (arith, i.counted, free, small)))
  reader-Goes (put x k ∷ acts) u b fs h i = inl (_, sent x k acts [] idle u b fs h)
  reader-Goes (put_error e ∷ acts) u b fs h i = inl (_, sent_error e acts [] idle u b fs h)
  reader-Goes (die ∷ acts) u b fs h i = inr (inr (dead acts [] idle u b fs))

  Sound-Goes : (s : State) → 0 < slots → Sound capacity slots s → Goes s
  Sound-Goes s h i = go s.queue s.writer i
    where
      go :
          (q : List Item) (w : Writer)
          → Sound capacity slots (state s.reader q w s.used s.before s.files)
          → Goes (state s.reader q w s.used s.before s.files)
      go q (stopped e k) i = inr (inl (_, gave_up s.reader q e k s.used s.before s.files))
      go q (writing x k) i = inl (writing-CanStep x k s.reader q s.used s.before s.files)
      go (entry x k ∷ q) idle i = inl (_, received x k s.reader q s.used s.before s.files)
      go (error e ∷ q) idle i = inl (_, received_error e s.reader q s.used s.before s.files)
      go [] idle i = reader-Goes s.reader s.used s.before s.files h i

Steps-first :
    (capacity slots : ℕ) (tools : NarTools) (n : ℕ) (s t v : State)
    → Step capacity slots tools s t
    → Steps capacity slots tools n t v
    → Steps capacity slots tools (1 + n) s v
Steps-first capacity slots tools _ s _ _ step (here t) = next 0 s s t (here s) step
Steps-first capacity slots tools _ s _ _ step (next n t v w steps last) =
    next (1 + n) s v w (Steps-first capacity slots tools n s t v step steps) last

-- If the channel has a buffer, the two goroutines never wait for one another: in every state of a run
-- of `ExpandNar` or `CollapseNar`, one of them can go on, or the pipe has ended, or the reading side panics.
pub actions-Goes :
    (filter : Filter) (capacity slots : ℕ) (tools : NarTools) (fs : List NarFile)
    (ending : Option ExpandError) (n : ℕ) (s : State)
    → 0 < slots
    → Steps capacity slots tools n (started (actions filter capacity tools fs ending)) s
    → Goes capacity slots tools s
actions-Goes filter capacity slots tools fs ending n s h steps =
    Sound-Goes capacity slots tools s h
      (actions-Sound filter capacity slots tools fs ending n s steps)

module _ (filter : Filter) (capacity slots : ℕ) (tools : NarTools) (fs : List NarFile)
    (ending : Option ExpandError) (h : 0 < slots) where
  abbrev initial : State
  initial = started (actions filter capacity tools fs ending)

  -- A run from a state that cannot go on: the pipe has ended, or the reading side panics.
  abbrev pub FinishedFrom : State → Type 0
  FinishedFrom s =
      (n m : ℕ) × (t : State) × Steps capacity slots tools n s t
      × Steps capacity slots tools m initial t
      × (((o : Outcome ExpandError (List NarFile)) × Ended tools t o) ⊎ Dead t)

  go_on :
      (fuel n : ℕ) (s : State)
      → work s ≤ fuel
      → Steps capacity slots tools n initial s
      → FinishedFrom s
  go_on zero n s small steps =
      elim (actions-Goes filter capacity slots tools fs ending n s h steps) [
        | inl (t, step) ↦ absurd (omega (arith, Step-work capacity slots tools s t step))
        | inr stuck ↦ (0, n, s, here s, steps, stuck)
      ]
  go_on (suc fuel) n s small steps =
      elim (actions-Goes filter capacity slots tools fs ending n s h steps) [
        | inl (t, step) ↦
            let (j, m, v, from, whole, stuck) =
              go_on fuel (1 + n) t (omega (arith, Step-work capacity slots tools s t step))
                (next n initial s t steps step) in
            (1 + j, m, v, Steps-first capacity slots tools j s t v step from, whole, stuck)
        | inr stuck ↦ (0, n, s, here s, steps, stuck)
      ]

  -- If the channel has a buffer, every run of `ExpandNar` or `CollapseNar` goes on, in finitely many steps, until the pipe
  -- ends with the result of the sequence of entries, or the reading side panics.
  pub actions-Ended :
      (n : ℕ) (s : State)
      → Steps capacity slots tools n initial s
      → (j : ℕ) × (t : State) × Steps capacity slots tools j s t
        × (Ended tools t (nar_of filter tools fs ending) ⊎ Dead t)
  actions-Ended n s steps =
      let (j, m, t, from, whole, stuck) = go_on (work s) n s (omega arith) steps in
      (
        j,
        t,
        from,
        elim stuck [
          | inr d ↦ inr d
          | inl (o, ended) ↦ inl (
              subst (λ r. Ended tools t r)
                (sym (nar_of-Ended filter capacity slots tools fs ending m t o whole ended)) ended)
        ],
      )
