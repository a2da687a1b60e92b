-- ===== src/NarExpander/Pipeline/Bounds.antt =====
-- What the semaphore and the channel bound.
use nix_sandwich.Prelude.{
  subst, sym, ℕ, ◌+◌, ◌≡◌, ◌≤◌, refl, arith, inl, inr, Option, List, [], ◌∷◌, ◌++◌, length,
  length-append,
}
use nix_sandwich.External.NarTools.{NarFile, NarTools}
use nix_sandwich.NarExpander.Entries.{ExpandError}
use nix_sandwich.NarExpander.Actions.{Filter, actions, Action}
use nix_sandwich.NarExpander.Pipeline.Fitting.{Fits, actions-Fits}
use nix_sandwich.NarExpander.Pipeline.{
  Item, entry, error, Writer, idle, writing, stopped, State, started, Step, acquired, sent,
  sent_error, received, received_error, refused, copy_failed, release_failed, wrote, Steps, here,
  next,
}

abbrev pub queue_held : List Item → ℕ
queue_held [] = 0
queue_held (entry x k ∷ q) = k + queue_held q
queue_held (error e ∷ q) = queue_held q

abbrev pub writer_held : Writer → ℕ
writer_held idle = 0
writer_held (writing x k) = k
writer_held (stopped e k) = k

-- All that the semaphore gave is held by the reading side, an entry in the channel, or the writer.
pub record Sound (capacity slots : ℕ) (s : State) : Type 0 where
  pub held : ℕ
  pub fits : Fits capacity held s.reader
  pub counted : s.used ≡ held + queue_held s.queue + writer_held s.writer
  pub bounded : s.used ≤ capacity
  pub in_channel : length s.queue ≤ slots

queue_held-append : (q r : List Item) → queue_held (q ++ r) ≡ queue_held q + queue_held r
queue_held-append [] r = omega arith
queue_held-append (entry x k ∷ q) r = omega (arith, queue_held-append q r)
queue_held-append (error e ∷ q) r = queue_held-append q r

module _ (capacity slots : ℕ) where
  started-Sound : (acts : List Action) → Fits capacity 0 acts → Sound capacity slots (started acts)
  started-Sound acts h = record {
    held = 0;
    fits = h;
    counted = refl;
    bounded = omega arith;
    in_channel = omega arith;
  }

  Step-Sound :
      (tools : NarTools) (s t : State)
      → Step capacity slots tools s t
      → Sound capacity slots s
      → Sound capacity slots t
  Step-Sound tools _ _ (acquired n acts q w u b fs room) i =
      let (free, small, later) = i.fits in
      record {
        held = n;
        fits = later;
        counted = omega (arith, i.counted, free);
        bounded = room;
        in_channel = i.in_channel;
      }
  Step-Sound tools _ _ (sent x k acts q w u b fs free) i = elim i.fits [
    | inl (none_released, later) ↦ record {
      held = i.held;
      fits = later;
      counted = omega (arith, i.counted, none_released, queue_held-append q (entry x k ∷ []));
      bounded = i.bounded;
      in_channel = omega (arith, free, length-append q (entry x k ∷ []));
    }
    | inr (all_released, later) ↦ record {
      held = 0;
      fits = later;
      counted = omega (arith, i.counted, all_released, queue_held-append q (entry x k ∷ []));
      bounded = i.bounded;
      in_channel = omega (arith, free, length-append q (entry x k ∷ []));
    }
  ]
  Step-Sound tools _ _ (sent_error e acts q w u b fs free) i = record {
    held = i.held;
    fits = subst (λ l. Fits capacity i.held l) (sym i.fits) tt;
    counted = omega (arith, i.counted, queue_held-append q (error e ∷ []));
    bounded = i.bounded;
    in_channel = omega (arith, free, length-append q (error e ∷ []));
  }
  Step-Sound tools _ _ (received x k acts q u b fs) i = record {
    held = i.held;
    fits = i.fits;
    counted = omega (arith, i.counted);
    bounded = i.bounded;
    in_channel = omega (arith, i.in_channel);
  }
  Step-Sound tools _ _ (received_error e acts q u b fs) i = record {
    held = i.held;
    fits = i.fits;
    counted = omega (arith, i.counted);
    bounded = i.bounded;
    in_channel = omega (arith, i.in_channel);
  }
  Step-Sound tools _ _ (refused x k acts q u b fs h) i = record {
    held = i.held;
    fits = i.fits;
    counted = i.counted;
    bounded = i.bounded;
    in_channel = i.in_channel;
  }
  Step-Sound tools _ _ (copy_failed x k o e acts q u b fs h r c) i = record {
    held = i.held;
    fits = i.fits;
    counted = i.counted;
    bounded = i.bounded;
    in_channel = i.in_channel;
  }
  Step-Sound tools _ _ (release_failed x k o bytes acts q u b fs h r c l) i = record {
    held = i.held;
    fits = i.fits;
    counted = omega (arith, i.counted);
    bounded = omega (arith, i.bounded);
    in_channel = i.in_channel;
  }
  Step-Sound tools _ _ (wrote x k f acts q u b fs h w) i = record {
    held = i.held;
    fits = i.fits;
    counted = omega (arith, i.counted);
    bounded = omega (arith, i.bounded);
    in_channel = i.in_channel;
  }

  Steps-Sound :
      (tools : NarTools) (n : ℕ) (s t : State)
      → Steps capacity slots tools n s t
      → Sound capacity slots s
      → Sound capacity slots t
  Steps-Sound tools _ _ _ (here s) i = i
  Steps-Sound tools _ _ _ (next n s t v steps step) i =
      Step-Sound tools t v step (Steps-Sound tools n s t steps i)

pub actions-Sound :
    (filter : Filter) (capacity slots : ℕ) (tools : NarTools) (fs : List NarFile)
    (ending : Option ExpandError) (n : ℕ) (s : State)
    → Steps capacity slots tools n (started (actions filter capacity tools fs ending)) s
    → Sound capacity slots s
actions-Sound filter capacity slots tools fs ending n s steps =
    Steps-Sound capacity slots tools n _ s steps
      (started-Sound capacity slots _ (actions-Fits filter capacity tools fs ending))
