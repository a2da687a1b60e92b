-- ===== src/NarExpander/Pipeline/Result.antt =====
-- Every run of the two goroutines that ends comes to what the sequence of entries comes to.
use nix_sandwich.Prelude.{
  ℕ, ◌≡◌, refl, sym, ◌∙◌, ap, true, false, Bool-cases, inl, inr, Option, some, List, [], ◌∷◌, ◌++◌,
  append-nil, append_assoc, Outcome, ok, err, panic, ◌>>=◌,
}
use nix_sandwich.External.NarTools.{Header, NarFile, NarTools, Output}
use nix_sandwich.NarExpander.Entries.{
  ExpandError, run_failed, header_refused, NarEntry, Trace, failure, send, write_content,
  write_ents, io_copy,
}
use nix_sandwich.NarExpander.Actions.{Filter, actions, nar_of}
use nix_sandwich.NarExpander.Pipeline.ToSend.{to_send, write_ents-to_send}
use nix_sandwich.NarExpander.Pipeline.{
  Item, entry, error, Writer, idle, writing, stopped, State, started, Step, acquired, sent,
  sent_error, received, received_error, refused, copy_failed, release_failed, wrote, Steps, here,
  next, Ended, all_written, gave_up,
}

abbrev to_receive : List Item → Trace → Trace
to_receive [] t = t
to_receive (entry x k ∷ q) t = send x (to_receive q t)
to_receive (error e ∷ q) t = failure e

abbrev prepend :
    List NarFile → Outcome ExpandError (List NarFile) → Outcome ExpandError (List NarFile)
prepend fs (ok gs) = ok (fs ++ gs)
prepend fs (err e) = err e
prepend fs panic = panic

-- What a state will come to.
abbrev outlook : NarTools → Writer → List Header → Trace → Outcome ExpandError (List NarFile)
outlook tools idle b t = write_ents tools b t
outlook tools (writing x k) b t = write_ents tools b (send x t)
outlook tools (stopped e k) b t = err e

abbrev result : NarTools → State → Outcome ExpandError (List NarFile)
result tools s =
    prepend s.files (outlook tools s.writer s.before (to_receive s.queue (to_send s.reader)))

to_receive-entry :
    (q : List Item) (x : NarEntry) (k : ℕ) (t : Trace)
    → to_receive (q ++ entry x k ∷ []) t ≡ to_receive q (send x t)
to_receive-entry [] x k t = refl
to_receive-entry (entry y j ∷ q) x k t = ap (λ u. send y u) (to_receive-entry q x k t)
to_receive-entry (error e ∷ q) x k t = refl

to_receive-error :
    (q : List Item) (e : ExpandError) (t : Trace)
    → to_receive (q ++ error e ∷ []) t ≡ to_receive q (failure e)
to_receive-error [] e t = refl
to_receive-error (entry y j ∷ q) e t = ap (λ u. send y u) (to_receive-error q e t)
to_receive-error (error e' ∷ q) e t = refl

prepend-snoc :
    (fs : List NarFile) (f : NarFile) (o : Outcome ExpandError (List NarFile))
    → prepend fs (do gs ← o; ok (f ∷ gs)) ≡ prepend (fs ++ f ∷ []) o
prepend-snoc fs f (ok gs) = ap ok (sym (append_assoc fs (f ∷ []) gs))
prepend-snoc fs f (err e) = refl
prepend-snoc fs f panic = refl

module _ (tools : NarTools) (b : List Header) (x : NarEntry) (t : Trace) where
  write_ents-refused :
      tools.header_ok b x.h ≡ false → write_ents tools b (send x t) ≡ err header_refused
  unfolding write_ents
  write_ents-refused h = rw h

  write_ents-failed :
      (e : ExpandError)
      → tools.header_ok b x.h ≡ true
      → write_content x ≡ err e
      → write_ents tools b (send x t) ≡ err e
  unfolding write_ents
  write_ents-failed e h w = rw (h, w)

  write_ents-wrote :
      (f : NarFile)
      → tools.header_ok b x.h ≡ true
      → write_content x ≡ ok f
      → write_ents tools b (send x t) ≡ (do gs ← write_ents tools (b ++ x.h ∷ []) t; ok (f ∷ gs))
  unfolding write_ents
  write_ents-wrote f h w = rw (h, w)

write_ents-error :
    (tools : NarTools) (b : List Header) (e : ExpandError) → write_ents tools b (failure e) ≡ err e
unfolding write_ents
write_ents-error tools b e = refl

write_content-copy :
    (x : NarEntry) (o : Output) (e : ExpandError)
    → x.r ≡ some o
    → io_copy o x.h.size ≡ err e
    → write_content x ≡ err e
unfolding write_content
write_content-copy x o e h c = rw (h, write_content, c)

write_content-release :
    (x : NarEntry) (o : Output) (bytes : List ℕ)
    → x.r ≡ some o
    → io_copy o x.h.size ≡ ok bytes
    → x.release_fails ≡ true
    → write_content x ≡ err run_failed
unfolding write_content
write_content-release x o bytes h c r = rw (h, write_content, c, r)

Step-result :
    (capacity slots : ℕ) (tools : NarTools) (s t : State)
    → Step capacity slots tools s t
    → result tools s ≡ result tools t
Step-result capacity slots tools _ _ (acquired n acts q w u b fs room) = refl
Step-result capacity slots tools _ _ (sent x k acts q w u b fs free) =
    ap (λ t. prepend fs (outlook tools w b t)) (sym (to_receive-entry q x k (to_send acts)))
Step-result capacity slots tools _ _ (sent_error e acts q w u b fs free) =
    ap (λ t. prepend fs (outlook tools w b t)) (sym (to_receive-error q e (to_send acts)))
Step-result capacity slots tools _ _ (received x k acts q u b fs) = refl
Step-result capacity slots tools _ _ (received_error e acts q u b fs) =
    ap (λ o. prepend fs o) (write_ents-error tools b e)
Step-result capacity slots tools _ _ (refused x k acts q u b fs h) =
    ap (λ o. prepend fs o) (write_ents-refused tools b x _ h)
Step-result capacity slots tools _ _ (copy_failed x k o e acts q u b fs h r c) =
    ap (λ o. prepend fs o) (write_ents-failed tools b x _ e h (write_content-copy x o e r c))
Step-result capacity slots tools _ _ (release_failed x k o bytes acts q u b fs h r c l) =
    ap (λ o. prepend fs o)
      (write_ents-failed tools b x _ run_failed h (write_content-release x o bytes r c l))
Step-result capacity slots tools _ _ (wrote x k f acts q u b fs h w) =
    ap (λ o. prepend fs o) (write_ents-wrote tools b x _ f h w) ∙ prepend-snoc fs f _

Steps-result :
    (capacity slots : ℕ) (tools : NarTools) (n : ℕ) (s t : State)
    → Steps capacity slots tools n s t
    → result tools s ≡ result tools t
Steps-result capacity slots tools _ _ _ (here s) = refl
Steps-result capacity slots tools _ _ _ (next n s t v steps step) =
    Steps-result capacity slots tools n s t steps ∙ Step-result capacity slots tools t v step

Ended-result :
    (tools : NarTools) (s : State) (o : Outcome ExpandError (List NarFile))
    → Ended tools s o
    → result tools s ≡ o
unfolding write_ents
Ended-result tools _ _ (all_written u b fs) = elim (Bool-cases (tools.close_ok b)) [
  | inl fine ↦ rw (fine, append-nil fs)
  | inr bad ↦ rw bad
]
Ended-result tools _ _ (gave_up acts q e k u b fs) = refl

prepend-nil : (o : Outcome ExpandError (List NarFile)) → prepend [] o ≡ o
prepend-nil (ok gs) = refl
prepend-nil (err e) = refl
prepend-nil panic = refl

-- However the two goroutines of `ExpandNar` or `CollapseNar` take their turns, a run that ends has the
-- result of the sequence of entries: the nar that is written, or the first error in the order of the
-- entries.
pub nar_of-Ended :
    (filter : Filter) (capacity slots : ℕ) (tools : NarTools) (fs : List NarFile)
    (ending : Option ExpandError) (n : ℕ) (s : State) (o : Outcome ExpandError (List NarFile))
    → Steps capacity slots tools n (started (actions filter capacity tools fs ending)) s
    → Ended tools s o
    → nar_of filter tools fs ending ≡ o
nar_of-Ended filter capacity slots tools fs ending n s o steps ended =
    sym (write_ents-to_send filter capacity tools fs ending)
    ∙ sym (prepend-nil _)
    ∙ Steps-result capacity slots tools n _ s steps
    ∙ Ended-result tools s o ended
