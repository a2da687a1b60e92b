-- ===== src/NarExpander/Entries.antt =====
-- The queue between the goroutines of narexpander.go, and its writer. The queue is the sequence of
-- what the reading side sends until it ends; Actions and Pipeline have the channel and the semaphore.
use nix_sandwich.Prelude.{
  ℕ, Bool, not, Option, none, some, List, [], ◌∷◌, ◌++◌, Bytes, length, ◌==◌, if◌then◌else◌,
  Outcome, ok, err, panic, ◌>>=◌,
}
use nix_sandwich.External.NarTools.{Header, NarFile, Output, NarTools}

pub data ExpandError : Type 0 where
  nar_error short_read start_failed run_failed bad_meta unexpected_eof bad_expanded : ExpandError
  unexpected_algo size_mismatch header_refused close_refused : ExpandError

-- `narEntry`: a header, the reader if there is one, and whether `release` fails.
pub record NarEntry : Type 0 where
  pub h : Header
  pub r : Option Output
  pub release_fails : Bool

-- What is sent: entries, and then the closing of the channel, an error, or a crash.
pub data Trace : Type 0 where
  closed : Trace
  failure : ExpandError → Trace
  crash : Trace
  send : NarEntry → Trace → Trace

-- One part of the work, and the next unless it failed.
infixr 30 ◌then◌
unfoldable pub ◌then◌ : Trace → Trace → Trace
closed then k = k
failure e then k = failure e
crash then k = crash
(send x t) then k = send x (t then k)

-- What a run came to.
abbrev pub after {ℓ} : {A : Type ℓ} → Outcome ExpandError A → (A → Trace) → Trace
after (ok a) k = k a
after (err e) k = failure e
after panic k = crash

-- `ioCopy`, for an expected size that is not negative.
unfoldable pub io_copy : Output → ℕ → Outcome ExpandError Bytes
io_copy o expected =
    if o.failed
    then err run_failed
    else if not (length o.written == expected)
    then err size_mismatch
    else ok o.written

-- The entry of the nar that is written for one that is sent.
unfoldable pub write_content : NarEntry → Outcome ExpandError NarFile
unfolding io_copy
write_content x = elim x.r [
  | none ↦ ok (record { header = x.h; content = [] })
  | some o ↦ do
    bytes ← io_copy o x.h.size
    if x.release_fails then err run_failed else ok (record { header = x.h; content = bytes })
]

-- `writeEnts`, after the headers that are written already.
unfoldable pub write_ents : NarTools → List Header → Trace → Outcome ExpandError (List NarFile)
unfolding write_content
write_ents tools before closed = if tools.close_ok before then ok [] else err close_refused
write_ents tools before (failure e) = err e
write_ents tools before crash = panic
write_ents tools before (send x t) =
    let rest = write_ents tools (before ++ x.h ∷ []) t in
    if not (tools.header_ok before x.h)
    then err header_refused
    else (do f ← write_content x; fs ← rest; ok (f ∷ fs))
