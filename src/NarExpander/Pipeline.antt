-- ===== src/NarExpander/Pipeline.antt =====
-- The two goroutines of narexpander.go with the channel and the semaphore between them:
-- `ExpandNar` and `CollapseNar`, with the loop of `writeEnts` in steps. A send waits for a free slot of
-- the channel; the writer's reads of a pipe are one step, and who reads the nar goes on reading.
pub mod ToSend
pub mod Result
pub mod Sent
pub mod Fitting
pub mod Bounds
pub mod Progress
use nix_sandwich.Prelude.{
  ℕ, ◌+◌, ◌-◌, ◌≡◌, ◌≤◌, ◌<◌, Bool, true, false, Option, none, some, List, [], ◌∷◌, ◌++◌, Bytes,
  length, ltb, if◌then◌else◌, Outcome, ok, err,
}
use nix_sandwich.External.NarTools.{
  EntryType, type_directory, type_symlink, type_regular, Header, NarFile, Output, NarTools,
}
use nix_sandwich.NarExpander.Entries.{
  ExpandError, run_failed, header_refused, close_refused, NarEntry, Trace, closed, failure, crash,
  send, io_copy, write_content,
}
use nix_sandwich.NarExpander.Actions.{Action, acquire, put, put_error, die}

-- What is in the channel.
pub data Item : Type 0 where
  entry : NarEntry → ℕ → Item
  error : ExpandError → Item

-- The writer: waiting, with an entry at hand, or returned with an error, and what it did not release.
pub data Writer : Type 0 where
  idle : Writer
  writing : NarEntry → ℕ → Writer
  stopped : ExpandError → ℕ → Writer

-- `used` is what the semaphore has given away; `before` and `files` are what is written.
pub record State : Type 0 where
  pub reader : List Action
  pub queue : List Item
  pub writer : Writer
  pub used : ℕ
  pub before : List Header
  pub files : List NarFile

abbrev pub state : List Action → List Item → Writer → ℕ → List Header → List NarFile → State
state reader queue writer used before files = record {
  reader = reader;
  queue = queue;
  writer = writer;
  used = used;
  before = before;
  files = files;
}

-- `ExpandNar` and `CollapseNar`: both sides start.
abbrev pub started : List Action → State
started actions = state actions [] idle 0 [] []

-- A step of one of the sides.
pub data Step (capacity slots : ℕ) (tools : NarTools) : State → State → Type 0 where
  acquired :
      (n : ℕ) (acts : List Action) (q : List Item) (w : Writer) (u : ℕ) (b : List Header)
      (fs : List NarFile)
      → u + n ≤ capacity
      → Step capacity slots tools
          (state (acquire n ∷ acts) q w u b fs)
          (state acts q w (u + n) b fs)
  sent :
      (x : NarEntry) (k : ℕ) (acts : List Action) (q : List Item) (w : Writer) (u : ℕ)
      (b : List Header) (fs : List NarFile)
      → length q < slots
      → Step capacity slots tools
          (state (put x k ∷ acts) q w u b fs)
          (state acts (q ++ entry x k ∷ []) w u b fs)
  sent_error :
      (e : ExpandError) (acts : List Action) (q : List Item) (w : Writer) (u : ℕ) (b : List Header)
      (fs : List NarFile)
      → length q < slots
      → Step capacity slots tools
          (state (put_error e ∷ acts) q w u b fs)
          (state acts (q ++ error e ∷ []) w u b fs)
  received :
      (x : NarEntry) (k : ℕ) (acts : List Action) (q : List Item) (u : ℕ) (b : List Header)
      (fs : List NarFile)
      → Step capacity slots tools
          (state acts (entry x k ∷ q) idle u b fs)
          (state acts q (writing x k) u b fs)
  received_error :
      (e : ExpandError) (acts : List Action) (q : List Item) (u : ℕ) (b : List Header)
      (fs : List NarFile)
      → Step capacity slots tools
          (state acts (error e ∷ q) idle u b fs)
          (state acts q (stopped e 0) u b fs)
  refused :
      (x : NarEntry) (k : ℕ) (acts : List Action) (q : List Item) (u : ℕ) (b : List Header)
      (fs : List NarFile)
      → tools.header_ok b x.h ≡ false
      → Step capacity slots tools
          (state acts q (writing x k) u b fs)
          (state acts q (stopped header_refused k) u b fs)
  copy_failed :
      (x : NarEntry) (k : ℕ) (o : Output) (e : ExpandError) (acts : List Action) (q : List Item)
      (u : ℕ) (b : List Header) (fs : List NarFile)
      → tools.header_ok b x.h ≡ true
      → x.r ≡ some o
      → io_copy o x.h.size ≡ err e
      → Step capacity slots tools
          (state acts q (writing x k) u b fs)
          (state acts q (stopped e k) u b fs)
  release_failed :
      (x : NarEntry) (k : ℕ) (o : Output) (bytes : Bytes) (acts : List Action) (q : List Item)
      (u : ℕ) (b : List Header) (fs : List NarFile)
      → tools.header_ok b x.h ≡ true
      → x.r ≡ some o
      → io_copy o x.h.size ≡ ok bytes
      → x.release_fails ≡ true
      → Step capacity slots tools
          (state acts q (writing x k) u b fs)
          (state acts q (stopped run_failed 0) (u - k) b fs)
  wrote :
      (x : NarEntry) (k : ℕ) (f : NarFile) (acts : List Action) (q : List Item) (u : ℕ)
      (b : List Header) (fs : List NarFile)
      → tools.header_ok b x.h ≡ true
      → write_content x ≡ ok f
      → Step capacity slots tools
          (state acts q (writing x k) u b fs)
          (state acts q idle (u - k) (b ++ x.h ∷ []) (fs ++ f ∷ []))

-- A run of so many steps.
pub data Steps (capacity slots : ℕ) (tools : NarTools) : ℕ → State → State → Type 0 where
  here : (s : State) → Steps capacity slots tools 0 s s
  next :
      (n : ℕ) (s t v : State)
      → Steps capacity slots tools n s t
      → Step capacity slots tools t v
      → Steps capacity slots tools (1 + n) s v

-- What the reader of the pipe gets when nothing is left to do: the writer's error, or the nar.
pub data Ended (tools : NarTools) : State → Outcome ExpandError (List NarFile) → Type 0 where
  all_written :
      (u : ℕ) (b : List Header) (fs : List NarFile)
      → Ended tools
          (state [] [] idle u b fs)
          (if tools.close_ok b then ok fs else err close_refused)
  gave_up :
      (acts : List Action) (q : List Item) (e : ExpandError) (k : ℕ) (u : ℕ) (b : List Header)
      (fs : List NarFile)
      → Ended tools (state acts q (stopped e k) u b fs) (err e)
