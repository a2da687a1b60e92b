-- ===== src/Analytics/Tally.antt =====
-- The loop of `analyzeLog` over the records of a log, without the times. An int is its 64 bits. The
-- records of requests are shared by `reqmap` and `diffed`: each has an address, and the deltas that are
-- written to them stand in a store.
pub mod Balance
use nix_sandwich.Prelude.{
  ℕ, ◌+◌, ◌-◌, ◌%◌, ◌^◌, Bool, true, false, Option, none, some, List, [], ◌∷◌, ◌++◌, Bytes,
  bytes_eq, ◌==◌, if◌then◌else◌,
}
use nix_sandwich.Algo.Stats.{DiffStats}
use nix_sandwich.Subst.Types.{AnRequest}
use nix_sandwich.Subst.NarInfos.{failed_identical}
use nix_sandwich.Analytics.Records.{AnRecord, request_record, delta_record, neither}

-- A pointer to the record of a request: the requests before it in the log, and its `R`.
pub record Entry : Type 0 where
  pub place : ℕ
  pub asked : AnRequest

-- `reqmap`, `fmap`, `diffed` and `tActual`; the requests so far, the `D` of their records, and the ids
-- printed as missing.
pub record Tally : Type 0 where
  pub next : ℕ
  pub requests : List (Bytes × Entry)
  pub counts : List (Bytes × ℕ)
  pub diffed : List Entry
  pub diffs : ℕ → Option DiffStats
  pub actual : ℕ
  pub missing : List Bytes

abbrev pub no_records : Tally
no_records = record {
  next = 0;
  requests = [];
  counts = [];
  diffed = [];
  diffs = λ n. none;
  actual = 0;
  missing = [];
}

-- The newest entry of an id.
unfoldable pub lookup : List (Bytes × Entry) → Bytes → Option Entry
lookup [] id = none
lookup ((k, r) ∷ m) id = let rest = lookup m id in if bytes_eq k id then some r else rest

-- `fmap[k]++`
unfoldable pub count : List (Bytes × ℕ) → Bytes → List (Bytes × ℕ)
count [] k = (k, 1) ∷ []
count ((j, n) ∷ m) k =
    let rest = count m k in if bytes_eq j k then (j, n + 1) ∷ m else (j, n) ∷ rest

-- `rec.D = d`
unfoldable pub set_diff : (ℕ → Option DiffStats) → ℕ → DiffStats → ℕ → Option DiffStats
set_diff diffs place d n = if n == place then some d else diffs n

-- `a + b` and `a - b` on ints
abbrev pub int_add : ℕ → ℕ → ℕ
int_add a b = (a + b) % 2 ^ 64

abbrev pub int_sub : ℕ → ℕ → ℕ
int_sub a b = (a + (2 ^ 64 - b % 2 ^ 64)) % 2 ^ 64

abbrev pub is_identical : AnRequest → Bool
is_identical r = bytes_eq r.failed failed_identical

unfoldable pub add_request : Tally → AnRequest → Tally
unfolding count
add_request t r = record t {
  next = t.next + 1;
  requests = (r.id, record { place = t.next; asked = r }) ∷ t.requests;
  counts = count t.counts r.failed;
  actual = if is_identical r then t.actual else int_add t.actual r.file_size;
}

-- A delta of a request that is known, or of none.
unfoldable pub add_delta : Tally → Bytes → Option Entry → DiffStats → Tally
unfolding set_diff
add_delta t id none d = record t { missing = t.missing ++ id ∷ [] }
add_delta t id (some e) d = record t {
  diffed = t.diffed ++ e ∷ [];
  diffs = set_diff t.diffs e.place d;
  actual = int_add (int_sub t.actual e.asked.file_size) d.diff_size;
}

unfoldable pub add_record : Tally → AnRecord → Tally
unfolding add_request add_delta lookup
add_record t (request_record r) = add_request t r
add_record t (delta_record id d) = add_delta t id (lookup t.requests id) d
add_record t neither = t

unfoldable pub analyze_log : Tally → List AnRecord → Tally
unfolding add_record
analyze_log t [] = t
analyze_log t (rec ∷ recs) = analyze_log (add_record t rec) recs

-- The total of `fmap`.
unfoldable pub total_requests : List (Bytes × ℕ) → ℕ
total_requests [] = 0
total_requests ((k, n) ∷ m) = n + total_requests m
