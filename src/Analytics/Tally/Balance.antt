-- ===== src/Analytics/Tally/Balance.antt =====
-- The totals of a log: every request is counted once, and the bytes downloaded balance.
use nix_sandwich.Prelude.{
  ℕ, ◌+◌, ◌%◌, ◌^◌, ◌≡◌, refl, arith, Bool, true, false, ◌||◌, Bool-cases, inl, inr, Option, none,
  some, List, [], ◌∷◌, ◌++◌, Bytes, bytes_eq, if◌then◌else◌,
}
use nix_sandwich.Algo.Stats.{DiffStats}
use nix_sandwich.Subst.Types.{AnRequest}
use nix_sandwich.Analytics.Records.{AnRecord, request_record, delta_record, neither}
use nix_sandwich.Analytics.Tally.{
  Entry, Tally, no_records, lookup, count, is_identical, add_request, add_delta, add_record,
  analyze_log, total_requests,
}

-- The requests of a log.
abbrev pub requests_of : List AnRecord → ℕ
requests_of [] = 0
requests_of (request_record r ∷ recs) = 1 + requests_of recs
requests_of (delta_record id d ∷ recs) = requests_of recs
requests_of (neither ∷ recs) = requests_of recs

-- The sizes of the files that were asked for and not identical.
abbrev pub asked_bytes : List AnRecord → ℕ
asked_bytes [] = 0
asked_bytes (request_record r ∷ recs) =
    (if is_identical r then 0 else r.file_size) + asked_bytes recs
asked_bytes (delta_record id d ∷ recs) = asked_bytes recs
asked_bytes (neither ∷ recs) = asked_bytes recs

abbrev pub is_in : Bytes → List Bytes → Bool
is_in x [] = false
is_in x (y ∷ ys) = bytes_eq y x || is_in x ys

pub is_in-cons :
    (id x : Bytes) (seen : List Bytes) → is_in x seen ≡ true → is_in x (id ∷ seen) ≡ true
is_in-cons id x seen h = elim (Bool-cases (bytes_eq id x)) [
  | inl same ↦ rw same
  | inr other ↦ rw (other, h)
]

-- The sizes of the deltas of a log, of the ids that are seen before them.
abbrev pub delta_bytes : List Bytes → List AnRecord → ℕ
delta_bytes seen [] = 0
delta_bytes seen (request_record r ∷ recs) = delta_bytes (r.id ∷ seen) recs
delta_bytes seen (delta_record id d ∷ recs) =
    (if is_in id seen then d.diff_size else 0) + delta_bytes seen recs
delta_bytes seen (neither ∷ recs) = delta_bytes seen recs

abbrev pub file_bytes : List Entry → ℕ
file_bytes [] = 0
file_bytes (e ∷ es) = e.asked.file_size + file_bytes es

abbrev pub ids : List (Bytes × Entry) → List Bytes
ids [] = []
ids ((k, e) ∷ m) = k ∷ ids m

file_bytes-append :
    (es : List Entry) (e : Entry) → file_bytes (es ++ e ∷ []) ≡ file_bytes es + e.asked.file_size
file_bytes-append [] e = omega arith
file_bytes-append (q ∷ es) e = omega (arith, file_bytes-append es e)

-- An id is seen exactly if it has an entry.
pub data Looked (m : List (Bytes × Entry)) (id : Bytes) : Type 0 where
  unseen : lookup m id ≡ none → is_in id (ids m) ≡ false → Looked m id
  seen_as : (e : Entry) → lookup m id ≡ some e → is_in id (ids m) ≡ true → Looked m id

pub look : (m : List (Bytes × Entry)) (id : Bytes) → Looked m id
unfolding lookup
look [] id = unseen refl refl
look ((k, e) ∷ m) id = elim (Bool-cases (bytes_eq k id)) [
  | inl here ↦ seen_as e (rw (here, lookup)) (rw here)
  | inr there ↦ elim (look m id) [
    | unseen h g ↦ unseen (rw (there, lookup, h)) (rw (there, g))
    | seen_as f h g ↦ seen_as f (rw (there, lookup, h)) (rw (there, g))
  ]
]

total_requests-count :
    (m : List (Bytes × ℕ)) (k : Bytes) → total_requests (count m k) ≡ total_requests m + 1
unfolding count total_requests
total_requests-count [] k = refl
total_requests-count ((j, n) ∷ m) k = ground (arith, total_requests-count m k)

add_delta-counts :
    (t : Tally) (id : Bytes) (o : Option Entry) (d : DiffStats)
    → total_requests (add_delta t id o d).counts ≡ total_requests t.counts
unfolding add_delta
add_delta-counts t id none d = refl
add_delta-counts t id (some e) d = refl

add_delta-requests :
    (t : Tally) (id : Bytes) (o : Option Entry) (d : DiffStats)
    → (add_delta t id o d).requests ≡ t.requests
unfolding add_delta
add_delta-requests t id none d = refl
add_delta-requests t id (some e) d = refl

pub total_requests-analyze_log :
    (t : Tally) (recs : List AnRecord)
    → total_requests (analyze_log t recs).counts ≡ total_requests t.counts + requests_of recs
unfolding analyze_log add_record add_request
total_requests-analyze_log t [] = omega arith
total_requests-analyze_log t (request_record r ∷ recs) = omega (
  arith,
  total_requests-analyze_log (add_request t r) recs,
  total_requests-count t.counts r.failed,
)
total_requests-analyze_log t (delta_record id d ∷ recs) = omega (
  arith,
  total_requests-analyze_log (add_delta t id (lookup t.requests id) d) recs,
  add_delta-counts t id (lookup t.requests id) d,
)
total_requests-analyze_log t (neither ∷ recs) = total_requests-analyze_log t recs

-- What was downloaded, with the files that deltas stood for, is what was asked for, with the deltas.
abbrev pub IsBalanced : Tally → ℕ → Type 0
IsBalanced t expected = (t.actual + file_bytes t.diffed) % 2 ^ 64 ≡ expected % 2 ^ 64

add_request-IsBalanced :
    (t : Tally) (r : AnRequest) (n : ℕ)
    → IsBalanced t n
    → IsBalanced (add_request t r) (n + (if is_identical r then 0 else r.file_size))
unfolding add_request
add_request-IsBalanced t r n h = elim (Bool-cases (is_identical r)) [
  | inl same ↦ rw same (omega arith)
  | inr other ↦ rw other (omega arith)
]

add_delta-IsBalanced :
    (t : Tally) (id : Bytes) (d : DiffStats) (n : ℕ)
    → IsBalanced t n
    → IsBalanced
        (add_delta t id (lookup t.requests id) d)
        (n + (if is_in id (ids t.requests) then d.diff_size else 0))
unfolding add_delta
add_delta-IsBalanced t id d n h = elim (look t.requests id) [
  | unseen e g ↦ rw (e, g, add_delta) (omega arith)
  | seen_as entry e g ↦ rw (e, g, add_delta) (omega (arith, file_bytes-append t.diffed entry))
]

analyze_log-IsBalanced :
    (t : Tally) (recs : List AnRecord) (n : ℕ)
    → IsBalanced t n
    → IsBalanced (analyze_log t recs) (n + (asked_bytes recs + delta_bytes (ids t.requests) recs))
unfolding analyze_log add_record add_request
analyze_log-IsBalanced t [] n h = omega arith
analyze_log-IsBalanced t (request_record r ∷ recs) n h =
    let next =
      analyze_log-IsBalanced (add_request t r) recs
        (n + (if is_identical r then 0 else r.file_size)) (add_request-IsBalanced t r n h) in
    omega arith
analyze_log-IsBalanced t (delta_record id d ∷ recs) n h =
    let next =
      analyze_log-IsBalanced (add_delta t id (lookup t.requests id) d) recs
        (n + (if is_in id (ids t.requests) then d.diff_size else 0))
        (add_delta-IsBalanced t id d n h) in
    let moved = rw (add_delta-requests t id (lookup t.requests id) d) at next in omega arith
analyze_log-IsBalanced t (neither ∷ recs) n h = analyze_log-IsBalanced t recs n h

-- The counts of a log add up to its requests; and modulo 2 ^ 64, the bytes downloaded and the sizes of
-- the files that got a delta are together those of the files that were asked for and not identical, and
-- of the deltas with the id of an earlier request.
pub analyze_log-balance :
    (recs : List AnRecord)
    → (total_requests (analyze_log no_records recs).counts ≡ requests_of recs)
      × IsBalanced (analyze_log no_records recs) (asked_bytes recs + delta_bytes [] recs)
unfolding total_requests
analyze_log-balance recs =
    let counted = total_requests-analyze_log no_records recs in
    let balanced = analyze_log-IsBalanced no_records recs 0 refl in (omega arith, omega arith)
