-- ===== src/Analytics/Report/Tidy.antt =====
-- The loop of `analyzeLog` over a log of one delta for an id: every record in `diffed` keeps its delta.
use nix_sandwich.Prelude.{
  ℕ, ◌+◌, ◌<◌, ◌≡◌, ◌≢◌, refl, sym, arith, true, false, Bool-cases, inl, inr, Option, none, some,
  List, [], ◌∷◌, ◌++◌, Bytes, bytes_eq, All, All-append, ◌==◌, bytes_eq_refl, bytes_eq→eq, subst,
  if◌then◌else◌,
}
use nix_sandwich.Algo.Stats.{DiffStats}
use nix_sandwich.Subst.Types.{AnRequest}
use nix_sandwich.Analytics.Records.{AnRecord, request_record, delta_record, neither}
use nix_sandwich.Analytics.Tally.{
  Entry, Tally, lookup, set_diff, add_request, add_delta, add_record, analyze_log, no_records,
}
use nix_sandwich.Analytics.Tally.Balance.{
  is_in, is_in-cons, delta_bytes, ids, unseen, seen_as, look,
}
use nix_sandwich.Analytics.Report.Stored.{stored_size, stored_bytes, IsFilled}

module _ {A : Type 0} {P Q : A → Type 0} (f : (a : A) → P a → Q a) where
  each_implies : (xs : List A) → All P xs → All Q xs
  each_implies [] h = tt
  each_implies (x ∷ xs) (p, h) = (f x p, each_implies xs h)

-- In the log behind `seen`, the deltas are not empty, and no two have the same id.
abbrev pub IsTidyLog : List Bytes → List AnRecord → Type 0
IsTidyLog seen [] = Unit
IsTidyLog seen (request_record r ∷ recs) = IsTidyLog seen recs
IsTidyLog seen (delta_record id d ∷ recs) =
    (is_in id seen ≡ false) × (0 < d.diff_size) × IsTidyLog (id ∷ seen) recs
IsTidyLog seen (neither ∷ recs) = IsTidyLog seen recs

-- The place of an entry is one that was given out, to a request whose id had a delta.
abbrev IsPlaced : (ℕ → Bytes) → List Bytes → ℕ → Entry → Type 0
IsPlaced id_at seen next e = (e.place < next) × (is_in (id_at e.place) seen ≡ true)

-- The entries stand for their ids, and those in `diffed` have their deltas.
pub record IsTidy (id_at : ℕ → Bytes) (seen : List Bytes) (t : Tally) : Type 0 where
  keyed :
      (id : Bytes) (e : Entry)
      → lookup t.requests id ≡ some e
      → (e.place < t.next) × (id_at e.place ≡ id)
  placed : All (IsPlaced id_at seen t.next) t.diffed
  filled : All (IsFilled t.diffs) t.diffed

abbrev place_id : (ℕ → Bytes) → ℕ → Bytes → ℕ → Bytes
place_id id_at next id n = if n == next then id else id_at n

place_id-old :
    (id_at : ℕ → Bytes) (next : ℕ) (id : Bytes) (n : ℕ)
    → n < next
    → place_id id_at next id n ≡ id_at n
place_id-old id_at next id n h = ground arith

add_request-keyed :
    (id_at : ℕ → Bytes) (seen : List Bytes) (t : Tally) (r : AnRequest)
    → IsTidy id_at seen t
    → (id : Bytes) (e : Entry) → lookup (add_request t r).requests id ≡ some e
    → (e.place < t.next + 1) × (place_id id_at t.next r.id e.place ≡ id)
unfolding add_request lookup
add_request-keyed id_at seen t r tidy id e h = elim (Bool-cases (bytes_eq r.id id)) [
  | inl same ↦
      let new : some (record { place = t.next; asked = r }) ≡ some e = rw same at h in
      let at_end : e.place ≡ t.next = cc in
      let named = bytes_eq→eq r.id id same in (omega arith, ground (arith, named))
  | inr other ↦
      let old = tidy.keyed id e (rw other at h) in
      (omega arith, rw (place_id-old id_at t.next r.id e.place old.0) old.1)
]

add_request-IsTidy :
    (id_at : ℕ → Bytes) (seen : List Bytes) (t : Tally) (r : AnRequest)
    → IsTidy id_at seen t
    → IsTidy (place_id id_at t.next r.id) seen (add_request t r)
unfolding add_request
add_request-IsTidy id_at seen t r tidy = record {
  keyed = add_request-keyed id_at seen t r tidy;
  placed =
      each_implies
        (λ e p. (omega (arith, p.0), rw (place_id-old id_at t.next r.id e.place p.0) p.1)) t.diffed
        tidy.placed;
  filled = tidy.filled;
}

set_diff-same :
    (diffs : ℕ → Option DiffStats) (n : ℕ) (d : DiffStats) → set_diff diffs n d n ≡ some d
unfolding set_diff
set_diff-same diffs n d = ground arith

set_diff-other :
    (diffs : ℕ → Option DiffStats) (n m : ℕ) (d : DiffStats)
    → m ≢ n
    → set_diff diffs n d m ≡ diffs m
unfolding set_diff
set_diff-other diffs n m d h = ground (arith, h)

stored_bytes-append :
    (diffs : ℕ → Option DiffStats) (es : List Entry) (e : Entry)
    → stored_bytes diffs (es ++ e ∷ []) ≡ stored_bytes diffs es + stored_size (diffs e.place)
stored_bytes-append diffs [] e = omega arith
stored_bytes-append diffs (q ∷ es) e = omega (arith, stored_bytes-append diffs es e)

-- A delta for a place that no record of a list has changes none of them.
stored_bytes-set :
    (diffs : ℕ → Option DiffStats) (n : ℕ) (d : DiffStats) (es : List Entry)
    → All (λ (e : Entry). e.place ≢ n) es
    → stored_bytes (set_diff diffs n d) es ≡ stored_bytes diffs es
stored_bytes-set diffs n d [] h = refl
stored_bytes-set diffs n d (e ∷ es) (h, hs) =
    rw (set_diff-other diffs n e.place d h, stored_bytes-set diffs n d es hs)

IsFilled-set :
    (diffs : ℕ → Option DiffStats) (n : ℕ) (d : DiffStats) (es : List Entry)
    → All (λ (e : Entry). e.place ≢ n) es
    → All (IsFilled diffs) es
    → All (IsFilled (set_diff diffs n d)) es
IsFilled-set diffs n d [] h f = tt
IsFilled-set diffs n d (e ∷ es) (h, hs) ((d', at, size), fs) =
    ((d', rw (set_diff-other diffs n e.place d h) at, size), IsFilled-set diffs n d es hs fs)

module _ (id_at : ℕ → Bytes) (seen : List Bytes) (t : Tally) (id : Bytes) (d : DiffStats)
    (tidy : IsTidy id_at seen t) (size : 0 < d.diff_size) where
  still-IsPlaced : All (IsPlaced id_at (id ∷ seen) t.next) t.diffed
  still-IsPlaced =
      each_implies (λ e p. (p.0, is_in-cons id (id_at e.place) seen p.1)) t.diffed tidy.placed

  missed-IsTidy : IsTidy id_at (id ∷ seen) (add_delta t id none d)
  unfolding add_delta
  missed-IsTidy = record { keyed = tidy.keyed; placed = still-IsPlaced; filled = tidy.filled }

  module _ (e : Entry) (found : lookup t.requests id ≡ some e) (fresh : is_in id seen ≡ false) where
    apart_from : (f : Entry) → IsPlaced id_at seen t.next f → f.place ≢ e.place
    apart_from f p same =
        let at_e = tidy.keyed id e found in
        let there : is_in (id_at e.place) seen ≡ true = rw same at p.1 in
        let again : is_in id seen ≡ true = rw at_e.1 at there in cc

    apart : All (λ (f : Entry). f.place ≢ e.place) t.diffed
    apart = each_implies apart_from t.diffed tidy.placed

    found-IsTidy : IsTidy id_at (id ∷ seen) (add_delta t id (some e) d)
    unfolding add_delta
    found-IsTidy =
        let at_e = tidy.keyed id e found in
        record {
          keyed = tidy.keyed;
          placed =
              All-append _ t.diffed (e ∷ []) still-IsPlaced
                ((at_e.0, rw (at_e.1, bytes_eq_refl id)), tt);
          filled =
              All-append _ t.diffed (e ∷ [])
                (IsFilled-set t.diffs e.place d t.diffed apart tidy.filled)
                ((d, set_diff-same t.diffs e.place d, size), tt);
        }

    found-stored :
        stored_bytes (add_delta t id (some e) d).diffs (add_delta t id (some e) d).diffed
        ≡ stored_bytes t.diffs t.diffed + d.diff_size
    unfolding add_delta
    found-stored =
        let at_end = stored_bytes-append (set_diff t.diffs e.place d) t.diffed e in
        let before = stored_bytes-set t.diffs e.place d t.diffed apart in
        let self : stored_size (set_diff t.diffs e.place d e.place) ≡ d.diff_size =
          rw (set_diff-same t.diffs e.place d) in
        omega (arith, at_end, before, self)

-- Behind a log from `t`: the deltas of all entries are there, and their sizes add up.
abbrev pub IsSettled : Tally → ℕ → Type 0
IsSettled t n = All (IsFilled t.diffs) t.diffed × (stored_bytes t.diffs t.diffed ≡ n)

pub analyze_log-IsSettled :
    (id_at : ℕ → Bytes) (seen : List Bytes) (t : Tally) (recs : List AnRecord)
    → IsTidy id_at seen t
    → IsTidyLog seen recs
    → IsSettled
        (analyze_log t recs)
        (stored_bytes t.diffs t.diffed + delta_bytes (ids t.requests) recs)
unfolding analyze_log add_record add_request
analyze_log-IsSettled id_at seen t [] tidy h = (tidy.filled, omega arith)
analyze_log-IsSettled id_at seen t (request_record r ∷ recs) tidy h =
    analyze_log-IsSettled (place_id id_at t.next r.id) seen (add_request t r) recs
      (add_request-IsTidy id_at seen t r tidy) h
analyze_log-IsSettled id_at seen t (neither ∷ recs) tidy h =
    analyze_log-IsSettled id_at seen t recs tidy h
analyze_log-IsSettled id_at seen t (delta_record id d ∷ recs) tidy (fresh, size, h) =
    let expected =
      stored_bytes t.diffs t.diffed + delta_bytes (ids t.requests) (delta_record id d ∷ recs) in
    elim (look t.requests id) [
      | unseen e g ↦
          let (all_there, total) =
            analyze_log-IsSettled id_at (id ∷ seen) (add_delta t id none d) recs
              (missed-IsTidy id_at seen t id d tidy size) h in
          subst (λ o. IsSettled (analyze_log (add_delta t id o d) recs) expected) (sym e)
            (all_there, rw g (omega (arith, total)))
      | seen_as entry e g ↦
          let (all_there, total) =
            analyze_log-IsSettled id_at (id ∷ seen) (add_delta t id (some entry) d) recs
              (found-IsTidy id_at seen t id d tidy size entry e fresh) h in
          let more = found-stored id_at seen t id d tidy size entry e fresh in
          subst (λ o. IsSettled (analyze_log (add_delta t id o d) recs) expected) (sym e)
            (all_there, rw g (omega (arith, total, more)))
    ]

pub no_records-IsTidy : IsTidy (λ n. []) [] no_records
unfolding lookup
no_records-IsTidy = record { keyed = λ id e h. cc; placed = tt; filled = tt }
