-- ===== src/Subst/Site/Analyzed.antt =====
-- The log of a substituter, as `analyzeLog` reads it.
use nix_sandwich.Prelude.{
  ℕ, ◌+◌, ◌≡◌, refl, sym, subst, arith, none, some, List, [], ◌∷◌, Bytes, length, length-append,
}
use nix_sandwich.Analytics.Records.{AnRecord, request_record, delta_record, neither}
use nix_sandwich.Analytics.Tally.{
  Tally, no_records, add_request, add_delta, add_record, analyze_log,
}
use nix_sandwich.Analytics.Tally.Balance.{ids, unseen, seen_as, look}
use nix_sandwich.Subst.Site.{Site}
use nix_sandwich.Subst.Site.Run.{Visit, run, IsAnnounced}
use nix_sandwich.Subst.Site.Logged.{run-IsAnnounced}

-- The deltas of a log.
abbrev pub deltas_of : List AnRecord → ℕ
deltas_of [] = 0
deltas_of (request_record r ∷ recs) = deltas_of recs
deltas_of (delta_record id d ∷ recs) = 1 + deltas_of recs
deltas_of (neither ∷ recs) = deltas_of recs

-- From the tally `t`, nothing is missing more, and `n` deltas are matched.
abbrev IsMatched : Tally → ℕ → Tally → Type 0
IsMatched t n t' = (t'.missing ≡ t.missing) × (length t'.diffed ≡ length t.diffed + n)

analyze_log-IsMatched :
    (t : Tally) (recs : List AnRecord)
    → IsAnnounced (ids t.requests) recs
    → IsMatched t (deltas_of recs) (analyze_log t recs)
unfolding analyze_log add_record add_request add_delta
analyze_log-IsMatched t [] h = (refl, omega arith)
analyze_log-IsMatched t (request_record r ∷ recs) h = analyze_log-IsMatched (add_request t r) recs h
analyze_log-IsMatched t (neither ∷ recs) h = analyze_log-IsMatched t recs h
analyze_log-IsMatched t (delta_record id d ∷ recs) (known, h) = elim (look t.requests id) [
  | unseen e g ↦ cc
  | seen_as entry e g ↦
      let (same, more) = analyze_log-IsMatched (add_delta t id (some entry) d) recs h in
      let longer = length-append t.diffed (entry ∷ []) in
      subst (λ o. IsMatched t (1 + deltas_of recs) (analyze_log (add_delta t id o d) recs)) (sym e)
        (same, omega (arith, more, longer))
]

-- Over any requests, one after the other, from an empty cache of recents, with whatever catalog,
-- upstream and differ, `analyzeLog` finds the request of every delta in the log.
pub run_log-matched :
    {S : Type 0} (site : Site S) (vs : List (Visit S)) (recents : site.lru.Cache)
    → ((k : Bytes) → site.lru.get recents k ≡ none)
    → ((analyze_log no_records (run site vs recents)).missing ≡ [])
      × (length (analyze_log no_records (run site vs recents)).diffed
          ≡ deltas_of (run site vs recents))
run_log-matched site vs recents empty =
    let announced = run-IsAnnounced site vs [] recents (λ k r e. let gone = empty k in cc) in
    let (nothing, matched) = analyze_log-IsMatched no_records (run site vs recents) announced in
    (nothing, omega (arith, matched))
