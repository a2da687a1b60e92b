-- ===== src/Subst/Site/Overlap/Known.antt =====
-- The records of requests that overlap: the request of every delta is logged in the end.
use nix_sandwich.Prelude.{
  ℕ, ◌≡◌, ◌∙◌, refl, sym, ap, true, ◌||◌, Option, none, some, List, [], ◌∷◌, ◌++◌, append-nil,
  append_assoc, or_comm, or_false, or_into_left, Bytes, All, All-append,
}
use nix_sandwich.Subst.Types.{Recent}
use nix_sandwich.Analytics.Records.{AnRecord}
use nix_sandwich.Analytics.Tally.Balance.{is_in}
use nix_sandwich.Subst.Site.{Site, serve}
use nix_sandwich.Subst.Site.Run.{Visit, visited, seen_after}
use nix_sandwich.Subst.Site.Logged.{IsRemembered, serve-IsKept}
use nix_sandwich.Subst.Site.Overlap.{
  Move, arrives, writes, pull, Traffic, write_pulled, move, overlap, quiet,
}
use nix_sandwich.Subst.Site.Overlap.Asked.{
  asks, OfDelta, asks-append, is_in-seen_after, All-implies, announced-known, Pulled, pull-Pulled,
  asks-Pulled, All-Pulled, asks-more,
}

-- Every recent and every delta, written or not, has its request among the records, written or not.
record IsSound {S : Type 0} (site : Site S) (t : Traffic site.lru.Cache) : Type 0 where
  remembered :
      (k : Bytes) (r : Recent)
      → site.lru.get t.recents k ≡ some r
      → asks r.id (t.written ++ t.pending) ≡ true
  known_pending : All (OfDelta (λ id. asks id (t.written ++ t.pending))) t.pending
  known_written : All (OfDelta (λ id. asks id (t.written ++ t.pending))) t.written

module _ {S : Type 0} (site : Site S) (t : Traffic site.lru.Cache) (sound : IsSound site t) where
  abbrev records : List AnRecord
  records = t.written ++ t.pending

  -- The requests so far, as a list of ids.
  seen_records : (id : Bytes) → is_in id (seen_after [] records) ≡ asks id records
  seen_records id = is_in-seen_after id [] records ∙ or_false (asks id records)

  records-IsRemembered : IsRemembered site (seen_after [] records) t.recents
  records-IsRemembered k r e = rw (seen_records r.id) (sound.remembered k r e)

  module _ (l : List AnRecord) where
    seen_more :
        (id : Bytes)
        → is_in id (seen_after (seen_after [] records) l) ≡ true
        → asks id (t.written ++ (t.pending ++ l)) ≡ true
    seen_more id h =
        let either = sym (is_in-seen_after id (seen_after [] records) l) ∙ h in
        let shuffled = or_comm (asks id l) (asks id records) in
        rw (asks-more id t.written t.pending l) (sym shuffled ∙ rw (seen_records id) at either)

    asks_before :
        (id : Bytes) → asks id records ≡ true → asks id (t.written ++ (t.pending ++ l)) ≡ true
    asks_before id h =
        rw (asks-more id t.written t.pending l) (or_into_left (asks id records) (asks id l) h)

  arrives-IsSound : (v : Visit S) → IsSound site (move site t (arrives v))
  unfolding move
  arrives-IsSound v =
      let answer = serve (visited site v) v.request t.recents v.state in
      let seen = seen_after [] records in
      let (announced, kept) =
        serve-IsKept (visited site v) seen t.recents records-IsRemembered v.request v.state in
      let still =
        All-implies (λ id. asks id records) (λ id. asks id (t.written ++ (t.pending ++ answer.1)))
          (asks_before answer.1) in
      record {
        remembered = λ k r e. seen_more answer.1 r.id (kept k r e);
        known_pending = All-append _ t.pending answer.1 (still t.pending sound.known_pending) (
            All-implies (λ id. is_in id (seen_after seen answer.1))
              (λ id. asks id (t.written ++ (t.pending ++ answer.1))) (seen_more answer.1) answer.1
              (announced-known seen answer.1 announced));
        known_written = still t.written sound.known_written;
      }

  module _ (n : ℕ) where
    Pulled-same :
        (r : AnRecord) (rest : List AnRecord)
        → Pulled r t.pending rest
        → (id : Bytes) → asks id ((t.written ++ r ∷ []) ++ rest) ≡ asks id records
    Pulled-same r rest p id =
        ap (asks id) (append_assoc t.written (r ∷ []) rest)
        ∙ asks-append id t.written (r ∷ rest)
        ∙ ap (λ b. asks id t.written || b)
            (asks-append id (r ∷ []) rest ∙ sym (asks-Pulled r id t.pending rest p))
        ∙ sym (asks-append id t.written t.pending)

    write_pulled-IsSound :
        (o : Option (AnRecord × List AnRecord))
        → pull n t.pending ≡ o
        → IsSound site (write_pulled t o)
    write_pulled-IsSound none e = record {
      remembered = sound.remembered;
      known_pending = sound.known_pending;
      known_written = sound.known_written;
    }
    write_pulled-IsSound (some (r, rest)) e =
        let p = pull-Pulled r n t.pending rest e in
        let same = Pulled-same r rest p in
        let still =
          All-implies (λ id. asks id records) (λ id. asks id ((t.written ++ r ∷ []) ++ rest))
            (λ id h. same id ∙ h) in
        let (one, others) =
          All-Pulled r (OfDelta (λ id. asks id records)) t.pending rest p sound.known_pending in
        record {
          remembered = λ k x h. same x.id ∙ sound.remembered k x h;
          known_pending = still rest others;
          known_written =
              still (t.written ++ r ∷ [])
                (All-append _ t.written (r ∷ []) sound.known_written (one, tt));
        }

move-IsSound :
    {S : Type 0} (site : Site S) (t : Traffic site.lru.Cache) (m : Move S)
    → IsSound site t
    → IsSound site (move site t m)
unfolding move
move-IsSound site t (arrives v) sound = arrives-IsSound site t sound v
move-IsSound site t (writes n) sound = write_pulled-IsSound site t sound n (pull n t.pending) refl

overlap-IsSound :
    {S : Type 0} (site : Site S) (t : Traffic site.lru.Cache) (ms : List (Move S))
    → IsSound site t
    → IsSound site (overlap site t ms)
unfolding overlap
overlap-IsSound site t [] sound = sound
overlap-IsSound site t (m ∷ ms) sound =
    overlap-IsSound site (move site t m) ms (move-IsSound site t m sound)

-- From an empty cache of recents, however requests and the writes of their records overlap: once
-- nothing is left to be written, the log has the record of the request of every delta in it, before the
-- delta or behind it.
pub overlap-known :
    {S : Type 0} (site : Site S) (ms : List (Move S)) (recents : site.lru.Cache)
    → ((k : Bytes) → site.lru.get recents k ≡ none)
    → (overlap site (quiet recents) ms).pending ≡ []
    → All
        (OfDelta (λ id. asks id (overlap site (quiet recents) ms).written))
        (overlap site (quiet recents) ms).written
overlap-known site ms recents empty settled =
    let t = overlap site (quiet recents) ms in
    let sound = overlap-IsSound site (quiet recents) ms (record {
      remembered = λ k r e. let gone = empty k in cc;
      known_pending = tt;
      known_written = tt;
    }) in
    All-implies (λ id. asks id (t.written ++ t.pending)) (λ id. asks id t.written)
      (λ id h.
        ap (asks id) (sym (append-nil t.written) ∙ ap (λ l. t.written ++ l) (sym settled)) ∙ h)
      t.written sound.known_written
