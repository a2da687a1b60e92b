-- ===== src/Subst/Site/Overlap.antt =====
-- Requests that overlap: what a request does with the recents is one step, and each record that it logs
-- is written later, behind whatever other requests do in between.
pub mod Asked
pub mod Known
use nix_sandwich.Prelude.{ℕ, zero, suc, Option, none, some, List, [], ◌∷◌, ◌++◌}
use nix_sandwich.Analytics.Records.{AnRecord}
use nix_sandwich.Subst.Site.{Site, serve}
use nix_sandwich.Subst.Site.Run.{Visit, visited}

-- A request comes in, or one of the records that are still to be written is.
pub data Move (S : Type 0) : Type 0 where
  arrives : Visit S → Move S
  writes : ℕ → Move S

-- One of a list, and the others.
abbrev pub with_first :
    AnRecord → Option (AnRecord × List AnRecord) → Option (AnRecord × List AnRecord)
with_first r none = none
with_first r (some (x, rest)) = some (x, r ∷ rest)

unfoldable pub pull : ℕ → List AnRecord → Option (AnRecord × List AnRecord)
pull n [] = none
pull zero (r ∷ rs) = some (r, rs)
pull (suc n) (r ∷ rs) = with_first r (pull n rs)

-- The recents, the records that are still to be written, and the log.
pub record Traffic (Cache : Type 0) : Type 0 where
  pub recents : Cache
  pub pending : List AnRecord
  pub written : List AnRecord

abbrev pub write_pulled :
    {Cache : Type 0} → Traffic Cache → Option (AnRecord × List AnRecord) → Traffic Cache
write_pulled t none = t
write_pulled t (some (r, rest)) = record t { pending = rest; written = t.written ++ r ∷ [] }

module _ {S : Type 0} (site : Site S) where
  open site use {lru}

  unfoldable pub move : Traffic lru.Cache → Move S → Traffic lru.Cache
  unfolding serve pull
  move t (arrives v) =
      let (answer, logged, recents', s) = serve (visited site v) v.request t.recents v.state in
      record { recents = recents'; pending = t.pending ++ logged; written = t.written }
  move t (writes n) = write_pulled t (pull n t.pending)

  unfoldable pub overlap : Traffic lru.Cache → List (Move S) → Traffic lru.Cache
  unfolding move
  overlap t [] = t
  overlap t (m ∷ ms) = overlap (move t m) ms

-- Nothing is logged yet.
abbrev pub quiet : {Cache : Type 0} → Cache → Traffic Cache
quiet recents = record { recents = recents; pending = []; written = [] }
