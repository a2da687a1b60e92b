-- ===== src/Subst/Site/Run.antt =====
-- The log of a substituter over its requests, and the order of its records.
use nix_sandwich.Prelude.{◌≡◌, Bool, true, List, [], ◌∷◌, ◌++◌, Bytes}
use nix_sandwich.Subst.Types.{DifferRequest, AnRequest, Response}
use nix_sandwich.Analytics.Records.{
  AnRecord, request_record, delta_record, neither, request_records,
}
use nix_sandwich.Analytics.Tally.Balance.{is_in, is_in-cons}
use nix_sandwich.Subst.Nars.{Exchange}
use nix_sandwich.Subst.Site.{Request, Site, serve}

-- A request, with what it meets: the state of the catalog, upstream and the differ.
pub record Visit (S : Type 0) : Type 0 where
  pub request : Request
  pub state : S
  pub upstream : Bytes → Bool → Response
  pub send : DifferRequest → Exchange

abbrev pub visited : {S : Type 0} → Site S → Visit S → Site S
visited site v = record site { upstream = v.upstream; send = v.send }

-- The log of the requests, one after the other.
unfoldable pub run : {S : Type 0} (site : Site S) → List (Visit S) → site.lru.Cache → List AnRecord
unfolding serve
run site [] recents = []
run site (v ∷ vs) recents =
    let (answer, logged, recents', s) = serve (visited site v) v.request recents v.state in
    logged ++ run site vs recents'

-- The ids of the requests, those of a log in front.
abbrev pub seen_after : List Bytes → List AnRecord → List Bytes
seen_after seen [] = seen
seen_after seen (request_record r ∷ recs) = seen_after (r.id ∷ seen) recs
seen_after seen (delta_record id d ∷ recs) = seen_after seen recs
seen_after seen (neither ∷ recs) = seen_after seen recs

-- Every delta has the id of a request before it.
abbrev pub IsAnnounced : List Bytes → List AnRecord → Type 0
IsAnnounced seen [] = Unit
IsAnnounced seen (request_record r ∷ recs) = IsAnnounced (r.id ∷ seen) recs
IsAnnounced seen (delta_record id d ∷ recs) = (is_in id seen ≡ true) × IsAnnounced seen recs
IsAnnounced seen (neither ∷ recs) = IsAnnounced seen recs

pub IsAnnounced-append :
    (seen : List Bytes) (l m : List AnRecord)
    → IsAnnounced seen l
    → IsAnnounced (seen_after seen l) m
    → IsAnnounced seen (l ++ m)
IsAnnounced-append seen [] m h g = g
IsAnnounced-append seen (request_record r ∷ l) m h g = IsAnnounced-append (r.id ∷ seen) l m h g
IsAnnounced-append seen (delta_record id d ∷ l) m (here, h) g =
    (here, IsAnnounced-append seen l m h g)
IsAnnounced-append seen (neither ∷ l) m h g = IsAnnounced-append seen l m h g

pub requests-IsAnnounced :
    (seen : List Bytes) (rs : List AnRequest) → IsAnnounced seen (request_records rs)
requests-IsAnnounced seen [] = tt
requests-IsAnnounced seen (r ∷ rs) = requests-IsAnnounced (r.id ∷ seen) rs

pub is_in-after :
    (x : Bytes) (seen : List Bytes) (rs : List AnRequest)
    → is_in x seen ≡ true
    → is_in x (seen_after seen (request_records rs)) ≡ true
is_in-after x seen [] h = h
is_in-after x seen (r ∷ rs) h = is_in-after x (r.id ∷ seen) rs (is_in-cons r.id x seen h)
