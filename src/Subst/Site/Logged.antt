-- ===== src/Subst/Site/Logged.antt =====
-- A substituter logs the request of a recent before the deltas that it makes for it.
use nix_sandwich.Prelude.{
  ◌≡◌, refl, Bool, true, false, ◌||◌, Bool-cases, inl, inr, Option, none, some, Option-cases, List,
  [], ◌∷◌, Bytes, codes, bytes_eq, bytes_eq→eq, bytes_eq_refl, not, has_suffix, ne_of_bytes_eq,
  Outcome, ok, err, panic, ◌==◌,
}
use nix_sandwich.Prelude.Paths.{path_split}
use nix_sandwich.External.NarInfo.{NarInfo}
use nix_sandwich.Subst.Types.{Recent, Response, unreachable, replied, Refusal}
use nix_sandwich.Analytics.Records.{AnRecord}
use nix_sandwich.Analytics.Tally.Balance.{is_in, is_in-cons}
use nix_sandwich.Subst.Recents.{put_recent, get_recent, find_nar}
use nix_sandwich.Subst.NarInfos.{
  is_not_found, served_record, recent_of, Handled, get_nar_info_common,
}
use nix_sandwich.Subst.NarInfos.Answered.{
  Answered, crashed, refused, served, get_nar_info_common-Answered,
}
use nix_sandwich.Subst.Nars.{Served, delta_records, get_found, get_nar}
use nix_sandwich.Subst.Site.{
  Route, cache_info, log, nar, nar_info, route, match_info, Request, Body, Site, info_answer,
  nar_answer, get_matched, get_nar_info, handle, serve,
}
use nix_sandwich.Subst.Site.Run.{
  Visit, visited, run, seen_after, IsAnnounced, IsAnnounced-append, requests-IsAnnounced,
  is_in-after,
}

module _ {S : Type 0} (site : Site S) where
  open site use {lru}

  -- Every recent has its request in the log.
  abbrev pub IsRemembered : List Bytes → lru.Cache → Type 0
  IsRemembered seen recents =
      (k : Bytes) (r : Recent) → lru.get recents k ≡ some r → is_in r.id seen ≡ true

  -- What a request logs is announced, and its recents are.
  abbrev pub IsKept : List Bytes → Outcome Refusal Body × List AnRecord × lru.Cache × S → Type 0
  IsKept seen a = IsAnnounced seen a.1 × IsRemembered (seen_after seen a.1) a.2

  put_recent-IsRemembered :
      (seen : List Bytes) (recents : lru.Cache) (name : Bytes) (r : Recent)
      → IsRemembered seen recents
      → IsRemembered (r.id ∷ seen) (put_recent lru recents name r)
  unfolding put_recent
  put_recent-IsRemembered seen recents name r h k found e = elim (Bool-cases (bytes_eq k name)) [
    | inl same ↦
        let at : lru.get (lru.add recents name r) name ≡ some found =
          rw (bytes_eq→eq k name same) at e in
        let self = lru.get-add_self recents name r in
        let one : found ≡ r = cc in rw (one, bytes_eq_refl r.id)
    | inr other ↦ elim (lru.get-add_other recents name k r (ne_of_bytes_eq k name other)) [
      | inl gone ↦ cc
      | inr old ↦ is_in-cons r.id found.id seen (h k found (rw old at e))
    ]
  ]

  module _ (seen : List Bytes) (recents : lru.Cache) (h : IsRemembered seen recents) where
    Answered-IsKept :
        (id hash : Bytes) (ni : NarInfo) (handled : Handled lru) (s : S)
        → Answered lru site.config id hash ni recents handled
        → IsKept seen (info_answer site (handled, s))
    unfolding served_record recent_of
    Answered-IsKept id hash ni _ s crashed = (tt, h)
    Answered-IsKept id hash ni _ s (refused status message b lg) =
        (requests-IsAnnounced seen lg, λ k r e. is_in-after r.id seen lg (h k r e))
    Answered-IsKept id hash ni _ s (served name hs base sizes b other) =
        (tt, put_recent-IsRemembered seen recents _ (recent_of site.config id ni name base) h)

    info_answer-IsKept :
        (id hash : Bytes) (head : Bool) (rsp : Response) (s : S)
        → IsKept seen (
            info_answer site (
              get_nar_info_common lru site.config site.find site.path_name id hash head rsp recents
                s))
    unfolding get_nar_info_common
    info_answer-IsKept id hash head unreachable s = (tt, h)
    info_answer-IsKept id hash head (replied code (some ni)) s =
        Answered-IsKept id hash ni _
          (get_nar_info_common lru site.config site.find site.path_name id hash head
            (replied code (some ni)) recents s).1
          (get_nar_info_common-Answered lru site.config id hash ni recents site.find site.path_name
            head code s)
    info_answer-IsKept id hash head (replied code none) s = elim (Bool-cases head) [
      | inl asked ↦ rw asked (tt, h)
      | inr whole ↦ elim (Bool-cases (is_not_found code)) [
        | inl missing ↦ rw (whole, missing) (tt, λ k r e. is_in-cons id r.id seen (h k r e))
        | inr found ↦ elim (Bool-cases (code == 200)) [
          | inl good ↦ rw (whole, found, good) (tt, h)
          | inr bad ↦ rw (whole, found, bad) (tt, h)
        ]
      ]
    ]

    -- What `find_nar` finds is remembered.
    abbrev IsFound : Outcome Refusal Recent × lru.Cache → Type 0
    IsFound a = IsRemembered seen a.1 × ((r : Recent) → a.0 ≡ ok r → is_in r.id seen ≡ true)

    touch-IsRemembered : (name : Bytes) → IsRemembered seen (lru.touch recents name)
    touch-IsRemembered name k r e = h k r (rw (lru.get-touch recents name k) at e)

    this_one :
        (name : Bytes) (found r : Recent)
        → lru.get recents name ≡ some found
        → ◌≡◌ {A = Outcome Refusal Recent} (ok found) (ok r)
        → is_in r.id seen ≡ true
    this_one name found r hit e = let same : lru.get recents name ≡ some r = cc in h name r same

    find_nar-IsFound : (method path : Bytes) → IsFound (find_nar lru recents method path)
    unfolding find_nar get_recent
    find_nar-IsFound method path =
        let (dir, name) = path_split path in
        elim (Bool-cases (bytes_eq method (codes "GET"))) [
          | inr other ↦ rw other (h, λ r e. cc)
          | inl get ↦
              elim (Bool-cases
                (not (bytes_eq dir (codes "/nar/")) || not (has_suffix name (codes ".nar")))) [
                  | inl wrong ↦ rw (get, wrong) (h, λ r e. cc)
                  | inr right ↦ elim (Option-cases (lru.get recents name)) [
                    | inl missing ↦ rw (get, right, missing) (touch-IsRemembered name, λ r e. cc)
                    | inr (found, hit) ↦
                        rw (get, right, hit)
                          (touch-IsRemembered name, λ r e. this_one name found r hit e)
                  ]
                ]
        ]

    delta-IsKept :
        (id : Bytes) (o : Outcome Refusal Served) (recents' : lru.Cache) (s : S)
        → is_in id seen ≡ true
        → IsRemembered seen recents'
        → IsKept seen (nar_answer site s (o, recents', delta_records id o))
    delta-IsKept id (ok made) recents' s e g = ((e, tt), g)
    delta-IsKept id (err r) recents' s e g = (tt, g)
    delta-IsKept id panic recents' s e g = (tt, g)

    get_found-IsKept :
        (granted : Bool) (found : Outcome Refusal Recent) (recents' : lru.Cache) (s : S)
        → IsFound (found, recents')
        → IsKept seen (
            nar_answer site s (
              (get_found site.expander site.send granted found).0,
              recents',
              (get_found site.expander site.send granted found).1,
            ))
    unfolding get_found
    get_found-IsKept granted (err r) recents' s (g, k) = (tt, g)
    get_found-IsKept granted panic recents' s (g, k) = (tt, g)
    get_found-IsKept false (ok r) recents' s (g, k) = (tt, g)
    get_found-IsKept true (ok r) recents' s (g, k) = delta-IsKept r.id _ recents' s (k r refl) g

    get_nar-IsKept :
        (granted : Bool) (method path : Bytes) (s : S)
        → IsKept seen
            (nar_answer site s (get_nar lru site.expander site.send granted recents method path))
    unfolding get_nar
    get_nar-IsKept granted method path s =
        get_found-IsKept granted _ _ s (find_nar-IsFound method path)

    get_matched-IsKept :
        (q : Request) (m : Option (Bytes × Bytes)) (s : S)
        → IsKept seen (get_matched site q m recents s)
    unfolding get_matched
    get_matched-IsKept q none s = (tt, h)
    get_matched-IsKept q (some (hash, type)) s = elim (Bool-cases (bytes_eq type (codes "ls"))) [
      | inl listing ↦ rw listing (tt, h)
      | inr narinfo ↦ elim (Bool-cases q.granted) [
        | inr full ↦ rw (narinfo, full) (tt, h)
        | inl slot ↦ rw (narinfo, slot) (info_answer-IsKept q.id hash _ _ s)
      ]
    ]

    get_nar_info-IsKept : (q : Request) (s : S) → IsKept seen (get_nar_info site q recents s)
    unfolding get_nar_info
    get_nar_info-IsKept q s =
        elim (Bool-cases (bytes_eq q.method (codes "GET") || bytes_eq q.method (codes "HEAD"))) [
          | inl known ↦ rw known (get_matched-IsKept q (match_info site.alphabet q.path) s)
          | inr other ↦ rw other (tt, h)
        ]

    handle-IsKept : (r : Route) (q : Request) (s : S) → IsKept seen (handle site r q recents s)
    unfolding handle
    handle-IsKept cache_info q s = (tt, h)
    handle-IsKept log q s = (tt, h)
    handle-IsKept nar q s = get_nar-IsKept q.granted q.method q.path s
    handle-IsKept nar_info q s = get_nar_info-IsKept q s

    pub serve-IsKept : (q : Request) (s : S) → IsKept seen (serve site q recents s)
    unfolding serve
    serve-IsKept q s = handle-IsKept (route q.path) q s

-- From recents whose requests are in the log, every delta that the requests log stands behind the
-- request with its id.
pub run-IsAnnounced :
    {S : Type 0} (site : Site S) (vs : List (Visit S)) (seen : List Bytes)
    (recents : site.lru.Cache)
    → IsRemembered site seen recents
    → IsAnnounced seen (run site vs recents)
unfolding run
run-IsAnnounced site [] seen recents h = tt
run-IsAnnounced site (v ∷ vs) seen recents h =
    let answer = serve (visited site v) v.request recents v.state in
    let (announced, remembered) = serve-IsKept (visited site v) seen recents h v.request v.state in
    IsAnnounced-append seen answer.1 _ announced
      (run-IsAnnounced site vs (seen_after seen answer.1) answer.2 remembered)
