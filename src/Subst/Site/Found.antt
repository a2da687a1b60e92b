-- ===== src/Subst/Site/Found.antt =====
-- The requests of Nix for a path: the narinfo, and then the nar that it announces.
use nix_sandwich.Prelude.{
  subst, ◌∙◌, ◌≡◌, ◌≢◌, refl, sym, ap, Bool, true, ◌||◌, Bool-cases, inl, inr, Option, none, some,
  List, [], ◌∷◌, ◌++◌, Bytes, codes, bytes_eq, trim_prefix, Outcome, ok, err, panic, ◌==◌,
}
use nix_sandwich.Prelude.Paths.{IsPlain}
use nix_sandwich.External.NarInfo.{NarInfo}
use nix_sandwich.Catalog.FindBase.{CatalogResult}
use nix_sandwich.Subst.Types.{
  DifferRequest, Recent, AnRequest, Response, unreachable, replied, Refusal,
}
use nix_sandwich.Analytics.Records.{AnRecord, request_record}
use nix_sandwich.Subst.Recents.{find_nar}
use nix_sandwich.Subst.NarInfos.{
  nar_url, rewritten, served_record, recent_of, is_not_found, Handled, get_nar_info_common,
}
use nix_sandwich.Subst.NarInfos.Answered.{
  Answered, crashed, refused, served, get_nar_info_common-Answered,
}
use nix_sandwich.Subst.NarInfos.Found.{Answered-found}
use nix_sandwich.Subst.Nars.{Served, get_nar_common, delta_records, get_found, get_nar}
use nix_sandwich.Subst.Site.{
  Route, cache_info, log, nar, nar_info, route, match_info, info, Request, get_cache_info, get_log,
  nar_body, Site, info_answer, get_matched, get_nar_info, handle, serve,
}

module _ {S : Type 0} (site : Site S) where
  open site use {lru}

  -- The recent that a narinfo was remembered with: it was logged, and the url of the narinfo finds it.
  pub record Remembered (ni : NarInfo) (logged : List AnRecord) (recents : lru.Cache) : Type 0 where
    pub recent : Recent
    pub entry : AnRequest
    pub in_log : logged ≡ request_record entry ∷ []
    pub with_request : entry.differ_request ≡ some recent.request
    pub same_id : recent.id ≡ entry.id
    pub rest : Bytes
    pub under_nar : ni.url ≡ codes "nar/" ++ rest
    pub found : (find_nar lru recents (codes "GET") (b'/' ∷ ni.url)).0 ≡ ok recent

  remembered :
      (id : Bytes) (ni : NarInfo) (name : Bytes) (base : CatalogResult) (recents : lru.Cache)
      → (find_nar lru recents (codes "GET") (b'/' ∷ (rewritten ni).url)).0
        ≡ ok (recent_of site.config id ni name base)
      → Remembered
          (rewritten ni)
          (request_record (served_record id ni base (recent_of site.config id ni name base)) ∷ [])
          recents
  unfolding served_record rewritten nar_url recent_of
  remembered id ni name base recents h = record {
    recent = recent_of site.config id ni name base;
    entry = served_record id ni base (recent_of site.config id ni name base);
    in_log = refl;
    with_request = refl;
    same_id = refl;
    rest = trim_prefix ni.nar_hash (codes "sha256:") ++ codes ".nar";
    under_nar = refl;
    found = h;
  }

  moved :
      (n n' : NarInfo) (l l' : List AnRecord) (c c' : lru.Cache)
      → n ≡ n'
      → l ≡ l'
      → c ≡ c'
      → Remembered n l c
      → Remembered n' l' c'
  moved n n' l l' c c' e f g h =
      subst (λ x. Remembered n' l' x) g
        (subst (λ x. Remembered n' x c) f (subst (λ x. Remembered x l c) e h))

  Answered-Remembered :
      (id hash : Bytes) (ni ni' : NarInfo) (recents recents' : lru.Cache) (h : Handled lru)
      (s s' : S) (logged : List AnRecord)
      → Answered lru site.config id hash ni recents h
      → info_answer site (h, s) ≡ (ok (info ni'), logged, recents', s')
      → IsPlain (trim_prefix ni'.nar_hash (codes "sha256:"))
      → Remembered ni' logged recents'
  unfolding rewritten
  Answered-Remembered id hash ni ni' recents recents' _ s s' logged crashed e plain =
      cc (ap (λ a. a.0) e)
  Answered-Remembered id hash ni ni' recents recents' _ s s' logged (refused status message b lg) e
        plain =
      cc (ap (λ a. a.0) e)
  Answered-Remembered id hash ni ni' recents recents' _ s s' logged
        (served name h base sizes b other) e plain =
      let r = recent_of site.config id ni name base in
      let sent = ap (λ a. a.0) e in
      let same : rewritten ni ≡ ni' = cc in
      let plain_old =
        subst (λ (n : NarInfo). IsPlain (trim_prefix n.nar_hash (codes "sha256:"))) (sym same)
          plain in
      let kept = remembered id ni name base _ (
        Answered-found lru site.config id hash ni recents r (rewritten ni) _ _
          (served name h base sizes b other) plain_old) in
      moved _ ni' _ logged _ recents' same (ap (λ a. a.1) e) (ap (λ a. a.2) e) kept

  -- Whatever upstream answered.
  info_answer-Remembered :
      (id hash : Bytes) (head : Bool) (rsp : Response) (ni' : NarInfo)
      (recents recents' : lru.Cache) (s s' : S) (logged : List AnRecord)
      → info_answer site
          (get_nar_info_common lru site.config site.find site.path_name id hash head rsp recents s)
        ≡ (ok (info ni'), logged, recents', s')
      → IsPlain (trim_prefix ni'.nar_hash (codes "sha256:"))
      → Remembered ni' logged recents'
  unfolding get_nar_info_common
  info_answer-Remembered id hash head unreachable ni' recents recents' s s' logged e plain =
      cc (ap (λ a. a.0) e)
  info_answer-Remembered id hash head (replied code (some ni)) ni' recents recents' s s' logged e
        plain =
      Answered-Remembered id hash ni ni' recents recents' _ _ s' logged
        (get_nar_info_common-Answered lru site.config id hash ni recents site.find site.path_name
          head code s)
        e plain
  info_answer-Remembered id hash head (replied code none) ni' recents recents' s s' logged e plain =
      elim (Bool-cases head) [
        | inl asked ↦ cc (ap (λ a. a.0) (rw asked at e))
        | inr whole ↦ elim (Bool-cases (is_not_found code)) [
          | inl missing ↦ cc (ap (λ a. a.0) (rw (whole, missing) at e))
          | inr found ↦ elim (Bool-cases (code == 200)) [
            | inl good ↦ cc (ap (λ a. a.0) (rw (whole, found, good) at e))
            | inr bad ↦ cc (ap (λ a. a.0) (rw (whole, found, bad) at e))
          ]
        ]
      ]

  nar_body-ne : (o : Outcome Refusal Served) (ni : NarInfo) → nar_body o ≢ ok (info ni)
  nar_body-ne (ok v) ni h = cc
  nar_body-ne (err r) ni h = cc
  nar_body-ne panic ni h = cc

  get_cache_info-ne : (method : Bytes) (ni : NarInfo) → get_cache_info method ≢ ok (info ni)
  unfolding get_cache_info
  get_cache_info-ne method ni h = elim (Bool-cases (bytes_eq method (codes "GET"))) [
    | inl get ↦ cc (rw get at h)
    | inr other ↦ cc (rw other at h)
  ]

  get_log-ne : (ni : NarInfo) → get_log ≢ ok (info ni)
  unfolding get_log
  get_log-ne ni h = cc

  module _ (q : Request) (ni : NarInfo) (recents recents' : lru.Cache) (s s' : S)
      (logged : List AnRecord) (plain : IsPlain (trim_prefix ni.nar_hash (codes "sha256:"))) where
    get_matched-Remembered :
        (m : Option (Bytes × Bytes))
        → get_matched site q m recents s ≡ (ok (info ni), logged, recents', s')
        → Remembered ni logged recents'
    unfolding get_matched
    get_matched-Remembered none h = cc (ap (λ a. a.0) h)
    get_matched-Remembered (some (hash, type)) h = elim (Bool-cases (bytes_eq type (codes "ls"))) [
      | inl listing ↦ cc (ap (λ a. a.0) (rw listing at h))
      | inr narinfo ↦ elim (Bool-cases q.granted) [
        | inr full ↦ cc (ap (λ a. a.0) (rw (narinfo, full) at h))
        | inl slot ↦
            info_answer-Remembered q.id hash _ _ ni recents recents' s s' logged
              (rw (narinfo, slot) at h) plain
      ]
    ]

    get_nar_info-Remembered :
        get_nar_info site q recents s ≡ (ok (info ni), logged, recents', s')
        → Remembered ni logged recents'
    unfolding get_nar_info
    get_nar_info-Remembered h =
        elim (Bool-cases (bytes_eq q.method (codes "GET") || bytes_eq q.method (codes "HEAD"))) [
          | inl known ↦ get_matched-Remembered (match_info site.alphabet q.path) (rw known at h)
          | inr other ↦ cc (ap (λ a. a.0) (rw other at h))
        ]

    handle-Remembered :
        (r : Route)
        → handle site r q recents s ≡ (ok (info ni), logged, recents', s')
        → Remembered ni logged recents'
    unfolding handle
    handle-Remembered cache_info h = absurd (get_cache_info-ne q.method ni (ap (λ a. a.0) h))
    handle-Remembered log h = absurd (get_log-ne ni (ap (λ a. a.0) h))
    handle-Remembered nar h = absurd (nar_body-ne _ ni (ap (λ a. a.0) h))
    handle-Remembered nar_info h = get_nar_info-Remembered h

  pub route-nar : (rest : Bytes) → route (b'/' ∷ (codes "nar/" ++ rest)) ≡ nar
  unfolding route
  route-nar rest = refl

  get_nar-found :
      (q : Request) (recents : lru.Cache) (r : Recent)
      → (find_nar lru recents q.method q.path).0 ≡ ok r
      → q.granted ≡ true
      → let o = get_nar_common site.expander r.request (site.send r.request) in
        let answer = get_nar lru site.expander site.send q.granted recents q.method q.path in
        (answer.0 ≡ o) × (answer.2 ≡ delta_records r.id o)
  unfolding get_nar get_found
  get_nar-found q recents r h slot = (rw (h, get_found, slot), rw (h, get_found, slot))

  -- After a narinfo was served, a request for the nar at its url, which the semaphore lets in, is answered
  -- by way of the differ with exactly the request that was logged, and if that succeeds, its
  -- statistics are logged under the id of that request, if the hash of the nar has no slash.
  pub announced_nar_served :
      (q q' : Request) (ni : NarInfo) (recents recents' : lru.Cache) (s s' t : S)
      (logged : List AnRecord)
      → serve site q recents s ≡ (ok (info ni), logged, recents', s')
      → IsPlain (trim_prefix ni.nar_hash (codes "sha256:"))
      → q'.method ≡ codes "GET"
      → q'.path ≡ b'/' ∷ ni.url
      → q'.granted ≡ true
      → (entry : AnRequest) × (req : DifferRequest) × (logged ≡ request_record entry ∷ [])
        × (entry.differ_request ≡ some req)
        × ((serve site q' recents' t).0
            ≡ nar_body (get_nar_common site.expander req (site.send req)))
        × ((serve site q' recents' t).1
            ≡ delta_records entry.id (get_nar_common site.expander req (site.send req)))
  unfolding serve handle
  announced_nar_served q q' ni recents recents' s s' t logged h plain get at slot =
      let kept = handle-Remembered q ni recents recents' s s' logged plain (route q.path) h in
      let to_nar : route q'.path ≡ nar = rw (at, kept.under_nar) (route-nar kept.rest) in
      let found : (find_nar lru recents' q'.method q'.path).0 ≡ ok kept.recent =
        rw (get, at) kept.found in
      let (made, logged_nar) = get_nar-found q' recents' kept.recent found slot in
      let o = get_nar_common site.expander kept.recent.request (site.send kept.recent.request) in
      (
        kept.entry,
        kept.recent.request,
        kept.in_log,
        kept.with_request,
        rw (to_nar, handle) (ap nar_body made),
        rw (to_nar, handle) (logged_nar ∙ ap (λ i. delta_records i o) kept.same_id),
      )
