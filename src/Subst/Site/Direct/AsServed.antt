-- ===== src/Subst/Site/Direct/AsServed.antt =====
-- `request` does what the two handlers do together.
use nix_sandwich.Prelude.{
  ℕ, subst, ◌≡◌, ◌≢◌, ◌∙◌, refl, sym, ap, Bool, true, false, Bool-cases, inl, inr, none, some, List,
  [], ◌∷◌, ◌++◌, All, Bytes, codes, bytes_eq, bytes_eq→eq, has_suffix-append, All-append,
  trim_prefix, Outcome, ok, err, panic, ◌==◌,
}
use nix_sandwich.Prelude.Paths.{IsPlain, has_slash-IsPlain, has_prefix-plain}
use nix_sandwich.External.NarInfo.{NarInfo}
use nix_sandwich.Algo.Stats.{DiffStats}
use nix_sandwich.Analytics.Records.{AnRecord, request_records}
use nix_sandwich.Subst.Types.{Recent, AnRequest, Response, unreachable, replied, Refusal}
use nix_sandwich.Subst.Recents.{find_nar}
use nix_sandwich.Subst.NarInfos.{nar_url, rewritten, Handled, get_nar_info_common, is_not_found}
use nix_sandwich.Subst.NarInfos.Answered.{Answered, served, get_nar_info_common-Answered}
use nix_sandwich.Subst.NarInfos.Found.{Answered-found}
use nix_sandwich.Subst.Nars.{Served, get_nar_common, delta_records, get_found, get_nar}
use nix_sandwich.Subst.Site.{
  nar, nar_info, route, info, nar_bytes, Body, text, Request, nar_body, Site, info_answer,
  get_matched, get_nar_info, handle, serve,
}
use nix_sandwich.Subst.Site.Pattern.{match_info_iff}
use nix_sandwich.Subst.Site.Found.{route-nar}
use nix_sandwich.Subst.Site.Direct.{
  nar_failed, RequestError, request_hash, nar_stats, request_nar, request,
}

-- The statistics that an answer of the handler of nars carries.
abbrev pub body_stats : Outcome Refusal Body → Outcome RequestError DiffStats
body_stats (ok (nar_bytes made)) = ok made.stats
body_stats (ok (text s)) = panic
body_stats (ok (info ni)) = panic
body_stats (err r) = err (nar_failed r)
body_stats panic = panic

nar_body-stats : (o : Outcome Refusal Served) → body_stats (nar_body o) ≡ nar_stats o
nar_body-stats (ok made) = refl
nar_body-stats (err r) = refl
nar_body-stats panic = refl

IsPlain-of_alphabet :
    (alphabet : ℕ → Bool) (s : Bytes)
    → alphabet b'/' ≡ false
    → All (λ c. alphabet c ≡ true) s
    → IsPlain s
IsPlain-of_alphabet alphabet [] slash h = tt
IsPlain-of_alphabet alphabet (c ∷ s) slash (h, hs) =
    (λ e. cc (rw e at h), IsPlain-of_alphabet alphabet s slash hs)

module _ {S : Type 0} (site : Site S) where
  open site use {lru}

  -- What a narinfo that was answered leads to: its recent is found under its url.
  pub record Found (r : Recent) (ni : NarInfo) (recents : lru.Cache) : Type 0 where
    pub rest : Bytes
    pub under_nar : ni.url ≡ codes "nar/" ++ rest
    pub found : (find_nar lru recents (codes "GET") (b'/' ∷ ni.url)).0 ≡ ok r

  Answered-Found :
      (id hash : Bytes) (ni ni' : NarInfo) (recents recents' : lru.Cache) (r : Recent)
      (logged : List AnRequest)
      → Answered lru site.config id hash ni recents (ok (r, ni'), recents', logged)
      → IsPlain (trim_prefix ni'.nar_hash (codes "sha256:"))
      → Found r ni' recents'
  unfolding rewritten nar_url
  Answered-Found id hash ni _ recents _ _ _ (served name h base sizes b other) plain = record {
    rest = trim_prefix ni.nar_hash (codes "sha256:") ++ codes ".nar";
    under_nar = refl;
    found =
        Answered-found lru site.config id hash ni recents _ _ _ _ (served name h base sizes b other)
          plain;
  }

  handled-Found :
      (id hash : Bytes) (head : Bool) (rsp : Response) (ni : NarInfo) (r : Recent)
      (recents recents' : lru.Cache) (s s' : S) (logged : List AnRequest)
      → get_nar_info_common lru site.config site.find site.path_name id hash head rsp recents s
        ≡ ((ok (r, ni), recents', logged), s')
      → IsPlain (trim_prefix ni.nar_hash (codes "sha256:"))
      → Found r ni recents'
  unfolding get_nar_info_common
  handled-Found id hash head unreachable ni r recents recents' s s' logged e plain =
      cc (ap (λ a. a.0.0) e)
  handled-Found id hash head (replied code (some up)) ni r recents recents' s s' logged e plain =
      let answered =
        get_nar_info_common-Answered lru site.config id hash up recents site.find site.path_name
          head code s in
      Answered-Found id hash up ni recents recents' r logged
        (subst (λ (a : Handled lru). Answered lru site.config id hash up recents a)
          (ap (λ a. a.0) e) answered)
        plain
  handled-Found id hash head (replied code none) ni r recents recents' s s' logged e plain =
      elim (Bool-cases head) [
        | inl asked ↦ cc (ap (λ a. a.0.0) (rw asked at e))
        | inr whole ↦ elim (Bool-cases (is_not_found code)) [
          | inl missing ↦ cc (ap (λ a. a.0.0) (rw (whole, missing) at e))
          | inr there ↦ elim (Bool-cases (code == 200)) [
            | inl good ↦ cc (ap (λ a. a.0.0) (rw (whole, there, good) at e))
            | inr bad ↦ cc (ap (λ a. a.0.0) (rw (whole, there, bad) at e))
          ]
        ]
      ]

  get_nar-Found :
      (q : Request) (recents : lru.Cache) (r : Recent)
      → (find_nar lru recents q.method q.path).0 ≡ ok r
      → q.granted ≡ true
      → let o = get_nar_common site.expander r.request (site.send r.request) in
        let answer = get_nar lru site.expander site.send q.granted recents q.method q.path in
        (answer.0 ≡ o) × (answer.2 ≡ delta_records r.id o)
  unfolding get_nar get_found
  get_nar-Found q recents r h slot = (rw (h, get_found, slot), rw (h, get_found, slot))

  serve-nar :
      (q : Request) (recents : lru.Cache) (t : S) (r : Recent) (ni : NarInfo)
      → Found r ni recents
      → q.method ≡ codes "GET"
      → q.path ≡ b'/' ∷ ni.url
      → q.granted ≡ true
      → let o = get_nar_common site.expander r.request (site.send r.request) in
        ((serve site q recents t).0 ≡ nar_body o)
        × ((serve site q recents t).1 ≡ delta_records r.id o)
  unfolding serve handle
  serve-nar q recents t r ni kept get at slot =
      let to_nar : route q.path ≡ nar = rw (at, kept.under_nar) (route-nar site kept.rest) in
      let found : (find_nar lru recents q.method q.path).0 ≡ ok r = rw (get, at) kept.found in
      let (made, logged) = get_nar-Found q recents r found slot in
      (rw (to_nar, handle) (ap nar_body made), rw (to_nar, handle) logged)

  -- A path of a narinfo leads to its handler.
  route-nar_info :
      (hash : Bytes) → IsPlain hash → route (b'/' ∷ (hash ++ codes ".narinfo")) ≡ nar_info
  unfolding route
  route-nar_info hash plain =
      let x = hash ++ codes ".narinfo" in
      let plain_x =
        All-append (λ c. c ≢ b'/') hash (codes ".narinfo") plain
          (has_slash-IsPlain (codes ".narinfo") refl) in
      let ends = has_suffix-append hash (codes ".narinfo") in
      elim (Bool-cases (bytes_eq x (codes "nix-cache-info"))) [
        | inl same ↦ cc (rw (bytes_eq→eq x (codes "nix-cache-info") same) at ends)
        | inr other ↦ rw (
          other,
          has_prefix-plain x (codes "log/") plain_x refl,
          has_prefix-plain x (codes "nar/") plain_x refl,
        )
      ]

  serve-info :
      (q : Request) (hash : Bytes) (recents : lru.Cache) (s : S)
      → hash ≢ []
      → All (λ c. site.alphabet c ≡ true) hash
      → site.alphabet b'.' ≡ false
      → site.alphabet b'/' ≡ false
      → q.method ≡ codes "GET"
      → q.path ≡ b'/' ∷ (hash ++ codes ".narinfo")
      → q.granted ≡ true
      → serve site q recents s
        ≡ info_answer site (
            get_nar_info_common lru site.config site.find site.path_name q.id hash false
              (site.upstream hash false)
              recents
              s)
  unfolding serve handle get_nar_info get_matched
  serve-info q hash recents s some_name named dot slash get at slot =
      let matched =
        (match_info_iff site.alphabet q.path hash (codes "narinfo") dot).1
          (record { spelled = at; in_alphabet = named; some_name = some_name; known = inl refl }) in
      let to_info : route q.path ≡ nar_info =
        rw at (route-nar_info hash (IsPlain-of_alphabet site.alphabet hash slash named)) in
      rw (to_info, handle, get, matched, get_matched, slot, get)

  -- What was handled where a narinfo was the answer.
  info_answer-ok :
      (handled : Handled lru × S) (s' : S) (ni : NarInfo) (logged : List AnRecord)
      (recents' : lru.Cache)
      → info_answer site handled ≡ (ok (info ni), logged, recents', s')
      → (r : Recent) × (rs : List AnRequest) × (handled ≡ ((ok (r, ni), recents', rs), s'))
        × (request_records rs ≡ logged)
  info_answer-ok ((ok (r, ni'), c, rs), s) s' ni logged recents' e =
      let sent = ap (λ a. a.0) e in
      let one : ni' ≡ ni = cc in
      let two : c ≡ recents' = ap (λ a. a.2) e in
      let three : s ≡ s' = ap (λ a. a.3) e in (r, rs, cc, ap (λ a. a.1) e)
  info_answer-ok ((err r, c, rs), s) s' ni logged recents' e = cc (ap (λ a. a.0) e)
  info_answer-ok ((panic, c, rs), s) s' ni logged recents' e = cc (ap (λ a. a.0) e)

  -- Where the handlers serve a narinfo over HTTP, `request` for its hash gives what they give together:
  -- the statistics or the refusal of the request for the nar, the records of both, and the same
  -- recents, if the hash of the nar has no slash and the semaphores let both in.
  pub request-served :
      (q q' : Request) (req : Bytes) (ni : NarInfo) (recents recents' : lru.Cache) (s s' t : S)
      (logged : List AnRecord)
      → serve site q recents s ≡ (ok (info ni), logged, recents', s')
      → request_hash req ≢ []
      → All (λ c. site.alphabet c ≡ true) (request_hash req)
      → site.alphabet b'.' ≡ false
      → site.alphabet b'/' ≡ false
      → IsPlain (trim_prefix ni.nar_hash (codes "sha256:"))
      → q.method ≡ codes "GET"
      → q.path ≡ b'/' ∷ (request_hash req ++ codes ".narinfo")
      → q.granted ≡ true
      → q'.method ≡ codes "GET"
      → q'.path ≡ b'/' ∷ ni.url
      → q'.granted ≡ true
      → let answer = serve site q' recents' t in
        request site q.id req recents s ≡ (body_stats answer.0, logged ++ answer.1, recents', s')
  unfolding request request_nar
  request-served q q' req ni recents recents' s s' t logged h some_name named dot slash plain get at
        slot get' at' slot' =
      let direct =
        serve-info q (request_hash req) recents s some_name named dot slash get at slot in
      let (r, rs, handled, same) = info_answer-ok _ s' ni logged recents' (sym direct ∙ h) in
      let kept =
        handled-Found q.id (request_hash req) false (site.upstream (request_hash req) false) ni r
          recents recents' s s' rs handled plain in
      let (made, deltas) = serve-nar q' recents' t r ni kept get' at' slot' in
      let o = get_nar_common site.expander r.request (site.send r.request) in
      ap (request_nar site) handled ∙ rw (made, deltas, nar_body-stats o, same)
