-- ===== src/Transfer/Whole.antt =====
-- The whole program: the two requests of Nix for a path, with the differ behind the substituter.
use nix_sandwich.Prelude.{
  ◌≡◌, ◌∙◌, sym, ap, true, false, Option, none, some, List, [], ◌∷◌, Bytes, ℕ, not, refl, codes,
  trim_prefix, ◌==◌, if◌then◌else◌, ok,
}
use nix_sandwich.Prelude.Paths.{IsPlain}
use nix_sandwich.External.NarInfo.{NarInfo}
use nix_sandwich.External.System.{Files}
use nix_sandwich.Algo.Pick.{DiffAlgo}
use nix_sandwich.Subst.Types.{DifferRequest, AnRequest}
use nix_sandwich.Analytics.Records.{request_record, delta_record}
use nix_sandwich.Subst.Nars.{
  MediaType, get_boundary, Exchange, no_answer, answered, Served, get_nar_common, delta_records,
}
use nix_sandwich.Subst.Site.{info, nar_bytes, Request, nar_body, Site, serve}
use nix_sandwich.Subst.Site.Found.{announced_nar_served}
use nix_sandwich.Differ.Server.{Chances, Server, Answer, differ}
use nix_sandwich.Differ.Wire.{Part}
use nix_sandwich.Transfer.Setting.{Restores, AllGranted, Setting}
use nix_sandwich.Transfer.Received.{transfer}

-- What comes over HTTP from the handler of the differ: the status is 200 where it is 0 or parts had
-- been written; another status behind parts means that writing broke off; and a crash closes the
-- connection.
abbrev pub status_of : ℕ → List Part → ℕ
status_of status [] = if status == 0 then 200 else status
status_of status (p ∷ parts) = 200

abbrev pub http_of : MediaType → Option Answer → Exchange
http_of media none = no_answer
http_of media (some a) = answered (status_of a.status a.parts) media a.parts (not (a.status == 0))

http_of-fine :
    (media : MediaType) (a : Answer)
    → a.status ≡ 0
    → http_of media (some a) ≡ answered 200 media a.parts false
http_of-fine media a h = rw h (status_of-fine a.parts)
  where
    status_of-fine :
        (parts : List Part)
        → answered (status_of 0 parts) media a.parts false ≡ answered 200 media a.parts false
    status_of-fine [] = refl
    status_of-fine (p ∷ parts) = refl

module _ {S : Type 0} (site : Site S) (srv : Server) (ch : Chances) (req : DifferRequest)
    (algo : DiffAlgo) (fs : Files) (nar boundary : Bytes) (media : MediaType) where
  -- The substituter makes the nar of what the differ answers to its request.
  exchanged :
      site.send req ≡ http_of media (differ srv ch (codes "POST") (some req) fs).0
      → AllGranted ch
      → Setting srv site.expander req algo fs nar
      → Restores srv.tools site.expander.tools
      → get_boundary media ≡ some boundary
      → (served : Served) × (get_nar_common site.expander req (site.send req) ≡ ok served)
        × (served.body ≡ nar)
  exchanged wired all setting law bounded =
      let (answer, answers, fine, clean, served, made, same) =
        transfer srv site.expander ch req algo fs nar boundary media all setting law bounded in
      (
        served,
        ap (λ e. get_nar_common site.expander req e)
              (wired ∙ ap (λ a. http_of media a.0) answers ∙ http_of-fine media answer fine)
            ∙ made,
        same,
      )

  -- Nix gets the nar: after a narinfo was served for a path, a request for the nar at its url is
  -- answered with exactly the nar that upstream has for the logged request, and the statistics of the
  -- delta are logged under its id, if the hash of the nar has no slash, the semaphores let all requests
  -- in, the differ's answer arrives whole, upstream serves both nars, the filters fit, and a delta that
  -- is made can be applied.
  pub whole_transfer :
      (q q' : Request) (ni : NarInfo) (recents recents' : site.lru.Cache) (s s' t : S)
      (entry : AnRequest)
      → serve site q recents s ≡ (ok (info ni), request_record entry ∷ [], recents', s')
      → entry.differ_request ≡ some req
      → IsPlain (trim_prefix ni.nar_hash (codes "sha256:"))
      → q'.method ≡ codes "GET"
      → q'.path ≡ b'/' ∷ ni.url
      → q'.granted ≡ true
      → site.send req ≡ http_of media (differ srv ch (codes "POST") (some req) fs).0
      → AllGranted ch
      → Setting srv site.expander req algo fs nar
      → Restores srv.tools site.expander.tools
      → get_boundary media ≡ some boundary
      → (served : Served) × ((serve site q' recents' t).0 ≡ ok (nar_bytes served))
        × (served.body ≡ nar)
        × ((serve site q' recents' t).1 ≡ delta_record entry.id served.stats ∷ [])
  whole_transfer q q' ni recents recents' s s' t entry h asked plain get at slot wired all setting
        law bounded =
      let (served, made, same) = exchanged wired all setting law bounded in
      let (logged, req', in_log, with_req, answer, deltas) =
        announced_nar_served site q q' ni recents recents' s s' t (request_record entry ∷ []) h
          plain get at slot in
      let one : entry ≡ logged = cc in
      let same_req : req' ≡ req = cc in
      (
        served,
        answer
            ∙ ap (λ r. nar_body (get_nar_common site.expander r (site.send r))) same_req
            ∙ ap nar_body made,
        same,
        deltas
            ∙ ap (λ r. delta_records logged.id (get_nar_common site.expander r (site.send r)))
                same_req
            ∙ ap (delta_records logged.id) made
            ∙ ap (λ (a : AnRequest). delta_record a.id served.stats ∷ []) (sym one),
      )
