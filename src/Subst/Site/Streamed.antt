-- ===== src/Subst/Site/Streamed.antt =====
-- What a client of the substituter gets where an error is met behind the nar.
use nix_sandwich.Prelude.{
  ◌≡◌, ◌≢◌, refl, arith, Bool, true, false, Bool-cases, Option-cases, inl, inr, Option, some, List,
  [], ◌∷◌, Bytes, codes, bytes_eq, not, if◌then◌else◌, Outcome, ok, err, panic, ◌>>=◌,
}
use nix_sandwich.External.System.{Run}
use nix_sandwich.Algo.Pick.{DiffAlgo}
use nix_sandwich.Algo.Stats.{DiffStats, nonnil}
use nix_sandwich.Subst.Types.{DifferRequest, Refusal}
use nix_sandwich.Subst.Nars.{
  MediaType, answered, Expander, Served, behind, refusal, next_part, read_trailer, with_times,
  finish_nar, apply_delta, read_algo_name, read_parts, get_nar_common,
}
use nix_sandwich.Subst.Nars.Accepted.{Applied, Accepted, get_nar_common-Accepted}
use nix_sandwich.Differ.Wire.{
  Trailer, Part, differ_header_name, differ_body_name, differ_trailer_name, Wire,
}
use nix_sandwich.Differ.Server.{part}
use nix_sandwich.Subst.Site.{nar_body, fw}

-- The bytes of a nar that the client has been sent when the handler returns.
abbrev pub sent_body : Outcome Refusal Served → Bytes
sent_body (ok served) = served.body
sent_body (err r) = r.written
sent_body panic = []

-- The client gets the status 200 and these bytes.
abbrev pub IsSent : Bytes → Outcome Refusal Served → Type 0
IsSent body answer = (fw (nar_body answer) ≡ some 200) × (sent_body answer ≡ body)

abbrev served_of : Bytes → Run → Option DiffStats → Outcome Refusal Served
served_of body run stats = ok (record { stats = with_times (nonnil stats) run; body = body })

-- Behind a body that was written, it does not show how the rest was read.
behind-IsSent :
    (body : Bytes) (run : Run) (o : Outcome Refusal (Option DiffStats))
    → body ≢ []
    → o ≢ panic
    → IsSent body (behind body (o >>= served_of body run))
unfolding fw
behind-IsSent [] run o some_body calm = absurd (some_body refl)
behind-IsSent (c ∷ body) run (ok stats) some_body calm = (refl, refl)
behind-IsSent (c ∷ body) run (err r) some_body calm = (ground arith, refl)
behind-IsSent (c ∷ body) run panic some_body calm = absurd (calm refl)

read_trailer-calm :
    (wire : Wire) (parts : List Part) (broken : Bool) → read_trailer wire parts broken ≢ panic
unfolding read_trailer next_part
read_trailer-calm wire [] broken h = cc
read_trailer-calm wire (p ∷ parts) broken h =
    elim (Bool-cases (bytes_eq p.name differ_trailer_name)) [
      | inr other ↦ cc (rw other at h)
      | inl named ↦ elim (Option-cases (wire.decode_trailer p.content)) [
        | inl bad ↦ cc (rw (named, bad) at h)
        | inr (t, good) ↦ last_part t parts (rw (named, good) at h)
      ]
    ]
  where
    last_part :
        (t : Trailer) (more : List Part)
        → (elim more [
          | p ∷ ps ↦ refusal 500 (codes "parse multipart trailing parts") false
          | [] ↦
              if broken
              then refusal 500 (codes "parse multipart trailing parts") false
              else if not t.is_ok
              then refusal 500 [] true
              else ok t.stats
        ])
          ≢ panic
    last_part t (p ∷ ps) h = cc
    last_part t [] h = elim (Bool-cases broken) [
      | inl cut ↦ cc (rw cut at h)
      | inr whole ↦ elim (Bool-cases t.is_ok) [
        | inr failed ↦ cc (rw (whole, failed) at h)
        | inl fine ↦ cc (rw (whole, fine) at h)
      ]
    ]

module _ (x : Expander) (req : DifferRequest) (delta : Bytes) (algo : DiffAlgo)
    (rest rest' : List Part) (broken broken' : Bool) (served : Served) where
  -- The nar is made before anything behind the delta is read.
  apply_delta-behind :
      (a : Applied x req algo delta rest broken served)
      → apply_delta x req algo delta rest' broken'
        ≡ behind served.body (read_trailer x.wire rest' broken' >>= served_of served.body a.run)
  unfolding apply_delta finish_nar
  apply_delta-behind a =
      rw (a.dumped, apply_delta, a.base_read, a.expanded, a.body_collapsed, a.dump_good)

Accepted-IsSent :
    (x : Expander) (req : DifferRequest) (media : MediaType) (header body : Part)
    (rest rest' : List Part) (broken broken' : Bool) (served : Served)
    → Accepted x req (answered 200 media (header ∷ body ∷ rest) broken) served
    → served.body ≢ []
    → IsSent served.body (get_nar_common x req (answered 200 media (header ∷ body ∷ rest') broken'))
unfolding get_nar_common read_parts read_algo_name
Accepted-IsSent x req media header body rest rest' broken broken' served a some_body =
    let e = a.exchanged in
    let is_media : media ≡ a.media = cc in
    let is_header : header ≡ part differ_header_name a.json = cc in
    let is_body : body ≡ part differ_body_name a.delta = cc in
    rw
      (
        is_media,
        a.bounded,
        is_header,
        is_body,
        a.header,
        read_algo_name,
        a.known,
        apply_delta-behind x req a.delta a.algo a.rest rest' a.broken broken' served a.made,
      )
      (behind-IsSent served.body a.made.run _ some_body (read_trailer-calm x.wire rest' broken'))

-- Once a delta came from which the substituter makes a nar, which is not empty, the client gets the
-- status 200 and the whole nar, whatever follows the delta: also if the trailer is missing, is no
-- trailer or says that the delta went wrong, or if the stream breaks, for which an error is returned.
pub late_errors_hidden :
    (x : Expander) (req : DifferRequest) (media : MediaType) (header body : Part)
    (rest rest' : List Part) (broken broken' : Bool) (served : Served)
    → get_nar_common x req (answered 200 media (header ∷ body ∷ rest) broken) ≡ ok served
    → served.body ≢ []
    → IsSent served.body (get_nar_common x req (answered 200 media (header ∷ body ∷ rest') broken'))
late_errors_hidden x req media header body rest rest' broken broken' served h some_body =
    Accepted-IsSent x req media header body rest rest' broken broken' served
      (get_nar_common-Accepted x req (answered 200 media (header ∷ body ∷ rest) broken) served h)
      some_body
