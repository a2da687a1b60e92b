-- ===== src/Transfer/Refused.antt =====
-- What the substituter makes of an answer of the differ that went wrong.
use nix_sandwich.Prelude.{
  subst, arith, ℕ, ◌≡◌, ◌≢◌, refl, sym, ◌∙◌, ap, Bool, true, false, not, ◌||◌, Bool-cases, inl, inr,
  Option, some, List, [], ◌∷◌, Bytes, Outcome, ok, err, panic,
}
use nix_sandwich.External.System.{Files}
use nix_sandwich.Algo.Pick.{DiffAlgo}
use nix_sandwich.Algo.Stats.{DiffStats}
use nix_sandwich.Algo.Delta.{AlgoError, create, file_size}
use nix_sandwich.Subst.Types.{DifferRequest, Refusal}
use nix_sandwich.Subst.Nars.{
  Expander, MediaType, Exchange, answered, Served, get_nar_common, delta_records,
}
use nix_sandwich.Subst.Nars.Accepted.{Accepted, get_nar_common-Accepted}
use nix_sandwich.Differ.Wire.{
  Trailer, Part, differ_header_name, differ_body_name, differ_trailer_name, Wire,
}
use nix_sandwich.Differ.Server.Answers.{differ-answers}
use nix_sandwich.Differ.Server.{
  Chances, Server, Answer, is_err, part, trailer_of, send_delta, differ,
}

-- The parts that an answer with an error has: none, no trailer, or one that says that it went wrong.
pub data Faulty (wire : Wire) : List Part → Type 0 where
  no_parts : Faulty wire []
  no_trailer : (header body : Part) → Faulty wire (header ∷ body ∷ [])
  bad_trailer :
      (header body : Part) (t : Trailer)
      → t.is_ok ≡ false
      → Faulty wire (header ∷ body ∷ part differ_trailer_name (wire.encode_trailer t) ∷ [])

-- If an answer has an error, its parts are faulty.
abbrev Honest : Wire → Answer → Type 0
Honest wire a = a.has_error ≡ true → Faulty wire a.parts

module _ (srv : Server) (ch : Chances) (closes : ch.end_written ≡ true) where
  trailer_of-fails :
      (size : ℕ) (o : Outcome AlgoError DiffStats)
      → is_err o ≡ true
      → (trailer_of srv size o).is_ok ≡ false
  trailer_of-fails size (ok stats) h = cc
  trailer_of-fails size (err e) h = refl
  trailer_of-fails size panic h = refl

  is_err-only : (b : Bool) → (b || not ch.end_written) ≡ true → b ≡ true
  is_err-only b h = ground arith

  send_delta-Honest :
      (algo : DiffAlgo) (fs : Files) (base req : Bytes)
      → Honest srv.wire (send_delta srv ch algo fs base req)
  unfolding send_delta
  send_delta-Honest algo fs base req = elim (Bool-cases ch.delta_slot) [
    | inr full ↦ rw (send_delta, full) (λ e. no_parts)
    | inl slot ↦ elim (Bool-cases ch.header_written) [
      | inr cut ↦ rw (send_delta, slot, cut) (λ e. no_parts)
      | inl header ↦ elim (Bool-cases ch.trailer_written) [
        | inr cut ↦ rw (send_delta, slot, header, cut) (λ e. no_trailer _ _)
        | inl whole ↦
            rw (send_delta, slot, header, whole)
              (λ e. bad_trailer _ _ _ (
                trailer_of-fails (file_size fs base) (create srv.tools algo fs base req).1
                  (is_err-only _ e)))
      ]
    ]
  ]

  differ-Honest :
      (method : Bytes) (request : Option DifferRequest) (fs fs' : Files) (answer : Answer)
      → differ srv ch method request fs ≡ (some answer, fs')
      → Honest srv.wire answer
  differ-Honest method request fs fs' answer h =
      differ-answers srv ch request (Honest srv.wire) (λ status message e some_status bad. no_parts)
        (λ req algo asked picked files base req_nar. send_delta-Honest algo files base req_nar)
        method fs fs' answer h

abbrev parts_of : Exchange → List Part
parts_of (answered status media parts broken) = parts
parts_of _ = []

Accepted-parts :
    (x : Expander) (req : DifferRequest) (exchange : Exchange) (served : Served)
    → Accepted x req exchange served
    → (header body : Part) × (json : Bytes) × (t : Trailer) × (parts_of exchange
        ≡ header ∷ body ∷ part differ_trailer_name json ∷ [])
      × (x.wire.decode_trailer json ≡ some t)
      × (t.is_ok ≡ true)
Accepted-parts x req exchange served a =
    let last = a.made.trailing in
    (
      _,
      _,
      last.json,
      last.trailer,
      ap parts_of a.exchanged
          ∙ ap (λ ps. part differ_header_name a.json ∷ part differ_body_name a.delta ∷ ps)
              last.last,
      last.decoded,
      last.is_ok,
    )

-- Faulty parts are not what a nar is served from.
Faulty-refused :
    (x : Expander) (req : DifferRequest) (status : ℕ) (media : MediaType) (parts : List Part)
    (broken : Bool) (served : Served)
    → Faulty x.wire parts
    → ¬ Accepted x req (answered status media parts broken) served
Faulty-refused x req status media _ broken served no_parts a =
    let (header, body, json, t, e, decoded, fine) = Accepted-parts x req _ served a in cc
Faulty-refused x req status media _ broken served (no_trailer header body) a =
    let (header, body, json, t, e, decoded, fine) = Accepted-parts x req _ served a in cc
Faulty-refused x req status media _ broken served (bad_trailer _ _ t bad) a =
    let (header, body, json, u, e, decoded, fine) = Accepted-parts x req _ served a in
    let same : x.wire.encode_trailer t ≡ json = cc in
    let kept = x.wire.decode_trailer-is_ok t u (ap x.wire.decode_trailer same ∙ decoded) in cc

unserved_unlogged :
    (id : Bytes) (o : Outcome Refusal Served)
    → ((served : Served) → o ≢ ok served)
    → delta_records id o ≡ []
unserved_unlogged id (ok served) h = absurd (h served refl)
unserved_unlogged id (err r) h = refl
unserved_unlogged id panic h = refl

-- Of an answer of the differ that has an error, `getNarCommon` never returns statistics and the status
-- 0, and no delta is logged, whatever status and media type it is sent with, if both read JSON alike
-- and the differ could close the answer. (What was written before is with the client by then.)
pub failed_answer_refused :
    (srv : Server) (x : Expander) (ch : Chances) (method : Bytes) (request : Option DifferRequest)
    (fs fs' : Files) (answer : Answer) (req : DifferRequest) (status : ℕ) (media : MediaType)
    (broken : Bool) (served : Served) (id : Bytes)
    → ch.end_written ≡ true
    → x.wire ≡ srv.wire
    → differ srv ch method request fs ≡ (some answer, fs')
    → answer.has_error ≡ true
    → (get_nar_common x req (answered status media answer.parts broken) ≢ ok served)
      × (delta_records id (get_nar_common x req (answered status media answer.parts broken)) ≡ [])
failed_answer_refused srv x ch method request fs fs' answer req status media broken served id closes
      same_wire h bad =
    let faulty = differ-Honest srv ch closes method request fs fs' answer h bad in
    let refused = λ (v : Served).
      λ (e : get_nar_common x req (answered status media answer.parts broken) ≡ ok v).
        Faulty-refused x req status media answer.parts broken v
          (subst (λ w. Faulty w answer.parts) (sym same_wire) faulty)
          (get_nar_common-Accepted x req _ v e) in
    (refused served, unserved_unlogged id _ refused)
