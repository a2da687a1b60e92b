-- ===== src/Differ/Server/Shaped.antt =====
-- The shape of the answers of the handler `differ`.
use nix_sandwich.Prelude.{
  ℕ, ◌≡◌, ◌<◌, refl, arith, Bool, true, false, ◌||◌, Bool-cases, inl, inr, Option, some, [], ◌∷◌,
  Bytes, codes, Outcome, ok, err, panic,
}
use nix_sandwich.External.System.{Files}
use nix_sandwich.Algo.Pick.{DiffAlgo, algo_name, pick_algo}
use nix_sandwich.Algo.Stats.{DiffStats, stats_string}
use nix_sandwich.Algo.Delta.{AlgoError, create, file_size}
use nix_sandwich.Subst.Types.{DifferRequest}
use nix_sandwich.Differ.Wire.{
  Trailer, Part, differ_header_name, differ_body_name, differ_trailer_name, Wire,
}
use nix_sandwich.Differ.Server.{
  Chances, Server, Answer, answer_error, is_err, part, trailer_of, send_delta, differ,
}
use nix_sandwich.Differ.Server.Answers.{differ-answers}

-- The header for an algorithm.
abbrev pub header_part : Wire → DiffAlgo → Part
header_part wire algo = part differ_header_name (wire.encode_header (algo_name algo))

abbrev pub trailer_part : Wire → Trailer → Part
trailer_part wire t = part differ_trailer_name (wire.encode_trailer t)

-- A refusal without parts; an answer that broke off behind the delta; or a whole one. The header names
-- the algorithm that was picked, and the trailer of an answer without an error says that all is well.
pub data Shaped (wire : Wire) (request : Option DifferRequest) : Answer → Type 0 where
  refused :
      (status : ℕ) (message : Bytes) (e : Bool)
      → 0 < status
      → Shaped wire request (answer_error status message e)
  broken_off :
      (req : DifferRequest) (algo : DiffAlgo) (delta : Bytes)
      → request ≡ some req
      → pick_algo req.accept_algos ≡ some algo
      → Shaped wire request (record {
        status = 500;
        message = codes "multipart write trailer";
        has_error = true;
        parts = header_part wire algo ∷ part differ_body_name delta ∷ [];
      })
  whole :
      (req : DifferRequest) (algo : DiffAlgo) (delta : Bytes) (t : Trailer) (e : Bool)
      → request ≡ some req
      → pick_algo req.accept_algos ≡ some algo
      → (t.is_ok || e) ≡ true
      → Shaped wire request (record {
        status = 0;
        message = stats_string t.stats;
        has_error = e;
        parts = header_part wire algo ∷ part differ_body_name delta ∷ trailer_part wire t ∷ [];
      })

module _ (srv : Server) (ch : Chances) (request : Option DifferRequest) where
  trailer_of-is_ok :
      (size : ℕ) (o : Outcome AlgoError DiffStats) (b : Bool)
      → ((trailer_of srv size o).is_ok || (is_err o || b)) ≡ true
  trailer_of-is_ok size (ok stats) b = refl
  trailer_of-is_ok size (err e) b = refl
  trailer_of-is_ok size panic b = refl

  send_delta-Shaped :
      (req : DifferRequest) (algo : DiffAlgo)
      → request ≡ some req
      → pick_algo req.accept_algos ≡ some algo
      → (fs : Files) (base_nar req_nar : Bytes)
      → Shaped srv.wire request (send_delta srv ch algo fs base_nar req_nar)
  unfolding send_delta
  send_delta-Shaped req algo asked picked fs base_nar req_nar = elim (Bool-cases ch.delta_slot) [
    | inr full ↦ rw (send_delta, full) (refused 500 (codes "canceled") false (omega arith))
    | inl slot ↦ elim (Bool-cases ch.header_written) [
      | inr cut ↦
          rw (send_delta, slot, cut)
            (refused 500 (codes "multipart write header") true (omega arith))
      | inl header ↦ elim (Bool-cases ch.trailer_written) [
        | inr cut ↦ rw (send_delta, slot, header, cut) (broken_off req algo _ asked picked)
        | inl done ↦
            rw (send_delta, slot, header, done)
              (whole req algo _
                (trailer_of srv (file_size fs base_nar)
                  (create srv.tools algo fs base_nar req_nar).1)
                _ asked picked
                (trailer_of-is_ok (file_size fs base_nar)
                  (create srv.tools algo fs base_nar req_nar).1 _))
      ]
    ]
  ]

  -- Every answer is a refusal with a status and without parts, or has the header, which names the
  -- algorithm that was picked from those of the request, and the delta; then it has the status 500 and
  -- no trailer, or the status 0 and a trailer, which says that all is well or the answer has an error.
  pub differ-Shaped :
      (method : Bytes) (fs fs' : Files) (answer : Answer)
      → differ srv ch method request fs ≡ (some answer, fs')
      → Shaped srv.wire request answer
  differ-Shaped method fs fs' answer h =
      differ-answers srv ch request (Shaped srv.wire request) refused send_delta-Shaped method fs
        fs' answer h
