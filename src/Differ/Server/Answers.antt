-- ===== src/Differ/Server/Answers.antt =====
-- The answers of the handler `differ`, by where they come from.
use nix_sandwich.Prelude.{
  subst, ℕ, ◌≡◌, ◌<◌, ap, arith, Bool, true, false, ◌||◌, Bool-cases, Option-cases, inl, inr,
  Option, some, [], Bytes, codes, bytes_eq, Outcome,
}
use nix_sandwich.External.System.{Files}
use nix_sandwich.Algo.Pick.{DiffAlgo, pick_algo}
use nix_sandwich.Subst.Types.{DifferRequest}
use nix_sandwich.Differ.Download.{DownloadError, not_found}
use nix_sandwich.Differ.Server.{
  Chances, Server, Answer, answer_error, first_error, has_panic, name_of, send_delta,
  download_answer, downloaded, get_req, get_base, serve_delta, differ,
}

-- What holds of all errors without parts, and of all deltas that are sent for a request and an
-- algorithm that it accepts, holds of all answers.
module _ (srv : Server) (ch : Chances) (request : Option DifferRequest) (Q : Answer → Type 0)
    (refuses : (status : ℕ) (message : Bytes) (e : Bool)
      → 0 < status
      → Q (answer_error status message e))
    (sends : (req : DifferRequest) (algo : DiffAlgo)
      → request ≡ some req
      → pick_algo req.accept_algos ≡ some algo
      → (fs : Files) (base_nar req_nar : Bytes)
      → Q (send_delta srv ch algo fs base_nar req_nar)) where
  moved : (a b : Answer) → ◌≡◌ {A = Option Answer} (some a) (some b) → Q a → Q b
  moved a b e h = let same : a ≡ b = cc in subst Q same h

  download_answer-refuses : (e : DownloadError) → Q (download_answer e)
  download_answer-refuses e = by_error e
    where
      by_error : (e : DownloadError) → Q (download_answer e)
      by_error not_found = refuses 404 (codes "nar download error") true (omega arith)
      by_error _ = refuses 500 (codes "nar download error") true (omega arith)

  downloaded-answers :
      (req : DifferRequest) (algo : DiffAlgo) (fs fs' : Files)
      (req_nar base_nar : Outcome DownloadError Bytes) (answer : Answer)
      → request ≡ some req
      → pick_algo req.accept_algos ≡ some algo
      → downloaded srv ch algo fs req_nar base_nar ≡ (some answer, fs')
      → Q answer
  unfolding downloaded
  downloaded-answers req algo fs fs' req_nar base_nar answer asked picked h =
      elim (Bool-cases (has_panic req_nar || has_panic base_nar)) [
        | inl crash ↦ cc (ap (λ p. p.0) (rw crash at h))
        | inr calm ↦ elim (Option-cases (first_error ch.base_first req_nar base_nar)) [
          | inl none_failed ↦
              moved _ answer (ap (λ p. p.0) (rw (calm, downloaded, none_failed) at h))
                (sends req algo asked picked fs (name_of base_nar) (name_of req_nar))
          | inr (e, failed) ↦
              moved _ answer (ap (λ p. p.0) (rw (calm, downloaded, failed) at h))
                (download_answer-refuses e)
        ]
      ]

  serve_delta-answers :
      (req : DifferRequest) (algo : DiffAlgo) (fs fs' : Files) (answer : Answer)
      → request ≡ some req
      → pick_algo req.accept_algos ≡ some algo
      → serve_delta srv ch algo req fs ≡ (some answer, fs')
      → Q answer
  unfolding serve_delta
  serve_delta-answers req algo fs fs' answer asked picked e =
      let r = get_req srv ch req fs in
      downloaded-answers req algo (get_base srv ch req r.1).1 fs' r.0 (get_base srv ch req r.1).0
        answer asked picked e

  pub differ-answers :
      (method : Bytes) (fs fs' : Files) (answer : Answer)
      → differ srv ch method request fs ≡ (some answer, fs')
      → Q answer
  unfolding differ
  differ-answers method fs fs' answer h = elim (Bool-cases (bytes_eq method (codes "POST"))) [
    | inr other ↦
        moved _ answer (ap (λ p. p.0) (rw other at h)) (refuses 405 [] false (omega arith))
    | inl post ↦ elim (Option-cases request) [
      | inl none_sent ↦
          moved _ answer (ap (λ p. p.0) (rw (post, none_sent) at h))
            (refuses 400 (codes "json decode error") true (omega arith))
      | inr (req, sent) ↦ elim (Option-cases (pick_algo req.accept_algos)) [
        | inl unknown ↦
            moved _ answer (ap (λ p. p.0) (rw (post, sent, unknown) at h))
              (refuses 400 (codes "unknown algo") false (omega arith))
        | inr (algo, picked) ↦ elim (Bool-cases ch.disk) [
          | inr full ↦
              moved _ answer (ap (λ p. p.0) (rw (post, sent, picked, full) at h))
                (refuses 507 (codes "disk semaphore") true (omega arith))
          | inl room ↦
              serve_delta-answers req algo fs fs' answer sent picked
                (rw (post, sent, picked, room) at h)
        ]
      ]
    ]
  ]
