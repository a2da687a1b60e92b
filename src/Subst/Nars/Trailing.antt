-- ===== src/Subst/Nars/Trailing.antt =====
-- The parts that the substituter reads from an answer of the differ.
use nix_sandwich.Prelude.{
  ◌≡◌, ◌∙◌, ap, Bool, true, false, not, Bool-cases, Option-cases, inl, inr, Option, some, List, [],
  ◌∷◌, Bytes, codes, bytes_eq, bytes_eq→eq, if◌then◌else◌, ok, chained,
}
use nix_sandwich.Algo.Stats.{DiffStats}
use nix_sandwich.Differ.Wire.{Trailer, Part, differ_trailer_name, Wire}
use nix_sandwich.Differ.Server.{part}
use nix_sandwich.Subst.Nars.{refusal, next_part, read_trailer}

pub next_part-ok :
    (parts : List Part) (name missing wrong content : Bytes) (rest : List Part)
    → next_part parts name missing wrong ≡ ok (content, rest)
    → parts ≡ part name content ∷ rest
unfolding next_part
next_part-ok [] name missing wrong content rest h = cc
next_part-ok (p ∷ parts) name missing wrong content rest h =
    elim (Bool-cases (bytes_eq p.name name)) [
      | inr other ↦ cc (rw other at h)
      | inl same ↦
          let both : ◌≡◌ {A = Bytes × List Part} (p.content, parts) (content, rest) =
            cc (rw same at h) in
          ap (λ n. part n p.content ∷ parts) (bytes_eq→eq p.name name same)
          ∙ ap (λ q. part name q.0 ∷ q.1) both
    ]

-- The trailer that lets a nar through: the last part, all of the answer, and well.
pub record Trailing (wire : Wire) (parts : List Part) (broken : Bool) (stats : Option DiffStats)
    : Type 0 where
  pub json : Bytes
  pub trailer : Trailer
  pub last : parts ≡ part differ_trailer_name json ∷ []
  pub complete : broken ≡ false
  pub decoded : wire.decode_trailer json ≡ some trailer
  pub is_ok : trailer.is_ok ≡ true
  pub says : trailer.stats ≡ stats

pub read_trailer-Trailing :
    (wire : Wire) (parts : List Part) (broken : Bool) (stats : Option DiffStats)
    → read_trailer wire parts broken ≡ ok stats
    → Trailing wire parts broken stats
unfolding read_trailer
read_trailer-Trailing wire parts broken stats h =
    let ((json, more), rest, read) = chained _ _ (next_part parts _ _ _) h in
    elim (Option-cases (wire.decode_trailer json)) [
      | inl bad ↦ cc (rw bad at rest)
      | inr (t, good) ↦
          last_part json t good more (next_part-ok parts _ _ _ json more read) (rw good at rest)
    ]
  where
    last_part :
        (json : Bytes) (t : Trailer)
        → wire.decode_trailer json ≡ some t
        → (more : List Part) → parts ≡ part differ_trailer_name json ∷ more
        → (elim more [
          | p ∷ ps ↦ refusal 500 (codes "parse multipart trailing parts") false
          | [] ↦
              if broken
              then refusal 500 (codes "parse multipart trailing parts") false
              else if not t.is_ok
              then refusal 500 [] true
              else ok t.stats
        ])
          ≡ ok stats
        → Trailing wire parts broken stats
    last_part json t good (p ∷ ps) e rest = cc
    last_part json t good [] e rest = elim (Bool-cases broken) [
      | inl cut ↦ cc (rw cut at rest)
      | inr whole ↦ elim (Bool-cases t.is_ok) [
        | inr failed ↦ cc (rw (whole, failed) at rest)
        | inl fine ↦ record {
          json = json;
          trailer = t;
          last = e;
          complete = whole;
          decoded = good;
          is_ok = fine;
          says = cc (rw (whole, fine) at rest);
        }
      ]
    ]
