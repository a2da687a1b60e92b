-- ===== src/Subst/Site/Overlap/Asked.antt =====
-- Which requests are among some records, and taking one of them.
use nix_sandwich.Prelude.{
  ℕ, zero, suc, ◌≡◌, ◌∙◌, refl, sym, subst, ap, Bool, true, false, ◌||◌, some, Option-cases, inl,
  inr, List, [], ◌∷◌, ◌++◌, append_assoc, or_assoc, or_swap, or_into_right, Bytes, bytes_eq, All,
}
use nix_sandwich.Prelude.Maybe.{some-fst, some-snd}
use nix_sandwich.Analytics.Records.{AnRecord, request_record, delta_record, neither}
use nix_sandwich.Analytics.Tally.Balance.{is_in}
use nix_sandwich.Subst.Site.Run.{seen_after, IsAnnounced}
use nix_sandwich.Subst.Site.Overlap.{pull}

-- Whether a request with the id is among the records.
abbrev pub asks : Bytes → List AnRecord → Bool
asks id [] = false
asks id (request_record r ∷ recs) = bytes_eq r.id id || asks id recs
asks id (delta_record k d ∷ recs) = asks id recs
asks id (neither ∷ recs) = asks id recs

-- Of a delta, that its id is good.
abbrev pub OfDelta : (Bytes → Bool) → AnRecord → Type 0
OfDelta known (request_record r) = Unit
OfDelta known (delta_record id d) = known id ≡ true
OfDelta known neither = Unit

pub asks-append : (id : Bytes) (a b : List AnRecord) → asks id (a ++ b) ≡ (asks id a || asks id b)
asks-append id [] b = refl
asks-append id (request_record r ∷ a) b =
    rw (asks-append id a b) (sym (or_assoc (bytes_eq r.id id) (asks id a) (asks id b)))
asks-append id (delta_record k d ∷ a) b = asks-append id a b
asks-append id (neither ∷ a) b = asks-append id a b

-- What is seen behind a log is what was seen, and its requests.
pub is_in-seen_after :
    (id : Bytes) (seen : List Bytes) (recs : List AnRecord)
    → is_in id (seen_after seen recs) ≡ (asks id recs || is_in id seen)
is_in-seen_after id seen [] = refl
is_in-seen_after id seen (request_record r ∷ recs) = rw (is_in-seen_after id (r.id ∷ seen) recs) (
    or_swap (asks id recs) (bytes_eq r.id id) (is_in id seen)
    ∙ sym (or_assoc (bytes_eq r.id id) (asks id recs) (is_in id seen)))
is_in-seen_after id seen (delta_record k d ∷ recs) = is_in-seen_after id seen recs
is_in-seen_after id seen (neither ∷ recs) = is_in-seen_after id seen recs

module _ (p q : Bytes → Bool) (f : (id : Bytes) → p id ≡ true → q id ≡ true) where
  OfDelta-implies : (rec : AnRecord) → OfDelta p rec → OfDelta q rec
  OfDelta-implies (request_record r) h = tt
  OfDelta-implies (delta_record id d) h = f id h
  OfDelta-implies neither h = tt

  pub All-implies : (recs : List AnRecord) → All (OfDelta p) recs → All (OfDelta q) recs
  All-implies [] h = tt
  All-implies (rec ∷ recs) (h, hs) = (OfDelta-implies rec h, All-implies recs hs)

-- The deltas of an announced log are of requests that were seen or are in it.
pub announced-known :
    (seen : List Bytes) (recs : List AnRecord)
    → IsAnnounced seen recs
    → All (OfDelta (λ id. is_in id (seen_after seen recs))) recs
announced-known seen [] h = tt
announced-known seen (request_record r ∷ recs) h = (tt, announced-known (r.id ∷ seen) recs h)
announced-known seen (delta_record id d ∷ recs) (here, h) = (
  rw (is_in-seen_after id seen recs) (or_into_right (asks id recs) (is_in id seen) here),
  announced-known seen recs h,
)
announced-known seen (neither ∷ recs) h = (tt, announced-known seen recs h)

-- A record, a list that it stands in, and the others.
pub data Pulled (r : AnRecord) : List AnRecord → List AnRecord → Type 0 where
  front : (rs : List AnRecord) → Pulled r (r ∷ rs) rs
  behind :
      (x : AnRecord) (rs rest : List AnRecord) → Pulled r rs rest → Pulled r (x ∷ rs) (x ∷ rest)

module _ (r : AnRecord) where
  pub pull-Pulled :
      (n : ℕ) (recs rest : List AnRecord) → pull n recs ≡ some (r, rest) → Pulled r recs rest
  unfolding pull
  pull-Pulled n [] rest e = cc
  pull-Pulled zero (x ∷ recs) rest e =
      let one : x ≡ r = some-fst x r recs rest e in
      let two : recs ≡ rest = some-snd x r recs rest e in
      subst (λ y. Pulled r (y ∷ recs) rest) (sym one) (subst (Pulled r (r ∷ recs)) two (front recs))
  pull-Pulled (suc n) (x ∷ recs) rest e = elim (Option-cases (pull n recs)) [
    | inl nothing ↦ cc (rw nothing at e)
    | inr ((y, ys), found) ↦
        let more : some (y, x ∷ ys) ≡ some (r, rest) = rw found at e in
        let one : y ≡ r = some-fst y r (x ∷ ys) rest more in
        let two : x ∷ ys ≡ rest = some-snd y r (x ∷ ys) rest more in
        let same : pull n recs ≡ some (r, ys) = found ∙ ap (λ z. some (z, ys)) one in
        subst (Pulled r (x ∷ recs)) two (behind x recs ys (pull-Pulled n recs ys same))
  ]

  pub asks-Pulled :
      (id : Bytes) (recs rest : List AnRecord)
      → Pulled r recs rest
      → asks id recs ≡ (asks id (r ∷ []) || asks id rest)
  asks-Pulled id _ _ (front rs) = asks-append id (r ∷ []) rs
  asks-Pulled id _ _ (behind x rs rest p) =
      asks-append id (x ∷ []) rs
      ∙ ap (λ b. asks id (x ∷ []) || b) (asks-Pulled id rs rest p)
      ∙ or_swap (asks id (x ∷ [])) (asks id (r ∷ [])) (asks id rest)
      ∙ ap (λ b. asks id (r ∷ []) || b) (sym (asks-append id (x ∷ []) rest))

  pub All-Pulled :
      (P : AnRecord → Type 0) (recs rest : List AnRecord)
      → Pulled r recs rest
      → All P recs
      → P r × All P rest
  All-Pulled P _ _ (front rs) h = h
  All-Pulled P _ _ (behind x rs rest p) (h, hs) =
      let (here, others) = All-Pulled P rs rest p hs in (here, (h, others))

-- With more records behind, what was known still is.
pub asks-more :
    (id : Bytes) (w p l : List AnRecord) → asks id (w ++ (p ++ l)) ≡ (asks id (w ++ p) || asks id l)
asks-more id w p l = rw (sym (append_assoc w p l)) (asks-append id (w ++ p) l)
