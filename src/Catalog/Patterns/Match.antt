-- ===== src/Catalog/Patterns/Match.antt =====
-- The matcher of the regular expressions finds a split exactly where there is one.
use nix_sandwich.Prelude.{
  ℕ, ◌≡◌, refl, ◌↔◌, inl, inr, Bool, true, List, [], ◌∷◌, ◌++◌, arith, Bytes, All, Bool-cases,
}
use nix_sandwich.Catalog.Patterns.{
  Piece, lit, plus, run, one_of, Pattern, match_run, match_plus, match_lit, match_one_of,
  match_piece, match_string, match_any, OneOf, Accepts, Matches, MatchesAny,
}

-- A split of `s` whose first part is in `P` and whose second part passes `k`.
abbrev Splits : (Bytes → Type 0) → (Bytes → Bool) → Bytes → Type 0
Splits P k s = (v : Bytes) × (t : Bytes) × (s ≡ v ++ t) × P v × (k t ≡ true)

module _ (k : Bytes → Bool) where
  match_lit_sound : (p s : Bytes) → match_lit p k s ≡ true → Splits (λ v. v ≡ p) k s
  unfolding match_lit
  match_lit_sound [] s h = ([], s, refl, refl, h)
  match_lit_sound (x ∷ p) [] h = cc
  match_lit_sound (x ∷ p) (c ∷ s) h =
      let (v, t, e, same, kt) = match_lit_sound p s (ground arith) in
      (c ∷ v, t, cc, ground arith, kt)

  match_lit_complete : (p t : Bytes) → k t ≡ true → match_lit p k (p ++ t) ≡ true
  unfolding match_lit
  match_lit_complete [] t h = h
  match_lit_complete (x ∷ p) t h = ground (arith, match_lit_complete p t)

  module _ (f : ℕ → Bool) where
    match_run_sound :
        (s : Bytes) → match_run f k s ≡ true → Splits (λ v. All (λ c. f c ≡ true) v) k s
    unfolding match_run
    match_run_sound [] h = ([], [], refl, tt, h)
    match_run_sound (c ∷ s) h = elim (Bool-cases (k (c ∷ s))) [
      | inl here ↦ ([], c ∷ s, refl, tt, here)
      | inr later ↦
          let (v, t, e, good, kt) = match_run_sound s (ground arith) in
          (c ∷ v, t, cc, (ground arith, good), kt)
    ]

    match_run_complete :
        (v t : Bytes) → All (λ c. f c ≡ true) v → k t ≡ true → match_run f k (v ++ t) ≡ true
    unfolding match_run
    match_run_complete [] [] h e = e
    match_run_complete [] (c ∷ t) h e = rw e
    match_run_complete (c ∷ v) t h e = ground (arith, match_run_complete v t h.1 e)

    match_plus_sound : (s : Bytes) → match_plus f k s ≡ true → Splits (Accepts (plus f)) k s
    unfolding match_plus
    match_plus_sound [] h = cc
    match_plus_sound (c ∷ s) h =
        let (v, t, e, good, kt) = match_run_sound s (ground arith) in
        (c ∷ v, t, cc, (λ z. cc, (ground arith, good)), kt)

    match_plus_complete :
        (v t : Bytes) → Accepts (plus f) v → k t ≡ true → match_plus f k (v ++ t) ≡ true
    unfolding match_plus
    match_plus_complete [] t h e = absurd (h.0 refl)
    match_plus_complete (c ∷ v) t h e = ground (arith, match_run_complete v t h.1.1 e)

  match_one_of_sound :
      (alts : List Bytes) (s : Bytes) → match_one_of alts k s ≡ true → Splits (OneOf alts) k s
  unfolding match_one_of
  match_one_of_sound [] s h = cc
  match_one_of_sound (a ∷ alts) s h = elim (Bool-cases (match_lit a k s)) [
    | inl first ↦ let (v, t, e, same, kt) = match_lit_sound a s first in (v, t, e, inl same, kt)
    | inr other ↦
        let (v, t, e, among, kt) = match_one_of_sound alts s (ground arith) in
        (v, t, e, inr among, kt)
  ]

  match_one_of_complete :
      (alts : List Bytes) (v t : Bytes)
      → OneOf alts v
      → k t ≡ true
      → match_one_of alts k (v ++ t) ≡ true
  unfolding match_one_of
  match_one_of_complete [] v t h e = absurd h
  match_one_of_complete (a ∷ alts) v t (inl same) e = rw (same, match_lit_complete a t e)
  match_one_of_complete (a ∷ alts) v t (inr among) e =
      ground (arith, match_one_of_complete alts v t among e)

module _ (k : Bytes → Bool) where
  match_piece_sound : (p : Piece) (s : Bytes) → match_piece p k s ≡ true → Splits (Accepts p) k s
  unfolding match_piece
  match_piece_sound (lit p) s h = match_lit_sound k p s h
  match_piece_sound (plus f) s h = match_plus_sound k f s h
  match_piece_sound (run f) s h = match_run_sound k f s h
  match_piece_sound (one_of alts) s h = match_one_of_sound k alts s h

  match_piece_complete :
      (p : Piece) (v t : Bytes) → Accepts p v → k t ≡ true → match_piece p k (v ++ t) ≡ true
  unfolding match_piece
  match_piece_complete (lit p) v t h e = rw (h, match_lit_complete k p t e)
  match_piece_complete (plus f) v t h e = match_plus_complete k f v t h e
  match_piece_complete (run f) v t h e = match_run_complete k f v t h e
  match_piece_complete (one_of alts) v t h e = match_one_of_complete k alts v t h e

match_string_sound : (re : Pattern) (s : Bytes) → match_string re s ≡ true → Matches re s
unfolding match_string
match_string_sound [] [] h = refl
match_string_sound [] (c ∷ s) h = cc
match_string_sound (p ∷ ps) s h =
    let (v, t, e, good, kt) = match_piece_sound (match_string ps) p s h in
    (v, t, e, good, match_string_sound ps t kt)

match_string_complete : (re : Pattern) (s : Bytes) → Matches re s → match_string re s ≡ true
unfolding match_string
match_string_complete [] s h = rw h
match_string_complete (p ∷ ps) s (v, t, e, good, rest) =
    rw e (match_piece_complete (match_string ps) p v t good (match_string_complete ps t rest))

match_any_sound : (l : List Pattern) (s : Bytes) → match_any l s ≡ true → MatchesAny l s
unfolding match_any
match_any_sound [] s h = cc
match_any_sound (re ∷ l) s h = elim (Bool-cases (match_string re s)) [
  | inl first ↦ inl (match_string_sound re s first)
  | inr other ↦ inr (match_any_sound l s (ground arith))
]

match_any_complete : (l : List Pattern) (s : Bytes) → MatchesAny l s → match_any l s ≡ true
unfolding match_any
match_any_complete [] s h = absurd h
match_any_complete (re ∷ l) s (inl first) = rw (match_string_complete re s first)
match_any_complete (re ∷ l) s (inr other) = ground (arith, match_any_complete l s other)

-- `match_any` answers true exactly for the texts that one of the expressions matches: texts that
-- split into one part for each of its pieces, in order.
pub match_any_iff : (l : List Pattern) (s : Bytes) → (match_any l s ≡ true) ↔ MatchesAny l s
match_any_iff l s = (match_any_sound l s, match_any_complete l s)
