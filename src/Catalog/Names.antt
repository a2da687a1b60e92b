-- ===== src/Catalog/Names.antt =====
-- `findDashes` and `matchLen` of catalog.go.
use native.Mathlib.Decide.{dec_lt, ℕ_discrete}
use nix_sandwich.Prelude.{
  ℕ, zero, suc, ◌+◌, ◌-◌, ◌≤◌, ◌<◌, ◌≡◌, refl, ◌↔◌, ◌⊎◌, inl, inr, true, false, Option, none, some,
  List, [], ◌∷◌, arith, Bytes, length, length-drop, get_elem?, take, drop, All, ◌==◌, if◌then◌else◌,
  Option-cases, has_prefix,
}

abbrev pub dash : ℕ
dash = b'-'

-- `strings.IndexByte`
index_byte : Bytes → ℕ → Option ℕ
index_byte [] c = none
index_byte (x ∷ s) c = elim (x == c) [
  | true ↦ some 0
  | false ↦ elim (index_byte s c) [ none ↦ none | some j ↦ some (suc j) ]
]

-- One round for each dash: `i` is the loop's variable and `s` is `s[i:]`.
find_dashes_loop : ℕ → ℕ → Bytes → List ℕ
find_dashes_loop zero i s = []
find_dashes_loop (suc fuel) i s = elim (index_byte s dash) [
  | none ↦ []
  | some j ↦ (i + j) ∷ find_dashes_loop fuel (suc (i + j)) (drop (suc j) s)
]

-- Each round drops a byte at least, so `length s` rounds are enough.
unfoldable pub find_dashes : Bytes → List ℕ
unfolding find_dashes_loop index_byte
find_dashes s = find_dashes_loop (length s) 0 s

-- The positions of the dashes in `s`, counted from `i`.
abbrev pub dashes_from : ℕ → Bytes → List ℕ
dashes_from i [] = []
dashes_from i (c ∷ s) = let rest = dashes_from (suc i) s in if c == dash then i ∷ rest else rest

-- The number of common leading bytes.
unfoldable pub match_len : Bytes → Bytes → ℕ
match_len [] b = 0
match_len (x ∷ a) [] = 0
match_len (x ∷ a) (y ∷ b) = let rest = match_len a b in if x == y then suc rest else 0

-- Where there is no dash, no position is listed.
dashes_from-none : (i : ℕ) (s : Bytes) → index_byte s dash ≡ none → dashes_from i s ≡ []
unfolding index_byte
dashes_from-none i [] h = refl
dashes_from-none i (c ∷ s) h = ground (arith, dashes_from-none (suc i) s)

index_byte-lt : (j : ℕ) (s : Bytes) → index_byte s dash ≡ some j → j < length s
unfolding index_byte
index_byte-lt j [] h = cc
index_byte-lt zero (c ∷ s) h = omega arith
index_byte-lt (suc j) (c ∷ s) h = ground (arith, index_byte-lt j s)

-- The first dash is the head of the list, and the others are those behind it.
dashes_from-some :
    (i j : ℕ) (s : Bytes)
    → index_byte s dash ≡ some j
    → dashes_from i s ≡ (i + j) ∷ dashes_from (suc (i + j)) (drop (suc j) s)
unfolding index_byte
dashes_from-some i j [] h = cc
dashes_from-some i zero (c ∷ s) h = ground arith
dashes_from-some i (suc j) (c ∷ s) h = ground (arith, dashes_from-some (suc i) j s)

find_dashes_loop-dashes_from :
    (fuel i : ℕ) (s : Bytes) → length s ≤ fuel → find_dashes_loop fuel i s ≡ dashes_from i s
unfolding find_dashes_loop
find_dashes_loop-dashes_from zero i [] h = refl
find_dashes_loop-dashes_from zero i (c ∷ s) h = absurd (omega arith)
find_dashes_loop-dashes_from (suc fuel) i s h = elim (Option-cases (index_byte s dash)) [
  | inl e ↦ ground (arith, dashes_from-none i s e)
  | inr (j, e) ↦
      let shorter : length (drop (suc j) s) ≤ fuel =
        omega (arith, index_byte-lt j s e, length-drop {0} (suc j) s) in
      ground (
        arith,
        dashes_from-some i j s e,
        find_dashes_loop-dashes_from fuel (suc (i + j)) (drop (suc j) s) shorter,
      )
]

-- `find_dashes` lists the positions of all dashes, in order.
pub find_dashes-dashes_from : (s : Bytes) → find_dashes s ≡ dashes_from 0 s
unfolding find_dashes
find_dashes-dashes_from s = find_dashes_loop-dashes_from (length s) 0 s (omega arith)

-- Number `n` stands in a list.
abbrev pub In : ℕ → List ℕ → Type 0
In n [] = ⊥
In n (x ∷ xs) = (n ≡ x) ⊎ In n xs

abbrev pub Ascending : List ℕ → Type 0
Ascending [] = Unit
Ascending (x ∷ xs) = All (λ y. x < y) xs × Ascending xs

dashes_from-above : (i k : ℕ) (s : Bytes) → i ≤ k → All (λ y. i ≤ y) (dashes_from k s)
dashes_from-above i k [] h = tt
dashes_from-above i k (c ∷ s) h = ground (arith, dashes_from-above i (suc k) s)

dashes_from-Ascending : (i : ℕ) (s : Bytes) → Ascending (dashes_from i s)
dashes_from-Ascending i [] = tt
dashes_from-Ascending i (c ∷ s) =
    ground (arith, dashes_from-Ascending (suc i) s, dashes_from-above (suc i) (suc i) s)

n-cases : (i n : ℕ) → (n < i) ⊎ ((n ≡ i) ⊎ ((k : ℕ) × (n - i ≡ suc k)))
n-cases i n = elim (dec_lt n i) [
  | yes below ↦ inl below
  | no above ↦ elim (ℕ_discrete n i) [
    | yes same ↦ inr (inl same)
    | no other ↦ inr (inr (n - suc i, omega arith))
  ]
]

In-dashes_from :
    (i n : ℕ) (s : Bytes) → In n (dashes_from i s) → (i ≤ n) × (get_elem? s (n - i) ≡ some dash)
In-dashes_from i n [] h = absurd h
In-dashes_from i n (c ∷ s) h = elim (n-cases i n) [
  | inl below ↦ ground (arith, In-dashes_from (suc i) n s)
  | inr (inl same) ↦ ground (arith, In-dashes_from (suc i) n s)
  | inr (inr (k, above)) ↦ ground (arith, In-dashes_from (suc i) n s)
]

dashes_from-In : (i k : ℕ) (s : Bytes) → get_elem? s k ≡ some dash → In (i + k) (dashes_from i s)
dashes_from-In i k [] h = cc
dashes_from-In i zero (c ∷ s) h = ground arith
dashes_from-In i (suc k) (c ∷ s) h = ground (arith, dashes_from-In (suc i) k s)

-- The listed positions ascend, and position `n` is listed exactly when byte `n` of `s` is a dash.
pub find_dashes_exact :
    (s : Bytes) (n : ℕ)
    → Ascending (find_dashes s) × (In n (find_dashes s) ↔ (get_elem? s n ≡ some dash))
find_dashes_exact s n = rw (find_dashes-dashes_from s) (
  dashes_from-Ascending 0 s,
  (λ m. ground (arith, In-dashes_from 0 n s m), λ e. ground (arith, dashes_from-In 0 n s e)),
)

take-match_len : (k : ℕ) (a b : Bytes) → k ≤ match_len a b → take k a ≡ take k b
unfolding match_len
take-match_len zero a b h = refl
take-match_len (suc k) [] b h = absurd (omega arith)
take-match_len (suc k) (x ∷ a) [] h = absurd (omega arith)
take-match_len (suc k) (x ∷ a) (y ∷ b) h = ground (arith, take-match_len k a b)

match_len-le : (a b : Bytes) → (match_len a b ≤ length a) × (match_len a b ≤ length b)
unfolding match_len
match_len-le [] b = omega arith
match_len-le (x ∷ a) [] = omega arith
match_len-le (x ∷ a) (y ∷ b) = ground (arith, match_len-le a b)

le-match_len :
    (k : ℕ) (a b : Bytes) → k ≤ length a → k ≤ length b → take k a ≡ take k b → k ≤ match_len a b
unfolding match_len
le-match_len zero a b ha hb e = omega arith
le-match_len (suc k) [] b ha hb e = absurd (omega arith)
le-match_len (suc k) (x ∷ a) [] ha hb e = absurd (omega arith)
le-match_len (suc k) (x ∷ a) (y ∷ b) ha hb e = ground (arith, le-match_len k a b)

-- `match_len a b` is the length of the longest common prefix: `a` and `b` share `k` leading bytes
-- exactly for the `k` up to it.
pub match_len_longest :
    (a b : Bytes) (k : ℕ)
    → (k ≤ match_len a b) ↔ ((k ≤ length a) × (k ≤ length b) × (take k a ≡ take k b))
match_len_longest a b k = (
  λ h. (omega (arith, match_len-le a b), omega (arith, match_len-le a b), take-match_len k a b h),
  λ h. le-match_len k a b h.0 h.1 h.2,
)

-- Two texts with one prefix share at least that.
pub has_prefix-le-match_len :
    (a b p : Bytes) → has_prefix a p ≡ true → has_prefix b p ≡ true → length p ≤ match_len a b
unfolding match_len
has_prefix-le-match_len a b [] ha hb = omega arith
has_prefix-le-match_len [] b (c ∷ p) ha hb = cc
has_prefix-le-match_len (x ∷ a) [] (c ∷ p) ha hb = cc
has_prefix-le-match_len (x ∷ a) (y ∷ b) (c ∷ p) ha hb =
    ground (arith, has_prefix-le-match_len a b p)
