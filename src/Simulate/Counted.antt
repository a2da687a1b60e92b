-- ===== src/Simulate/Counted.antt =====
-- The counters of a simulation: every name that is asked for is counted once, in any order.
use nix_sandwich.Prelude.{
  ℕ, suc, ◌+◌, ◌-◌, ◌%◌, ◌^◌, ◌≤◌, ◌≡◌, refl, ◌∙◌, ap, arith, true, false, Option, some, List, [],
  ◌∷◌, Bytes, length, slice_from, split, All, le→ltb, ok, err, panic, Bool-cases, inl, inr,
}
use mathlib.Core.List.{Perm, Permᴰ}
use mathlib.Core.Logic.{∥∥₁_elim}
use native.Mathlib.Nat.{ℕ_set}
use nix_sandwich.External.Lru.{Lru}
use nix_sandwich.External.Base32.{Base32}
use nix_sandwich.SysChecker.Systems.{PresenceFunc}
use nix_sandwich.SysChecker.Batch.{PathInfo}
use nix_sandwich.Catalog.Index.{BTree}
use nix_sandwich.Subst.Site.{Site}
use nix_sandwich.Subst.Site.Direct.{request}
use nix_sandwich.Simulate.{
  is_blank, skipped, wanted, Result, perform, Counters, count_result, count_results, Summary,
  no_counts, int32_add, with_tree, load_bases, run_lines, simulate,
}

length-Permᴰ : {A : Type 0} {xs ys : List A} → Permᴰ xs ys → length xs ≡ length ys
length-Permᴰ Permᴰ.nil = refl
length-Permᴰ (Permᴰ.cons e d) = ap suc (length-Permᴰ d)
length-Permᴰ (Permᴰ.swap e f) = refl
length-Permᴰ (Permᴰ.trans d e) = length-Permᴰ d ∙ length-Permᴰ e

length-Perm : {A : Type 0} (xs ys : List A) → Perm xs ys → length xs ≡ length ys
length-Perm xs ys p = ∥∥₁_elim p (ℕ_set (length xs) (length ys)) length-Permᴰ

length-skipped : (lines : List Bytes) → length lines ≡ skipped lines + length (wanted lines)
unfolding skipped wanted
length-skipped [] = omega arith
length-skipped (line ∷ lines) = elim (Bool-cases (is_blank line)) [
  | inl blank ↦ rw blank (omega (arith, length-skipped lines))
  | inr name ↦ rw name (omega (arith, length-skipped lines))
]

length-perform :
    {S : Type 0} (site : Site S) (ids : ℕ → Bytes) (n : ℕ) (reqs : List Bytes)
    (recents : site.lru.Cache) (s : S)
    → length (perform site ids n reqs recents s) ≡ length reqs
unfolding perform
length-perform site ids n [] recents s = refl
length-perform site ids n (req ∷ reqs) recents s =
    let after = request site (ids n) req recents s in
    ap suc (length-perform site ids (suc n) reqs after.2 after.3)

-- A result that is no crash, of a request whose name has a hash and a dash in front.
abbrev pub IsFine : Result → Type 0
IsFine (req, ok stats) = 33 ≤ length req
IsFine (req, err e) = Unit
IsFine (req, panic) = false ≡ true

-- The counters behind `n` results more.
abbrev IsCounted : Counters → ℕ → Counters → Type 0
IsCounted k n k' = (k'.success + k'.errors) % 2 ^ 32 ≡ (k.success + k.errors + n) % 2 ^ 32

count_result-IsCounted :
    (k : Counters) (result : Result)
    → IsFine result
    → (k' : Counters) × (count_result k result ≡ some k') × IsCounted k 1 k'
unfolding slice_from
count_result-IsCounted k (req, ok stats) long = (
  record k { success = int32_add k.success 1 },
  rw (count_result, slice_from, le→ltb (length req) 33 long),
  omega arith,
)
count_result-IsCounted k (req, err e) fine =
    (record k { errors = int32_add k.errors 1 }, refl, omega arith)
count_result-IsCounted k (req, panic) fine = cc

count_results-IsCounted :
    (k : Counters) (results : List Result)
    → All IsFine results
    → (k' : Counters) × (count_results k results ≡ some k') × IsCounted k (length results) k'
unfolding count_results
count_results-IsCounted k [] fine = (k, refl, omega arith)
count_results-IsCounted k (result ∷ results) (fine, rest) =
    let (k1, made, one) = count_result-IsCounted k result fine in
    let (k2, done, more) = count_results-IsCounted k1 results rest in
    (k2, rw (made, count_results) done, omega (arith, one, more))

module _ (b32 : Base32) (bt : BTree) (lru : Lru ℕ) (signer_hash : Bytes → ℕ)
    (local listing : Bytes → Option PresenceFunc)
    (path_info : List Bytes → Option (List PathInfo)) where
  open bt use {Tree}
  open lru use {Cache}

  -- In any order of the requests, where the bases could be loaded and no request crashes or has a name
  -- shorter than its hash and a dash, the simulation comes to its end: its paths are the lines that are
  -- not blank, and each is counted once, as diffed or as an error, modulo 2 ^ 32.
  pub simulate-adds_up :
      (site : Site Cache) (ids : ℕ → Bytes) (schedule : List Bytes → List Bytes) (req base : Bytes)
      (c c' : Cache) (recents : site.lru.Cache) (t : Tree)
      → ((xs : List Bytes) → Perm (schedule xs) xs)
      → load_bases b32 bt lru signer_hash local listing path_info c base ≡ some (t, c')
      → All IsFine (
          perform
            (with_tree b32 bt lru signer_hash local listing path_info site t)
            ids
            0
            (schedule (wanted (split req b'\n')))
            recents
            c')
      → (sum : Summary) × (simulate b32 bt lru signer_hash local listing path_info site ids schedule
            (some req)
            (some base)
            c
            recents
          ≡ ok sum)
        × (sum.paths ≡ length (wanted (split req b'\n')))
        × ((sum.diffed + sum.errors) % 2 ^ 32 ≡ sum.paths % 2 ^ 32)
  unfolding simulate run_lines
  simulate-adds_up site ids schedule req base c c' recents t order loaded fine =
      let lines = split req b'\n' in
      let reqs = schedule (wanted lines) in
      let here = with_tree b32 bt lru signer_hash local listing path_info site t in
      let (k, made, counted) = count_results-IsCounted no_counts _ fine in
      let same = length-Perm reqs (wanted lines) (order (wanted lines)) in
      let each = length-perform here ids 0 reqs recents c' in
      let all = length-skipped lines in
      (
        record { paths = length lines - skipped lines; diffed = k.success; errors = k.errors },
        rw (loaded, simulate, made),
        omega (arith, all),
        omega (arith, all, each, same, counted),
      )
