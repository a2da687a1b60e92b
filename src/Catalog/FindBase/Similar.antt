-- ===== src/Catalog/FindBase/Similar.antt =====
-- The base that `findBase` returns resembles the requested path.
use nix_sandwich.Prelude.{
  ℕ, zero, suc, ◌≤◌, ◌≡◌, refl, inl, inr, true, Option, List, [], ◌∷◌, ◌++◌, arith, Bytes, length,
  take, bytes_eq, has_prefix, Bool-cases, ok,
}
use nix_sandwich.External.Lru.{Lru}
use nix_sandwich.External.NarInfo.{NarInfo}
use nix_sandwich.SysChecker.Systems.{PresenceFunc}
use nix_sandwich.SysChecker.Presence.{store_dir}
use nix_sandwich.Catalog.Names.{find_dashes, match_len, has_prefix-le-match_len}
use nix_sandwich.Catalog.Item.{BtItem}
use nix_sandwich.Catalog.Index.{BTree}
use nix_sandwich.Catalog.FindBase.{CatalogResult, start_of, want_signer, found, find_base}
use nix_sandwich.Catalog.FindBase.Chosen.{find_base_best, best-has_prefix}

has_prefix_self : (s : Bytes) → has_prefix s s ≡ true
has_prefix_self [] = refl
has_prefix_self (c ∷ s) = ground (arith, has_prefix_self s)

has_prefix-take : (n : ℕ) (s : Bytes) → has_prefix s (take n s) ≡ true
has_prefix-take zero s = refl
has_prefix-take (suc n) [] = refl
has_prefix-take (suc n) (c ∷ s) = ground (arith, has_prefix-take n s)

has_prefix-start_of : (req : Bytes) (dashes : List ℕ) → has_prefix req (start_of req dashes) ≡ true
unfolding start_of
has_prefix-start_of req [] = has_prefix_self req
has_prefix-start_of req (d ∷ dashes) = has_prefix-take (suc d) req

found-path :
    (encode_string : Bytes → Bytes) (req : Bytes) (b : BtItem) (r : CatalogResult)
    → found encode_string req b ≡ ok r
    → (r.store_path ≡ store_dir ++ b'/' ∷ (encode_string b.hash ++ b'-' ∷ b.rest))
      × (r.nar_size ≡ b.nar_size)
unfolding found
found-path encode_string req b r h = elim (Bool-cases (bytes_eq b.rest [])) [
  | inl e ↦ cc (rw e at h)
  | inr e ↦ ground (arith, h)
]

-- The path of a base that `findBase` returns is the store directory, a hash and a name, and the name
-- has as many dashes as the requested one and begins with all of it up to its first dash (all of it,
-- if it has none), so that the two share at least these bytes.
pub find_base_similar :
    (bt : BTree) (lru : Lru ℕ) (signer_hash : Bytes → ℕ) (encode_string : Bytes → Bytes)
    (listing : Bytes → Option PresenceFunc) (t : bt.Tree) (c c' : lru.Cache) (ni : NarInfo)
    (req : Bytes) (r : CatalogResult)
    → find_base bt lru signer_hash encode_string listing t c ni req ≡ (ok r, c')
    → (hash name : Bytes) × (r.store_path ≡ store_dir ++ b'/' ∷ (hash ++ b'-' ∷ name))
      × (length (find_dashes name) ≡ length (find_dashes req))
      × (has_prefix name (start_of req (find_dashes req)) ≡ true)
      × (length (start_of req (find_dashes req)) ≤ match_len req name)
find_base_similar bt lru signer_hash encode_string listing t c c' ni req r h =
    let (sys, best, e, last_best, f) =
      find_base_best bt lru signer_hash encode_string listing t c c' ni req r h in
    let prefix = best-has_prefix (bt.items t) sys (want_signer signer_hash ni) req best last_best in
    (
      encode_string best.hash,
      best.rest,
      (found-path encode_string req best r f).0,
      last_best.chosen.2,
      prefix,
      has_prefix-le-match_len req best.rest _ (has_prefix-start_of req (find_dashes req)) prefix,
    )
