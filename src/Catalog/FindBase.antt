-- ===== src/Catalog/FindBase.antt =====
-- `findBase` of catalog.go. The hash of a signer's name under the process's seed, the encoding of
-- nixbase32 and the listing of a store path are parameters; the cache of systems is passed along.
pub mod Best
pub mod Candidates
pub mod Chosen
pub mod Similar
use nix_sandwich.Prelude.{
  ℕ, suc, ◌+◌, Bool, true, false, not, ◌&&◌, ◌||◌, Option, none, some, List, [], ◌∷◌, ◌++◌, Bytes,
  codes, length, take, bytes_eq, ltb, leb, ◌==◌, if◌then◌else◌, Outcome, ok, err, panic,
}
use nix_sandwich.External.Lru.{Lru}
use nix_sandwich.External.NarInfo.{NarInfo}
use nix_sandwich.SysChecker.Systems.{PresenceFunc}
use nix_sandwich.SysChecker.Presence.{store_dir}
use nix_sandwich.SysChecker.Batch.{get_sys_from_nar_info}
use nix_sandwich.Catalog.Names.{find_dashes, match_len}
use nix_sandwich.Catalog.Item.{BtItem, bare_item}
use nix_sandwich.Catalog.Patterns.{match_any, use_expand_nar_res}
use nix_sandwich.Catalog.Index.{BTree}

pub record CatalogResult : Type 0 where
  pub store_path : Bytes
  pub nar_filter : Bytes
  pub nar_size : ℕ

pub data FindError : Type 0 where
  name_too_short cant_handle_source no_base_found : FindError

abbrev pub nar_filter_expand_v2 : Bytes
nar_filter_expand_v2 = codes "expv2"

-- Up to the first dash, and with it.
unfoldable pub start_of : Bytes → List ℕ → Bytes
start_of req [] = req
start_of req (d ∷ dashes) = take (suc d) req

-- The test of the callback: system, signer and number of dashes.
unfoldable pub is_candidate : ℕ → ℕ → ℕ → BtItem → Bool
is_candidate req_sys want_signer_hash dashes i =
    i.sys == req_sys
    && (want_signer_hash == 0 || i.signer_hash == want_signer_hash)
    && length (find_dashes i.rest) == dashes

-- The callback over the items of the range: the last best one is kept, with its match.
unfoldable pub scan : (BtItem → Bool) → Bytes → List BtItem → ℕ → BtItem → BtItem
scan candidate req [] bestmatch best = best
scan candidate req (i ∷ items) bestmatch best =
    let match = match_len req i.rest in
    let better = candidate i && leb bestmatch match in
    scan candidate req items (if better then match else bestmatch) (if better then i else best)

unfoldable pub found : (Bytes → Bytes) → Bytes → BtItem → Outcome FindError CatalogResult
found encode_string req best =
    if bytes_eq best.rest []
    then err no_base_found
    else ok (record {
      store_path = store_dir ++ b'/' ∷ (encode_string best.hash ++ b'-' ∷ best.rest);
      nar_filter = if match_any use_expand_nar_res best.rest then nar_filter_expand_v2 else [];
      nar_size = best.nar_size;
    })

-- `wantSignerHash`: zero if there is no signature.
unfoldable pub want_signer : (Bytes → ℕ) → NarInfo → ℕ
want_signer signer_hash ni = elim ni.signatures [ [] ↦ 0 | name ∷ names ↦ signer_hash name ]

module _ (bt : BTree) where
  open bt use {Tree, ascend_range}

  -- The walk over the range, for a system that is known.
  unfoldable pub choose_base : Tree → ℕ → ℕ → Bytes → BtItem
  unfolding scan start_of is_candidate
  choose_base t req_sys want req =
      let dashes = find_dashes req in
      let start = start_of req dashes in
      scan (is_candidate req_sys want (length dashes)) req
        (ascend_range t (bare_item start) (bare_item (start ++ 0xff ∷ []))) 0 (bare_item [])

  module _ (lru : Lru ℕ) (signer_hash : Bytes → ℕ) (encode_string : Bytes → Bytes)
      (listing : Bytes → Option PresenceFunc) where
    open lru use {Cache}

    unfoldable pub find_base :
        Tree → Cache → NarInfo → Bytes → Outcome FindError CatalogResult × Cache
    unfolding choose_base found want_signer
    find_base t c ni req =
        if ltb (length req) 3
        then (err name_too_short, c)
        else if bytes_eq req (codes "source")
        then (err cant_handle_source, c)
        else elim (get_sys_from_nar_info lru listing c ni) [
          | none ↦ (panic, c)
          | some (req_sys, c') ↦
              (found encode_string req (choose_base t req_sys (want_signer signer_hash ni) req), c')
        ]
