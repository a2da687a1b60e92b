-- ===== src/Catalog/Trees.antt =====
-- The trees of the catalog as catalog.go holds them: by pointer, with the one that is stored in `c.bt`
-- and those that `Clone` made. A write goes to the tree behind a pointer, so a tree is shared by all who
-- hold its pointer.
use nix_sandwich.Prelude.{ℕ, zero, ◌+◌, ◌<◌, ◌==◌, if◌then◌else◌}

-- The stored pointer, the next one that is free, and what is behind each.
pub record Trees {ℓ} (T : Type ℓ) : Type ℓ where
  pub stored : ℕ
  pub next : ℕ
  pub tree_at : ℕ → T

module _ {ℓ} {T : Type ℓ} where
  -- `c.bt.Load()`, and the tree behind it.
  abbrev pub loaded : Trees T → T
  loaded h = h.tree_at h.stored

  -- What is behind a pointer is changed.
  abbrev pub set_tree : Trees T → ℕ → T → Trees T
  set_tree h p t = record {
    stored = h.stored;
    next = h.next;
    tree_at = λ q. if q == p then t else h.tree_at q;
  }

  -- `Clone`: a new pointer to a copy.
  abbrev pub clone : Trees T → ℕ → ℕ × Trees T
  clone h p = (
    h.next,
    record {
      stored = h.stored;
      next = h.next + 1;
      tree_at = λ q. if q == h.next then h.tree_at p else h.tree_at q;
    },
  )

  -- `c.bt.Store`
  abbrev pub store_tree : Trees T → ℕ → Trees T
  store_tree h p = record { stored = p; next = h.next; tree_at = h.tree_at }

  -- `newCatalog`, for the empty tree.
  abbrev pub new_catalog : T → Trees T
  new_catalog t = record { stored = zero; next = 1; tree_at = λ q. t }

  -- The stored pointer is one that was given out.
  abbrev pub IsOwned : Trees T → Type 0
  IsOwned h = h.stored < h.next
