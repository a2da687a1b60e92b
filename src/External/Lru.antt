-- ===== src/External/Lru.antt =====
-- The cache of github.com/golang/groupcache/lru, as sysChecker and subst use it.
use nix_sandwich.Prelude.{◌≡◌, ◌≢◌, ◌⊎◌, Option, none, some, Bytes}

-- `get` is what `Get` returns and `touch` the cache it leaves, with the key moved to the front.
-- `add` may evict another key, never the one added: the program's caches hold 10000 entries.
pub record Lru (V : Type 0) : Type 1 where
  pub Cache : Type 0
  pub get : Cache → Bytes → Option V
  pub touch : Cache → Bytes → Cache
  pub add : Cache → Bytes → V → Cache
  pub get-touch : (c : Cache) (k j : Bytes) → get (touch c k) j ≡ get c j
  pub get-add_self : (c : Cache) (k : Bytes) (v : V) → get (add c k v) k ≡ some v
  pub get-add_other :
      (c : Cache) (k j : Bytes) (v : V)
      → j ≢ k
      → (get (add c k v) j ≡ none) ⊎ (get (add c k v) j ≡ get c j)
