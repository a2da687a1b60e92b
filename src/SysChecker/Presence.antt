-- ===== src/SysChecker/Presence.antt =====
-- `localPresence` and `listingPresence`: two ways to ask what stands at a path inside a store path.
use nix_sandwich.Prelude.{
  Option, none, some, List, [], ◌∷◌, ◌++◌, Bytes, codes, take, split, bytes_eq, if◌then◌else◌,
}
use nix_sandwich.SysChecker.Systems.{
  NodeType, absent, regular, directory, symlink, other, PresenceFunc,
}

abbrev pub store_dir : Bytes
store_dir = codes "/nix/store"

-- `fi.Mode().Type()`
pub data FileMode : Type 0 where
  mode_regular mode_dir mode_symlink mode_special : FileMode

mode_type : Option FileMode → NodeType
mode_type none = absent
mode_type (some mode_regular) = regular
mode_type (some mode_dir) = directory
mode_type (some mode_symlink) = symlink
mode_type (some mode_special) = other

-- `lstat` answers none where `os.Lstat` fails.
unfoldable pub local_presence : (Bytes → Option FileMode) → Bytes → Option PresenceFunc
unfolding mode_type
local_presence lstat store_name =
    some (λ p. mode_type (lstat (store_dir ++ b'/' ∷ (store_name ++ b'/' ∷ p))))

-- A node of a parsed listing and its entries.
mutual
  pub data Node : Type 0 where
    node : NodeType → Entries → Node

  pub data Entries : Type 0 where
    nil : Entries
    entry : Bytes → Node → Entries → Entries

node_type : Node → NodeType
node_type (node t es) = t

entries : Node → Entries
entries (node t es) = es

-- `node.Entries[part]`
find_entry : Entries → Bytes → Option Node
find_entry nil part = none
find_entry (entry name n es) part = if bytes_eq name part then some n else find_entry es part

walk : List Bytes → Node → NodeType
unfolding node_type entries find_entry
walk [] n = node_type n
walk (part ∷ parts) n = elim (find_entry (entries n) part) [
  | none ↦ absent
  | some child ↦ walk parts child
]

-- `list_request` fetches and parses the listing of a store hash, and answers none on any error.
unfoldable pub listing_presence : (Bytes → Option Node) → Bytes → Option PresenceFunc
unfolding walk
listing_presence list_request store_name = elim (list_request (take 32 store_name)) [
  | none ↦ none
  | some root ↦ some (λ p. walk (split p b'/') root)
]
