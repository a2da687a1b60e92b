-- ===== src/Subst/Recents.antt =====
-- `getRecent`, `putRecent`, and the start of `getNar`: the request for a nar whose url was rewritten.
use nix_sandwich.Prelude.{
  false, not, ◌||◌, Option, none, some, [], Bytes, codes, bytes_eq, has_suffix, if◌then◌else◌,
  Outcome, ok, err,
}
use nix_sandwich.Prelude.Paths.{path_split}
use nix_sandwich.External.Lru.{Lru}
use nix_sandwich.Subst.Types.{Recent, Refusal}

module _ (lru : Lru Recent) where
  open lru use {Cache, get, touch, add}

  unfoldable pub get_recent : Cache → Bytes → Option Recent × Cache
  get_recent recents name = (get recents name, touch recents name)

  unfoldable pub put_recent : Cache → Bytes → Recent → Cache
  put_recent recents name r = add recents name r

  -- `getNar` up to `getNarCommon`: the record that the nar is made from.
  unfoldable pub find_nar : Cache → Bytes → Bytes → Outcome Refusal Recent × Cache
  unfolding get_recent path_split
  find_nar recents method url_path =
      if not (bytes_eq method (codes "GET"))
      then (err (record { status = 405; message = []; has_error = false; written = [] }), recents)
      else (let (dir, name) = path_split url_path in
          if not (bytes_eq dir (codes "/nar/")) || not (has_suffix name (codes ".nar"))
          then (
            err (record { status = 404; message = []; has_error = false; written = [] }),
            recents,
          )
          else (let (found, recents') = get_recent recents name in
              elim found [
                | none ↦ (
                  err (record {
                    status = 404;
                    message = codes "no recent found";
                    has_error = false;
                    written = [];
                  }),
                  recents',
                )
                | some r ↦ (ok r, recents')
              ]))
