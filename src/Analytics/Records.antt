-- ===== src/Analytics/Records.antt =====
-- `AnRecord` of analytics.go: a line of the log.
use nix_sandwich.Prelude.{Bytes, List, [], ◌∷◌}
use nix_sandwich.Algo.Stats.{DiffStats}
use nix_sandwich.Subst.Types.{AnRequest}

-- A request, a delta with its id and statistics, or neither. The substituter always writes statistics.
pub data AnRecord : Type 0 where
  request_record : AnRequest → AnRecord
  delta_record : Bytes → DiffStats → AnRecord
  neither : AnRecord

-- The requests that a handler logs, as records.
abbrev pub request_records : List AnRequest → List AnRecord
request_records [] = []
request_records (r ∷ rs) = request_record r ∷ request_records rs
