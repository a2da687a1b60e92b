-- ===== src/Subst/Types.antt =====
-- The structs of config.go, differ.go, analytics.go and subst.go that a request for a narinfo fills,
-- and what upstream answers.
use nix_sandwich.Prelude.{ℕ, Bool, Option, List, Bytes}
use nix_sandwich.External.NarInfo.{NarInfo}

-- The part of `config` that the substituter reads here. The sizes are not negative.
pub record Config : Type 0 where
  pub min_file_size : ℕ
  pub max_file_size : ℕ
  pub max_nar_size : ℕ
  pub diff_algo : Bytes
  pub upstream : Bytes

-- `differRequest`. The sizes are int64, and stand here as their 64 bits.
pub record DifferRequest : Type 0 where
  pub req_nar_path : Bytes
  pub base_store_path : Bytes
  pub accept_algos : List Bytes
  pub nar_filter : Bytes
  pub upstream : Bytes
  pub base_nar_size : ℕ
  pub req_nar_size : ℕ
  pub req_name : Bytes

-- `recent`, before it has statistics.
pub record Recent : Type 0 where
  pub id : Bytes
  pub request : DifferRequest

-- `AnRequest`
pub record AnRequest : Type 0 where
  pub id : Bytes
  pub req_store_path : Bytes
  pub base_store_path : Bytes
  pub nar_size : ℕ
  pub file_size : ℕ
  pub failed : Bytes
  pub differ_request : Option DifferRequest

-- What a request to upstream came to: an error, or a status and what `narinfo.Parse` makes of the body.
pub data Response : Type 0 where
  unreachable : Response
  replied : ℕ → Option NarInfo → Response

-- A status, a message, whether there is an error besides, and what the client had been sent before.
pub record Refusal : Type 0 where
  pub status : ℕ
  pub message : Bytes
  pub has_error : Bool
  pub written : Bytes
