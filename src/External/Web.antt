-- ===== src/External/Web.antt =====
-- Requests over HTTP, by host and path, and the parser of narinfos.
use nix_sandwich.Prelude.{ℕ, ◌≡◌, refl, ◌⊎◌, inl, inr, Option, Bytes}
use nix_sandwich.External.NarInfo.{NarInfo}

pub data Reply : Type 0 where
  unreachable : Reply
  replied : ℕ → Bytes → Reply

pub record Web : Type 0 where
  pub get : Bytes → Bytes → Reply
  pub parse_info : Bytes → Option NarInfo

pub Reply-cases :
    (r : Reply) → (r ≡ unreachable) ⊎ ((status : ℕ) × (body : Bytes) × (r ≡ replied status body))
Reply-cases unreachable = inl refl
Reply-cases (replied status body) = inr (status, body, refl)
