-- ===== src/Foundry/Session.antt =====
-- internal/foundry/session.go
use agent_runtime_foundry.Base.{ℕ, String, Bool, ◌||◌, ◌==◌, nat_eq}

pub record VersionIndicator : Type 0 where
  pub type_name : String
  pub version : String

pub record RemoteSession : Type 0 where
  pub id : String
  pub version : VersionIndicator
  pub status : String

-- DefiniteRejection: the statuses that prove a request was not admitted.
unfoldable pub definite_rejection : ℕ → Bool
definite_rejection status =
    status == 400
    || status == 401
    || status == 403
    || status == 404
    || status == 405
    || status == 413
    || status == 415
    || status == 422
    || status == 429
