-- ===== src/Ra/Config.antt =====
-- ra/ra.go: the settings of the registration authority, and what it asks of other components.
-- Times and durations are numbers of nanoseconds.
use boulder.Prelude.Int.{ℤ, pos}
use boulder.Prelude.{ℕ, ◌*◌, Bool}
use boulder.Errors.{Error}
use boulder.Core.Types.{ProblemDetails}
use boulder.Ratelimit.{Limits}

pub record Config : Type 0 where
  pub authorization_lifetime : ℤ
  pub pending_authorization_lifetime : ℤ
  pub reuse_valid_authz : Bool
  pub force_cn_from_san : Bool
  pub max_names : ℕ
  pub max_contacts_per_reg : ℕ
  pub limits : Limits

abbrev pub second : ℕ
second = 1000000000

abbrev pub minutes_5 : ℤ
minutes_5 = pos (5 * 60 * second)

abbrev pub hours_24 : ℤ
hours_24 = pos (24 * 60 * 60 * second)

-- noRegistrationID
abbrev pub no_registration_id : ℤ
no_registration_id = ℤ.negsuc 0

-- The error of VA.PerformValidation: none, a *probs.ProblemDetails, or another error.
pub data VaError : Type 0 where
  no_va_error : VaError
  problem : ProblemDetails → VaError
  va_failure : Error → VaError
