-- ===== src/Core/Types.antt =====
-- core/objects.go and probs/probs.go: the objects that the components exchange. JSON names, and
-- the fields that only describe an object to a person, are left out.
use boulder.Prelude.Text.{Text}
use boulder.Prelude.Int.{ℤ}
use boulder.Prelude.{ℕ, Bool, true, false, Option, List}

-- `no_status` is the empty string, the zero value.
pub data AcmeStatus : Type 0 where
  no_status unknown pending processing valid invalid revoked deactivated : AcmeStatus

abbrev pub is_pending : AcmeStatus → Bool
is_pending pending = true
is_pending _ = false

abbrev pub is_valid : AcmeStatus → Bool
is_valid valid = true
is_valid _ = false

abbrev pub is_invalid : AcmeStatus → Bool
is_invalid invalid = true
is_invalid _ = false

abbrev pub is_revoked : AcmeStatus → Bool
is_revoked revoked = true
is_revoked _ = false

pub data IdentifierType : Type 0 where
  dns : IdentifierType
  other_identifier : Text → IdentifierType

abbrev pub is_dns : IdentifierType → Bool
is_dns dns = true
is_dns (other_identifier t) = false

pub record AcmeIdentifier : Type 0 where
  pub kind : IdentifierType
  pub value : Text

pub data ChallengeType : Type 0 where
  http_01 tls_sni_01 tls_sni_02 dns_01 : ChallengeType
  other_challenge : Text → ChallengeType

-- probs.ProblemDetails
pub record ProblemDetails : Type 0 where
  pub problem_type : Text
  pub detail : Text
  pub http_status : ℕ

-- An address that is nil is none.
pub record ValidationRecord : Type 0 where
  pub authorities : List Text
  pub url : Text
  pub hostname : Text
  pub port : Text
  pub addresses_resolved : List Text
  pub address_used : Option Text

pub record Challenge : Type 0 where
  pub id : ℕ
  pub kind : ChallengeType
  pub status : AcmeStatus
  pub error : Option ProblemDetails
  pub uri : Text
  pub token : Text
  pub provided_key_authorization : Text
  pub validation_record : List ValidationRecord

-- A time is a number of nanoseconds; nil is none.
pub record Authorization : Type 0 where
  pub id : Text
  pub identifier : AcmeIdentifier
  pub registration_id : ℤ
  pub status : AcmeStatus
  pub expires : Option ℤ
  pub challenges : List Challenge
  pub combinations : List (List ℕ)

-- A key is the bytes of its encoding. A contact list that is nil is none.
pub record Registration : Type 0 where
  pub id : ℤ
  pub key : Text
  pub contact : Option (List Text)
  pub agreement : Text
  pub initial_ip : Text
  pub created_at : ℤ
  pub status : AcmeStatus
