-- ===== src/Csr/Defs.antt =====
-- csr/csr.go: VerifyCSR and normalizeCSR. What crypto/x509 finds out about the request is part of it;
-- the key policy and the policy authority are arguments.
use boulder.Prelude.Text.{Text, to_lower}
use boulder.Prelude.{
  ℕ, Bool, true, false, not, ◌&&◌, Option, none, some, List, [], ◌∷◌, ◌++◌, if◌then◌else◌, length,
  ltb,
}
use boulder.Core.Objects.{is_empty}
use boulder.Core.Types.{AcmeIdentifier, dns}
use boulder.Core.Names.{unique_lower_names}
use boulder.Errors.{Error, plain_error}

pub data SignatureAlgorithm : Type 0 where
  unknown_signature_algorithm md2_with_rsa md5_with_rsa sha1_with_rsa sha256_with_rsa :
      SignatureAlgorithm
  sha384_with_rsa sha512_with_rsa dsa_with_sha1 dsa_with_sha256 ecdsa_with_sha1 : SignatureAlgorithm
  ecdsa_with_sha256 ecdsa_with_sha384 ecdsa_with_sha512 : SignatureAlgorithm

-- A public key that is nil is none.
pub record CertificateRequest : Type 0 where
  pub public_key : Option Text
  pub signature_algorithm : SignatureAlgorithm
  pub signature_valid : Bool
  pub email_addresses : List Text
  pub ip_addresses : List Text
  pub dns_names : List Text
  pub common_name : Text

abbrev pub max_cn_length : ℕ
max_cn_length = 64

-- badSignatureAlgorithms
unfoldable pub bad_signature_algorithm : SignatureAlgorithm → Bool
bad_signature_algorithm unknown_signature_algorithm = true
bad_signature_algorithm md2_with_rsa = true
bad_signature_algorithm md5_with_rsa = true
bad_signature_algorithm dsa_with_sha1 = true
bad_signature_algorithm dsa_with_sha256 = true
bad_signature_algorithm ecdsa_with_sha1 = true
bad_signature_algorithm _ = false

abbrev first_or : Text → List Text → Text
first_or d [] = d
first_or d (n ∷ ns) = n

-- The request before its names are lowered: a name hoisted into an empty CN, or the CN added.
unfoldable pub hoist : CertificateRequest → Bool → CertificateRequest
hoist csr force_cn_from_san =
    if force_cn_from_san && is_empty csr.common_name
    then record csr { common_name = first_or csr.common_name csr.dns_names }
    else if not (is_empty csr.common_name)
    then record csr { dns_names = csr.dns_names ++ csr.common_name ∷ [] }
    else csr

unfoldable pub normalize_csr : CertificateRequest → Bool → CertificateRequest
normalize_csr csr force_cn_from_san =
    let h = hoist csr force_cn_from_san in
    record h { common_name = to_lower h.common_name; dns_names = unique_lower_names h.dns_names }

-- The names that the policy authority refuses.
unfoldable pub bad_names : (AcmeIdentifier → Option Error) → List Text → List Text
bad_names willing [] = []
bad_names willing (n ∷ ns) = elim (willing (record { kind = dns; value = n })) [
  | none ↦ bad_names willing ns
  | some e ↦ n ∷ bad_names willing ns
]

abbrev key_error : (Text → Option Error) → Option Text → Option Error
key_error good_key none = some (plain_error "invalid public key in CSR")
key_error good_key (some key) = elim (good_key key) [
  | none ↦ none
  | some e ↦ some (plain_error "invalid public key in CSR: %s")
]

-- The checks of VerifyCSR on the normalized request; none is success.
unfoldable pub check_csr :
    CertificateRequest → ℕ → (Text → Option Error) → (AcmeIdentifier → Option Error) → Option Error
check_csr csr max_names good_key willing = elim (key_error good_key csr.public_key) [
  | some e ↦ some e
  | none ↦
      if bad_signature_algorithm csr.signature_algorithm
      then some (plain_error "signature algorithm not supported")
      else if not csr.signature_valid
      then some (plain_error "invalid signature on CSR")
      else if not (is_empty csr.email_addresses)
      then some (plain_error "CSR contains one or more email address fields")
      else if not (is_empty csr.ip_addresses)
      then some (plain_error "CSR contains one or more IP address fields")
      else if is_empty csr.dns_names && is_empty csr.common_name
      then some (plain_error "at least one DNS name is required")
      else if ltb max_cn_length (length csr.common_name)
      then some (plain_error "CN was longer than %d bytes")
      else if ltb 0 max_names && ltb max_names (length csr.dns_names)
      then some (plain_error "CSR contains more than %d DNS names")
      else if not (is_empty (bad_names willing csr.dns_names))
      then some (plain_error "policy forbids issuing for: %s")
      else none
]

-- VerifyCSR: the request as it leaves it, and the error.
unfoldable pub verify_csr :
    CertificateRequest
    → ℕ
    → (Text → Option Error)
    → (AcmeIdentifier → Option Error)
    → Bool
    → CertificateRequest × Option Error
verify_csr csr max_names good_key willing force_cn_from_san =
    let csr' = normalize_csr csr force_cn_from_san in
    (csr', check_csr csr' max_names good_key willing)
