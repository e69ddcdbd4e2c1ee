-- ===== src/Ra/Issue.antt =====
-- ra/ra.go: checkAuthorizations and NewCertificate. The CA, the parser of certificates, the
-- comparison of public keys and the accounts are arguments; logging, metrics and the submission to CT
-- logs, whose outcome is dropped, are left out.
use boulder.Prelude.Text.{Text, text_Eq, to_lower}
use boulder.Prelude.Int.{ℤ, pos, ltb_ℤ, ◌-ℤ◌, int_eq}
use boulder.Prelude.Sorting.{sort_strings}
use boulder.Prelude.{
  ℕ, Bool, true, false, not, ◌&&◌, ◌||◌, Option, none, some, List, [], ◌∷◌, ◌++◌, if◌then◌else◌,
  ◌==◌, map, nat_beq,
}
use boulder.Errors.{
  Error, Result, ok, err, ◌>>=◌, ◌>>◌, require, boulder_error, malformed, unauthorized,
  internal_server, message,
}
use boulder.Features.{Flags}
use boulder.Core.Types.{Authorization, Registration}
use boulder.Core.Objects.{is_empty}
use boulder.Core.Names.{unique_lower_names}
use boulder.Csr.Defs.{CertificateRequest, verify_csr}
use boulder.Sa.Db.{Db}
use boulder.Sa.Queries.{get_valid_authorizations, by_name}
use boulder.Policy.Defs.{Names, AuthorityImpl, willing_to_issue}
use boulder.Ra.Config.{Config, hours_24}
use boulder.Ra.Limits.{Counts, TotalIssued, check_limits}

-- What one name's entry in the map says: bad, fine, or an error.
unfoldable pub judge : ℤ → Option Authorization → Result Bool
judge now none = ok false
judge now (some authz) = elim authz.expires [
  | none ↦
      err (boulder_error internal_server "found an authorization with a nil Expires field: id %s")
  | some t ↦ ok (not (ltb_ℤ t now))
]

-- The loop of checkAuthorizations that collects the bad names.
unfoldable pub bad_names : ℤ → List Authorization → List Text → Result (List Text)
bad_names now auths [] = ok []
bad_names now auths (n ∷ ns) = judge now (by_name n auths) >>= λ good.
    bad_names now auths ns >>= λ rest. ok (if good then rest else n ∷ rest)

unfoldable pub check_authorizations : Option Error → Db → ℤ → List Text → ℤ → Result (Unit {0})
check_authorizations fault db now names reg_id = do
  let lowered = map to_lower names
  auths ← get_valid_authorizations fault db reg_id lowered now
  bad ← bad_names now auths lowered
  require (is_empty bad)
      (boulder_error unauthorized "authorizations for these names not found or expired: %s")

-- The parts of an x509.Certificate that the registration authority looks at. The subject fields
-- are the country, organization and so on; a usage is the number of an x509.ExtKeyUsage.
pub record Certificate : Type 0 where
  pub public_key : Option Text
  pub common_name : Text
  pub dns_names : List Text
  pub ip_addresses : List Text
  pub email_addresses : List Text
  pub subject_fields : List Text
  pub not_before : ℤ
  pub basic_constraints_valid : Bool
  pub is_ca : Bool
  pub ext_key_usage : List ℕ

abbrev pub same_texts : List Text → List Text → Bool
same_texts [] [] = true
same_texts [] (b ∷ bs) = false
same_texts (a ∷ xs) [] = false
same_texts (a ∷ xs) (b ∷ bs) = (a == b) && same_texts xs bs

-- x509.ExtKeyUsageServerAuth and ClientAuth are 1 and 2.
abbrev pub server_and_client : List ℕ → Bool
server_and_client (a ∷ b ∷ []) = nat_beq a 1 && nat_beq b 2
server_and_client _ = false

abbrev pub with_cn : CertificateRequest → List Text
with_cn csr =
    if is_empty csr.common_name then csr.dns_names else csr.dns_names ++ csr.common_name ∷ []

-- MatchesCSR; `same_key` is core.KeyDigestEquals.
unfoldable pub matches_csr :
    Config
    → (Option Text → Option Text → Bool)
    → ℤ
    → Certificate
    → CertificateRequest
    → Result (Unit {0})
matches_csr cfg same_key now cert csr =
    require (same_key cert.public_key csr.public_key) (
      boulder_error internal_server "generated certificate public key doesn't match CSR public key")
    >> require
        (cfg.force_cn_from_san
          || is_empty csr.common_name
          || (cert.common_name == to_lower csr.common_name))
        (boulder_error internal_server
          "generated certificate CommonName doesn't match CSR CommonName")
    >> require
        (same_texts (sort_strings cert.dns_names) (sort_strings (unique_lower_names (with_cn csr))))
        (boulder_error internal_server "generated certificate DNSNames don't match CSR DNSNames")
    >> require (same_texts cert.ip_addresses csr.ip_addresses) (
        boulder_error internal_server
          "generated certificate IPAddresses don't match CSR IPAddresses")
    >> require (same_texts cert.email_addresses csr.email_addresses) (
        boulder_error internal_server
          "generated certificate EmailAddresses don't match CSR EmailAddresses")
    >> require (is_empty cert.subject_fields) (
        boulder_error internal_server
          "generated certificate Subject contains fields other than CommonName, or SerialNumber")
    >> require (not (ltb_ℤ hours_24 (now -ℤ cert.not_before)))
        (boulder_error internal_server "generated certificate is back dated %s")
    >> require cert.basic_constraints_valid
        (boulder_error internal_server "generated certificate doesn't have basic constraints set")
    >> require (not cert.is_ca)
        (boulder_error internal_server "generated certificate can sign other certificates")
    >> require (server_and_client cert.ext_key_usage) (
        boulder_error internal_server
          "generated certificate doesn't have correct key usage extensions")

-- What NewCertificate asks of the other components; the certificate of the CA is its bytes.
pub record Services : Type 0 where
  pub get_registration : ℤ → Result Registration
  pub good_key : Text → Option Error
  pub same_key : Option Text → Option Text → Bool
  pub domain : Text → Option Text
  pub counts : Counts
  pub total : TotalIssued
  pub issue_certificate : CertificateRequest → ℤ → Result Text
  pub parse_certificate : Text → Result Certificate

abbrev pub checked_csr : CertificateRequest × Option Error → Result CertificateRequest
checked_csr (csr, none) = ok csr
checked_csr (csr, some e) = err (boulder_error malformed (message e))

abbrev parsed : Result Certificate → Result Certificate
parsed (ok c) = ok c
parsed (err e) = err (boulder_error internal_server "failed to parse certificate: %s")

abbrev pub positive : ℤ → Bool
positive id = ltb_ℤ (pos 0) id

-- The part of NewCertificate before the CA is called: it gives the request to be signed.
unfoldable pub authorize_request :
    Config
    → Services
    → Names
    → AuthorityImpl
    → Flags
    → Option Error
    → Db
    → ℤ
    → CertificateRequest
    → ℤ
    → Result CertificateRequest
authorize_request cfg services names pa flags fault db now req reg_id = do
  require (positive reg_id) (boulder_error malformed "invalid registration ID: %d")
  registration ← services.get_registration reg_id
  csr ← checked_csr (
      verify_csr req cfg.max_names services.good_key (willing_to_issue names pa flags)
        cfg.force_cn_from_san)
  require (not (is_empty csr.dns_names)) (boulder_error unauthorized "CSR has no names in it")
  require (not (services.same_key csr.public_key (some registration.key)))
      (boulder_error malformed "certificate public key must be different than account key")
  check_limits cfg services.domain services.counts services.total now csr.dns_names registration.id
  check_authorizations fault db now csr.dns_names registration.id
  ok csr

-- NewCertificate
unfoldable pub new_certificate :
    Config
    → Services
    → Names
    → AuthorityImpl
    → Flags
    → Option Error
    → Db
    → ℤ
    → CertificateRequest
    → ℤ
    → Result Text
new_certificate cfg services names pa flags fault db now req reg_id = do
  csr ← authorize_request cfg services names pa flags fault db now req reg_id
  cert ← services.issue_certificate csr reg_id
  certificate ← parsed (services.parse_certificate cert)
  matches_csr cfg services.same_key now certificate csr
  ok cert
