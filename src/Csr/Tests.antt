-- ===== src/Csr/Tests.antt =====
-- csr/csr.go at concrete inputs.
use boulder.Prelude.Text.{codes, text_Eq, to_lower}
use boulder.Prelude.Sorting.{IsSorted}
use boulder.Prelude.{
  ℕ, ◌≡◌, ◌≤◌, refl, true, false, none, some, [], ◌∷◌, ◌++◌, length, elem, map, ◌⊎◌,
}
use boulder.Core.Objects.{is_empty}
use boulder.Csr.Defs.{
  CertificateRequest, sha256_with_rsa, check_csr, bad_signature_algorithm, bad_names, normalize_csr,
}
use boulder.Csr.Laws.{AllWilling, check_csr-none, normalize_csr-names}

abbrev request : CertificateRequest
request = record {
  public_key = some (codes "key");
  signature_algorithm = sha256_with_rsa;
  signature_valid = true;
  email_addresses = [];
  ip_addresses = [];
  dns_names = codes "B.org" ∷ codes "a.org" ∷ [];
  common_name = codes "a.org";
}

abbrev max_names : ℕ
max_names = 100

passes : check_csr request max_names (λ k. none) (λ i. none) ≡ none
unfolding check_csr bad_signature_algorithm bad_names
passes = refl

check_csr-none_example :
    (request.signature_valid ≡ true)
    × (bad_signature_algorithm request.signature_algorithm ≡ false)
    × (is_empty request.email_addresses ≡ true)
    × (is_empty request.ip_addresses ≡ true)
    × (length request.common_name ≤ 64)
    × ((max_names ≡ 0) ⊎ (length request.dns_names ≤ max_names))
    × AllWilling (λ i. none) request.dns_names
check_csr-none_example = check_csr-none request max_names (λ k. none) (λ i. none) passes

normalize_csr-names_example :
    IsSorted (normalize_csr request true).dns_names
    × (elem (codes "b.org") (normalize_csr request true).dns_names
        ≡ elem (codes "b.org") (map to_lower (request.dns_names ++ request.common_name ∷ [])))
normalize_csr-names_example = normalize_csr-names request true (codes "b.org")
