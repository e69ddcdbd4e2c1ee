-- ===== src/Csr/Laws.antt =====
-- csr/csr.go: what a verified request has.
use boulder.Prelude.Text.{Text, text_Eq, to_lower}
use boulder.Prelude.Sorting.{IsSorted}
use boulder.Prelude.{
  ℕ, ◌≤◌, ◌≡◌, ◌∙◌, Bool, true, false, Option, none, List, [], ◌∷◌, ◌++◌, arith, if◌then◌else◌,
  length, elem, map, ◌⊎◌,
}
use boulder.Core.Objects.{is_empty}
use boulder.Core.Names.{unique_lower_names-IsSorted}
use boulder.Core.Types.{AcmeIdentifier, dns}
use boulder.Errors.{Error}
use boulder.Csr.Defs.{
  CertificateRequest, hoist, normalize_csr, bad_names, bad_signature_algorithm, check_csr,
}

-- The policy authority refuses none of the names.
abbrev pub AllWilling : (AcmeIdentifier → Option Error) → List Text → Type 0
AllWilling willing [] = Unit {0}
AllWilling willing (n ∷ ns) =
    (willing (record { kind = dns; value = n }) ≡ none) × AllWilling willing ns

bad_names-AllWilling :
    (willing : AcmeIdentifier → Option Error) (ns : List Text)
    → is_empty (bad_names willing ns) ≡ true
    → AllWilling willing ns
unfolding bad_names
bad_names-AllWilling willing [] h = tt
bad_names-AllWilling willing (n ∷ ns) h =
    (ground arith, bad_names-AllWilling willing ns (ground arith))

-- A request that passes has a signature that holds, by an algorithm that is not bad, no e-mail or IP
-- address, a CN of at most 64 bytes, no more names than allowed if there is a limit, and only names that the policy
-- authority is willing to issue for.
pub check_csr-none :
    (csr : CertificateRequest) (max_names : ℕ) (good_key : Text → Option Error)
    (willing : AcmeIdentifier → Option Error)
    → check_csr csr max_names good_key willing ≡ none
    → (csr.signature_valid ≡ true)
      × (bad_signature_algorithm csr.signature_algorithm ≡ false)
      × (is_empty csr.email_addresses ≡ true)
      × (is_empty csr.ip_addresses ≡ true)
      × (length csr.common_name ≤ 64)
      × ((max_names ≡ 0) ⊎ (length csr.dns_names ≤ max_names))
      × AllWilling willing csr.dns_names
unfolding check_csr
check_csr-none csr max_names good_key willing h = (
  ground arith,
  ground arith,
  ground arith,
  ground arith,
  ground arith,
  ground arith,
  bad_names-AllWilling willing csr.dns_names (ground arith),
)

-- The names of a normalized request are lower case, sorted, each once: exactly the DNS names of the
-- request and its CN, if it has one.
pub normalize_csr-names :
    (csr : CertificateRequest) (force_cn_from_san : Bool) (z : Text)
    → IsSorted (normalize_csr csr force_cn_from_san).dns_names
      × (elem z (normalize_csr csr force_cn_from_san).dns_names ≡ (
          if is_empty csr.common_name
          then elem z (map to_lower csr.dns_names)
          else elem z (map to_lower (csr.dns_names ++ csr.common_name ∷ []))))
unfolding normalize_csr
normalize_csr-names csr force_cn_from_san z = (
  (unique_lower_names-IsSorted (hoist csr force_cn_from_san).dns_names z).0,
  (unique_lower_names-IsSorted (hoist csr force_cn_from_san).dns_names z).1 ∙ hoisted,
)
  where
    hoisted : elem z (map to_lower (hoist csr force_cn_from_san).dns_names) ≡ (
        if is_empty csr.common_name
        then elem z (map to_lower csr.dns_names)
        else elem z (map to_lower (csr.dns_names ++ csr.common_name ∷ [])))
    hoisted = unfold hoist in ground arith
