-- ===== src/Ra/IssueTests.antt =====
-- ra/ra.go: the rate limits and the issuance at concrete inputs.
use boulder.Prelude.Text.{Text, codes, text_Eq, text_eq, split, join, last_is, to_lower, lower_byte}
use boulder.Prelude.Int.{ℤ, pos, int_eq, ◌+ℤ◌}
use boulder.Prelude.Sorting.{sort_strings, insert_text}
use boulder.Prelude.{◌≡◌, refl, true, false, Option, none, some, List, [], ◌∷◌, elem, all, ◌⊎◌, map}
use boulder.Errors.{ok}
use boulder.Features.{start}
use boulder.Ratelimit.{enabled, get_threshold, lookup, window_begin}
use boulder.Core.Types.{Registration}
use boulder.Core.Names.{unique_lower_names, lower_keys, add_key}
use boulder.Csr.Defs.{
  CertificateRequest, sha256_with_rsa, normalize_csr, hoist, verify_csr, check_csr,
  bad_signature_algorithm, bad_names,
}
use boulder.Csr.Laws.{AllWilling}
use boulder.Policy.Defs.{
  willing_to_issue, is_dns_character, is_ip_address, is_octet, check_labels, check_label,
  dns_label_matches, is_label_start, is_label_byte, punycode_matches, check_suffix,
  extract_domain_iana_suffix, check_host_lists, blacklisted_suffix, Names, AuthorityImpl,
}
use boulder.Sa.Queries.{
  is_usable, select_authzs, by_name, put_name, is_better, add_row, latest_by_name,
  get_valid_authorizations,
}
use boulder.Ra.Limits.{
  Counts, TotalIssued, check_limits, names_over, check_certificates_per_name_limit, domains_from,
  domains_for_rate_limiting, check_certificates_per_fqdn_set_limit, check_total_certificates_limit,
}
use boulder.Ra.LimitLaws.{AllUnder, check_certificates_per_name_limit-ok}
use boulder.Ra.Issue
use boulder.Ra.Issue.{Services, Certificate, judge, check_authorizations, authorize_request}
use boulder.Ra.Authorized.{AllAuthorized, check_authorizations-ok, authorize_request-ok}
use boulder.Ra.Tests.{cfg, account, db, policy}

abbrev pub names : Names
names = record { find_rule = λ t. some 1; decompose = λ r t. codes "org"; is_punycode = λ t. false }

abbrev pub pa : AuthorityImpl
pa = record {
  blacklist = some (codes "bad.org" ∷ []);
  exact_blacklist = [];
  enabled_challenges = λ t. true;
}

abbrev domain : Text → Option Text
domain n = none

abbrev pub counts : Counts
counts = record {
  certificates_by_names = λ ns b e. ok ((codes "a.org", pos 1) ∷ []);
  fqdn_set_exists = λ ns. ok false;
  fqdn_sets = λ w ns. ok (pos 2);
  registrations_by_ip = λ ip b e. ok (pos 0);
  pending_authorizations = λ id. ok (pos 0);
}

abbrev total : TotalIssued
total = record { count = pos 1; last_update = some (pos 5) }

abbrev asked : List Text
asked = codes "a.org" ∷ []

per_name : check_certificates_per_name_limit domain counts (pos 10) asked policy (pos 1) ≡ ok tt
unfolding check_certificates_per_name_limit domains_for_rate_limiting domains_from names_over
    get_threshold lookup elem text_eq
per_name = refl

check_certificates_per_name_limit-ok_example :
    (found : List (Text × ℤ)) × (counts.certificates_by_names
        (domains_for_rate_limiting domain asked)
        (window_begin policy (pos 10))
        (pos 10)
      ≡ ok found)
    × (AllUnder policy (pos 1) found (domains_for_rate_limiting domain asked)
        ⊎ (counts.fqdn_set_exists asked ≡ ok true))
check_certificates_per_name_limit-ok_example =
    check_certificates_per_name_limit-ok domain counts (pos 10) asked policy (pos 1) per_name

own_key : codes "a.org" ≡ join b',' (unique_lower_names asked)
unfolding unique_lower_names lower_keys add_key sort_strings insert_text to_lower lower_byte join
    elem text_eq
own_key = refl

at_threshold :
    counts.fqdn_sets policy.window asked ≡ ok (get_threshold policy (codes "a.org") (pos 1))
unfolding get_threshold lookup
at_threshold = refl

authorized : check_authorizations none db (pos 10) asked (pos 1) ≡ ok tt
unfolding check_authorizations get_valid_authorizations latest_by_name add_row select_authzs
    is_usable by_name put_name is_better elem text_eq judge Issue.bad_names to_lower lower_byte
authorized = refl

check_authorizations-ok_example : AllAuthorized db (pos 10) (pos 1) (map to_lower asked)
check_authorizations-ok_example = check_authorizations-ok none db (pos 10) (pos 1) asked authorized

abbrev request : CertificateRequest
request = record {
  public_key = some (codes "key");
  signature_algorithm = sha256_with_rsa;
  signature_valid = true;
  email_addresses = [];
  ip_addresses = [];
  dns_names = codes "A.org" ∷ [];
  common_name = [];
}

abbrev certificate : Certificate
certificate = record {
  public_key = none;
  common_name = [];
  dns_names = [];
  ip_addresses = [];
  email_addresses = [];
  subject_fields = [];
  not_before = pos 0;
  basic_constraints_valid = true;
  is_ca = false;
  ext_key_usage = [];
}

abbrev services : Services
services = record {
  get_registration = λ id. ok account;
  good_key = λ k. none;
  same_key = λ a b. false;
  domain = domain;
  counts = counts;
  total = total;
  issue_certificate = λ csr id. ok [];
  parse_certificate = λ t. ok certificate;
}

abbrev signed : CertificateRequest
signed = record request { dns_names = codes "a.org" ∷ []; common_name = codes "a.org" }

passed : authorize_request cfg services names pa start none db (pos 10) request (pos 1) ≡ ok signed
unfolding authorize_request verify_csr normalize_csr hoist check_csr bad_signature_algorithm
    bad_names unique_lower_names lower_keys add_key sort_strings insert_text to_lower lower_byte
    willing_to_issue is_dns_character is_ip_address is_octet split last_is check_labels check_label
    dns_label_matches is_label_start is_label_byte punycode_matches check_suffix
    extract_domain_iana_suffix check_host_lists blacklisted_suffix join elem all text_eq
    check_limits enabled check_total_certificates_limit check_certificates_per_name_limit
    domains_for_rate_limiting domains_from names_over get_threshold lookup
    check_certificates_per_fqdn_set_limit check_authorizations get_valid_authorizations
    latest_by_name add_row select_authzs is_usable by_name put_name is_better judge Issue.bad_names
    ◌+ℤ◌
passed = refl

authorize_request-ok_example :
    (registration : Registration) × (services.get_registration (pos 1) ≡ ok registration)
    × (signed ≡ normalize_csr request cfg.force_cn_from_san)
    × AllWilling (willing_to_issue names pa start) signed.dns_names
    × (check_limits cfg services.domain services.counts services.total
          (pos 10)
          signed.dns_names
          registration.id
        ≡ ok tt)
    × AllAuthorized db (pos 10) registration.id signed.dns_names
authorize_request-ok_example =
    authorize_request-ok cfg services names pa start none db (pos 10) request signed (pos 1) passed
