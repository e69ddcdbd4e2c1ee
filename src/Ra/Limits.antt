-- ===== src/Ra/Limits.antt =====
-- ra/ra.go: the rate limits. What the storage authority counts is a parameter of this file, and so is
-- the public suffix list, which gives the registered domain of a name.
use boulder.Prelude.Text.{Text, text_Eq, join}
use boulder.Prelude.Int.{ℤ, ltb_ℤ, ◌+ℤ◌}
use boulder.Prelude.{Bool, true, not, Option, none, some, List, [], ◌∷◌, if◌then◌else◌, elem}
use boulder.Errors.{
  Result, ok, err, ◌>>=◌, ◌>>◌, require, boulder_error, plain_error, internal_server, rate_limit,
}
use boulder.Core.Objects.{is_empty}
use boulder.Core.Names.{unique_lower_names}
use boulder.Ratelimit.{
  RateLimitPolicy, enabled, get_threshold, window_begin, lookup, total_certificates,
  certificates_per_name, certificates_per_fqdn_set, registrations_per_ip,
  pending_authorizations_per_account,
}
use boulder.Ra.Config.{Config, minutes_5, no_registration_id}

-- What the storage authority answers. A map is an association list.
pub record Counts : Type 0 where
  pub certificates_by_names : List Text → ℤ → ℤ → Result (List (Text × ℤ))
  pub fqdn_set_exists : List Text → Result Bool
  pub fqdn_sets : ℤ → List Text → Result ℤ
  pub registrations_by_ip : Text → ℤ → ℤ → Result ℤ
  pub pending_authorizations : ℤ → Result ℤ

-- The total count, as it was last updated; none is a time that is zero.
pub record TotalIssued : Type 0 where
  pub count : ℤ
  pub last_update : Option ℤ

-- checkRegistrationLimit
unfoldable pub check_registration_limit : Config → Counts → ℤ → Text → Result (Unit {0})
check_registration_limit cfg counts now ip =
    let limit = registrations_per_ip cfg.limits in
    if enabled limit
    then (counts.registrations_by_ip ip (window_begin limit now) now >>= λ count.
        require (ltb_ℤ count (get_threshold limit ip no_registration_id))
          (boulder_error rate_limit "too many registrations for this IP"))
    else ok tt

-- checkPendingAuthorizationLimit
unfoldable pub check_pending_authorization_limit : Config → Counts → ℤ → Result (Unit {0})
check_pending_authorization_limit cfg counts reg_id =
    let limit = pending_authorizations_per_account cfg.limits in
    if enabled limit
    then (counts.pending_authorizations reg_id >>= λ count.
        require (ltb_ℤ count (get_threshold limit [] reg_id))
          (boulder_error rate_limit "too many currently pending authorizations"))
    else ok tt

-- publicsuffix.Domain; none is its error, which leaves the name.
abbrev or_name : Option Text → Text → Text
or_name none name = name
or_name (some d) name = d

-- The loop of domainsForRateLimiting, with the domains so far.
unfoldable pub domains_from : (Text → Option Text) → List Text → List Text → List Text
domains_from domain seen [] = []
domains_from domain seen (n ∷ ns) =
    let d = or_name (domain n) n in
    if elem d seen then domains_from domain seen ns else d ∷ domains_from domain (d ∷ seen) ns

unfoldable pub domains_for_rate_limiting : (Text → Option Text) → List Text → List Text
unfolding domains_from
domains_for_rate_limiting domain names = domains_from domain [] names

-- The loop of checkCertificatesPerNameLimit that collects the names over their limit.
unfoldable pub names_over : RateLimitPolicy → ℤ → List (Text × ℤ) → List Text → Result (List Text)
names_over limit reg_id counts [] = ok []
names_over limit reg_id counts (n ∷ ns) = elim (lookup n counts) [
  | none ↦ err (plain_error "CountCertificatesByNames failed to return a count for every name")
  | some count ↦ names_over limit reg_id counts ns >>= λ rest.
      ok (if ltb_ℤ count (get_threshold limit n reg_id) then rest else n ∷ rest)
]

unfoldable pub check_certificates_per_name_limit :
    (Text → Option Text) → Counts → ℤ → List Text → RateLimitPolicy → ℤ → Result (Unit {0})
check_certificates_per_name_limit domain counts now names limit reg_id = do
  let tld_names = domains_for_rate_limiting domain names
  found ← counts.certificates_by_names tld_names (window_begin limit now) now
  bad ← names_over limit reg_id found tld_names
  if is_empty bad
      then ok tt
      else (counts.fqdn_set_exists names >>= λ exists.
          require exists (boulder_error rate_limit "too many certificates already issued for: %s"))

unfoldable pub check_certificates_per_fqdn_set_limit :
    Counts → List Text → RateLimitPolicy → ℤ → Result (Unit {0})
check_certificates_per_fqdn_set_limit counts names limit reg_id =
    counts.fqdn_sets limit.window names >>= λ count.
    require (not (ltb_ℤ (get_threshold limit (join b',' (unique_lower_names names)) reg_id) count))
      (boulder_error rate_limit "too many certificates already issued for exact set of domains: %s")

abbrev out_of_date : ℤ → Option ℤ → Bool
out_of_date now none = true
out_of_date now (some t) = ltb_ℤ (t +ℤ minutes_5) now

unfoldable pub check_total_certificates_limit : Config → TotalIssued → ℤ → Result (Unit {0})
check_total_certificates_limit cfg total now =
    require (not (out_of_date now total.last_update))
      (boulder_error internal_server "Total certificate count out of date: updated %s")
    >> require (ltb_ℤ total.count (total_certificates cfg.limits).threshold)
        (boulder_error rate_limit "global certificate issuance limit reached. Try again in an hour")

abbrev if_enabled : RateLimitPolicy → Result (Unit {0}) → Result (Unit {0})
if_enabled limit check = if enabled limit then check else ok tt

unfoldable pub check_limits :
    Config → (Text → Option Text) → Counts → TotalIssued → ℤ → List Text → ℤ → Result (Unit {0})
check_limits cfg domain counts total now names reg_id =
    let per_name = certificates_per_name cfg.limits in
    let per_set = certificates_per_fqdn_set cfg.limits in
    if_enabled (total_certificates cfg.limits) (check_total_certificates_limit cfg total now)
    >> if_enabled per_name
        (check_certificates_per_name_limit domain counts now names per_name reg_id)
    >> if_enabled per_set (check_certificates_per_fqdn_set_limit counts names per_set reg_id)
