-- ===== src/Policy/Defs.antt =====
-- policy/pa.go: the policy authority. Text is ASCII here, as the check of the characters makes sure
-- before anything else is asked of a domain. JSON, idna and the public suffix list are parameters.
use boulder.Prelude.Text.{Text, text_Eq, split, join, last_is}
use boulder.Prelude.{
  ℕ, zero, suc, ◌+◌, ◌*◌, ◌-◌, Bool, true, false, not, ◌&&◌, ◌||◌, Option, none, some, List, [],
  ◌∷◌, map, ltb, leb, nat_beq, if◌then◌else◌, length, elem, all, get_or, ◌==◌,
}
use boulder.Features.{Flags, enabled, idna_support, allow_tls02_challenges}
use boulder.Errors.{
  Error, boulder_error, plain_error, malformed, rejected_identifier, unsupported_identifier,
}
use boulder.Core.Types.{
  AcmeIdentifier, is_dns, Challenge, ChallengeType, http_01, tls_sni_01, tls_sni_02, dns_01,
}
use boulder.Core.Objects.{new_challenge}

-- What the authority uses of code that is not in the repository: the rule of the public suffix list
-- that a name falls under, the suffix into which that rule decomposes the name, and whether a label
-- is proper punycode.
pub record Names : Type 0 where
  pub find_rule : Text → Option ℕ
  pub decompose : ℕ → Text → Text
  pub is_punycode : Text → Bool

-- A map that is nil is none.
pub record AuthorityImpl : Type 0 where
  pub blacklist : Option (List Text)
  pub exact_blacklist : List Text
  pub enabled_challenges : ChallengeType → Bool

pub record BlacklistJson : Type 0 where
  pub blacklist : List Text
  pub exact_blacklist : List Text

-- loadHostnamePolicy, given what json.Unmarshal makes of the file.
unfoldable pub load_hostname_policy :
    AuthorityImpl → Option BlacklistJson → AuthorityImpl × Option Error
load_hostname_policy pa none = (pa, some (plain_error "invalid JSON"))
load_hostname_policy pa (some bl) =
    if nat_beq (length bl.blacklist) 0
    then (pa, some (plain_error "No entries in blacklist."))
    else (record pa { blacklist = some bl.blacklist; exact_blacklist = bl.exact_blacklist }, none)

abbrev pub max_labels : ℕ
max_labels = 10

abbrev pub max_label_length : ℕ
max_label_length = 63

abbrev pub max_dns_identifier_length : ℕ
max_dns_identifier_length = 253

unfoldable pub is_dns_character : ℕ → Bool
is_dns_character ch =
    (leb b'a' ch && leb ch b'z')
    || (leb b'A' ch && leb ch b'Z')
    || (leb b'0' ch && leb ch b'9')
    || nat_beq ch b'.'
    || nat_beq ch b'-'

-- The class [a-z0-9] of dnsLabelRegexp, and the class [a-z0-9-].
unfoldable pub is_label_start : ℕ → Bool
is_label_start c = (leb b'a' c && leb c b'z') || (leb b'0' c && leb c b'9')

unfoldable pub is_label_byte : ℕ → Bool
unfolding is_label_start
is_label_byte c = is_label_start c || nat_beq c b'-'

-- dnsLabelRegexp, ^[a-z0-9][a-z0-9-]{0,62}$
unfoldable pub dns_label_matches : Text → Bool
unfolding is_label_start is_label_byte
dns_label_matches [] = false
dns_label_matches (c ∷ cs) = is_label_start c && all is_label_byte cs && leb (length cs) 62

-- punycodeRegexp, ^xn--
unfoldable pub punycode_matches : Text → Bool
punycode_matches (a ∷ b ∷ c ∷ d ∷ rest) =
    nat_beq a b'x' && nat_beq b b'n' && nat_beq c b'-' && nat_beq d b'-'
punycode_matches _ = false

-- net.ParseIP on a text without a colon: four decimal numbers up to 255.
unfoldable pub is_digit : ℕ → Bool
is_digit c = leb b'0' c && leb c b'9'

unfoldable pub decimal : ℕ → Text → ℕ
decimal acc [] = acc
decimal acc (c ∷ cs) = decimal (acc * 10 + (c - b'0')) cs

unfoldable pub is_octet : Text → Bool
unfolding is_digit decimal
is_octet [] = false
is_octet (c ∷ cs) = all is_digit (c ∷ cs) && leb (decimal 0 (c ∷ cs)) 255

unfoldable pub is_ip_address : Text → Bool
unfolding is_octet
is_ip_address domain =
    let parts = split b'.' domain in nat_beq (length parts) 4 && all is_octet parts

-- The loop of suffixMatch; `first` holds at index 0.
unfoldable pub suffix_match_from : Bool → List Text → List Text → Bool → Bool
suffix_match_from first [] suffix_set proper_suffix = false
suffix_match_from first (l ∷ ls) suffix_set proper_suffix =
    if elem (join b'.' (l ∷ ls)) suffix_set
    then not proper_suffix || not first
    else suffix_match_from false ls suffix_set proper_suffix

unfoldable pub suffix_match : List Text → List Text → Bool → Bool
unfolding suffix_match_from
suffix_match labels suffix_set proper_suffix =
    suffix_match_from true labels suffix_set proper_suffix

abbrev pub err_invalid_identifier : Error
err_invalid_identifier = boulder_error malformed "Invalid identifier type"

abbrev pub err_non_public : Error
err_non_public = boulder_error malformed "Name does not end in a public suffix"

abbrev pub err_icann_tld : Error
err_icann_tld = boulder_error malformed "Name is an ICANN TLD"

abbrev pub err_blacklisted : Error
err_blacklisted = boulder_error rejected_identifier "Policy forbids issuing for name"

abbrev pub err_invalid_dns_character : Error
err_invalid_dns_character = boulder_error malformed "Invalid character in DNS name"

abbrev pub err_name_too_long : Error
err_name_too_long = boulder_error malformed "DNS name too long"

abbrev pub err_ip_address : Error
err_ip_address = boulder_error malformed "Issuance for IP addresses not supported"

abbrev pub err_too_many_labels : Error
err_too_many_labels = boulder_error malformed "DNS name has too many labels"

abbrev pub err_empty_name : Error
err_empty_name = boulder_error malformed "DNS name was empty"

abbrev pub err_name_ends_in_dot : Error
err_name_ends_in_dot = boulder_error malformed "DNS name ends in a period"

abbrev pub err_too_few_labels : Error
err_too_few_labels = boulder_error malformed "DNS name does not have enough labels"

abbrev pub err_label_too_short : Error
err_label_too_short = boulder_error malformed "DNS label is too short"

abbrev pub err_label_too_long : Error
err_label_too_long = boulder_error malformed "DNS label is too long"

abbrev pub err_idn_not_supported : Error
err_idn_not_supported =
    boulder_error unsupported_identifier
      "Internationalized domain names (starting with xn--) not yet supported"

abbrev pub err_malformed_idn : Error
err_malformed_idn = boulder_error malformed "DNS label contains malformed punycode"

-- checkHostLists: the loop over the suffixes of the name.
unfoldable pub blacklisted_suffix : List Text → List Text → Bool
blacklisted_suffix [] blacklist = false
blacklisted_suffix (l ∷ ls) blacklist =
    elem (join b'.' (l ∷ ls)) blacklist || blacklisted_suffix ls blacklist

check_loaded_lists : Option (List Text) → List Text → Text → Option Error
check_loaded_lists none exact domain = some (plain_error "Hostname policy not yet loaded.")
check_loaded_lists (some blacklist) exact domain =
    if blacklisted_suffix (split b'.' domain) blacklist
    then some err_blacklisted
    else if elem domain exact
    then some err_blacklisted
    else none

unfoldable pub check_host_lists : AuthorityImpl → Text → Option Error
unfolding check_loaded_lists
check_host_lists pa domain = check_loaded_lists pa.blacklist pa.exact_blacklist domain

module _ (names : Names) where
  open names use {find_rule, decompose, is_punycode}

  -- extractDomainIANASuffix; none is an error.
  unfoldable pub extract_domain_iana_suffix : Text → Option Text
  extract_domain_iana_suffix [] = none
  extract_domain_iana_suffix (c ∷ cs) = elim (find_rule (c ∷ cs)) [
    | none ↦ none
    | some rule ↦
        if nat_beq (length (decompose rule (c ∷ cs))) 0
        then some (c ∷ cs)
        else some (decompose rule (c ∷ cs))
  ]

  -- The body of the loop over the labels.
  unfoldable pub check_label : Flags → Text → Option Error
  unfolding last_is punycode_matches
  check_label flags label =
      if ltb (length label) 1
      then some err_label_too_short
      else if ltb max_label_length (length label)
      then some err_label_too_long
      else if not (dns_label_matches label)
      then some err_invalid_dns_character
      else if last_is b'-' label
      then some err_invalid_dns_character
      else if punycode_matches label
      then (if enabled flags idna_support
          then (if is_punycode label then none else some err_malformed_idn)
          else some err_idn_not_supported)
      else none

  unfoldable pub check_labels : Flags → List Text → Option Error
  check_labels flags [] = none
  check_labels flags (l ∷ ls) = elim (check_label flags l) [
    | some e ↦ some e
    | none ↦ check_labels flags ls
  ]

  -- The end of WillingToIssue: the public suffix and the lists.
  unfoldable pub check_suffix : AuthorityImpl → Text → Option Text → Option Error
  check_suffix pa domain none = some err_non_public
  check_suffix pa domain (some icann_tld) =
      if icann_tld == domain then some err_icann_tld else check_host_lists pa domain

  abbrev then_check : Option Error → Option Error → Option Error
  then_check (some e) next = some e
  then_check none next = next

  -- WillingToIssue; none is success.
  unfoldable pub willing_to_issue : AuthorityImpl → Flags → AcmeIdentifier → Option Error
  willing_to_issue pa flags id =
      let domain = id.value in
      let labels = split b'.' domain in
      if not (is_dns id.kind)
      then some err_invalid_identifier
      else if nat_beq (length domain) 0
      then some err_empty_name
      else if not (all is_dns_character domain)
      then some err_invalid_dns_character
      else if ltb max_dns_identifier_length (length domain)
      then some err_name_too_long
      else if is_ip_address domain
      then some err_ip_address
      else if last_is b'.' domain
      then some err_name_ends_in_dot
      else if ltb max_labels (length labels)
      then some err_too_many_labels
      else if ltb (length labels) 2
      then some err_too_few_labels
      else then_check (check_labels flags labels)
          (check_suffix pa domain (extract_domain_iana_suffix domain))

-- ChallengesFor before the shuffle: the challenges that are switched on, with the tokens that
-- NewToken draws for them.
abbrev when : Bool → Challenge → List Challenge → List Challenge
when true c cs = c ∷ cs
when false c cs = cs

unfoldable pub offered : AuthorityImpl → Flags → (ChallengeType → Text) → List Challenge
unfolding new_challenge
offered pa flags new_token =
    when (pa.enabled_challenges http_01) (new_challenge http_01 (new_token http_01)) (
      when (pa.enabled_challenges tls_sni_01) (new_challenge tls_sni_01 (new_token tls_sni_01)) (
        when (enabled flags allow_tls02_challenges && pa.enabled_challenges tls_sni_02)
          (new_challenge tls_sni_02 (new_token tls_sni_02))
          (when (pa.enabled_challenges dns_01) (new_challenge dns_01 (new_token dns_01)) [])))

abbrev pub no_challenge : Challenge
unfolding new_challenge
no_challenge = new_challenge http_01 []

-- The loop that fills a slice by the indices of a permutation.
unfoldable pub pick {ℓ} : {A : Type ℓ} → A → List A → List ℕ → List A
pick d xs perm = map (λ i. get_or xs i d) perm

abbrev pub singletons : ℕ → ℕ → List (List ℕ)
singletons i zero = []
singletons i (suc n) = (i ∷ []) ∷ singletons (suc i) n

-- ChallengesFor, given the two permutations that pseudoRNG.Perm returns.
unfoldable pub challenges_for :
    AuthorityImpl
    → Flags
    → (ChallengeType → Text)
    → List ℕ
    → List ℕ
    → List Challenge × List (List ℕ)
challenges_for pa flags new_token perm combo_perm =
    let challenges = offered pa flags new_token in
    (pick no_challenge challenges perm, pick [] (singletons 0 (length challenges)) combo_perm)
