-- ===== src/Policy/Tests.antt =====
-- policy/pa.go at concrete inputs, with a toy public suffix list: a name's suffix is `org`.
use mathlib.Core.List.{Perm}
use mathlib.Core.List.Perm
use boulder.Prelude.Text.{Text, codes, text_Eq, split, join, last_is, text_eq}
use boulder.Prelude.{
  ◌≡◌, ◌≤◌, refl, Bool, true, false, none, some, List, [], ◌∷◌, length, elem, all,
}
use boulder.Features.{start, enabled}
use boulder.Core.Types.{AcmeIdentifier, dns, ChallengeType, http_01, dns_01}
use boulder.Policy.Defs.{
  Names, AuthorityImpl, willing_to_issue, is_dns_character, is_ip_address, is_octet, check_labels,
  check_label, dns_label_matches, is_label_start, is_label_byte, punycode_matches, check_suffix,
  extract_domain_iana_suffix, check_host_lists, blacklisted_suffix, challenges_for, singletons,
}
use boulder.Policy.Names.{AllLabels, willing_to_issue-IsHostname}
use boulder.Policy.Lists.{willing_to_issue-not_listed}
use boulder.Policy.Challenges.{fresh_for, all_kinds, challenges_for-Perm, range_from}

abbrev pub toy_names : Names
toy_names = record {
  find_rule = λ t. some 1;
  decompose = λ r t. codes "org";
  is_punycode = λ t. false;
}

abbrev some_enabled : ChallengeType → Bool
some_enabled http_01 = true
some_enabled dns_01 = true
some_enabled _ = false

abbrev pub toy_pa : AuthorityImpl
toy_pa = record {
  blacklist = some (codes "bad.org" ∷ []);
  exact_blacklist = codes "worse.org" ∷ [];
  enabled_challenges = some_enabled;
}

abbrev good : AcmeIdentifier
good = record { kind = dns; value = codes "www.good.org" }

abbrev bl : List Text
bl = codes "bad.org" ∷ []

willing : willing_to_issue toy_names toy_pa start good ≡ none
unfolding willing_to_issue is_dns_character is_ip_address is_octet split last_is check_labels
    check_label dns_label_matches is_label_start is_label_byte punycode_matches check_suffix
    extract_domain_iana_suffix check_host_lists blacklisted_suffix join elem all text_eq
willing = refl

willing_to_issue-not_listed_example :
    (elem (codes "good.org") bl ≡ false)
    × (elem (codes "www.good.org") bl ≡ false)
    × (elem (codes "www.good.org") toy_pa.exact_blacklist ≡ false)
willing_to_issue-not_listed_example =
    willing_to_issue-not_listed toy_names toy_pa start good bl (codes "www") (codes "good.org") refl
      willing refl

willing_to_issue-IsHostname_example :
    (length good.value ≤ 253)
    × (2 ≤ length (split b'.' good.value))
    × (length (split b'.' good.value) ≤ 10)
    × AllLabels (split b'.' good.value)
willing_to_issue-IsHostname_example =
    willing_to_issue-IsHostname toy_names toy_pa start good willing

abbrev unloaded : AuthorityImpl
unloaded = record toy_pa { blacklist = none }

abbrev tokens : ChallengeType → Text
tokens kind = codes "token"

swapped : Perm (1 ∷ 0 ∷ []) (range_from 0 (length (fresh_for toy_pa start tokens all_kinds)))
unfolding enabled
swapped = Perm.swap _ _ _

same : Perm (0 ∷ 1 ∷ []) (range_from 0 (length (fresh_for toy_pa start tokens all_kinds)))
unfolding enabled
same = Perm.refl _

challenges_for-Perm_example :
    Perm
      (challenges_for toy_pa start tokens (1 ∷ 0 ∷ []) (0 ∷ 1 ∷ [])).0
      (fresh_for toy_pa start tokens all_kinds)
    × Perm
        (challenges_for toy_pa start tokens (1 ∷ 0 ∷ []) (0 ∷ 1 ∷ [])).1
        (singletons 0 (length (fresh_for toy_pa start tokens all_kinds)))
challenges_for-Perm_example =
    challenges_for-Perm toy_pa start tokens (1 ∷ 0 ∷ []) (0 ∷ 1 ∷ []) swapped same
