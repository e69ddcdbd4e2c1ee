-- ===== src/Policy/Names.antt =====
-- policy/pa.go: what WillingToIssue guarantees of the names that it passes.
use boulder.Prelude.Text.{Text, text_Eq, split, join, join-split, last_is, to_lower, lower_byte}
use boulder.Prelude.{
  ◌≤◌, ◌≡◌, refl, sym, ap, ◌∙◌, true, false, none, List, [], ◌∷◌, ◌++◌, arith, length, all,
}
use boulder.Features.{Flags}
use boulder.Core.Types.{AcmeIdentifier}
use boulder.Policy.Defs.{
  Names, AuthorityImpl, dns_label_matches, is_label_byte, check_label, check_labels, check_suffix,
  willing_to_issue, extract_domain_iana_suffix,
}

-- The syntax of a host name's label (RFC 1034, RFC 5890), in lower case.
pub record IsLabel (label : Text) : Type 0 where
  pub not_empty : 1 ≤ length label
  pub not_long : length label ≤ 63
  pub letters : all is_label_byte label ≡ true
  pub no_last_hyphen : last_is b'-' label ≡ false
  pub begins : dns_label_matches label ≡ true

abbrev pub AllLabels : List Text → Type 0
AllLabels [] = Unit {0}
AllLabels (l ∷ ls) = IsLabel l × AllLabels ls

dns_label-all : (l : Text) → dns_label_matches l ≡ true → all is_label_byte l ≡ true
unfolding dns_label_matches all
dns_label-all [] h = cc
dns_label-all (c ∷ cs) h = ground arith

check_label-IsLabel :
    (names : Names) (flags : Flags) (l : Text) → check_label names flags l ≡ none → IsLabel l
unfolding check_label
check_label-IsLabel names flags l h =
    let m : dns_label_matches l ≡ true = ground arith in
    record {
      not_empty = ground arith;
      not_long = ground arith;
      letters = dns_label-all l m;
      no_last_hyphen = ground arith;
      begins = m;
    }

check_labels-AllLabels :
    (names : Names) (flags : Flags) (ls : List Text)
    → check_labels names flags ls ≡ none
    → AllLabels ls
unfolding check_labels
check_labels-AllLabels names flags [] h = tt
check_labels-AllLabels names flags (l ∷ ls) h = (
  check_label-IsLabel names flags l (ground arith),
  check_labels-AllLabels names flags ls (ground arith),
)

-- What has passed when WillingToIssue returns no error.
pub record Passed (names : Names) (pa : AuthorityImpl) (flags : Flags) (domain : Text)
    : Type 0 where
  pub size : length domain ≤ 253
  pub few : length (split b'.' domain) ≤ 10
  pub many : 2 ≤ length (split b'.' domain)
  pub labels : check_labels names flags (split b'.' domain) ≡ none
  pub suffix : check_suffix names pa domain (extract_domain_iana_suffix names domain) ≡ none

pub willing_to_issue-Passed :
    (names : Names) (pa : AuthorityImpl) (flags : Flags) (id : AcmeIdentifier)
    → willing_to_issue names pa flags id ≡ none
    → Passed names pa flags id.value
unfolding willing_to_issue
willing_to_issue-Passed names pa flags id h = record {
  size = ground arith;
  few = ground arith;
  many = ground arith;
  labels = ground arith;
  suffix = ground arith;
}

-- A name that the authority is willing to issue for is at most 253 bytes long and has 2 to 10
-- labels, each of 1 to 63 letters, digits and hyphens, lower case, with no hyphen at its ends.
pub willing_to_issue-IsHostname :
    (names : Names) (pa : AuthorityImpl) (flags : Flags) (id : AcmeIdentifier)
    → willing_to_issue names pa flags id ≡ none
    → (length id.value ≤ 253)
      × (2 ≤ length (split b'.' id.value))
      × (length (split b'.' id.value) ≤ 10)
      × AllLabels (split b'.' id.value)
willing_to_issue-IsHostname names pa flags id h =
    let p = willing_to_issue-Passed names pa flags id h in
    (p.size, p.many, p.few, check_labels-AllLabels names flags (split b'.' id.value) p.labels)

lower-label : (l : Text) → all is_label_byte l ≡ true → to_lower l ≡ l
unfolding to_lower lower_byte is_label_byte all
lower-label [] h = refl
lower-label (c ∷ l) h = ground (arith, lower-label l)

to_lower-append : (s t : Text) → to_lower (s ++ t) ≡ to_lower s ++ to_lower t
unfolding to_lower
to_lower-append [] t = refl
to_lower-append (c ∷ s) t = ap (λ r. lower_byte c ∷ r) (to_lower-append s t)

to_lower-dot : (t : Text) → to_lower (b'.' ∷ t) ≡ b'.' ∷ to_lower t
unfolding to_lower lower_byte
to_lower-dot t = refl

lower-labels : (ls : List Text) → AllLabels ls → to_lower (join b'.' ls) ≡ join b'.' ls
unfolding join to_lower
lower-labels [] h = refl
lower-labels (l ∷ []) h = lower-label l h.0.letters
lower-labels (l ∷ m ∷ ls) h =
    to_lower-append l (b'.' ∷ join b'.' (m ∷ ls))
    ∙ cc (lower-label l h.0.letters, to_lower-dot (join b'.' (m ∷ ls)), lower-labels (m ∷ ls) h.1)

-- A name that the authority is willing to issue for is in lower case already.
pub willing_to_issue-lower :
    (names : Names) (pa : AuthorityImpl) (flags : Flags) (id : AcmeIdentifier)
    → willing_to_issue names pa flags id ≡ none
    → to_lower id.value ≡ id.value
willing_to_issue-lower names pa flags id h =
    let labels = (willing_to_issue-IsHostname names pa flags id h).3 in
    ap to_lower (sym (join-split b'.' id.value))
    ∙ lower-labels (split b'.' id.value) labels
    ∙ join-split b'.' id.value
