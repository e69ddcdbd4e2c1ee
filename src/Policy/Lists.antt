-- ===== src/Policy/Lists.antt =====
-- policy/pa.go: the blacklist.
use boulder.Prelude.Text.{Text, text_Eq, split, split_shape, join, join-split}
use boulder.Prelude.{
  ◌≡◌, ◌≢◌, refl, sym, ap, ◌∙◌, Bool, true, false, ◌||◌, Option, none, some, List, [], ◌∷◌, ◌++◌,
  arith, elem, Bool-cases, inl, inr, nat_beq, if◌then◌else◌,
}
use boulder.Features.{Flags}
use boulder.Core.Types.{AcmeIdentifier}
use boulder.Policy.Defs.{
  Names, AuthorityImpl, check_suffix, check_host_lists, willing_to_issue, blacklisted_suffix,
  extract_domain_iana_suffix, suffix_match, suffix_match_from, err_blacklisted,
}
use boulder.Policy.Names.{willing_to_issue-Passed}

rest_of : List Text → List Text
rest_of [] = []
rest_of (l ∷ ls) = ls

whole-clean :
    (s : Text) (bl : List Text) → blacklisted_suffix (split b'.' s) bl ≡ false → elem s bl ≡ false
unfolding blacklisted_suffix
whole-clean s bl h =
    let (l, ls, e) = split_shape b'.' s in
    let j : s ≡ join b'.' (l ∷ ls) = sym (join-split b'.' s) ∙ ap (join b'.') e in
    rw j (ground (arith, e, ap (λ t. blacklisted_suffix t bl) e))

rest-clean :
    (ls bl : List Text)
    → blacklisted_suffix ls bl ≡ false
    → blacklisted_suffix (rest_of ls) bl ≡ false
unfolding blacklisted_suffix rest_of
rest-clean [] bl h = refl
rest-clean (l ∷ ls) bl h = ground arith

suffix-clean :
    (p s : Text) (bl : List Text)
    → blacklisted_suffix (rest_of (split b'.' (p ++ b'.' ∷ s))) bl ≡ false
    → elem s bl ≡ false
unfolding split rest_of
suffix-clean [] s bl h = whole-clean s bl h
suffix-clean (c ∷ p) s bl h =
    let (l, ls, e) = split_shape b'.' (p ++ b'.' ∷ s) in
    elim (Bool-cases (nat_beq c b'.')) [
      | inl y ↦ suffix-clean p s bl (rest-clean (split b'.' (p ++ b'.' ∷ s)) bl (ground arith))
      | inr n ↦ suffix-clean p s bl (ground arith)
    ]

listed_clean :
    (pa : AuthorityImpl) (bl : List Text) (domain : Text)
    → pa.blacklist ≡ some bl
    → check_host_lists pa domain ≡ none
    → (blacklisted_suffix (split b'.' domain) bl ≡ false) × (elem domain pa.exact_blacklist ≡ false)
unfolding check_host_lists
listed_clean pa bl domain e h = (ground arith, ground arith)

suffix_lists :
    (names : Names) (pa : AuthorityImpl) (domain : Text) (tld : Option Text)
    → check_suffix names pa domain tld ≡ none
    → check_host_lists pa domain ≡ none
unfolding check_suffix
suffix_lists names pa domain none h = cc
suffix_lists names pa domain (some t) h = ground arith

-- The authority issues for no name on the blacklist, for no name below one (one that ends in a dot
-- and a listed name), and for no name on the exact blacklist.
pub willing_to_issue-not_listed :
    (names : Names) (pa : AuthorityImpl) (flags : Flags) (id : AcmeIdentifier) (bl : List Text)
    (p s : Text)
    → pa.blacklist ≡ some bl
    → willing_to_issue names pa flags id ≡ none
    → id.value ≡ p ++ b'.' ∷ s
    → (elem s bl ≡ false) × (elem id.value bl ≡ false) × (elem id.value pa.exact_blacklist ≡ false)
willing_to_issue-not_listed names pa flags id bl p s e h d =
    let passed = willing_to_issue-Passed names pa flags id h in
    let (clean, exact) =
      listed_clean pa bl id.value e (
        suffix_lists names pa id.value (extract_domain_iana_suffix names id.value) passed.suffix) in
    (
      suffix-clean p s bl (
          rest-clean (split b'.' (p ++ b'.' ∷ s)) bl
            (ap (λ t. blacklisted_suffix (split b'.' t) bl) (sym d) ∙ clean)),
      whole-clean id.value bl clean,
      exact,
    )

-- Before a hostname policy is loaded the authority issues for no name at all.
pub willing_to_issue-not_loaded :
    (names : Names) (pa : AuthorityImpl) (flags : Flags) (id : AcmeIdentifier)
    → pa.blacklist ≡ none
    → willing_to_issue names pa flags id ≢ none
unfolding check_host_lists
willing_to_issue-not_loaded names pa flags id e h =
    let passed = willing_to_issue-Passed names pa flags id h in
    ground (
      arith,
      suffix_lists names pa id.value (extract_domain_iana_suffix names id.value) passed.suffix,
    )

match_from :
    (first : Bool) (ls bl : List Text)
    → suffix_match_from first ls bl false ≡ blacklisted_suffix ls bl
unfolding suffix_match_from blacklisted_suffix
match_from first [] bl = refl
match_from first (l ∷ ls) bl = ground (arith, match_from false ls bl)

-- Once a blacklist is loaded, checkHostLists refuses exactly the names that suffixMatch, which nothing
-- calls any more, finds on it, and those on the exact blacklist.
pub check_host_lists-suffix_match :
    (pa : AuthorityImpl) (bl : List Text) (domain : Text)
    → pa.blacklist ≡ some bl
    → check_host_lists pa domain ≡ (
        if suffix_match (split b'.' domain) bl false || elem domain pa.exact_blacklist
        then some err_blacklisted
        else none)
unfolding check_host_lists suffix_match
check_host_lists-suffix_match pa bl domain e =
    ground (arith, match_from true (split b'.' domain) bl)
