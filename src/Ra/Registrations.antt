-- ===== src/Ra/Registrations.antt =====
-- ra/ra.go: mergeUpdate and the checks on contacts. The parsers of URLs and of mail addresses and the answers of the
-- DNS are arguments. A key is the bytes of its PKIX encoding, and no bytes if it is nil.
use boulder.Prelude.Text.{Text, codes, text_Eq, split, to_lower}
use boulder.Prelude.Sorting.{sort_strings}
use boulder.Prelude.{
  ℕ, zero, suc, Bool, true, false, not, ◌&&◌, ◌||◌, Option, none, some, List, [], ◌∷◌,
  if◌then◌else◌, ◌==◌, nat_beq, ltb, leb, length, all,
}
use boulder.Errors.{Error, Result, ok, err, ◌>>◌, require, boulder_error, malformed, invalid_email}
use boulder.Features.{Flags, enabled, allow_key_rollover}
use boulder.Core.Types.{Registration}
use boulder.Core.Objects.{is_empty}

abbrev pub same_texts : List Text → List Text → Bool
same_texts [] [] = true
same_texts (a ∷ xs) (b ∷ ys) = a == b && same_texts xs ys
same_texts _ _ = false

-- contactsEqual, for contacts that are not nil.
unfoldable pub contacts_equal : List Text → List Text → Bool
contacts_equal contact other =
    nat_beq (length other) (length contact)
    && same_texts (sort_strings other) (sort_strings contact)

-- The contacts after the first step of mergeUpdate: the comparison of two lists of one length sorts both in
-- place.
unfoldable pub merge_contact : Option (List Text) → Option (List Text) → Bool × Option (List Text)
unfolding contacts_equal
merge_contact contact none = (false, contact)
merge_contact none (some other) = (true, some other)
merge_contact (some contact) (some other) =
    if contacts_equal contact other
    then (false, some (sort_strings contact))
    else if nat_beq (length other) (length contact)
    then (true, some (sort_strings other))
    else (true, some other)

unfoldable pub merge_agreement : Text → Text → Bool × Text
merge_agreement agreement other =
    if not (is_empty other) && not (other == agreement) then (true, other) else (false, agreement)

-- core.PublicKeysEqual
unfoldable pub public_keys_equal : Text → Text → Bool
public_keys_equal a b = if is_empty a || is_empty b then false else a == b

unfoldable pub merge_key : Flags → Text → Text → Bool × Text
unfolding public_keys_equal
merge_key flags key other =
    if enabled flags allow_key_rollover && not (is_empty other) && not (public_keys_equal key other)
    then (true, other)
    else (false, key)

-- mergeUpdate: whether anything changed, and the registration.
unfoldable pub merge_update : Flags → Registration → Registration → Bool × Registration
unfolding merge_contact merge_agreement merge_key
merge_update flags r input =
    let (contact_changed, contact) = merge_contact r.contact input.contact in
    let (agreement_changed, agreement) = merge_agreement r.agreement input.agreement in
    let (key_changed, key) = merge_key flags r.key input.key in
    (
      contact_changed || agreement_changed || key_changed,
      record r { contact = contact; agreement = agreement; key = key },
    )

-- The answer to a DNS query: how many records, or an error, which may be a timeout.
pub data DnsAnswer : Type 0 where
  records : ℕ → DnsAnswer
  dns_error : (timeout : Bool) → DnsAnswer

-- net/url.Parse, as scheme and opaque part; net/mail.ParseAddressList; the resolver.
pub record Parsers : Type 0 where
  pub parse_url : Text → Option (Text × Text)
  pub parse_address_list : Text → Option (List Text)
  pub lookup_mx : Text → DnsAnswer
  pub lookup_host : Text → DnsAnswer

unfoldable pub problem_is_timeout : DnsAnswer → Bool
problem_is_timeout (dns_error timeout) = timeout
problem_is_timeout (records n) = false

abbrev last_of : List Text → Text
last_of [] = []
last_of (a ∷ []) = a
last_of (a ∷ b ∷ bs) = last_of (b ∷ bs)

unfoldable pub domain_of : Text → Text
domain_of address = to_lower (last_of (split b'@' address))

abbrev dns_failed : Error
dns_failed = boulder_error invalid_email "the DNS error"

unfoldable pub check_answers : DnsAnswer → DnsAnswer → Result (Unit {0})
check_answers (dns_error timeout) a = err dns_failed
check_answers (records (suc n)) a = ok tt
check_answers (records zero) (dns_error timeout) = err dns_failed
check_answers (records zero) (records (suc n)) = ok tt
check_answers (records zero) (records zero) = err (boulder_error invalid_email "empty DNS response")

-- ParseAddressList gives no empty list.
unfoldable pub validate_email : Parsers → Text → Result (Unit {0})
unfolding check_answers problem_is_timeout domain_of
validate_email p address = elim (p.parse_address_list address) [
  | none ↦ err (boulder_error invalid_email "not a valid e-mail address")
  | some [] ↦ err (boulder_error invalid_email "not a valid e-mail address")
  | some (a ∷ b ∷ more) ↦ err (boulder_error invalid_email "more than one e-mail address")
  | some (email ∷ []) ↦
      let mx = p.lookup_mx (domain_of email) in
      let host = p.lookup_host (domain_of email) in
      if problem_is_timeout mx || problem_is_timeout host then ok tt else check_answers mx host
]

-- core.IsASCII, by bytes.
unfoldable pub is_ascii : Text → Bool
is_ascii s = all (λ c. leb c 127) s

unfoldable pub validate_contact : Parsers → Text → Result (Unit {0})
unfolding validate_email is_ascii
validate_contact p contact =
    require (not (is_empty contact)) (boulder_error malformed "empty contact")
    >> elim (p.parse_url contact) [
      | none ↦ err (boulder_error malformed "invalid contact")
      | some (scheme, opaque) ↦
          require (scheme == codes "mailto")
            (boulder_error malformed "contact method %s is not supported")
          >> require (is_ascii contact)
              (boulder_error malformed "contact email [%s] contains non-ASCII characters")
          >> validate_email p opaque
    ]

unfoldable pub validate_each : Parsers → List Text → Result (Unit {0})
unfolding validate_contact
validate_each p [] = ok tt
validate_each p (contact ∷ contacts) = validate_contact p contact >> validate_each p contacts

unfoldable pub validate_contacts : Parsers → ℕ → Option (List Text) → Result (Unit {0})
unfolding validate_each
validate_contacts p max none = ok tt
validate_contacts p max (some []) = ok tt
validate_contacts p max (some (c ∷ contacts)) =
    require (not (ltb 0 max && ltb max (length (c ∷ contacts))))
      (boulder_error malformed "too many contacts provided: %d > %d")
    >> validate_each p (c ∷ contacts)
