-- ===== src/Ra/RegLaws.antt =====
-- ra/ra.go: what mergeUpdate changes, and which contacts pass.
use boulder.Prelude.Text.{Text, codes, text_Eq, text_eq_iff}
use boulder.Prelude.Sorting.{sort_strings}
use boulder.Prelude.Sorted.{sort_strings_idem, length-sort_strings}
use boulder.Prelude.{
  ℕ, ◌≤◌, ◌≡◌, ◌↔◌, refl, ap, sym, ◌∙◌, true, false, not, ◌&&◌, Option, none, some, List, [], ◌∷◌,
  arith, ◌==◌, nat_beq, ltb, length, Bool-cases, Option-cases, ◌⊎◌, subst, inl, inr, elem, ==-refl,
}
use boulder.Errors.{ok, >>=-ok, require}
use boulder.Features.{Flags}
use boulder.Core.Types.{Registration}
use boulder.Core.Objects.{is_empty}
use boulder.Ra.Registrations.{
  same_texts, contacts_equal, merge_contact, merge_agreement, public_keys_equal, merge_key,
  merge_update, Parsers, validate_email, is_ascii, validate_contact, validate_each,
  validate_contacts,
}

same_texts_iff : (xs ys : List Text) → (same_texts xs ys ≡ true) ↔ (xs ≡ ys)
same_texts_iff xs ys = (sound xs ys, λ e. rw e (reflexive ys))
  where
    reflexive : (ys : List Text) → same_texts ys ys ≡ true
    reflexive [] = refl
    reflexive (b ∷ ys) = ground (arith, ==-refl b, reflexive ys)

    sound : (xs ys : List Text) → same_texts xs ys ≡ true → xs ≡ ys
    sound [] [] h = refl
    sound [] (b ∷ ys) h = cc
    sound (a ∷ xs) [] h = cc
    sound (a ∷ xs) (b ∷ ys) h = ground (arith, text_eq_iff a b, sound xs ys)

-- Two lists that sort to the same are equal contacts.
contacts_equal_of :
    (contact other : List Text)
    → sort_strings other ≡ sort_strings contact
    → contacts_equal contact other ≡ true
unfolding contacts_equal
contacts_equal_of contact other e = ground (
  arith,
  length-sort_strings contact,
  length-sort_strings other,
  same_texts_iff (sort_strings other) (sort_strings contact),
  e,
)

unchanged :
    (contact other : List Text)
    → contacts_equal contact other ≡ true
    → (merge_contact (some contact) (some other)).0 ≡ false
unfolding merge_contact
unchanged contact other e = rw e refl

equal-sorted :
    (contact other : List Text)
    → contacts_equal contact other ≡ true
    → sort_strings other ≡ sort_strings contact
unfolding contacts_equal
equal-sorted contact other h =
    ground (arith, same_texts_iff (sort_strings other) (sort_strings contact))

contact_again :
    (contact other : Option (List Text))
    → (merge_contact (merge_contact contact other).1 other).0 ≡ false
unfolding merge_contact
contact_again contact none = refl
contact_again none (some other) = rw (contacts_equal_of other other refl) refl
contact_again (some contact) (some other) = elim (Bool-cases (contacts_equal contact other)) [
  | inl y ↦ rw y (
      unchanged (sort_strings contact) other (
        contacts_equal_of (sort_strings contact) other
          (equal-sorted contact other y ∙ sym (sort_strings_idem contact))))
  | inr n ↦ elim (Bool-cases (nat_beq (length other) (length contact))) [
    | inl y ↦
        rw (n, y)
          (unchanged (sort_strings other) other
            (contacts_equal_of (sort_strings other) other (sym (sort_strings_idem other))))
    | inr m ↦ rw (n, m) (unchanged other other (contacts_equal_of other other refl))
  ]
]

agreement_again :
    (agreement other : Text) → (merge_agreement (merge_agreement agreement other).1 other).0 ≡ false
unfolding merge_agreement
agreement_again agreement other = ground (arith, text_eq_iff other other)

key_again :
    (flags : Flags) (key other : Text)
    → (merge_key flags (merge_key flags key other).1 other).0 ≡ false
unfolding merge_key public_keys_equal
key_again flags key other = ground (arith, text_eq_iff other other)

-- The same update a second time changes nothing.
pub merge_update-again :
    (flags : Flags) (r input : Registration)
    → (merge_update flags (merge_update flags r input).1 input).0 ≡ false
unfolding merge_update
merge_update-again flags r input =
    rw
      (
        contact_again r.contact input.contact,
        agreement_again r.agreement input.agreement,
        key_again flags r.key input.key,
      )
      refl

-- What the check of one contact asks for.
pub record IsMailto (p : Parsers) (contact : Text) : Type 0 where
  pub opaque : Text
  pub not_empty : is_empty contact ≡ false
  pub ascii : is_ascii contact ≡ true
  pub mailto : p.parse_url contact ≡ some (codes "mailto", opaque)
  pub deliverable : validate_email p opaque ≡ ok tt

validate_contact-IsMailto :
    (p : Parsers) (contact : Text) → validate_contact p contact ≡ ok tt → IsMailto p contact
unfolding validate_contact
validate_contact-IsMailto p contact h = elim (Option-cases (p.parse_url contact)) [
  | inl unparsed ↦ absurd (ground arith)
  | inr (url, parsed) ↦
      let mail : url.0 ≡ codes "mailto" = ground (arith, text_eq_iff url.0 (codes "mailto")) in
      record {
        opaque = url.1;
        not_empty = ground arith;
        ascii = ground arith;
        mailto = parsed ∙ ap (λ s. some (s, url.1)) mail;
        deliverable = ground arith;
      }
]

validate_each-IsMailto :
    (p : Parsers) (contacts : List Text) (contact : Text)
    → validate_each p contacts ≡ ok tt
    → elem contact contacts ≡ true
    → IsMailto p contact
unfolding validate_each elem
validate_each-IsMailto p [] contact h e = absurd (ground arith)
validate_each-IsMailto p (c ∷ contacts) contact h e =
    let (_, first, rest) = >>=-ok (validate_contact p c) _ tt h in
    elim (Bool-cases (c == contact)) [
      | inl y ↦
          subst (IsMailto p) ((text_eq_iff c contact).0 y) (validate_contact-IsMailto p c first)
      | inr n ↦ validate_each-IsMailto p contacts contact rest (ground arith)
    ]

-- Contacts that pass are, each of them, ASCII mailto URLs whose address passes, and no more than the maximum, if there is
-- one.
pub validate_contacts-IsMailto :
    (p : Parsers) (max : ℕ) (contacts : List Text) (contact : Text)
    → validate_contacts p max (some contacts) ≡ ok tt
    → elem contact contacts ≡ true
    → IsMailto p contact × ((max ≡ 0) ⊎ (length contacts ≤ max))
unfolding validate_contacts elem
validate_contacts-IsMailto p max [] contact h e = absurd (ground arith)
validate_contacts-IsMailto p max (c ∷ contacts) contact h e =
    let (_, few, each) =
      >>=-ok (require (not (ltb 0 max && ltb max (length (c ∷ contacts)))) _) _ tt h in
    (validate_each-IsMailto p (c ∷ contacts) contact each e, ground arith)
