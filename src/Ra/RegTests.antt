-- ===== src/Ra/RegTests.antt =====
-- ra/ at concrete inputs: registrations and revocation.
use boulder.Prelude.Text.{Text, codes, text_Eq, text_eq}
use boulder.Prelude.Int.{pos}
use boulder.Prelude.{ℕ, ◌≡◌, ◌⊎◌, refl, true, false, none, some, List, [], ◌∷◌, arith, elem, all}
use boulder.Errors.{ok}
use boulder.Features
use boulder.Features.{start}
use boulder.Core.Types.{Registration, valid}
use boulder.Core.Serial.{serial_to_string}
use boulder.Sa.Db.{no_faults}
use boulder.Sa.CertDb.{revoked}
use boulder.Sa.Certificates.{get_certificate_status, new_status, add_certificate}
use boulder.Sa.CertAdded.{first_lock}
use boulder.Sa.CertTests.{crypto, empty_db, der, parsed_certificate, parses, added}
use boulder.Ra.Registrations.{
  merge_update, merge_contact, merge_agreement, merge_key, Parsers, records, validate_contacts,
  validate_each, validate_contact, validate_email, check_answers, is_ascii,
}
use boulder.Sa.IpRange.{to16}
use boulder.Goodkey.Defs.{ecdsa, new_key_policy}
use boulder.Goodkey.Tests.{point}
use boulder.Ratelimit
use boulder.Ratelimit.{get_threshold, lookup}
use boulder.Sa.Registrations as Store
use boulder.Sa.Registrations.{
  RegModel, RegDb, registration_to_model, model_to_registration, get_registration, find_id,
  update_regs, found_regs, takes_key, write_reg,
}
use boulder.Ra.Tests.{cfg}
use boulder.Ra.IssueTests.{counts}
use boulder.Ra.Accounts.{AccountServices, update_registration}
use boulder.Sa.RegLaws.{as_stored}
use boulder.Ra.AccountLaws.{update_registration-ok}
use boulder.Ra.Revocation.{revoke_certificate_with_reg, add_certificate-revoke}

abbrev contacts : List Text
contacts = codes "mailto:b@c.org" ∷ codes "mailto:a@c.org" ∷ []

abbrev max_contacts : ℕ
max_contacts = 3

abbrev parsers : Parsers
parsers = record {
  parse_url = λ s. some (codes "mailto", s);
  parse_address_list = λ s. some (s ∷ []);
  lookup_mx = λ d. records 1;
  lookup_host = λ d. records 0;
}

pass : validate_contacts parsers max_contacts (some contacts) ≡ ok tt
unfolding validate_contacts validate_each validate_contact validate_email check_answers is_ascii all
    text_eq
pass = refl

member : elem (codes "mailto:a@c.org") contacts ≡ true
unfolding elem text_eq
member = refl

abbrev reg : Registration
reg = record {
  id = pos 1;
  key = 1 ∷ [];
  contact = none;
  agreement = [];
  initial_ip = [];
  created_at = pos 0;
  status = valid;
}

add_certificate-revoke_example :
    let issued = (add_certificate crypto no_faults empty_db der (pos 1) [] (pos 4) (pos 4)).1 in
    let (result, out) = revoke_certificate_with_reg no_faults issued parsed_certificate (pos 8) 1 in
    (result ≡ ok tt)
    × (get_certificate_status none out (serial_to_string 5)
        ≡ ok (record (first_lock (new_status parsed_certificate [] (pos 4))) {
          status = revoked;
          revoked_date = pos 8;
          revoked_reason = 1;
          lock_col = 2;
        }))
add_certificate-revoke_example =
    add_certificate-revoke crypto no_faults empty_db der (pos 1) [] (pos 4) (pos 4) (pos 8) 1
      parsed_certificate der parses (omega arith) added

abbrev account_services : AccountServices
account_services = record {
  key_policy = new_key_policy;
  public_key = λ key. ecdsa point;
  counts = counts;
  parsers = parsers;
  digest = λ key. ok key;
}

abbrev init : Registration
init = record reg { contact = some contacts; initial_ip = 192 ∷ 0 ∷ 2 ∷ 1 ∷ [] }

abbrev no_accounts : RegDb
no_accounts = record { rows = []; next = 1 }

abbrev row : RegModel
row = record {
  id = pos 1;
  key = 1 ∷ [];
  key_sha256 = 1 ∷ [];
  contact = contacts;
  agreement = [];
  initial_ip = to16 init.initial_ip;
  created_at = pos 9;
  lock_col = 1;
  status = valid;
}

abbrev accounts : RegDb
accounts = record { rows = row ∷ []; next = 2 }

abbrev change : Registration
change = record reg { agreement = codes "terms" }

abbrev read : Registration
read = model_to_registration start row

abbrev after : RegDb
after = record accounts { rows = record row { agreement = codes "terms"; lock_col = 2 } ∷ [] }

changed_account :
    update_registration cfg account_services start none none accounts read change
    ≡ ok ((merge_update start read change).1, after)
unfolding update_registration validate_contacts validate_each validate_contact validate_email
    check_answers is_ascii all merge_update merge_contact merge_agreement merge_key
    Store.update_registration registration_to_model model_to_registration find_id update_regs
    found_regs takes_key write_reg text_eq Features.enabled get_threshold lookup to16
changed_account = refl

update_registration-ok_example :
    let (changed, merged) = merge_update start read change in
    (merged ≡ merged)
    × (((changed ≡ false) × (after ≡ accounts))
        ⊎ ((changed ≡ true)
            × (validate_contacts parsers cfg.max_contacts_per_reg merged.contact ≡ ok tt)
            × (get_registration start none after read.id ≡ ok (as_stored start merged))))
update_registration-ok_example =
    update_registration-ok cfg account_services start none accounts after read change
      (merge_update start read change).1 changed_account
