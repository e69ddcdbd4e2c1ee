-- ===== src/Sa/CertTests.antt =====
-- sa/ at concrete inputs: certificates.
use mathlib.Core.Option
use boulder.Prelude.Text.{Text, codes, text_Eq, text_eq, to_lower, lower_byte}
use boulder.Prelude.Int.{pos}
use boulder.Prelude.{
  false, ◌≡◌, refl, true, none, some, List, [], ◌∷◌, arith, elem, if◌then◌else◌, ◌==◌, all, map,
  nat_beq,
}
use boulder.Errors.{plain_error, ok, err, rolled_back}
use boulder.Core.Serial.{serial_to_string, valid_serial, is_hex_string, is_hex_digit}
use boulder.Sa.Db.{Faults, no_faults, transaction}
use boulder.Sa.CertDb.{
  zero_time, good, CertificateStatus, revoked, Certificate, CertDb, select_certificate,
  select_status, insert_certificate, insert_status, update_status, updated_rows,
}
use boulder.Sa.Certificates.{
  ParsedCertificate, Crypto, get_certificate, get_certificate_status, mark_revoked, update_one,
  revoke_status, mark_certificate_revoked, add_issued_names, new_status, new_certificate,
  insert_rows, add_parsed, add_certificate, fqdn_set_exists,
}
use boulder.Sa.CertAdded.{add_certificate-get_certificate, add_certificate-fqdn_set_exists}
use boulder.Sa.CertLife.{
  CertCall, add, revoke, run_calls, IsPaired, run_calls-IsPaired, run_calls-revoked,
}

abbrev pub parsed_certificate : ParsedCertificate
parsed_certificate = record {
  serial_number = 5;
  dns_names = codes "a.org" ∷ codes "B.org" ∷ [];
  not_before = pos 3;
  not_after = pos 90;
}

abbrev pub der : Text
der = 1 ∷ 2 ∷ []

abbrev pub crypto : Crypto
crypto = record {
  parse_certificate = λ t. if t == der then ok parsed_certificate else err (plain_error "asn1");
  fingerprint256 = λ t. t;
  sum256 = λ t. t;
}

abbrev pub empty_db : CertDb
empty_db = record { certificates = []; statuses = []; issued_names = []; fqdn_sets = [] }

abbrev pub serial : Text
serial = serial_to_string 5

pub parses : crypto.parse_certificate der ≡ ok parsed_certificate
unfolding text_eq
parses = refl

pub added : (add_certificate crypto no_faults empty_db der (pos 1) [] (pos 4) (pos 4)).0 ≡ ok der
unfolding add_certificate add_parsed transaction insert_rows insert_certificate insert_status
    select_certificate select_status add_issued_names new_certificate new_status text_eq
added = refl

add_certificate-get_certificate_example :
    let out = (add_certificate crypto no_faults empty_db der (pos 1) [] (pos 4) (pos 4)).1 in
    (der ≡ crypto.fingerprint256 der)
    × (get_certificate none out serial
        ≡ ok (record {
          registration_id = pos 1;
          serial = serial;
          digest = der;
          der = der;
          issued = pos 4;
          expires = parsed_certificate.not_after;
        }))
    × (row : CertificateStatus) × (get_certificate_status none out serial ≡ ok row)
    × (row.serial ≡ serial)
    × (row.status ≡ good)
    × (row.not_after ≡ parsed_certificate.not_after)
    × (row.ocsp_response ≡ [])
    × (row.ocsp_last_updated ≡ zero_time)
    × (row.is_expired ≡ false)
add_certificate-get_certificate_example =
    add_certificate-get_certificate crypto no_faults empty_db der (pos 1) [] (pos 4) (pos 4)
      parsed_certificate der parses (omega arith) added

abbrev same_names : List Text
same_names = codes "b.org" ∷ codes "A.ORG" ∷ codes "a.org" ∷ []

same :
    (z : Text)
    → elem z (map to_lower same_names) ≡ elem z (map to_lower parsed_certificate.dns_names)
unfolding elem to_lower lower_byte
same z = ground arith

add_certificate-fqdn_set_exists_example :
    fqdn_set_exists crypto none
      (add_certificate crypto no_faults empty_db der (pos 1) [] (pos 4) (pos 4)).1
      same_names
    ≡ ok true
add_certificate-fqdn_set_exists_example =
    add_certificate-fqdn_set_exists crypto no_faults empty_db der (pos 1) [] (pos 4) (pos 4)
      parsed_certificate der same_names parses added same

-- The second statement fails.
abbrev faulty : Faults
faulty = record {
  begin = none;
  commit = none;
  rollback = none;
  at = λ n. if nat_beq n 1 then some (plain_error "deadlock") else none;
}

failed :
    (add_certificate crypto faulty empty_db der (pos 1) [] (pos 4) (pos 4)).0
    ≡ err (rolled_back (plain_error "deadlock"))
unfolding add_certificate add_parsed transaction insert_rows insert_certificate select_certificate
    text_eq
failed = refl

empty-IsPaired : IsPaired empty_db
unfolding select_certificate select_status
empty-IsPaired k = refl

abbrev calls : List (Faults × CertCall)
calls =
    (faulty, add der (pos 1) [] (pos 4) (pos 4))
    ∷ (no_faults, add der (pos 1) [] (pos 4) (pos 4))
    ∷ (no_faults, revoke serial (pos 9) 4)
    ∷ []

run_calls-IsPaired_example : IsPaired (run_calls crypto empty_db calls)
run_calls-IsPaired_example = run_calls-IsPaired crypto empty_db calls empty-IsPaired

abbrev short : Text
short = codes "0a"

abbrev cert : Certificate
cert = record {
  registration_id = pos 1;
  serial = short;
  digest = der;
  der = der;
  issued = pos 4;
  expires = pos 90;
}

abbrev one_db : CertDb
one_db = record empty_db {
  certificates = cert ∷ [];
  statuses =
      record (new_status parsed_certificate [] (pos 4)) { serial = short; lock_col = 1 } ∷ [];
}

revoked_one : (mark_certificate_revoked no_faults one_db short (pos 8) 1).0 ≡ ok tt
unfolding mark_certificate_revoked get_certificate get_certificate_status valid_serial is_hex_string
    is_hex_digit all transaction revoke_status update_one updated_rows update_status
    select_certificate select_status new_status text_eq
revoked_one = refl

abbrev revoked_db : CertDb
revoked_db = record one_db {
  statuses =
      mark_revoked (pos 8) 1
        (record (new_status parsed_certificate [] (pos 4)) { serial = short; lock_col = 2 })
      ∷ [];
}

there : select_certificate short revoked_db.certificates ≡ some cert
unfolding select_certificate text_eq
there = refl

there_revoked : Option.map (λ t. t.status) (select_status short revoked_db.statuses) ≡ some revoked
unfolding select_status new_status text_eq
there_revoked = refl

run_calls-revoked_example :
    let out = run_calls crypto revoked_db calls in
    (select_certificate short out.certificates ≡ some cert)
    × (Option.map (λ t. t.status) (select_status short out.statuses) ≡ some revoked)
run_calls-revoked_example = run_calls-revoked crypto revoked_db calls short cert there there_revoked
