-- ===== src/Ra/Revocation.antt =====
-- ra/ra.go: RevokeCertificateWithReg, AdministrativelyRevokeCertificate and the deactivation of an authorization, on the
-- tables of sa/. The audit log is left out.
use boulder.Prelude.Text.{Text, text_Eq, text_eq_refl}
use boulder.Prelude.Int.{ℤ}
use boulder.Prelude.{
  ℕ, ◌^◌, ◌<◌, ◌≡◌, refl, Bool, true, ◌||◌, Option, none, some, List, ◌∷◌, arith, if◌then◌else◌,
  ◌==◌,
}
use boulder.Errors.{Result, ok, err, boulder_error, malformed, internal_server, message}
use boulder.Core.Types.{Authorization, is_valid, is_pending}
use boulder.Core.Serial.{serial_to_string, valid_serial, serial_to_string-valid}
use boulder.Sa.Db.{Db, Faults, no_faults}
use boulder.Sa.Authz
use boulder.Sa.CertDb.{
  revoked, Certificate, CertificateStatus, CertDb, select_certificate, select_status, next_lock,
}
use boulder.Sa.Certificates.{
  Crypto, ParsedCertificate, get_certificate_status, mark_revoked, mark_certificate_revoked,
  new_status, new_certificate, add_certificate,
}
use boulder.Sa.CertLaws.{mark_certificate_revoked-ok, mark_certificate_revoked-works}
use boulder.Sa.CertAdded.{first_lock, add_certificate-ok, new_status-serial}

unfoldable pub revoke_certificate_with_reg :
    Faults → CertDb → ParsedCertificate → ℤ → ℕ → Result (Unit {0}) × CertDb
revoke_certificate_with_reg fs db cert now revocation_code =
    mark_certificate_revoked fs db (serial_to_string cert.serial_number) now revocation_code

unfoldable pub administratively_revoke_certificate :
    Faults → CertDb → ParsedCertificate → ℤ → ℕ → Result (Unit {0}) × CertDb
administratively_revoke_certificate fs db cert now revocation_code =
    mark_certificate_revoked fs db (serial_to_string cert.serial_number) now revocation_code

abbrev internal : Result (Unit {0}) → Result (Unit {0})
internal (ok u) = ok u
internal (err e) = err (boulder_error internal_server (message e))

unfoldable pub deactivate_authorization : Faults → Db → Authorization → Result (Unit {0}) × Db
deactivate_authorization fs db auth =
    if is_valid auth.status || is_pending auth.status
    then (let (result, db') = Authz.deactivate_authorization fs db auth.id in
        (internal result, db'))
    else (
      err (boulder_error malformed "only valid and pending authorizations can be deactivated"),
      db,
    )

found_row :
    (db : CertDb) (k : Text) (c : CertificateStatus)
    → valid_serial k ≡ true
    → select_status k db.statuses ≡ some c
    → get_certificate_status none db k ≡ ok c
unfolding get_certificate_status
found_row db k c v h = ground arith

first_row :
    (c : CertificateStatus) (k : Text) (rows out : List CertificateStatus)
    → c.serial ≡ k
    → out ≡ first_lock c ∷ rows
    → select_status k out ≡ some (first_lock c)
unfolding select_status
first_row c k rows out e f = ground (arith, text_eq_refl k)

first_certificate :
    (c : Certificate) (k : Text) (rows out : List Certificate)
    → c.serial ≡ k
    → out ≡ c ∷ rows
    → select_certificate k out ≡ some c
unfolding select_certificate
first_certificate c k rows out e f = ground (arith, text_eq_refl k)

marked_row :
    (b : Bool) (s s' : Option CertificateStatus) (old c : CertificateStatus) (at : ℤ) (reason : ℕ)
    → b ≡ true
    → s ≡ some old
    → s ≡ some c
    → s' ≡ (if b then some (next_lock (mark_revoked at reason old)) else s)
    → s' ≡ some (next_lock (mark_revoked at reason c))
marked_row b s s' old c at reason y f g h = ground arith

-- A certificate that was stored, whose DER parses and whose serial number is below 16^36, can be
-- revoked: with no failures the registration authority's call succeeds, and the status of the
-- certificate is then revoked, with the time and the reason given, and the rest of it as it was
-- stored, one version later.
pub add_certificate-revoke :
    (crypto : Crypto) (fs : Faults) (db : CertDb) (der : Text) (reg_id : ℤ) (ocsp : Text)
    (now later at : ℤ) (reason : ℕ) (parsed : ParsedCertificate) (digest : Text)
    → crypto.parse_certificate der ≡ ok parsed
    → parsed.serial_number < 16 ^ 36
    → (add_certificate crypto fs db der reg_id ocsp now later).0 ≡ ok digest
    → let issued = (add_certificate crypto fs db der reg_id ocsp now later).1 in
      let (result, out) = revoke_certificate_with_reg no_faults issued parsed at reason in
      (result ≡ ok tt)
      × (get_certificate_status none out (serial_to_string parsed.serial_number)
          ≡ ok (record (first_lock (new_status parsed ocsp later)) {
            status = revoked;
            revoked_date = at;
            revoked_reason = reason;
            lock_col = 2;
          }))
unfolding revoke_certificate_with_reg new_certificate
add_certificate-revoke crypto fs db der reg_id ocsp now later at reason parsed digest p small h =
    let added = add_certificate-ok crypto fs db der reg_id ocsp now later parsed digest p h in
    let issued = (add_certificate crypto fs db der reg_id ocsp now later).1 in
    let k = serial_to_string parsed.serial_number in
    let v = serial_to_string-valid parsed.serial_number small in
    let row =
      first_row (new_status parsed ocsp later) k db.statuses issued.statuses
        (new_status-serial parsed ocsp later) added.statuses in
    let works =
      mark_certificate_revoked-works issued k at reason
        (new_certificate crypto parsed der reg_id now) _ v
        (first_certificate (new_certificate crypto parsed der reg_id now) k db.certificates
          issued.certificates refl added.certificates)
        row in
    let (old, found, after, rest) =
      mark_certificate_revoked-ok no_faults issued k at reason k works in
    let out = (mark_certificate_revoked no_faults issued k at reason).1 in
    (
      works,
      found_row out k _ v
          (marked_row (k == k) _ _ old _ at reason (text_eq_refl k) found row after),
    )
