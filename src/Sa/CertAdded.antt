-- ===== src/Sa/CertAdded.antt =====
-- sa/sa.go: what is found after AddCertificate.
use boulder.Prelude.Text.{Text, text_eq_iff, text_eq_refl, text_Eq, to_lower}
use boulder.Prelude.Int.{ℤ}
use boulder.Prelude.{
  ◌^◌, ◌<◌, ◌≡◌, refl, sym, ap, ◌∙◌, [], if◌then◌else◌, true, false, none, List, ◌∷◌, map, arith,
  Option-cases, inl, inr, elem,
}
use boulder.Errors.{Result, ok, err, ◌>>=◌}
use boulder.Core.Serial.{serial_to_string, valid_serial, serial_to_string-valid}
use boulder.Core.Names.{unique_lower_names-ext}
use boulder.Core.Objects.{is_empty}
use boulder.Sa.Db.{Faults}
use boulder.Sa.Transactions.{transaction-ok, statement-ok}
use boulder.Sa.CertDb.{
  zero_time, good, Certificate, CertificateStatus, CertDb, FqdnSet, select_certificate,
  select_status, insert_certificate, insert_status,
}
use boulder.Sa.IssuedNames.{IssuedName}
use boulder.Sa.Certificates.{
  Crypto, ParsedCertificate, get_certificate, get_certificate_status, hash_names, add_issued_names,
  add_fqdn_set, new_status, new_certificate, insert_rows, add_parsed, add_certificate, count_rows,
  has_hash, fqdn_set_exists,
}

-- The row as it is stored.
abbrev pub first_lock : CertificateStatus → CertificateStatus
first_lock c = record c { lock_col = 1 }

insert_certificate-ok :
    (c : Certificate) (rows out : List Certificate)
    → insert_certificate c rows ≡ ok out
    → (select_certificate c.serial rows ≡ none) × (out ≡ c ∷ rows)
unfolding insert_certificate
insert_certificate-ok c rows out h = elim (Option-cases (select_certificate c.serial rows)) [
  | inl fresh ↦ (fresh, ground arith)
  | inr (old, there) ↦ absurd (ground arith)
]

insert_status-ok :
    (c : CertificateStatus) (rows out : List CertificateStatus)
    → insert_status c rows ≡ ok out
    → (select_status c.serial rows ≡ none) × (out ≡ first_lock c ∷ rows)
unfolding insert_status
insert_status-ok c rows out h = elim (Option-cases (select_status c.serial rows)) [
  | inl fresh ↦ (fresh, ground arith)
  | inr (old, there) ↦ absurd (ground arith)
]

add_issued_names-ok :
    (parsed : ParsedCertificate) (rows out : List IssuedName)
    → add_issued_names parsed rows ≡ ok out
    → is_empty parsed.dns_names ≡ false
unfolding add_issued_names
add_issued_names-ok parsed rows out h = ground arith

-- What the four statements did, when all of them worked.
pub record IsAdded (crypto : Crypto) (db out : CertDb) (parsed : ParsedCertificate)
    (cert : Certificate) (status : CertificateStatus) (digest : Text) : Type 0 where
  pub fresh : select_certificate cert.serial db.certificates ≡ none
  pub certificates : out.certificates ≡ cert ∷ db.certificates
  pub fresh_status : select_status status.serial db.statuses ≡ none
  pub statuses : out.statuses ≡ first_lock status ∷ db.statuses
  pub named : is_empty parsed.dns_names ≡ false
  pub fqdn_sets :
      out.fqdn_sets
      ≡ add_fqdn_set crypto parsed.dns_names cert.serial parsed.not_before parsed.not_after
          db.fqdn_sets
  pub digested : digest ≡ cert.digest

-- Four calls in a row that all succeed.
four-ok {ℓ} :
    {A B C D W : Type ℓ} (a : Result A) (b : Result B) (c : Result C) (d : Result D)
    (f : A → B → C → D → W) (w : W)
    → (a >>= λ x. b >>= λ y. c >>= λ z. d >>= λ u. ok (f x y z u)) ≡ ok w
    → (x : A) × (y : B) × (z : C) × (u : D) × (a ≡ ok x)
      × (b ≡ ok y)
      × (c ≡ ok z)
      × (d ≡ ok u)
      × (f x y z u ≡ w)
four-ok (err e) b c d f w h = cc
four-ok (ok x) (err e) c d f w h = cc
four-ok (ok x) (ok y) (err e) d f w h = cc
four-ok (ok x) (ok y) (ok z) (err e) f w h = cc
four-ok (ok x) (ok y) (ok z) (ok u) f w h = (x, y, z, u, refl, refl, refl, refl, cc)

insert_rows-ok :
    (crypto : Crypto) (fs : Faults) (db out : CertDb) (parsed : ParsedCertificate)
    (cert : Certificate) (status : CertificateStatus) (digest : Text)
    → insert_rows crypto fs db parsed cert status ≡ ok (digest, out)
    → IsAdded crypto db out parsed cert status digest
unfolding insert_rows
insert_rows-ok crypto fs db out parsed cert status digest h =
    let (certificates, statuses, issued_names, fqdn_sets, e0, e1, e2, e3, made) =
      four-ok _ _ _ _ _ _ h in
    let (fresh, c) =
      insert_certificate-ok cert db.certificates certificates (statement-ok (fs.at 0) _ _ e0) in
    let (fresh_status, s) =
      insert_status-ok status db.statuses statuses (statement-ok (fs.at 1) _ _ e1) in
    let sets = statement-ok (fs.at 3) _ _ e3 in
    record {
      fresh = fresh;
      certificates = ap (λ p. p.1.certificates) (sym made) ∙ c;
      fresh_status = fresh_status;
      statuses = ap (λ p. p.1.statuses) (sym made) ∙ s;
      named =
          add_issued_names-ok parsed db.issued_names issued_names (statement-ok (fs.at 2) _ _ e2);
      fqdn_sets = ap (λ p. p.1.fqdn_sets) (sym made) ∙ ground arith;
      digested = ap (λ p. p.0) (sym made);
    }

pub add_certificate-ok :
    (crypto : Crypto) (fs : Faults) (db : CertDb) (der : Text) (reg_id : ℤ) (ocsp : Text)
    (now later : ℤ) (parsed : ParsedCertificate) (digest : Text)
    → crypto.parse_certificate der ≡ ok parsed
    → (add_certificate crypto fs db der reg_id ocsp now later).0 ≡ ok digest
    → IsAdded crypto db
        (add_certificate crypto fs db der reg_id ocsp now later).1
        parsed
        (new_certificate crypto parsed der reg_id now)
        (new_status parsed ocsp later)
        digest
unfolding add_certificate add_parsed
add_certificate-ok crypto fs db der reg_id ocsp now later parsed digest p h =
    let body =
      insert_rows crypto fs db parsed (new_certificate crypto parsed der reg_id now)
        (new_status parsed ocsp later) in
    let run = add_parsed crypto fs db der reg_id ocsp now later in
    rw p (
      insert_rows-ok crypto fs db _ parsed _ _ digest
        (transaction-ok fs db body digest (ap (λ r. (run r).0) (sym p) ∙ h)))

found_certificate :
    (db : CertDb) (c : Certificate) (rows : List Certificate)
    → valid_serial c.serial ≡ true
    → db.certificates ≡ c ∷ rows
    → get_certificate none db c.serial ≡ ok c
unfolding get_certificate select_certificate
found_certificate db c rows v e = ground (arith, text_eq_refl c.serial)

found_status :
    (db : CertDb) (c : CertificateStatus) (rows : List CertificateStatus)
    → valid_serial c.serial ≡ true
    → db.statuses ≡ first_lock c ∷ rows
    → get_certificate_status none db c.serial ≡ ok (first_lock c)
unfolding get_certificate_status select_status
found_status db c rows v e = ground (arith, text_eq_refl c.serial)

pub new_status-serial :
    (parsed : ParsedCertificate) (ocsp : Text) (now : ℤ)
    → (new_status parsed ocsp now).serial ≡ serial_to_string parsed.serial_number
unfolding new_status
new_status-serial parsed ocsp now = ground arith

found_set :
    (crypto : Crypto) (db : CertDb) (names : List Text) (set : FqdnSet) (rows : List FqdnSet)
    → set.set_hash ≡ hash_names crypto names
    → db.fqdn_sets ≡ set ∷ rows
    → fqdn_set_exists crypto none db names ≡ ok true
unfolding fqdn_set_exists count_rows has_hash
found_set crypto db names set rows h e =
    ground (arith, text_eq_iff set.set_hash (hash_names crypto names))

-- The status row is good and has the response that it was given.
new_status-good :
    (parsed : ParsedCertificate) (ocsp : Text) (later : ℤ)
    → let row = first_lock (new_status parsed ocsp later) in
      (row.status ≡ good)
      × (row.not_after ≡ parsed.not_after)
      × (row.ocsp_response ≡ ocsp)
      × (row.ocsp_last_updated ≡ (if is_empty ocsp then zero_time else later))
      × (row.is_expired ≡ false)
unfolding new_status
new_status-good parsed [] later = (refl, refl, refl, refl, refl)
new_status-good parsed (c ∷ ocsp) later = (refl, refl, refl, refl, refl)

-- If the DER parses, its serial number is below 16^36 and AddCertificate succeeds, then it returns
-- the fingerprint, and what it stored is found by the serial: the certificate with the account, the
-- DER, the fingerprint, the time of the call and the end of its validity; and a status that is good
-- and not expired, with the OCSP response given and, if there is one, its time.
pub add_certificate-get_certificate :
    (crypto : Crypto) (fs : Faults) (db : CertDb) (der : Text) (reg_id : ℤ) (ocsp : Text)
    (now later : ℤ) (parsed : ParsedCertificate) (digest : Text)
    → crypto.parse_certificate der ≡ ok parsed
    → parsed.serial_number < 16 ^ 36
    → (add_certificate crypto fs db der reg_id ocsp now later).0 ≡ ok digest
    → let out = (add_certificate crypto fs db der reg_id ocsp now later).1 in
      let serial = serial_to_string parsed.serial_number in
      (digest ≡ crypto.fingerprint256 der)
      × (get_certificate none out serial
          ≡ ok (record {
            registration_id = reg_id;
            serial = serial;
            digest = digest;
            der = der;
            issued = now;
            expires = parsed.not_after;
          }))
      × (row : CertificateStatus) × (get_certificate_status none out serial ≡ ok row)
      × (row.serial ≡ serial)
      × (row.status ≡ good)
      × (row.not_after ≡ parsed.not_after)
      × (row.ocsp_response ≡ ocsp)
      × (row.ocsp_last_updated ≡ (if is_empty ocsp then zero_time else later))
      × (row.is_expired ≡ false)
unfolding new_certificate
add_certificate-get_certificate crypto fs db der reg_id ocsp now later parsed digest p small h =
    let added = add_certificate-ok crypto fs db der reg_id ocsp now later parsed digest p h in
    let serial = serial_to_string parsed.serial_number in
    let valid = serial_to_string-valid parsed.serial_number small in
    let row = new_status-serial parsed ocsp later in
    let (is_good, until, response, updated, fresh) = new_status-good parsed ocsp later in
    (
      added.digested,
      rw (added.digested) (found_certificate _ _ db.certificates valid added.certificates),
      first_lock (new_status parsed ocsp later),
      rw (← row)
          (found_status _ (new_status parsed ocsp later) db.statuses (rw row valid) added.statuses),
      row,
      is_good,
      until,
      response,
      updated,
      fresh,
    )

-- The set of names of a certificate that was stored exists, under any list with the same names, whatever their
-- order, case and repetition.
pub add_certificate-fqdn_set_exists :
    (crypto : Crypto) (fs : Faults) (db : CertDb) (der : Text) (reg_id : ℤ) (ocsp : Text)
    (now later : ℤ) (parsed : ParsedCertificate) (digest : Text) (names : List Text)
    → crypto.parse_certificate der ≡ ok parsed
    → (add_certificate crypto fs db der reg_id ocsp now later).0 ≡ ok digest
    → ((z : Text) → elem z (map to_lower names) ≡ elem z (map to_lower parsed.dns_names))
    → fqdn_set_exists crypto none (add_certificate crypto fs db der reg_id ocsp now later).1 names
      ≡ ok true
unfolding hash_names add_fqdn_set
add_certificate-fqdn_set_exists crypto fs db der reg_id ocsp now later parsed digest names p h
      same =
    let added = add_certificate-ok crypto fs db der reg_id ocsp now later parsed digest p h in
    let one = unique_lower_names-ext names parsed.dns_names same in
    found_set crypto _ names _ db.fqdn_sets (rw (hash_names, one) refl) added.fqdn_sets
