-- ===== src/Sa/Certificates.antt =====
-- sa/sa.go: AddCertificate, MarkCertificateRevoked and the queries on certificates. Parsing (crypto/x509)
-- and SHA-256 are parameters. A call takes its failures as in Sa/Db.antt; clk.Now() is an argument.
use boulder.Prelude.Text.{Text, text_Eq, join}
use boulder.Prelude.Int.{ℤ, ltb_ℤ, ◌-ℤ◌}
use boulder.Prelude.{
  ℕ, suc, Bool, not, ◌&&◌, Option, none, some, List, [], ◌∷◌, ◌++◌, map, ◌==◌, nat_beq, ltb,
  if◌then◌else◌,
}
use boulder.Errors.{
  Error, plain_error, boulder_error, not_found, internal_server, Result, ok, err, ◌>>=◌,
}
use boulder.Core.Serial.{serial_to_string, valid_serial}
use boulder.Core.Names.{unique_lower_names}
use boulder.Core.Objects.{is_empty}
use boulder.Sa.Db.{Faults, statement, transaction}
use boulder.Sa.ReverseName.{reverse_name}
use boulder.Sa.IssuedNames.{IssuedName}
use boulder.Sa.CertDb.{
  revoked, Certificate, CertificateStatus, no_certificate_status, FqdnSet, CertDb,
  select_certificate, select_status, insert_certificate, insert_status, update_status, updated_rows,
}

-- What AddCertificate reads of an x509.Certificate.
pub record ParsedCertificate : Type 0 where
  pub serial_number : ℕ
  pub dns_names : List Text
  pub not_before : ℤ
  pub not_after : ℤ

-- x509.ParseCertificate, core.Fingerprint256 and sha256.Sum256.
pub record Crypto : Type 0 where
  pub parse_certificate : Text → Result ParsedCertificate
  pub fingerprint256 : Text → Text
  pub sum256 : Text → Text

-- The error of a query, or its result.
abbrev query {ℓ} : {A : Type ℓ} → Option Error → A → Result A
query fault a = statement fault (ok a)

-- ErrNoRows is an Option that is none.
unfoldable pub get_certificate : Option Error → CertDb → Text → Result Certificate
get_certificate fault db serial =
    if not (valid_serial serial)
    then err (plain_error "Invalid certificate serial %s")
    else query fault (select_certificate serial db.certificates) >>= λ found. elim found [
      | none ↦ err (boulder_error not_found "certificate with serial %q not found")
      | some cert ↦ ok cert
    ]

-- A serial with no row gives the zero value and no error.
unfoldable pub get_certificate_status : Option Error → CertDb → Text → Result CertificateStatus
get_certificate_status fault db serial =
    if not (valid_serial serial)
    then err (plain_error "Invalid certificate serial %s")
    else query fault (select_status serial db.statuses) >>= λ found. elim found [
      | none ↦ ok no_certificate_status
      | some status ↦ ok status
    ]

abbrev pub mark_revoked : ℤ → ℕ → CertificateStatus → CertificateStatus
mark_revoked now reason_code c = record c {
  status = revoked;
  revoked_date = now;
  revoked_reason = reason_code;
}

-- tx.Update: gorp gives an error for a row that has changed since it was read.
unfoldable pub update_one : Option Error → CertificateStatus → CertDb → Result (ℕ × CertDb)
update_one fault c db = statement fault (
    let n = updated_rows c db.statuses in
    if nat_beq n 0 && ltb 0 c.lock_col
    then err (plain_error "gorp: OptimisticLockError")
    else ok (n, record db { statuses = update_status c db.statuses }))

-- The body of the transaction of MarkCertificateRevoked.
unfoldable pub revoke_status : Faults → CertDb → Text → ℤ → ℕ → Result (Unit {0} × CertDb)
revoke_status fs db serial now reason_code =
    query (fs.at 2) (select_status serial db.statuses) >>= λ found. elim found [
      | none ↦ err (plain_error "No certificate with serial %s")
      | some status ↦ update_one (fs.at 3) (mark_revoked now reason_code status) db >>= λ updated.
          if nat_beq updated.0 0
          then err (boulder_error internal_server "no certificate updated")
          else ok (tt, updated.1)
    ]

unfoldable pub mark_certificate_revoked :
    Faults → CertDb → Text → ℤ → ℕ → Result (Unit {0}) × CertDb
mark_certificate_revoked fs db serial now reason_code = elim (get_certificate (fs.at 0) db serial) [
  | err e ↦ (err (plain_error "Unable to mark certificate %s revoked: cert not found."), db)
  | ok cert ↦ elim (get_certificate_status (fs.at 1) db serial) [
    | err e ↦
        (err (plain_error "Unable to mark certificate %s revoked: cert status not found."), db)
    | ok status ↦ transaction fs db (revoke_status fs db serial now reason_code)
  ]
]

unfoldable pub hash_names : Crypto → List Text → Text
hash_names crypto names = crypto.sum256 (join b',' (unique_lower_names names))

abbrev issued_name : ParsedCertificate → Text → IssuedName
issued_name parsed name = record {
  reversed_name = reverse_name name;
  serial = serial_to_string parsed.serial_number;
  not_before = parsed.not_before;
}

-- With no names the statement has no values, which is a syntax error.
unfoldable pub add_issued_names : ParsedCertificate → List IssuedName → Result (List IssuedName)
add_issued_names parsed rows =
    if is_empty parsed.dns_names
    then err (plain_error "Error 1064: You have an error in your SQL syntax")
    else ok (map (issued_name parsed) parsed.dns_names ++ rows)

unfoldable pub add_fqdn_set : Crypto → List Text → Text → ℤ → ℤ → List FqdnSet → List FqdnSet
add_fqdn_set crypto names serial issued expires rows =
    record {
      set_hash = hash_names crypto names;
      serial = serial;
      issued = issued;
      expires = expires;
    }
    ∷ rows

-- certStatusOb, with the time of the second clk.Now().
unfoldable pub new_status : ParsedCertificate → Text → ℤ → CertificateStatus
new_status parsed ocsp_response now =
    let blank = record no_certificate_status {
      serial = serial_to_string parsed.serial_number;
      not_after = parsed.not_after;
    } in
    if is_empty ocsp_response
    then blank
    else record blank { ocsp_response = ocsp_response; ocsp_last_updated = now }

unfoldable pub new_certificate : Crypto → ParsedCertificate → Text → ℤ → ℤ → Certificate
new_certificate crypto parsed cert_der reg_id now = record {
  registration_id = reg_id;
  serial = serial_to_string parsed.serial_number;
  digest = crypto.fingerprint256 cert_der;
  der = cert_der;
  issued = now;
  expires = parsed.not_after;
}

-- The statements of the transaction of AddCertificate.
unfoldable pub insert_rows :
    Crypto
    → Faults
    → CertDb
    → ParsedCertificate
    → Certificate
    → CertificateStatus
    → Result (Text × CertDb)
insert_rows crypto fs db parsed cert status =
    statement (fs.at 0) (insert_certificate cert db.certificates) >>= λ certificates.
    statement (fs.at 1) (insert_status status db.statuses) >>= λ statuses.
    statement (fs.at 2) (add_issued_names parsed db.issued_names) >>= λ issued_names.
    query (fs.at 3) (
      add_fqdn_set crypto parsed.dns_names cert.serial parsed.not_before parsed.not_after
        db.fqdn_sets)
    >>= λ fqdn_sets. ok (
      cert.digest,
      record {
        certificates = certificates;
        statuses = statuses;
        issued_names = issued_names;
        fqdn_sets = fqdn_sets;
      },
    )

-- What follows the parsing.
unfoldable pub add_parsed :
    Crypto
    → Faults
    → CertDb
    → Text
    → ℤ
    → Text
    → ℤ
    → ℤ
    → Result ParsedCertificate
    → Result Text × CertDb
add_parsed crypto fs db cert_der reg_id ocsp_response now later (err e) = (err e, db)
add_parsed crypto fs db cert_der reg_id ocsp_response now later (ok parsed) = transaction fs db (
    insert_rows crypto fs db parsed (new_certificate crypto parsed cert_der reg_id now)
      (new_status parsed ocsp_response later))

-- The digest, and the tables; `now` and `later` are the two readings of the clock.
unfoldable pub add_certificate :
    Crypto → Faults → CertDb → Text → ℤ → Text → ℤ → ℤ → Result Text × CertDb
unfolding add_parsed
add_certificate crypto fs db cert_der reg_id ocsp_response now later =
    add_parsed crypto fs db cert_der reg_id ocsp_response now later
      (crypto.parse_certificate cert_der)

unfoldable pub in_range : ℤ → ℤ → Certificate → Bool
in_range start end cert = not (ltb_ℤ cert.issued start) && ltb_ℤ cert.issued end

unfoldable pub count_rows {ℓ} : {A : Type ℓ} → (A → Bool) → List A → ℕ
count_rows p [] = 0
count_rows p (a ∷ rows) = if p a then suc (count_rows p rows) else count_rows p rows

unfoldable pub count_certificates_range : Option Error → CertDb → ℤ → ℤ → Result ℕ
unfolding in_range
count_certificates_range fault db start end =
    query fault (count_rows (in_range start end) db.certificates)

unfoldable pub has_hash : Text → FqdnSet → Bool
has_hash hash set = set.set_hash == hash

unfoldable pub count_fqdn_sets : Crypto → Option Error → CertDb → ℤ → ℤ → List Text → Result ℕ
unfolding has_hash
count_fqdn_sets crypto fault db now window names = query fault (
    count_rows (λ set. has_hash (hash_names crypto names) set && ltb_ℤ (now -ℤ window) set.issued)
      db.fqdn_sets)

unfoldable pub fqdn_set_exists : Crypto → Option Error → CertDb → List Text → Result Bool
unfolding has_hash
fqdn_set_exists crypto fault db names =
    query fault (count_rows (has_hash (hash_names crypto names)) db.fqdn_sets) >>= λ count.
    ok (ltb 0 count)
