-- ===== src/Sa/CertLaws.antt =====
-- sa/sa.go: what MarkCertificateRevoked and AddCertificate do to the tables of certificates.
use boulder.Prelude.Text.{Text, text_eq_iff, text_Eq}
use boulder.Prelude.Int.{ℤ}
use boulder.Prelude.{
  ℕ, ◌≡◌, refl, true, false, some, List, [], ◌∷◌, arith, Bool-cases, Option-cases, inl, inr, ◌==◌,
  nat_beq, if◌then◌else◌,
}
use boulder.Errors.{Error, Result, ok, err}
use boulder.Core.Serial.{valid_serial}
use boulder.Sa.Db.{Faults, no_faults, transaction}
use boulder.Sa.Transactions.{transaction-err, transaction-ok}
use boulder.Sa.CertDb.{
  Certificate, CertificateStatus, CertDb, select_certificate, select_status, next_lock,
  update_status, updated_rows,
}
use boulder.Sa.Certificates.{
  Crypto, ParsedCertificate, get_certificate, get_certificate_status, mark_revoked, update_one,
  revoke_status, mark_certificate_revoked, add_parsed, add_certificate,
}

-- A call that fails leaves every table as it was.
pub mark_certificate_revoked-err :
    (fs : Faults) (db : CertDb) (serial : Text) (now : ℤ) (reason : ℕ) (e : Error)
    → (mark_certificate_revoked fs db serial now reason).0 ≡ err e
    → (mark_certificate_revoked fs db serial now reason).1 ≡ db
unfolding mark_certificate_revoked
mark_certificate_revoked-err fs db serial now reason e h =
    ground (arith, transaction-err fs db (revoke_status fs db serial now reason) e)

add_parsed-err :
    (crypto : Crypto) (fs : Faults) (db : CertDb) (der : Text) (reg_id : ℤ) (ocsp : Text)
    (now later : ℤ) (parsed : Result ParsedCertificate) (e : Error)
    → (add_parsed crypto fs db der reg_id ocsp now later parsed).0 ≡ err e
    → (add_parsed crypto fs db der reg_id ocsp now later parsed).1 ≡ db
unfolding add_parsed
add_parsed-err crypto fs db der reg_id ocsp now later (err f) e h = refl
add_parsed-err crypto fs db der reg_id ocsp now later (ok p) e h = transaction-err fs db _ e h

pub add_certificate-err :
    (crypto : Crypto) (fs : Faults) (db : CertDb) (der : Text) (reg_id : ℤ) (ocsp : Text)
    (now later : ℤ) (e : Error)
    → (add_certificate crypto fs db der reg_id ocsp now later).0 ≡ err e
    → (add_certificate crypto fs db der reg_id ocsp now later).1 ≡ db
unfolding add_certificate
add_certificate-err crypto fs db der reg_id ocsp now later e h =
    add_parsed-err crypto fs db der reg_id ocsp now later (crypto.parse_certificate der) e h

-- The row that a query finds has the serial, and the update of it is what the query then finds.
select_status-serial :
    (k : Text) (rows : List CertificateStatus) (c : CertificateStatus)
    → select_status k rows ≡ some c
    → c.serial ≡ k
unfolding select_status
select_status-serial k [] c h = ground arith
select_status-serial k (r ∷ rows) c h =
    ground (arith, text_eq_iff r.serial k, select_status-serial k rows c)

select_status-update_self :
    (now : ℤ) (reason : ℕ) (k : Text) (rows : List CertificateStatus) (c : CertificateStatus)
    → select_status k rows ≡ some c
    → select_status k (update_status (mark_revoked now reason c) rows)
      ≡ some (next_lock (mark_revoked now reason c))
unfolding select_status update_status
select_status-update_self now reason k [] c h = ground arith
select_status-update_self now reason k (r ∷ rows) c h = ground (
  arith,
  text_eq_iff r.serial k,
  text_eq_iff r.serial c.serial,
  text_eq_iff c.serial k,
  select_status-update_self now reason k rows c,
  select_status-serial k rows c,
)

select_status-update_other :
    (k : Text) (c : CertificateStatus) (rows : List CertificateStatus)
    → (c.serial == k) ≡ false
    → select_status k (update_status c rows) ≡ select_status k rows
unfolding select_status update_status
select_status-update_other k c [] h = refl
select_status-update_other k c (r ∷ rows) h = ground (
  arith,
  text_eq_iff r.serial k,
  text_eq_iff r.serial c.serial,
  text_eq_iff c.serial k,
  select_status-update_other k c rows,
)

updated_rows-found :
    (now : ℤ) (reason : ℕ) (k : Text) (rows : List CertificateStatus) (c : CertificateStatus)
    → select_status k rows ≡ some c
    → nat_beq (updated_rows (mark_revoked now reason c) rows) 0 ≡ false
unfolding select_status updated_rows
updated_rows-found now reason k [] c h = ground arith
updated_rows-found now reason k (r ∷ rows) c h = ground (
  arith,
  text_eq_iff r.serial k,
  text_eq_iff r.serial c.serial,
  updated_rows-found now reason k rows c,
)

-- What a revocation that works has found and done.
revoke_status-ok :
    (fs : Faults) (db out : CertDb) (serial : Text) (now : ℤ) (reason : ℕ)
    → revoke_status fs db serial now reason ≡ ok (tt, out)
    → (old : CertificateStatus) × (select_status serial db.statuses ≡ some old)
      × (out ≡ record db { statuses = update_status (mark_revoked now reason old) db.statuses })
unfolding revoke_status update_one
revoke_status-ok fs db out serial now reason h =
    elim (Option-cases (select_status serial db.statuses)) [
      | inl missing ↦ absurd (ground arith)
      | inr (old, found) ↦ (old, found, ground arith)
    ]

mark-ok :
    (fs : Faults) (db : CertDb) (serial : Text) (now : ℤ) (reason : ℕ)
    → (mark_certificate_revoked fs db serial now reason).0 ≡ ok tt
    → revoke_status fs db serial now reason
      ≡ ok (tt, (mark_certificate_revoked fs db serial now reason).1)
unfolding mark_certificate_revoked
mark-ok fs db serial now reason h =
    ground (arith, transaction-ok fs db (revoke_status fs db serial now reason) tt)

-- A revocation that succeeds found the row of the serial, and leaves in it the status, the time and the reason
-- given, with the rest as it was; the row of any other serial and the other three tables stay.
pub mark_certificate_revoked-ok :
    (fs : Faults) (db : CertDb) (serial : Text) (now : ℤ) (reason : ℕ) (k : Text)
    → (mark_certificate_revoked fs db serial now reason).0 ≡ ok tt
    → let out = (mark_certificate_revoked fs db serial now reason).1 in
      (old : CertificateStatus) × (select_status serial db.statuses ≡ some old)
      × (select_status k out.statuses ≡ (
          if serial == k
          then some (next_lock (mark_revoked now reason old))
          else select_status k db.statuses))
      × (out ≡ record db { statuses = out.statuses })
mark_certificate_revoked-ok fs db serial now reason k h =
    let (old, found, e) =
      revoke_status-ok fs db (mark_certificate_revoked fs db serial now reason).1 serial now reason
        (mark-ok fs db serial now reason h) in
    let c = mark_revoked now reason old in
    let key : old.serial ≡ serial = select_status-serial serial db.statuses old found in
    let row : select_status k (update_status c db.statuses)
        ≡ (if serial == k then some (next_lock c) else select_status k db.statuses) =
      elim (Bool-cases (serial == k)) [
        | inl y ↦
            rw (y, ← (text_eq_iff serial k).0 y)
              (select_status-update_self now reason serial db.statuses old found)
        | inr n ↦ rw n (select_status-update_other k c db.statuses (rw key n))
      ] in
    (old, found, rw e row, rw e refl)

-- Without failures a revocation succeeds for every valid serial that has a certificate and a status.
pub mark_certificate_revoked-works :
    (db : CertDb) (serial : Text) (now : ℤ) (reason : ℕ) (c : Certificate) (old : CertificateStatus)
    → valid_serial serial ≡ true
    → select_certificate serial db.certificates ≡ some c
    → select_status serial db.statuses ≡ some old
    → (mark_certificate_revoked no_faults db serial now reason).0 ≡ ok tt
unfolding mark_certificate_revoked get_certificate get_certificate_status revoke_status update_one
    transaction
mark_certificate_revoked-works db serial now reason c old v hc hs =
    ground (arith, updated_rows-found now reason serial db.statuses old)
