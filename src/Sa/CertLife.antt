-- ===== src/Sa/CertLife.antt =====
-- sa/sa.go: AddCertificate and MarkCertificateRevoked in any order, with any failures.
use boulder.Prelude.Text.{Text, text_eq_iff, text_Eq}
use boulder.Prelude.Int.{ℤ}
use boulder.Prelude.{
  ℕ, ◌≡◌, ◌≢◌, ◌⊎◌, refl, sym, ap, ◌∙◌, Bool, true, false, Option, none, some, List, [], ◌∷◌, arith,
  Bool-cases, inl, inr, ◌==◌,
}
use mathlib.Core.Option.{map}
use boulder.Errors.{Error, Result, ok, err}
use boulder.Sa.Db.{Faults}
use boulder.Sa.CertDb.{
  Certificate, CertificateStatus, CertDb, good, revoked, next_lock, select_certificate,
  select_status,
}
use boulder.Sa.Certificates.{
  Crypto, ParsedCertificate, new_certificate, new_status, mark_certificate_revoked, add_parsed,
  add_certificate, mark_revoked,
}
use boulder.Sa.CertLaws.{
  mark_certificate_revoked-err, mark_certificate_revoked-ok, add_certificate-err,
}
use boulder.Sa.CertAdded.{first_lock, IsAdded, add_certificate-ok, new_status-serial}

-- A call of one of the two, with what the caller passes and the times at which it runs.
pub data CertCall : Type 0 where
  add : Text → ℤ → Text → ℤ → ℤ → CertCall
  revoke : Text → ℤ → ℕ → CertCall

unfoldable pub perform_call : Crypto → Faults → CertDb → CertCall → CertDb
perform_call crypto fs db (add der reg_id ocsp now later) =
    (add_certificate crypto fs db der reg_id ocsp now later).1
perform_call crypto fs db (revoke serial now reason) =
    (mark_certificate_revoked fs db serial now reason).1

unfoldable pub run_calls : Crypto → CertDb → List (Faults × CertCall) → CertDb
run_calls crypto db [] = db
run_calls crypto db ((fs, call) ∷ calls) = run_calls crypto (perform_call crypto fs db call) calls

abbrev pub is_found {ℓ} : {A : Type ℓ} → Option A → Bool
is_found none = false
is_found (some a) = true

-- Every certificate has a status, and every status has a certificate.
abbrev pub IsPaired : CertDb → Type 0
IsPaired db =
    (k : Text)
    → is_found (select_certificate k db.certificates) ≡ is_found (select_status k db.statuses)

Result-cases {ℓ} :
    {A : Type ℓ} (r : Result A) → ((e : Error) × (r ≡ err e)) ⊎ ((a : A) × (r ≡ ok a))
Result-cases (err e) = inl (e, refl)
Result-cases (ok a) = inr (a, refl)

-- What one call can do to a pair of a certificate and a status.
pub data Change : (c c' : Option Certificate) (s s' : Option CertificateStatus) → Type 0 where
  same : (c : Option Certificate) (s : Option CertificateStatus) → Change c c s s
  issued :
      (c : Certificate) (s : CertificateStatus)
      → s.status ≡ good
      → Change none (some c) none (some s)
  marked :
      (c : Option Certificate) (s s' : CertificateStatus)
      → s'.status ≡ revoked
      → Change c c (some s) (some s')

abbrev pub Changed : CertDb → CertDb → Text → Type 0
Changed db out k =
    Change (select_certificate k db.certificates) (select_certificate k out.certificates)
      (select_status k db.statuses) (select_status k out.statuses)

change_at :
    {c c' d d' : Option Certificate} {s s' t t' : Option CertificateStatus}
    → c ≡ d
    → c' ≡ d'
    → s ≡ t
    → s' ≡ t'
    → Change d d' t t'
    → Change c c' s s'
change_at e e' f f' h = rw (e, e', f, f') h

new_status-good :
    (parsed : ParsedCertificate) (ocsp : Text) (now : ℤ)
    → (new_status parsed ocsp now).status ≡ good
unfolding new_status
new_status-good parsed ocsp now = ground arith

added-Changed :
    (crypto : Crypto) (db out : CertDb) (parsed : ParsedCertificate) (c : Certificate)
    (s : CertificateStatus) (digest k : Text)
    → IsAdded crypto db out parsed c s digest
    → s.serial ≡ c.serial
    → s.status ≡ good
    → Changed db out k
unfolding select_certificate select_status
added-Changed crypto db out parsed c s digest k added e g =
    let certificates = added.certificates in
    let statuses = added.statuses in
    elim (Bool-cases (c.serial == k)) [
      | inl y ↦
          let at : c.serial ≡ k = (text_eq_iff c.serial k).0 y in
          change_at (rw (← at) added.fresh) (ground arith) (rw (← at, ← e) added.fresh_status)
            (ground arith) (issued c (first_lock s) g)
      | inr n ↦
          change_at refl (ground arith) refl (ground arith)
            (same (select_certificate k db.certificates) (select_status k db.statuses))
    ]

not_parsed :
    (crypto : Crypto) (fs : Faults) (db : CertDb) (der : Text) (reg_id : ℤ) (ocsp : Text)
    (now later : ℤ) (e : Error) (digest : Text)
    → crypto.parse_certificate der ≡ err e
    → (add_certificate crypto fs db der reg_id ocsp now later).0 ≢ ok digest
unfolding add_certificate add_parsed
not_parsed crypto fs db der reg_id ocsp now later e digest bad h = ground arith

add-Changed :
    (crypto : Crypto) (fs : Faults) (db : CertDb) (der : Text) (reg_id : ℤ) (ocsp : Text)
    (now later : ℤ) (k : Text)
    → Changed db (add_certificate crypto fs db der reg_id ocsp now later).1 k
unfolding new_certificate
add-Changed crypto fs db der reg_id ocsp now later k =
    elim (Result-cases (add_certificate crypto fs db der reg_id ocsp now later).0) [
      | inl (e, failed) ↦
          rw (add_certificate-err crypto fs db der reg_id ocsp now later e failed) (same _ _)
      | inr (digest, worked) ↦ elim (Result-cases (crypto.parse_certificate der)) [
        | inl (e, bad) ↦
            absurd (not_parsed crypto fs db der reg_id ocsp now later e digest bad worked)
        | inr (parsed, p) ↦
            added-Changed crypto db _ parsed _ _ digest k
              (add_certificate-ok crypto fs db der reg_id ocsp now later parsed digest p worked)
              (new_status-serial parsed ocsp later) (new_status-good parsed ocsp later)
      ]
    ]

mark-Changed :
    (fs : Faults) (db : CertDb) (serial : Text) (now : ℤ) (reason : ℕ) (k : Text)
    → Changed db (mark_certificate_revoked fs db serial now reason).1 k
mark-Changed fs db serial now reason k =
    elim (Result-cases (mark_certificate_revoked fs db serial now reason).0) [
      | inl (e, failed) ↦
          rw (mark_certificate_revoked-err fs db serial now reason e failed) (same _ _)
      | inr (_, worked) ↦
          let (old, found, row, rest) =
            mark_certificate_revoked-ok fs db serial now reason k worked in
          elim (Bool-cases (serial == k)) [
            | inl y ↦
                change_at refl (rw rest refl)
                  (ap (λ t. select_status t db.statuses) (sym ((text_eq_iff serial k).0 y)) ∙ found)
                  (ground arith)
                  (marked (select_certificate k db.certificates) old
                    (next_lock (mark_revoked now reason old)) refl)
            | inr n ↦
                change_at refl (rw rest refl) refl (ground arith)
                  (same (select_certificate k db.certificates) (select_status k db.statuses))
          ]
    ]

-- Every call, failed or not, does one of the three to each serial.
pub perform_call-Changed :
    (crypto : Crypto) (fs : Faults) (db : CertDb) (call : CertCall) (k : Text)
    → Changed db (perform_call crypto fs db call) k
unfolding perform_call
perform_call-Changed crypto fs db (add der reg_id ocsp now later) k =
    add-Changed crypto fs db der reg_id ocsp now later k
perform_call-Changed crypto fs db (revoke serial now reason) k =
    mark-Changed fs db serial now reason k

Change-paired :
    {c c' : Option Certificate} {s s' : Option CertificateStatus}
    → Change c c' s s'
    → is_found c ≡ is_found s
    → is_found c' ≡ is_found s'
Change-paired (same c s) h = h
Change-paired (issued c s g) h = refl
Change-paired (marked c s s' r) h = h

-- Whatever the calls and their failures, every certificate keeps a status and every status a certificate.
pub run_calls-IsPaired :
    (crypto : Crypto) (db : CertDb) (calls : List (Faults × CertCall))
    → IsPaired db
    → IsPaired (run_calls crypto db calls)
unfolding run_calls
run_calls-IsPaired crypto db [] h = h
run_calls-IsPaired crypto db ((fs, call) ∷ calls) h =
    run_calls-IsPaired crypto (perform_call crypto fs db call) calls
      λ k. Change-paired (perform_call-Changed crypto fs db call k) (h k)

Change-revoked :
    {c c' : Option Certificate} {s s' : Option CertificateStatus}
    → Change c c' s s'
    → map (λ t. t.status) s ≡ some revoked
    → map (λ t. t.status) s' ≡ some revoked
Change-revoked (same c s) h = h
Change-revoked (issued c s g) h = cc
Change-revoked (marked c s s' r) h = ap some r

Change-kept :
    {c c' : Option Certificate} {s s' : Option CertificateStatus} {old : Certificate}
    → Change c c' s s'
    → c ≡ some old
    → c' ≡ some old
Change-kept (same c s) h = h
Change-kept (issued c s g) h = cc
Change-kept (marked c s s' r) h = h

-- A revocation is for good: whatever calls follow and however they fail, the status stays revoked and the
-- certificate stays what it was.
pub run_calls-revoked :
    (crypto : Crypto) (db : CertDb) (calls : List (Faults × CertCall)) (k : Text)
    (cert : Certificate)
    → select_certificate k db.certificates ≡ some cert
    → map (λ t. t.status) (select_status k db.statuses) ≡ some revoked
    → let out = run_calls crypto db calls in
      (select_certificate k out.certificates ≡ some cert)
      × (map (λ t. t.status) (select_status k out.statuses) ≡ some revoked)
unfolding run_calls
run_calls-revoked crypto db [] k cert h r = (h, r)
run_calls-revoked crypto db ((fs, call) ∷ calls) k cert h r =
    let step = perform_call-Changed crypto fs db call k in
    run_calls-revoked crypto (perform_call crypto fs db call) calls k cert (Change-kept step h)
      (Change-revoked step r)
