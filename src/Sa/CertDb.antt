-- ===== src/Sa/CertDb.antt =====
-- core/objects.go and sa/: the tables of certificates. The key of certificates and of
-- certificateStatus is the serial; the other two tables number their rows.
use boulder.Prelude.Text.{Text, text_Eq}
use boulder.Prelude.Int.{ℤ, negsuc}
use boulder.Prelude.{
  ℕ, ◌+◌, Bool, false, ◌&&◌, Option, none, some, List, [], ◌∷◌, ◌==◌, nat_beq, if◌then◌else◌,
}
use boulder.Errors.{plain_error, Result, ok, err}
use boulder.Sa.IssuedNames.{IssuedName}

-- time.Time{}, in nanoseconds.
abbrev pub zero_time : ℤ
zero_time = negsuc 62_135_596_799_999_999_999

pub data OcspStatus : Type 0 where
  good revoked : OcspStatus

pub record Certificate : Type 0 where
  pub registration_id : ℤ
  pub serial : Text
  pub digest : Text
  pub der : Text
  pub issued : ℤ
  pub expires : ℤ

pub record CertificateStatus : Type 0 where
  pub serial : Text
  pub subscriber_approved : Bool
  pub status : OcspStatus
  pub ocsp_last_updated : ℤ
  pub revoked_date : ℤ
  pub revoked_reason : ℕ
  pub last_expiration_nag_sent : ℤ
  pub ocsp_response : Text
  pub not_after : ℤ
  pub is_expired : Bool
  pub lock_col : ℕ

-- var status core.CertificateStatus
abbrev pub no_certificate_status : CertificateStatus
no_certificate_status = record {
  serial = [];
  subscriber_approved = false;
  status = good;
  ocsp_last_updated = zero_time;
  revoked_date = zero_time;
  revoked_reason = 0;
  last_expiration_nag_sent = zero_time;
  ocsp_response = [];
  not_after = zero_time;
  is_expired = false;
  lock_col = 0;
}

pub record FqdnSet : Type 0 where
  pub set_hash : Text
  pub serial : Text
  pub issued : ℤ
  pub expires : ℤ

pub record CertDb : Type 0 where
  pub certificates : List Certificate
  pub statuses : List CertificateStatus
  pub issued_names : List IssuedName
  pub fqdn_sets : List FqdnSet

-- SelectCertificate with WHERE serial = ?
unfoldable pub select_certificate : Text → List Certificate → Option Certificate
select_certificate serial [] = none
select_certificate serial (c ∷ rows) =
    if c.serial == serial then some c else select_certificate serial rows

-- SelectCertificateStatus with WHERE serial = ?
unfoldable pub select_status : Text → List CertificateStatus → Option CertificateStatus
select_status serial [] = none
select_status serial (c ∷ rows) = if c.serial == serial then some c else select_status serial rows

-- INSERT fails on a serial that is there.
unfoldable pub insert_certificate : Certificate → List Certificate → Result (List Certificate)
insert_certificate c rows = elim (select_certificate c.serial rows) [
  | some old ↦ err (plain_error "Error 1062: Duplicate entry")
  | none ↦ ok (c ∷ rows)
]

-- A new row has LockCol 1.
unfoldable pub insert_status :
    CertificateStatus → List CertificateStatus → Result (List CertificateStatus)
insert_status c rows = elim (select_status c.serial rows) [
  | some old ↦ err (plain_error "Error 1062: Duplicate entry")
  | none ↦ ok (record c { lock_col = 1 } ∷ rows)
]

-- UPDATE … WHERE serial = ? AND LockCol = ?, which also raises LockCol.
abbrev pub next_lock : CertificateStatus → CertificateStatus
next_lock c = record c { lock_col = c.lock_col + 1 }

abbrev same_row : CertificateStatus → CertificateStatus → Bool
same_row c old = old.serial == c.serial && nat_beq old.lock_col c.lock_col

unfoldable pub update_status : CertificateStatus → List CertificateStatus → List CertificateStatus
update_status c [] = []
update_status c (old ∷ rows) =
    if same_row c old then next_lock c ∷ update_status c rows else old ∷ update_status c rows

unfoldable pub updated_rows : CertificateStatus → List CertificateStatus → ℕ
updated_rows c [] = 0
updated_rows c (old ∷ rows) =
    if same_row c old then updated_rows c rows + 1 else updated_rows c rows
