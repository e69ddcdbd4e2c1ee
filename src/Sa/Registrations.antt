-- ===== src/Sa/Registrations.antt =====
-- sa/sa.go and sa/model.go: the table of registrations. Its id counts up, and no two rows have the digest of one key. A key
-- is the bytes of its encoding, which JSON gives back; the digest is a parameter. A statement's failure is an argument.
use boulder.Prelude.Text.{Text, text_Eq}
use boulder.Prelude.Int.{ℤ, int_eq, pos}
use boulder.Prelude.{
  ℕ, ◌+◌, Bool, false, ◌&&◌, ◌||◌, Option, none, some, List, [], ◌∷◌, ◌==◌, nat_beq, ltb,
  if◌then◌else◌,
}
use boulder.Errors.{Error, plain_error, boulder_error, not_found, Result, ok, err, ◌>>=◌}
use boulder.Features.{Flags, enabled, allow_account_deactivation}
use boulder.Core.Types.{AcmeStatus, no_status, valid, deactivated, is_valid, Registration}
use boulder.Core.Objects.{is_empty}
use boulder.Sa.Db.{statement}
use boulder.Sa.IpRange.{to16}

-- regModelv2; regModelv1 has no status.
pub record RegModel : Type 0 where
  pub id : ℤ
  pub key : Text
  pub key_sha256 : Text
  pub contact : List Text
  pub agreement : Text
  pub initial_ip : Text
  pub created_at : ℤ
  pub lock_col : ℕ
  pub status : AcmeStatus

-- The table, and the number of its next row.
pub record RegDb : Type 0 where
  pub rows : List RegModel
  pub next : ℕ

-- core.KeyDigest
abbrev pub KeyDigest : Type 0
KeyDigest = Text → Result Text

abbrev pub contacts_of : Option (List Text) → List Text
contacts_of none = []
contacts_of (some contact) = contact

-- A nil address has no bytes. Without the status the column keeps what it has, `old`.
unfoldable pub registration_to_model :
    Flags → KeyDigest → AcmeStatus → Registration → Result RegModel
registration_to_model flags digest old r = digest r.key >>= λ sha.
    if is_empty r.initial_ip
    then err (plain_error "initialIP was nil")
    else ok (record {
      id = r.id;
      key = r.key;
      key_sha256 = sha;
      contact = contacts_of r.contact;
      agreement = r.agreement;
      initial_ip = to16 r.initial_ip;
      created_at = r.created_at;
      lock_col = 0;
      status = if enabled flags allow_account_deactivation then r.status else old;
    })

unfoldable pub model_to_registration : Flags → RegModel → Registration
model_to_registration flags rm = record {
  id = rm.id;
  key = rm.key;
  contact = some rm.contact;
  agreement = rm.agreement;
  initial_ip = rm.initial_ip;
  created_at = rm.created_at;
  status = if enabled flags allow_account_deactivation then rm.status else no_status;
}

unfoldable pub find_id : ℤ → List RegModel → Option RegModel
find_id id [] = none
find_id id (rm ∷ rows) = if rm.id == id then some rm else find_id id rows

unfoldable pub find_sha : Text → List RegModel → Option RegModel
find_sha sha [] = none
find_sha sha (rm ∷ rows) = if rm.key_sha256 == sha then some rm else find_sha sha rows

abbrev found_or : Flags → Error → Option RegModel → Result Registration
found_or flags e none = err e
found_or flags e (some rm) = ok (model_to_registration flags rm)

unfoldable pub get_registration : Flags → Option Error → RegDb → ℤ → Result Registration
get_registration flags fault db id = statement fault (
    found_or flags (boulder_error not_found "registration with ID '%d' not found")
      (find_id id db.rows))

unfoldable pub get_registration_by_key :
    Flags → KeyDigest → Option Error → RegDb → Text → Result Registration
get_registration_by_key flags digest fault db key =
    if is_empty key
    then err (plain_error "key argument to GetRegistrationByKey must not be nil")
    else digest key >>= λ sha. statement fault (
        found_or flags (boulder_error not_found "no registrations with public key sha256 %q")
          (find_sha sha db.rows))

-- The INSERT gives the row its number and LockCol 1, and fails on a digest that is there.
unfoldable pub insert_reg : RegModel → RegDb → Result (RegModel × RegDb)
insert_reg rm db = elim (find_sha rm.key_sha256 db.rows) [
  | some old ↦ err (plain_error "Error 1062: Duplicate entry")
  | none ↦
      let row = record rm { id = pos db.next; lock_col = 1 } in
      ok (row, record { rows = row ∷ db.rows; next = db.next + 1 })
]

-- The column's default is "valid".
unfoldable pub new_registration :
    Flags → KeyDigest → Option Error → RegDb → Registration → ℤ → Result (Registration × RegDb)
new_registration flags digest fault db reg now =
    registration_to_model flags digest valid (record reg { created_at = now }) >>= λ rm.
    statement fault (insert_reg rm db) >>= λ (row, db'). ok (model_to_registration flags row, db')

-- UPDATE … WHERE id = ? AND LockCol = ?
abbrev pub same_version : RegModel → RegModel → Bool
same_version rm old = (old.id == rm.id) && nat_beq old.lock_col rm.lock_col

abbrev pub over : Flags → RegModel → RegModel → RegModel
over flags rm old = record rm {
  lock_col = rm.lock_col + 1;
  status = if enabled flags allow_account_deactivation then rm.status else old.status;
}

unfoldable pub update_regs : Flags → RegModel → List RegModel → List RegModel
update_regs flags rm [] = []
update_regs flags rm (old ∷ rows) =
    if same_version rm old
    then over flags rm old ∷ update_regs flags rm rows
    else old ∷ update_regs flags rm rows

unfoldable pub found_regs : RegModel → List RegModel → Bool
found_regs rm [] = false
found_regs rm (old ∷ rows) = same_version rm old || found_regs rm rows

-- Another row with the digest makes the UPDATE fail.
unfoldable pub takes_key : RegModel → List RegModel → Bool
takes_key rm [] = false
takes_key rm (old ∷ rows) =
    (if old.id == rm.id then false else old.key_sha256 == rm.key_sha256) || takes_key rm rows

-- The row that was read: an error other than no rows is dropped and leaves the zero value.
abbrev pub version_read : Option Error → Option RegModel → Option ℕ
version_read (some e) found = some 0
version_read none none = none
version_read none (some rm) = some rm.lock_col

unfoldable pub write_reg : Flags → Option Error → RegModel → RegDb → Result RegDb
write_reg flags fault rm db = statement fault (
    if takes_key rm db.rows
    then err (plain_error "Error 1062: Duplicate entry")
    else if found_regs rm db.rows
    then ok (record db { rows = update_regs flags rm db.rows })
    else if ltb 0 rm.lock_col
    then err (plain_error "gorp: OptimisticLockError")
    else err (boulder_error not_found "registration with ID '%d' not found"))

unfoldable pub update_registration :
    Flags → KeyDigest → Option Error → Option Error → RegDb → Registration → Result RegDb
update_registration flags digest on_select on_update db reg =
    elim (version_read on_select (find_id reg.id db.rows)) [
      | none ↦ err (boulder_error not_found "registration with ID '%d' not found")
      | some version ↦ registration_to_model flags digest reg.status reg >>= λ rm.
          write_reg flags on_update (record rm { lock_col = version }) db
    ]

-- UPDATE registrations SET status = … WHERE status = … AND id = …
unfoldable pub deactivate_rows : ℤ → List RegModel → List RegModel
deactivate_rows id [] = []
deactivate_rows id (rm ∷ rows) =
    if is_valid rm.status && (rm.id == id)
    then record rm { status = deactivated } ∷ deactivate_rows id rows
    else rm ∷ deactivate_rows id rows

unfoldable pub deactivate_registration : Option Error → RegDb → ℤ → Result RegDb
deactivate_registration fault db id =
    statement fault (ok (record db { rows = deactivate_rows id db.rows }))
