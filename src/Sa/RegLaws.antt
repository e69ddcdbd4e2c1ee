-- ===== src/Sa/RegLaws.antt =====
-- sa/sa.go: what is read of a registration after it was stored, changed or deactivated.
use mathlib.Core.Option
use boulder.Prelude.Text.{Text, text_Eq, text_eq_refl}
use boulder.Prelude.Int.{ℤ, int_eq, pos}
use boulder.Prelude.{
  ◌≡◌, refl, sym, ap, ◌∙◌, true, false, ◌&&◌, Option, none, some, List, [], ◌∷◌, ◌==◌, arith,
  if◌then◌else◌, Bool-cases, Option-cases, inl, inr, ==-refl,
}
use boulder.Errors.{Error, ok, ◌>>=◌, >>=-ok}
use boulder.Features.{Flags, enabled, allow_account_deactivation}
use boulder.Core.Types.{AcmeStatus, no_status, valid, deactivated, is_valid, Registration}
use boulder.Core.Objects.{is_empty}
use boulder.Sa.Db.{statement}
use boulder.Sa.IpRange.{to16}
use boulder.Sa.Transactions.{statement-ok}
use boulder.Sa.Registrations.{
  RegModel, RegDb, KeyDigest, registration_to_model, model_to_registration, find_id, find_sha,
  get_registration, get_registration_by_key, insert_reg, new_registration, update_regs, write_reg,
  update_registration, deactivate_rows, deactivate_registration, same_version, over,
}

insert_reg-ok :
    (rm row : RegModel) (db out : RegDb)
    → insert_reg rm db ≡ ok (row, out)
    → (row ≡ record rm { id = pos db.next; lock_col = 1 }) × (out.rows ≡ row ∷ db.rows)
unfolding insert_reg
insert_reg-ok rm row db out h = elim (Option-cases (find_sha rm.key_sha256 db.rows)) [
  | inl fresh ↦ (ground arith, ground arith)
  | inr (old, there) ↦ absurd (ground arith)
]

registration_to_model-key_sha256 :
    (flags : Flags) (digest : KeyDigest) (old : AcmeStatus) (r : Registration) (rm : RegModel)
    → registration_to_model flags digest old r ≡ ok rm
    → digest r.key ≡ ok rm.key_sha256
unfolding registration_to_model
registration_to_model-key_sha256 flags digest old r rm h =
    let (sha, e, rest) = >>=-ok (digest r.key) _ rm h in ground arith

first_id :
    (flags : Flags) (db : RegDb) (rm : RegModel) (rows : List RegModel)
    → db.rows ≡ rm ∷ rows
    → get_registration flags none db rm.id ≡ ok (model_to_registration flags rm)
unfolding get_registration find_id
first_id flags db rm rows e = ground (arith, ==-refl rm.id)

first_sha :
    (flags : Flags) (digest : KeyDigest) (db : RegDb) (key : Text) (rm : RegModel)
    (rows : List RegModel)
    → is_empty key ≡ false
    → digest key ≡ ok rm.key_sha256
    → db.rows ≡ rm ∷ rows
    → get_registration_by_key flags digest none db key ≡ ok (model_to_registration flags rm)
unfolding get_registration_by_key find_sha
first_sha flags digest db key rm rows n d e = ground (arith, text_eq_refl rm.key_sha256)

-- A new registration is found as it was returned, by its id and by its key.
pub new_registration-get_registration :
    (flags : Flags) (digest : KeyDigest) (fault : Option Error) (db out : RegDb)
    (reg made : Registration) (now : ℤ)
    → is_empty reg.key ≡ false
    → new_registration flags digest fault db reg now ≡ ok (made, out)
    → (get_registration flags none out made.id ≡ ok made)
      × (get_registration_by_key flags digest none out reg.key ≡ ok made)
unfolding new_registration model_to_registration
new_registration-get_registration flags digest fault db out reg made now n h =
    let (rm, e, rest) =
      >>=-ok (registration_to_model flags digest valid (record reg { created_at = now })) _
        (made, out) h in
    let (written, f, last) = >>=-ok (statement fault (insert_reg rm db)) _ (made, out) rest in
    let (row, rows) = insert_reg-ok rm written.0 db written.1 (statement-ok fault _ _ f) in
    let sha =
      registration_to_model-key_sha256 flags digest valid (record reg { created_at = now }) rm e in
    let made_is : made ≡ model_to_registration flags written.0 = ground arith in
    let out_is : out.rows ≡ written.0 ∷ db.rows = ground arith in
    (
      rw made_is (first_id flags out written.0 db.rows out_is),
      rw made_is (first_sha flags digest out reg.key written.0 db.rows n (rw row sha) out_is),
    )

-- A registration as it is read back: no contacts are an empty list of them, the address has 16
-- bytes, and without the feature flag there is no status.
abbrev pub as_stored : Flags → Registration → Registration
as_stored flags r = record r {
  contact = some (elim r.contact [ none ↦ [] | some contact ↦ contact ]);
  initial_ip = to16 r.initial_ip;
  status = if enabled flags allow_account_deactivation then r.status else no_status;
}

pub model-registration_to_model :
    (flags : Flags) (digest : KeyDigest) (r : Registration) (rm : RegModel)
    → registration_to_model flags digest r.status r ≡ ok rm
    → model_to_registration flags rm ≡ as_stored flags r
unfolding registration_to_model model_to_registration
model-registration_to_model flags digest r rm h =
    let (sha, e, rest) = >>=-ok (digest r.key) _ rm h in ground arith

find_id-update_other :
    (flags : Flags) (rm : RegModel) (k : ℤ) (rows : List RegModel)
    → (rm.id == k) ≡ false
    → find_id k (update_regs flags rm rows) ≡ find_id k rows
unfolding find_id update_regs
find_id-update_other flags rm k [] n = refl
find_id-update_other flags rm k (r ∷ rows) n = elim (Bool-cases (same_version rm r)) [
  | inr m ↦ rw (m, find_id-update_other flags rm k rows n) refl
  | inl y ↦
      let same : r.id ≡ rm.id = (int_eq.beq_iff r.id rm.id).0 (ground arith) in
      rw (y, same, n) (find_id-update_other flags rm k rows n)
]

model-over :
    (flags : Flags) (rm old : RegModel)
    → model_to_registration flags (over flags rm old) ≡ model_to_registration flags rm
unfolding model_to_registration
model-over flags rm old = elim (Bool-cases (enabled flags allow_account_deactivation)) [
  | inl y ↦ rw y refl
  | inr n ↦ rw n refl
]

find_id-update_self :
    (flags : Flags) (rm old : RegModel) (rows : List RegModel)
    → find_id rm.id rows ≡ some old
    → rm.lock_col ≡ old.lock_col
    → (written : RegModel) × (find_id rm.id (update_regs flags rm rows) ≡ some written)
      × (model_to_registration flags written ≡ model_to_registration flags rm)
unfolding find_id update_regs
find_id-update_self flags rm old [] h v = absurd (ground arith)
find_id-update_self flags rm old (r ∷ rows) h v = elim (Bool-cases (r.id == rm.id)) [
  | inr n ↦
      let (written, f, m) = find_id-update_self flags rm old rows (ground arith) v in
      (written, rw (n, n) f, m)
  | inl y ↦
      let first : r ≡ old = ground arith in
      let version : rm.lock_col ≡ r.lock_col = v ∙ ap (λ m. m.lock_col) (sym first) in
      let hit : same_version rm r ≡ true = ground arith in
      (over flags rm r, rw (hit, ==-refl rm.id) refl, model-over flags rm r)
]

registration_to_model-id :
    (flags : Flags) (digest : KeyDigest) (old : AcmeStatus) (r : Registration) (rm : RegModel)
    → registration_to_model flags digest old r ≡ ok rm
    → rm.id ≡ r.id
unfolding registration_to_model
registration_to_model-id flags digest old r rm h =
    let (sha, e, rest) = >>=-ok (digest r.key) _ rm h in ground arith

write_reg-ok :
    (flags : Flags) (fault : Option Error) (rm : RegModel) (db out : RegDb)
    → write_reg flags fault rm db ≡ ok out
    → out.rows ≡ update_regs flags rm db.rows
unfolding write_reg
write_reg-ok flags (some e) rm db out h = cc
write_reg-ok flags none rm db out h = ground arith

found_is :
    (flags : Flags) (db : RegDb) (k : ℤ) (rm : RegModel)
    → find_id k db.rows ≡ some rm
    → get_registration flags none db k ≡ ok (model_to_registration flags rm)
unfolding get_registration
found_is flags db k rm e = ground arith

read_same :
    (flags : Flags) (db out : RegDb) (k : ℤ)
    → find_id k out.rows ≡ find_id k db.rows
    → get_registration flags none out k ≡ get_registration flags none db k
unfolding get_registration
read_same flags db out k e = rw e refl

written_read :
    (flags : Flags) (rm old : RegModel) (db out : RegDb) (k : ℤ)
    → find_id rm.id db.rows ≡ some old
    → rm.lock_col ≡ old.lock_col
    → out.rows ≡ update_regs flags rm db.rows
    → get_registration flags none out k ≡ (
        if rm.id == k
        then ok (model_to_registration flags rm)
        else get_registration flags none db k)
written_read flags rm old db out k f v e = elim (Bool-cases (rm.id == k)) [
  | inl y ↦
      let at : rm.id ≡ k = (int_eq.beq_iff rm.id k).0 y in
      let (written, g, m) = find_id-update_self flags rm old db.rows f v in
      let here : find_id k out.rows ≡ some written =
        rw e (ap (λ j. find_id j (update_regs flags rm db.rows)) (sym at) ∙ g) in
      rw y (found_is flags out k written here ∙ ap ok m)
  | inr n ↦ rw n (read_same flags db out k (rw e (find_id-update_other flags rm k db.rows n)))
]

-- An update that succeeds is what is read of that registration, as it was given, without contacts as an empty list of
-- them and the address in 16 bytes; any other registration is read as before.
pub update_registration-get_registration :
    (flags : Flags) (digest : KeyDigest) (fault : Option Error) (db out : RegDb)
    (reg : Registration) (k : ℤ)
    → update_registration flags digest none fault db reg ≡ ok out
    → (rm : RegModel) × (registration_to_model flags digest reg.status reg ≡ ok rm)
      × (get_registration flags none out k ≡ (
          if reg.id == k
          then ok (model_to_registration flags rm)
          else get_registration flags none db k))
unfolding update_registration model_to_registration
update_registration-get_registration flags digest fault db out reg k h =
    elim (Option-cases (find_id reg.id db.rows)) [
      | inl missing ↦ absurd (ground arith)
      | inr (old, found) ↦
          let call : (registration_to_model flags digest reg.status reg >>= λ rm.
          write_reg flags fault (record rm { lock_col = old.lock_col }) db)
              ≡ ok out =
            rw (update_registration, found) at h in
          let (rm, e, wrote) =
            >>=-ok (registration_to_model flags digest reg.status reg) _ out call in
          let id = registration_to_model-id flags digest reg.status reg rm e in
          let rows = write_reg-ok flags fault _ db out wrote in
          let row = record rm { lock_col = old.lock_col } in
          (rm, e, rw (← id) (written_read flags row old db out k (rw id found) refl rows))
    ]

abbrev pub deactivated_if : ℤ → RegModel → RegModel
deactivated_if id rm =
    if is_valid rm.status && rm.id == id then record rm { status = deactivated } else rm

deactivated_row :
    (id k : ℤ) (rows : List RegModel)
    → find_id k (deactivate_rows id rows) ≡ Option.map (deactivated_if id) (find_id k rows)
unfolding find_id deactivate_rows
deactivated_row id k [] = refl
deactivated_row id k (r ∷ rows) = elim (Bool-cases (r.id == k)) [
  | inl y ↦ elim (Bool-cases (is_valid r.status && r.id == id)) [
    | inl v ↦ rw (v, y, v) refl
    | inr n ↦ rw (n, y, n) refl
  ]
  | inr m ↦ elim (Bool-cases (is_valid r.status && r.id == id)) [
    | inl v ↦ rw (v, m) (deactivated_row id k rows)
    | inr n ↦ rw (n, m) (deactivated_row id k rows)
  ]
]

-- Deactivating touches one registration, and only if it is valid.
pub deactivate_registration-ok :
    (fault : Option Error) (db out : RegDb) (id k : ℤ)
    → deactivate_registration fault db id ≡ ok out
    → find_id k out.rows ≡ Option.map (deactivated_if id) (find_id k db.rows)
unfolding deactivate_registration
deactivate_registration-ok (some e) db out id k h = cc
deactivate_registration-ok none db out id k h =
    let rows : out.rows ≡ deactivate_rows id db.rows = ground arith in
    rw rows (deactivated_row id k db.rows)
