-- ===== src/Ra/AccountLaws.antt =====
-- ra/ra.go: what holds after NewRegistration and UpdateRegistration.
use boulder.Prelude.Text.{Text, text_Eq}
use boulder.Prelude.Int.{int_eq}
use boulder.Prelude.{
  ◌≡◌, ◌⊎◌, refl, true, false, Option, none, arith, ◌==◌, Bool-cases, inl, inr, ==-refl,
}
use boulder.Errors.{Error, Result, ok, err, ◌>>=◌, ◌>>◌, >>=-ok}
use boulder.Features.{Flags}
use boulder.Core.Types.{Registration}
use boulder.Sa.Registrations as Store
use boulder.Sa.Registrations.{RegDb, model_to_registration, get_registration}
use boulder.Sa.RegLaws.{
  as_stored, model-registration_to_model, update_registration-get_registration,
}
use boulder.Ra.Config.{Config}
use boulder.Ra.Registrations.{merge_update, validate_contacts}
use boulder.Ra.Accounts.{AccountServices, internal, update_registration}

internal-ok {ℓ} : {A : Type ℓ} (r : Result A) (a : A) → internal r ≡ ok a → r ≡ ok a
internal-ok (ok b) a h = h
internal-ok (err e) a h = cc

ok_pair {ℓ κ} :
    {A : Type ℓ} {B : Type κ} (a a' : A) (b b' : B)
    → ◌≡◌ {A = Result (A × B)} (ok (a', b')) (ok (a, b))
    → (a ≡ a') × (b ≡ b')
ok_pair a a' b b' h = (ground arith, ground arith)

merge_update-id :
    (flags : Flags) (base update : Registration) → (merge_update flags base update).1.id ≡ base.id
unfolding merge_update
merge_update-id flags base update = refl

-- An update whose first query works and that succeeds returns the merged registration. Either merging
-- changed nothing and the table is as it was; or the contacts pass, and what is then read under its
-- id is the merged registration, where no contacts are an empty list, the address has 16 bytes and
-- there is a status only with the feature flag.
pub update_registration-ok :
    (cfg : Config) (services : AccountServices) (flags : Flags) (fault : Option Error)
    (db out : RegDb) (base update made : Registration)
    → update_registration cfg services flags none fault db base update ≡ ok (made, out)
    → let (changed, merged) = merge_update flags base update in
      (made ≡ merged)
      × (((changed ≡ false) × (out ≡ db))
          ⊎ ((changed ≡ true)
              × (validate_contacts services.parsers cfg.max_contacts_per_reg merged.contact ≡ ok tt)
              × (get_registration flags none out base.id ≡ ok (as_stored flags merged))))
unfolding update_registration
update_registration-ok cfg services flags fault db out base update made h =
    let merged = (merge_update flags base update).1 in
    elim (Bool-cases (merge_update flags base update).0) [
      | inr n ↦
          let kept : ◌≡◌ {A = Result (Registration × RegDb)} (ok (merged, db)) (ok (made, out)) =
            rw (update_registration, n) at h in
          let (made_is, out_is) = ok_pair made merged out db kept in (made_is, inl (n, out_is))
      | inl y ↦
          let call : ((validate_contacts services.parsers cfg.max_contacts_per_reg merged.contact
                  >> internal
                      (Store.update_registration flags services.digest none fault db merged))
                >>= λ db'. ok (merged, db'))
              ≡ ok (made, out) =
            rw (update_registration, y) at h in
          let (db', stored, e) = >>=-ok _ _ (made, out) call in
          let (_, passed, wrote) = >>=-ok _ _ db' stored in
          let (made_is, out_is) = ok_pair made merged out db' e in
          let (rm, model, read) =
            update_registration-get_registration flags services.digest fault db db' merged base.id
              (internal-ok _ db' wrote) in
          let own : (merged.id == base.id) ≡ true =
            rw (merge_update-id flags base update) (==-refl base.id) in
          let found : get_registration flags none db' base.id
              ≡ ok (model_to_registration flags rm) =
            rw own at read in
          let back = model-registration_to_model flags services.digest merged rm model in
          (made_is, inr (y, passed, rw (out_is, ← back) found))
    ]
