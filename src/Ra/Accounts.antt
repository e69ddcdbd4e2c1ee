-- ===== src/Ra/Accounts.antt =====
-- ra/ra.go: NewRegistration, UpdateRegistration and DeactivateRegistration, on the table of sa/. The parser of a key's bytes is
-- an argument.
use boulder.Prelude.Text.{Text}
use boulder.Prelude.Int.{ℤ, pos}
use boulder.Prelude.{Option, none, [], if◌then◌else◌}
use boulder.Errors.{
  Error, Result, ok, err, ◌>>=◌, ◌>>◌, boulder_error, malformed, internal_server, message,
}
use boulder.Features.{Flags}
use boulder.Core.Types.{Registration, valid, is_valid}
use boulder.Goodkey.Defs.{KeyPolicy, PublicKey, good_key}
use boulder.Sa.CertDb.{zero_time}
use boulder.Sa.Registrations as Store
use boulder.Sa.Registrations.{RegDb, KeyDigest}
use boulder.Ra.Config.{Config}
use boulder.Ra.Limits.{Counts, check_registration_limit}
use boulder.Ra.Registrations.{merge_update, Parsers, validate_contacts}

-- What the calls on registrations ask of other code.
pub record AccountServices : Type 0 where
  pub key_policy : KeyPolicy
  pub public_key : Text → PublicKey
  pub counts : Counts
  pub parsers : Parsers
  pub digest : KeyDigest

unfoldable pub check_key : AccountServices → Text → Result (Unit {0})
check_key services key = elim (good_key services.key_policy (services.public_key key)) [
  | ok u ↦ ok u
  | err e ↦ err (boulder_error malformed "invalid public key: %s")
]

abbrev blank : Text → Registration
blank key = record {
  id = pos 0;
  key = key;
  contact = none;
  agreement = [];
  initial_ip = [];
  created_at = zero_time;
  status = valid;
}

-- The registration that is stored.
unfoldable pub to_store : Flags → Registration → Registration
to_store flags init = record ((merge_update flags (blank init.key) init).1) {
  initial_ip = init.initial_ip;
}

abbrev pub internal {ℓ} : {A : Type ℓ} → Result A → Result A
internal (ok a) = ok a
internal (err e) = err (boulder_error internal_server (message e))

-- The table changes only if the call succeeds.
unfoldable pub new_registration :
    Config
    → AccountServices
    → Flags
    → Option Error
    → RegDb
    → Registration
    → ℤ
    → Result (Registration × RegDb)
new_registration cfg services flags fault db init now =
    check_key services init.key
    >> check_registration_limit cfg services.counts now init.initial_ip
    >> validate_contacts services.parsers cfg.max_contacts_per_reg (to_store flags init).contact
    >> internal (Store.new_registration flags services.digest fault db (to_store flags init) now)

unfoldable pub update_registration :
    Config
    → AccountServices
    → Flags
    → Option Error
    → Option Error
    → RegDb
    → Registration
    → Registration
    → Result (Registration × RegDb)
update_registration cfg services flags on_select on_update db base update =
    let (changed, merged) = merge_update flags base update in
    if changed
    then (validate_contacts services.parsers cfg.max_contacts_per_reg merged.contact
        >> internal (Store.update_registration flags services.digest on_select on_update db merged)
        >>= λ db'. ok (merged, db'))
    else ok (merged, db)

unfoldable pub deactivate_registration : Option Error → RegDb → Registration → Result RegDb
deactivate_registration fault db reg =
    if is_valid reg.status
    then internal (Store.deactivate_registration fault db reg.id)
    else err (boulder_error malformed "only valid registrations can be deactivated")
