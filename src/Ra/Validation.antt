-- ===== src/Ra/Validation.antt =====
-- ra/ra.go: UpdateAuthorization, the validation that it starts, and onValidationUpdate.
use boulder.Prelude.Text.{Text, codes, text_Eq}
use boulder.Prelude.Int.{ℤ, ltb_ℤ, ◌+ℤ◌}
use boulder.Prelude.{
  ℕ, Bool, true, false, ◌&&◌, ◌||◌, Option, none, some, List, [], ◌∷◌, if◌then◌else◌, ◌==◌,
  get_elem?, set, all,
}
use boulder.Errors.{
  Result, ok, err, ◌>>=◌, ◌>>◌, require, boulder_error, malformed, internal_server, message,
}
use boulder.Probs.{server_internal}
use boulder.Core.Types.{
  valid, invalid, is_valid, Challenge, Authorization, ProblemDetails, ValidationRecord,
  Registration,
}
use boulder.Core.Objects.{expected_key_authorization, is_sane_for_validation, records_sane}
use boulder.Sa.Model.{Codec}
use boulder.Sa.Db.{Db, Faults}
use boulder.Sa.Authz.{update_pending_authorization, finalize_authorization}
use boulder.Ra.Config.{Config, VaError, no_va_error, problem, va_failure}

-- validated[i]
unfoldable pub validated : List Challenge → ℕ → Bool
validated challenges i = elim (get_elem? challenges i) [
  | none ↦ false
  | some ch ↦ is_valid ch.status
]

unfoldable pub any_combo : List Challenge → List (List ℕ) → Bool
unfolding validated
any_combo challenges [] = false
any_combo challenges (combo ∷ combos) =
    all (validated challenges) combo || any_combo challenges combos

-- onValidationUpdate up to the call of the storage authority.
unfoldable pub decide : Config → ℤ → Authorization → Authorization
decide cfg now authz =
    if any_combo authz.challenges authz.combinations || is_valid authz.status
    then record authz { status = valid; expires = some (now +ℤ cfg.authorization_lifetime) }
    else record authz { status = invalid }

unfoldable pub on_validation_update :
    Codec → Faults → Db → Config → ℤ → Authorization → Result (Unit {0}) × Db
on_validation_update codec fs db cfg now authz =
    finalize_authorization codec fs db (decide cfg now authz)

-- The problem that the validation authority reports, if any.
unfoldable pub reported : VaError → Option ProblemDetails
reported no_va_error = none
reported (problem p) = some p
reported (va_failure e) = some (server_internal (codes "Could not communicate with VA"))

-- The challenge with the records and the outcome of its validation.
unfoldable pub with_problem : Challenge → Option ProblemDetails → Challenge
with_problem ch (some p) = record ch { status = invalid; error = some p }
with_problem ch none = record ch { status = valid }

unfoldable pub checked : Challenge → Option ProblemDetails → Option ProblemDetails
checked ch (some p) = some p
checked ch none =
    if records_sane ch
    then none
    else some (server_internal (codes "Records for validation failed sanity check"))

unfoldable pub record_outcome : Challenge → List ValidationRecord → VaError → Challenge
unfolding checked with_problem reported
record_outcome ch records e =
    let challenge = record ch { validation_record = records } in
    with_problem challenge (checked challenge (reported e))

-- The goroutine of UpdateAuthorization, with what PerformValidation returned.
unfoldable pub finish_validation :
    Codec
    → Faults
    → Db
    → Config
    → ℤ
    → Authorization
    → ℕ
    → Challenge
    → List ValidationRecord
    → VaError
    → Result (Unit {0}) × Db
finish_validation codec fs db cfg now authz index ch records e =
    on_validation_update codec fs db cfg now
      (record authz { challenges = set authz.challenges index (record_outcome ch records e) })

abbrev pub expired_at : ℤ → Option ℤ → Bool
expired_at now none = true
expired_at now (some t) = ltb_ℤ t now

abbrev pub as_internal {ℓ} : {A : Type ℓ} → Result A → Result A
as_internal (ok a) = ok a
as_internal (err e) = err (boulder_error internal_server (message e))

abbrev or_internal {ℓ} : {A : Type ℓ} → Option A → Result A
or_internal none =
    err (boulder_error internal_server "could not compute expected key authorization value")
or_internal (some a) = ok a

-- The checks of UpdateAuthorization on the challenge: the result is the challenge as it is stored.
unfoldable pub answer_challenge :
    Challenge → Challenge → Result Registration → (Text → Option Text) → Result Challenge
answer_challenge ch response get_registration thumbprint = do
  reg ← as_internal get_registration
  expected ← or_internal (expected_key_authorization ch (thumbprint reg.key))
  require (expected == response.provided_key_authorization)
      (boulder_error malformed "provided key authorization was incorrect")
  let answered = record ch { provided_key_authorization = response.provided_key_authorization }
  require (is_sane_for_validation answered)
      (boulder_error malformed "response does not complete challenge")
  ok answered

abbrev pub stored : Authorization → Result (Unit {0}) × Db → Result Authorization × Db
stored authz (ok u, db) = (ok authz, db)
stored authz (err e, db) =
    (err (boulder_error internal_server "could not update pending authorization"), db)

abbrev pub store_answer :
    Codec → Faults → Db → Authorization → ℕ → Result Challenge → Result Authorization × Db
store_answer codec fs db base index (err e) = (err e, db)
store_answer codec fs db base index (ok ch) =
    let authz = record base { challenges = set base.challenges index ch } in
    stored authz (update_pending_authorization codec fs db authz)

-- UpdateAuthorization up to the goroutine. `get_registration` is what the storage authority returns
-- for the account, `thumbprint` the text of the thumbprint of a key.
unfoldable pub update_authorization :
    Codec
    → Faults
    → Db
    → Config
    → ℤ
    → Result Registration
    → (Text → Option Text)
    → Authorization
    → ℕ
    → Challenge
    → Result Authorization × Db
update_authorization codec fs db cfg now get_registration thumbprint base index response =
    if expired_at now base.expires
    then (err (boulder_error malformed "expired authorization"), db)
    else elim (get_elem? base.challenges index) [
      | none ↦ (err (boulder_error malformed "invalid challenge index"), db)
      | some ch ↦
          if cfg.reuse_valid_authz && is_valid base.status
          then (ok base, db)
          else store_answer codec fs db base index
              (answer_challenge ch response get_registration thumbprint)
    ]
