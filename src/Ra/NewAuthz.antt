-- ===== src/Ra/NewAuthz.antt =====
-- ra/ra.go: NewAuthorization and checkInvalidAuthorizationLimit. A pointer that is nil where the source
-- follows it makes the call panic, which ends it; the model returns an error.
use boulder.Prelude.Text.{Text, text_Eq, to_lower}
use boulder.Prelude.Int.{ℤ, ltb_ℤ, ◌+ℤ◌, ◌-ℤ◌}
use boulder.Prelude.{ℕ, Bool, not, ◌||◌, Option, none, some, List, [], ◌∷◌, if◌then◌else◌, all}
use boulder.Errors.{
  Error, Result, ok, err, ◌>>=◌, ◌>>◌, require, boulder_error, plain_error, unauthorized,
  internal_server,
}
use boulder.Features.{Flags}
use boulder.Ratelimit.{enabled, get_threshold, invalid_authorizations_per_account}
use boulder.Core.Types.{AcmeIdentifier, is_dns, Authorization, pending, ChallengeType}
use boulder.Core.Objects.{is_sane_for_client_offer}
use boulder.Policy.Defs.{Names, AuthorityImpl, willing_to_issue, challenges_for}
use boulder.Sa.Model.{Codec}
use boulder.Sa.Db.{Db, Faults}
use boulder.Sa.Authz.{new_pending_authorization}
use boulder.Sa.GetAuthz.{get_authorization}
use boulder.Sa.Queries.{get_valid_authorizations, by_name}
use boulder.Ra.Config.{Config, hours_24}
use boulder.Ra.Limits.{Counts, check_pending_authorization_limit}

-- What NewAuthorization asks of other processes. The count of invalid authorizations can only be
-- asked for over gRPC; a reply without a count is none.
pub record AuthzServices : Type 0 where
  pub counts : Counts
  pub using_grpc : Bool
  pub count_invalid : ℤ → Text → ℤ → ℤ → Result (Option ℤ)
  pub is_safe_domain : Text → Result Bool

-- The random values of ChallengesFor and of NewPendingAuthorization.
pub record Draws : Type 0 where
  pub new_token : ChallengeType → Text
  pub perm : List ℕ
  pub combo_perm : List ℕ
  pub tokens : List Text

abbrev below : Option ℤ → ℤ → Result (Unit {0})
below none threshold = err (plain_error "nil count")
below (some count) threshold =
    require (ltb_ℤ count threshold) (plain_error "Too many invalid authorizations recently.")

unfoldable pub check_invalid_authorization_limit :
    Config → AuthzServices → ℤ → ℤ → Text → Result (Unit {0})
check_invalid_authorization_limit cfg services now reg_id hostname =
    let limit = invalid_authorizations_per_account cfg.limits in
    let latest = now +ℤ cfg.pending_authorization_lifetime in
    if not (enabled limit) || not services.using_grpc
    then ok tt
    else (services.count_invalid reg_id hostname (latest -ℤ limit.window) latest >>= λ count.
        below count (get_threshold limit [] reg_id))

abbrev pub as_result : Option Error → Result (Unit {0})
as_result none = ok tt
as_result (some e) = err e

abbrev safe_reply : Result Bool → Result (Unit {0})
safe_reply (err e) = err (boulder_error internal_server "unable to determine if domain was safe")
safe_reply (ok safe) =
    require safe
      (boulder_error unauthorized "%q was considered an unsafe domain by a third-party API")

-- The checks before anything is looked up.
unfoldable pub check_new_authorization :
    Config
    → AuthzServices
    → Names
    → AuthorityImpl
    → Flags
    → ℤ
    → AcmeIdentifier
    → ℤ
    → Result (Unit {0})
check_new_authorization cfg services names pa flags now identifier reg_id =
    as_result (willing_to_issue names pa flags identifier)
    >> check_pending_authorization_limit cfg services.counts reg_id
    >> check_invalid_authorization_limit cfg services now reg_id identifier.value
    >> (if is_dns identifier.kind
        then safe_reply (services.is_safe_domain identifier.value)
        else ok tt)

-- An authorization that expires after the cut-off is used again.
abbrev pub if_lasting : ℤ → Option ℤ → Authorization → Result (Option Authorization)
if_lasting cut_off none authz = err (plain_error "nil pointer dereference")
if_lasting cut_off (some t) authz = ok (if ltb_ℤ cut_off t then some authz else none)

abbrev pub populated : ℤ → Result Authorization → Result (Option Authorization)
populated cut_off (err e) =
    err (boulder_error internal_server "unable to get existing authorization for auth ID: %s")
populated cut_off (ok authz) = if_lasting cut_off authz.expires authz

abbrev pub among :
    (Text → Result Authorization)
    → ℤ
    → Text
    → Result (List Authorization)
    → Result (Option Authorization)
among read now name (err e) = err (
    boulder_error internal_server
      "unable to get existing validations for regID: %d, identifier: %s")
among read now name (ok auths) = elim (by_name name auths) [
  | none ↦ ok none
  | some existing ↦ populated (now +ℤ hours_24) (read existing.id)
]

-- The authorization that is used again, if any; `read` is the call of GetAuthorization.
unfoldable pub find_reusable :
    Config
    → (Text → Result Authorization)
    → Option Error
    → Db
    → ℤ
    → Text
    → ℤ
    → Result (Option Authorization)
find_reusable cfg read fault db now name reg_id =
    if cfg.reuse_valid_authz
    then among read now name (get_valid_authorizations fault db reg_id (name ∷ []) now)
    else ok none

-- The check of the challenges that were stored.
abbrev pub offered_sane : Result Authorization × Db → Result Authorization × Db
offered_sane (err e, db) =
    (err (boulder_error internal_server "invalid authorization request: %s"), db)
offered_sane (ok authz, db) =
    if all is_sane_for_client_offer authz.challenges
    then (ok authz, db)
    else (err (boulder_error internal_server "challenge didn't pass sanity check: %+v"), db)

unfoldable pub create_authorization :
    Codec
    → Faults
    → Draws
    → Db
    → Config
    → AuthorityImpl
    → Flags
    → ℤ
    → AcmeIdentifier
    → ℤ
    → Result Authorization × Db
create_authorization codec fs draws db cfg pa flags now identifier reg_id =
    let (challenges, combinations) =
      challenges_for pa flags draws.new_token draws.perm draws.combo_perm in
    offered_sane (
      new_pending_authorization codec fs draws.tokens db (record {
        id = [];
        identifier = identifier;
        registration_id = reg_id;
        status = pending;
        expires = some (now +ℤ cfg.pending_authorization_lifetime);
        challenges = challenges;
        combinations = combinations;
      }))

abbrev pub lowered : AcmeIdentifier → AcmeIdentifier
lowered identifier = record identifier { value = to_lower identifier.value }

abbrev pub reuse_or :
    Db → Result (Option Authorization) → Result Authorization × Db → Result Authorization × Db
reuse_or db (err e) new = (err e, db)
reuse_or db (ok (some authz)) new = (ok authz, db)
reuse_or db (ok none) new = new

-- NewAuthorization. `fault` is the failure of the query for valid ones, and `on_get` are those of
-- GetAuthorization.
unfoldable pub new_authorization :
    Codec
    → Faults
    → Faults
    → Draws
    → Option Error
    → Db
    → Config
    → AuthzServices
    → Names
    → AuthorityImpl
    → Flags
    → ℤ
    → AcmeIdentifier
    → ℤ
    → Result Authorization × Db
new_authorization codec fs on_get draws fault db cfg services names pa flags now requested reg_id =
    let identifier = lowered requested in
    reuse_or db
      (check_new_authorization cfg services names pa flags now identifier reg_id
        >> find_reusable cfg (get_authorization codec on_get db) fault db now identifier.value
            reg_id)
      (create_authorization codec fs draws db cfg pa flags now identifier reg_id)
