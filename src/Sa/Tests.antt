-- ===== src/Sa/Tests.antt =====
-- sa/ at concrete inputs.
use boulder.Prelude.Text.{Text, codes, text_Eq, text_eq}
use boulder.Prelude.Int.{◌<ℤ◌, ℤ, pos}
use boulder.Prelude.{◌≡◌, refl, true, none, some, List, [], ◌∷◌, inl, elem}
use boulder.Errors.{ok}
use boulder.Core.Types.{
  is_valid, is_dns, AcmeStatus, pending, valid, dns, http_01, Challenge, Authorization,
}
use boulder.Sa.Model.{ChallModel, challenge_to_model, error_column, record_column}
use boulder.Sa.Db.{
  Db, no_faults, transaction, has_id, existing, select, columns, insert, challenges_of,
}
use boulder.Sa.Authz.{
  status_is_pending, update_challenges, update_each, finalize_authorization,
  deactivate_authorization,
}
use boulder.Sa.Operations.{finalize, perform}
use boulder.Sa.Deactivated.{finalize-deactivate}
use boulder.Sa.Invariant.{IsConsistent, perform-IsConsistent}
use boulder.Sa.Queries.{
  is_usable, select_authzs, by_name, put_name, is_better, add_row, latest_by_name,
  get_valid_authorizations, IsRow,
}
use boulder.Sa.ValidAuthz.{
  LastsUntil, get_valid_authorizations-usable, get_valid_authorizations-latest,
}
use boulder.Sa.ToyCodec.{toy_codec}

abbrev pub row : Text → AcmeStatus → ℤ → Authorization
row id status expires = record {
  id = id;
  identifier = record { kind = dns; value = codes "a.org" };
  registration_id = pos 1;
  status = status;
  expires = some expires;
  challenges = [];
  combinations = (0 ∷ []) ∷ [];
}

abbrev offered : Challenge
offered = record {
  id = 4;
  kind = http_01;
  status = pending;
  error = some (record { problem_type = codes "t"; detail = codes "d"; http_status = 400 });
  token = codes "token";
  uri = [];
  provided_key_authorization = [];
  validation_record = [];
}

abbrev offered_row : ChallModel
offered_row = record {
  id = 4;
  authorization_id = codes "p";
  kind = http_01;
  status = pending;
  error = 400 ∷ 1 ∷ b't' ∷ 1 ∷ b'd' ∷ [];
  token = codes "token";
  key_authorization = [];
  validation_record = [];
}

abbrev pub db : Db
db = record {
  pending = row (codes "p") pending (pos 50) ∷ [];
  final = row (codes "f") valid (pos 50) ∷ row (codes "g") valid (pos 90) ∷ [];
  challenges = offered_row ∷ [];
  next_challenge = 5;
}

stored_row : challenge_to_model toy_codec offered (codes "p") ≡ ok offered_row
unfolding challenge_to_model error_column record_column
stored_row = refl

abbrev pub done_authz : Authorization
done_authz = record (row (codes "p") valid (pos 70)) { challenges = offered ∷ [] }

finalized : (finalize_authorization toy_codec no_faults db done_authz).0 ≡ ok tt
unfolding finalize_authorization transaction existing has_id status_is_pending select insert
    update_challenges update_each challenges_of challenge_to_model error_column record_column
    text_eq
finalized = refl

finalize-deactivate_example :
    ((finalize_authorization toy_codec no_faults
        (deactivate_authorization no_faults db (codes "p")).1
        done_authz).0
      ≡ ok tt)
    × ((finalize_authorization toy_codec no_faults
          (deactivate_authorization no_faults db (codes "p")).1
          done_authz).1.final
        ≡ columns done_authz ∷ db.final)
finalize-deactivate_example = finalize-deactivate toy_codec no_faults db done_authz finalized

pub db-IsConsistent : IsConsistent db
unfolding text_eq has_id
db-IsConsistent = record {
  pending_unique = (refl, tt);
  final_unique = (refl, (refl, tt));
  apart = (refl, tt);
}

perform-IsConsistent_example : IsConsistent (perform toy_codec no_faults db (finalize done_authz)).1
perform-IsConsistent_example =
    perform-IsConsistent toy_codec no_faults db (finalize done_authz) db-IsConsistent tt

abbrev found : List Authorization
found = row (codes "g") valid (pos 90) ∷ []

all_found : get_valid_authorizations none db (pos 1) (codes "a.org" ∷ []) (pos 10) ≡ ok found
unfolding get_valid_authorizations latest_by_name add_row select_authzs is_usable by_name put_name
    is_better elem text_eq
all_found = refl

entry : by_name (codes "a.org") found ≡ some (row (codes "g") valid (pos 90))
unfolding by_name text_eq
entry = refl

usable : is_usable (pos 1) (codes "a.org" ∷ []) (pos 10) (row (codes "f") valid (pos 50)) ≡ true
unfolding is_usable elem text_eq
usable = refl

get_valid_authorizations-usable_example :
    let a = row (codes "g") valid (pos 90) in
    (t : ℤ) × IsRow a db.final
    × (a.identifier.value ≡ codes "a.org")
    × (elem (codes "a.org") (codes "a.org" ∷ []) ≡ true)
    × (is_dns a.identifier.kind ≡ true)
    × (a.registration_id ≡ pos 1)
    × (is_valid a.status ≡ true)
    × (a.expires ≡ some t)
    × (pos 10 <ℤ t)
get_valid_authorizations-usable_example =
    get_valid_authorizations-usable none db (pos 1) (codes "a.org" ∷ []) (pos 10) found
      (codes "a.org") (row (codes "g") valid (pos 90)) all_found entry

get_valid_authorizations-latest_example :
    LastsUntil (pos 50) (some (row (codes "g") valid (pos 90)))
get_valid_authorizations-latest_example =
    get_valid_authorizations-latest none db (pos 1) (codes "a.org" ∷ []) (pos 10) found
      (row (codes "g") valid (pos 90)) (row (codes "f") valid (pos 50)) (pos 50) all_found entry
      (inl refl) usable refl
