-- ===== src/Ra/Tests.antt =====
-- ra/ra.go at concrete inputs.
use boulder.Prelude.Text.{Text, codes, text_Eq, text_eq, split}
use boulder.Prelude.Int.{ℤ, pos, int_eq, ◌≤ℤ◌, ◌+ℤ◌}
use boulder.Prelude.{
  ◌≡◌, refl, true, false, Option, none, some, [], ◌∷◌, ◌++◌, all, arith, if◌then◌else◌, replicate,
  inl, ◌⊎◌, get_elem?, set,
}
use boulder.Errors.{ok}
use boulder.Ratelimit.{RateLimitPolicy, Limits}
use boulder.Core.Types.{
  pending, valid, invalid, dns, http_01, Challenge, Authorization, Registration, ValidationRecord,
}
use boulder.Core.Objects.{
  is_sane_for_validation, is_sane, looks_like_a_token, is_token_byte, looks_like_key_authorization,
  check_parts, expected_key_authorization, records_sane, records_sane_for, http_record_sane,
}
use boulder.Sa.ToyCodec.{toy_codec}
use boulder.Sa.Model.{ChallModel, challenge_to_model, error_column, record_column}
use boulder.Sa.Db.{
  Db, no_faults, transaction, has_id, existing, select, columns, insert, delete, challenges_of,
}
use boulder.Sa.Authz.{
  status_is_pending, update_challenges, update_each, finalize_authorization,
  update_pending_authorization,
}
use boulder.Ra.Config.{Config, no_va_error}
use boulder.Ra.Validation.{
  finish_validation, on_validation_update, decide, any_combo, validated, record_outcome,
  with_problem, checked, reported, answer_challenge, update_authorization,
}
use boulder.Ra.Outcome.{succeeded, finish_validation-status}
use boulder.Ra.Answers.{answer_challenge-ok, update_authorization-ok}

abbrev pub token : Text
token = replicate 43 b'a'

abbrev pub thumb : Text
thumb = replicate 43 b'b'

abbrev pub offered : Challenge
offered = record {
  id = 4;
  kind = http_01;
  status = pending;
  error = none;
  token = token;
  uri = [];
  provided_key_authorization = [];
  validation_record = [];
}

abbrev pub answered : Challenge
answered = record offered { provided_key_authorization = token ++ b'.' ∷ thumb }

abbrev pub authz : Authorization
authz = record {
  id = codes "p";
  identifier = record { kind = dns; value = codes "a.org" };
  registration_id = pos 1;
  status = pending;
  expires = some (pos 50);
  challenges = offered ∷ [];
  combinations = (0 ∷ []) ∷ [];
}

abbrev pub stored_challenge : ChallModel
stored_challenge = record {
  id = 4;
  authorization_id = codes "p";
  kind = http_01;
  status = pending;
  error = [];
  token = token;
  key_authorization = [];
  validation_record = [];
}

abbrev pub final_row : Authorization
final_row = record authz { id = codes "f"; status = valid; challenges = [] }

abbrev pub db : Db
db = record {
  pending = columns authz ∷ [];
  final = final_row ∷ [];
  challenges = stored_challenge ∷ [];
  next_challenge = 5;
}

abbrev pub policy : RateLimitPolicy
policy = record { window = pos 7; threshold = pos 2; overrides = []; registration_overrides = [] }

abbrev pub limits : Limits
limits = some (record {
  total_certificates = policy;
  certificates_per_name = policy;
  registrations_per_ip = policy;
  pending_authorizations_per_account = policy;
  invalid_authorizations_per_account = policy;
  certificates_per_fqdn_set = policy;
})

abbrev pub cfg : Config
cfg = record {
  authorization_lifetime = pos 1000;
  pending_authorization_lifetime = pos 100;
  reuse_valid_authz = true;
  force_cn_from_san = true;
  max_names = 100;
  max_contacts_per_reg = 10;
  limits = limits;
}

abbrev pub account : Registration
account = record {
  id = pos 1;
  key = codes "account";
  contact = none;
  agreement = [];
  initial_ip = [];
  created_at = pos 0;
  status = valid;
}

abbrev visited : ValidationRecord
visited = record {
  url = codes "u";
  authorities = [];
  hostname = codes "a.org";
  port = codes "80";
  addresses_resolved = codes "ip" ∷ [];
  address_used = some (codes "ip");
}

finished :
    (finish_validation toy_codec no_faults db cfg
      (pos 10)
      authz
      0
      answered
      (visited ∷ [])
      no_va_error).0
    ≡ ok tt
unfolding finish_validation on_validation_update decide any_combo validated record_outcome
    with_problem checked reported records_sane records_sane_for http_record_sane all
    finalize_authorization transaction existing has_id status_is_pending select insert
    update_challenges update_each challenges_of challenge_to_model error_column record_column
    text_eq
finished = refl

finish_validation-status_example :
    ((finish_validation toy_codec no_faults db cfg
        (pos 10)
        authz
        0
        answered
        (visited ∷ [])
        no_va_error).1.final
      ≡ record authz {
        status = (if succeeded answered (visited ∷ []) no_va_error then valid else invalid);
        expires =
            (if succeeded answered (visited ∷ []) no_va_error
              then some (pos 10 +ℤ pos 1000)
              else some (pos 50));
        challenges = [];
      }
        ∷ db.final)
    × ((finish_validation toy_codec no_faults db cfg
          (pos 10)
          authz
          0
          answered
          (visited ∷ [])
          no_va_error).1.pending
        ≡ delete (codes "p") db.pending)
finish_validation-status_example =
    finish_validation-status toy_codec no_faults db cfg (pos 10) authz 0 answered (visited ∷ [])
      no_va_error refl (refl, tt) (refl, tt) (inl refl) (omega arith) finished

abbrev thumbprint : Text → Option Text
thumbprint key = some thumb

accepted : answer_challenge offered answered (ok account) thumbprint ≡ ok answered
unfolding answer_challenge expected_key_authorization is_sane_for_validation is_sane
    looks_like_a_token is_token_byte looks_like_key_authorization check_parts split all text_eq
accepted = refl

answer_challenge-ok_example :
    (reg : Registration) × (t : Text) × (ok account ≡ ok reg)
    × (thumbprint reg.key ≡ some t)
    × (answered.provided_key_authorization ≡ offered.token ++ b'.' ∷ t)
    × (answered
        ≡ record offered { provided_key_authorization = answered.provided_key_authorization })
    × (is_sane_for_validation answered ≡ true)
answer_challenge-ok_example =
    answer_challenge-ok offered answered answered (ok account) thumbprint accepted

abbrev answered_authz : Authorization
answered_authz = record authz { challenges = answered ∷ [] }

updated :
    (update_authorization toy_codec no_faults db cfg
      (pos 10)
      (ok account)
      thumbprint
      authz
      0
      answered).0
    ≡ ok answered_authz
unfolding update_authorization answer_challenge expected_key_authorization is_sane_for_validation
    is_sane looks_like_a_token is_token_byte looks_like_key_authorization check_parts split all
    update_pending_authorization transaction existing has_id status_is_pending select
    update_challenges update_each challenges_of challenge_to_model error_column record_column
    text_eq
updated = refl

update_authorization-ok_example :
    (t : ℤ) × (old : Challenge) × (authz.expires ≡ some t)
    × (pos 10 ≤ℤ t)
    × (get_elem? authz.challenges 0 ≡ some old)
    × (((answered_authz ≡ authz) × (true ≡ true) × (false ≡ true))
        ⊎ ((new : Challenge) × (answer_challenge old answered (ok account) thumbprint ≡ ok new)
            × (answered_authz ≡ record authz { challenges = set authz.challenges 0 new })))
update_authorization-ok_example =
    update_authorization-ok toy_codec no_faults db cfg (pos 10) (ok account) thumbprint authz
      answered_authz 0 answered updated
