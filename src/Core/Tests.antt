-- ===== src/Core/Tests.antt =====
-- core/ at concrete inputs.
use boulder.Prelude.Text.{Text, codes, text_Eq, to_lower, lower_byte}
use boulder.Prelude.{
  ◌≡◌, refl, true, false, none, some, [], ◌∷◌, ◌++◌, arith, replicate, elem, map, length, all,
}
use boulder.Core.Types.{Challenge, Authorization, ValidationRecord, http_01, pending, dns}
use boulder.Prelude.Int.{pos}
use boulder.Core.Objects.{
  looks_like_a_token, is_sane_for_client_offer, is_sane, is_sane_for_validation, records_sane,
  records_sane_for, http_record_sane, is_token_byte, expected_key_authorization,
}
use boulder.Core.Tokens.{offer-to-validation}
use boulder.Core.Serial.{
  serial_to_string, string_to_serial, valid_serial, string_to_serial-serial_to_string,
}

string_to_serial-serial_to_string_example :
    (string_to_serial (serial_to_string 4097) ≡ some 4097)
    × (valid_serial (serial_to_string 4097) ≡ true)
    × (length (serial_to_string 4097) ≡ 36)
string_to_serial-serial_to_string_example = string_to_serial-serial_to_string 4097 (omega arith)

same_names :
    (z : Text)
    → elem z (map to_lower (codes "B" ∷ [])) ≡ elem z (map to_lower (codes "b" ∷ codes "B" ∷ []))
unfolding to_lower lower_byte elem
same_names z = ground arith

abbrev token : Text
token = replicate 43 b'a'

abbrev thumb : Text
thumb = replicate 43 b'b'

abbrev fresh : Challenge
fresh = record {
  id = 7;
  kind = http_01;
  status = pending;
  error = none;
  token = token;
  uri = [];
  provided_key_authorization = [];
  validation_record = [];
}

fresh_sane : is_sane_for_client_offer fresh ≡ true
unfolding is_sane_for_client_offer is_sane looks_like_a_token is_token_byte all
fresh_sane = refl

thumb_token : looks_like_a_token thumb ≡ true
unfolding looks_like_a_token is_token_byte all
thumb_token = refl

expected_answer : expected_key_authorization fresh (some thumb) ≡ some (token ++ b'.' ∷ thumb)
unfolding expected_key_authorization
expected_answer = refl

offer-to-validation_example :
    (is_sane_for_validation (record fresh { provided_key_authorization = token ++ b'.' ∷ thumb })
      ≡ true)
    × (is_sane_for_client_offer
          (record fresh { provided_key_authorization = token ++ b'.' ∷ thumb })
        ≡ false)
offer-to-validation_example =
    offer-to-validation fresh thumb (token ++ b'.' ∷ thumb) fresh_sane thumb_token expected_answer

abbrev visited : ValidationRecord
visited = record {
  url = codes "http://a.org/";
  authorities = [];
  hostname = codes "a.org";
  port = codes "80";
  addresses_resolved = codes "10.0.0.1" ∷ [];
  address_used = some (codes "10.0.0.1");
}

abbrev validated : Challenge
validated = record fresh { validation_record = visited ∷ visited ∷ [] }

validated_sane : records_sane validated ≡ true
unfolding records_sane records_sane_for http_record_sane all
validated_sane = refl

abbrev two_challenges : Authorization
two_challenges = record {
  id = codes "x";
  identifier = record { kind = dns; value = codes "a.org" };
  registration_id = pos 1;
  status = pending;
  expires = some (pos 5);
  challenges = fresh ∷ record fresh { id = 8 } ∷ [];
  combinations = (0 ∷ []) ∷ (1 ∷ []) ∷ [];
}
