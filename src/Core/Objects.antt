-- ===== src/Core/Objects.antt =====
-- core/objects.go: the checks on challenges.
use boulder.Prelude.Text.{Text, split, text_Eq}
use boulder.Prelude.{
  ℕ, suc, Bool, true, false, not, ◌&&◌, ◌||◌, Option, none, some, List, [], ◌∷◌, ◌++◌, leb, nat_beq,
  if◌then◌else◌, length, all,
}
use boulder.Features.{Flags, enabled, allow_tls02_challenges}
use boulder.Core.Types.{
  ChallengeType, http_01, tls_sni_01, tls_sni_02, dns_01, other_challenge, is_pending, pending,
  Challenge, ValidationRecord, Authorization,
}

unfoldable pub valid_challenge : Flags → ChallengeType → Bool
valid_challenge s http_01 = true
valid_challenge s tls_sni_01 = true
valid_challenge s dns_01 = true
valid_challenge s tls_sni_02 = enabled s allow_tls02_challenges
valid_challenge s (other_challenge t) = false

-- The class [\w-] of tokenFormat.
unfoldable pub is_token_byte : ℕ → Bool
is_token_byte c =
    (leb b'0' c && leb c b'9')
    || (leb b'A' c && leb c b'Z')
    || (leb b'a' c && leb c b'z')
    || nat_beq c b'_'
    || nat_beq c b'-'

unfoldable pub looks_like_a_token : Text → Bool
looks_like_a_token token = nat_beq (length token) 43 && all is_token_byte token

pub data KeyAuthError : Type 0 where
  not_key_authorization malformed_token malformed_thumbprint : KeyAuthError

-- looksLikeKeyAuthorization on the parts of the string.
unfoldable pub check_parts : List Text → Option KeyAuthError
check_parts [] = some not_key_authorization
check_parts (a ∷ []) = some not_key_authorization
check_parts (a ∷ b ∷ []) =
    if not (looks_like_a_token a)
    then some malformed_token
    else if not (looks_like_a_token b)
    then some malformed_thumbprint
    else none
check_parts (a ∷ b ∷ c ∷ rest) = some not_key_authorization

unfoldable pub looks_like_key_authorization : Text → Option KeyAuthError
unfolding check_parts
looks_like_key_authorization str = check_parts (split b'.' str)

-- ExpectedKeyAuthorization, given the base64 text of the key's thumbprint, or none where the key is
-- nil or has no thumbprint.
unfoldable pub expected_key_authorization : Challenge → Option Text → Option Text
expected_key_authorization ch none = none
expected_key_authorization ch (some thumbprint) = some (ch.token ++ b'.' ∷ thumbprint)

abbrev is_nil : Option Text → Bool
is_nil none = true
is_nil (some t) = false

abbrev pub is_empty {ℓ} : {A : Type ℓ} → List A → Bool
is_empty [] = true
is_empty (x ∷ xs) = false

-- A record of an HTTP validation must name all it used.
unfoldable pub http_record_sane : ValidationRecord → Bool
http_record_sane rec = not (
    is_empty rec.url
    || is_empty rec.hostname
    || is_empty rec.port
    || is_nil rec.address_used
    || is_empty rec.addresses_resolved)

unfoldable pub tls_records_sane : List ValidationRecord → Bool
tls_records_sane [] = false
tls_records_sane (rec ∷ []) =
    if not (is_empty rec.url)
    then false
    else not (
        is_empty rec.hostname
        || is_empty rec.port
        || is_nil rec.address_used
        || is_empty rec.addresses_resolved)
tls_records_sane (a ∷ b ∷ rest) = false

unfoldable pub dns_records_sane : List ValidationRecord → Bool
dns_records_sane [] = false
dns_records_sane (rec ∷ []) = not (is_empty rec.hostname)
dns_records_sane (a ∷ b ∷ rest) = false

-- The switch of RecordsSane.
unfoldable pub records_sane_for : ChallengeType → List ValidationRecord → Bool
unfolding http_record_sane tls_records_sane dns_records_sane
records_sane_for http_01 recs = all http_record_sane recs
records_sane_for tls_sni_01 recs = tls_records_sane recs
records_sane_for tls_sni_02 recs = tls_records_sane recs
records_sane_for dns_01 recs = dns_records_sane recs
records_sane_for (other_challenge t) recs = false

unfoldable pub records_sane : Challenge → Bool
unfolding records_sane_for
records_sane ch =
    if is_empty ch.validation_record then false else records_sane_for ch.kind ch.validation_record

abbrev is_error : Option KeyAuthError → Bool
is_error none = false
is_error (some e) = true

unfoldable pub is_sane : Challenge → Bool → Bool
is_sane ch completed =
    if not (is_pending ch.status)
    then false
    else if not (looks_like_a_token ch.token)
    then false
    else if not completed && not (is_empty ch.provided_key_authorization)
    then false
    else if completed && is_error (looks_like_key_authorization ch.provided_key_authorization)
    then false
    else true

unfoldable pub is_sane_for_client_offer : Challenge → Bool
unfolding is_sane
is_sane_for_client_offer ch = is_sane ch false

unfoldable pub is_sane_for_validation : Challenge → Bool
unfolding is_sane
is_sane_for_validation ch = is_sane ch true

-- The loop of FindChallenge, from an index.
unfoldable pub find_challenge_from : ℕ → List Challenge → ℕ → Option ℕ
find_challenge_from i [] challenge_id = none
find_challenge_from i (c ∷ cs) challenge_id =
    if nat_beq c.id challenge_id then some i else find_challenge_from (suc i) cs challenge_id

-- FindChallenge; none is the result -1.
unfoldable pub find_challenge : Authorization → ℕ → Option ℕ
unfolding find_challenge_from
find_challenge authz challenge_id = find_challenge_from 0 authz.challenges challenge_id

-- core/challenges.go: newChallenge, with the token that NewToken drew. The database gives the id.
unfoldable pub new_challenge : ChallengeType → Text → Challenge
new_challenge kind token = record {
  id = 0;
  kind = kind;
  status = pending;
  error = none;
  token = token;
  uri = [];
  provided_key_authorization = [];
  validation_record = [];
}
