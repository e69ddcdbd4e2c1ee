-- ===== src/Sa/Model.antt =====
-- sa/model.go: how challenges and registrations are stored. encoding/json is a parameter.
use boulder.Prelude.Text.{Text}
use boulder.Prelude.{ℕ, ◌^◌, Option, none, some, List, [], ◌∷◌, length, ltb, if◌then◌else◌}
use boulder.Errors.{plain_error, Result, ok, err, ◌>>=◌}
use boulder.Core.Types.{AcmeStatus, ChallengeType, Challenge, ProblemDetails, ValidationRecord}

-- encoding/json on the stored columns, Marshal and Unmarshal.
pub record Codec : Type 0 where
  pub write_problem : ProblemDetails → Text
  pub read_problem : Text → Result ProblemDetails
  pub write_records : List ValidationRecord → Text
  pub read_records : Text → Result (List ValidationRecord)

abbrev pub medium_blob_size : ℕ
medium_blob_size = 2 ^ 24

-- The columns `validated` and LockCol, which nothing reads back into a challenge, are left out.
pub record ChallModel : Type 0 where
  pub id : ℕ
  pub authorization_id : Text
  pub kind : ChallengeType
  pub status : AcmeStatus
  pub error : Text
  pub token : Text
  pub key_authorization : Text
  pub validation_record : Text

module _ (codec : Codec) where
  open codec use {write_problem, read_problem, write_records, read_records}

  unfoldable pub error_column : Option ProblemDetails → Result Text
  error_column none = ok []
  error_column (some p) =
      if ltb medium_blob_size (length (write_problem p))
      then err (plain_error "Error object is too large to store in the database")
      else ok (write_problem p)

  unfoldable pub record_column : List ValidationRecord → Result Text
  record_column [] = ok []
  record_column (r ∷ rs) =
      if ltb medium_blob_size (length (write_records (r ∷ rs)))
      then err (plain_error "Validation Record object is too large to store in the database")
      else ok (write_records (r ∷ rs))

  unfoldable pub challenge_to_model : Challenge → Text → Result ChallModel
  challenge_to_model c auth_id = do
    error ← error_column c.error
    records ← record_column c.validation_record
    ok (record {
      id = c.id;
      authorization_id = auth_id;
      kind = c.kind;
      status = c.status;
      error = error;
      token = c.token;
      key_authorization = c.provided_key_authorization;
      validation_record = records;
    })

  unfoldable pub read_error_column : Text → Result (Option ProblemDetails)
  read_error_column [] = ok none
  read_error_column (c ∷ cs) = do problem ← read_problem (c ∷ cs); ok (some problem)

  unfoldable pub read_record_column : Text → Result (List ValidationRecord)
  read_record_column [] = ok []
  read_record_column (c ∷ cs) = read_records (c ∷ cs)

  -- The URI is not stored.
  unfoldable pub model_to_challenge : ChallModel → Result Challenge
  model_to_challenge cm = do
    error ← read_error_column cm.error
    records ← read_record_column cm.validation_record
    ok (record {
      id = cm.id;
      kind = cm.kind;
      status = cm.status;
      error = error;
      token = cm.token;
      uri = [];
      provided_key_authorization = cm.key_authorization;
      validation_record = records;
    })
