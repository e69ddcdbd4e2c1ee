-- ===== src/Rpc/Bcodes.antt =====
-- grpc/bcodes.go: how an error crosses the RPC layer. The errors are those of errors/, the deprecated ones of
-- core/util.go, problems, the status errors of gRPC, and others, with their text. encoding/json, strconv and
-- fmt are parameters with what they document.
use boulder.Prelude.Text.{Text, codes, lacks}
use boulder.Prelude.{
  ℕ, ◌<◌, ◌^◌, ◌≡◌, Bool, true, Option, none, some, List, [], ◌∷◌, ◌++◌, nat_beq, if◌then◌else◌,
}
use boulder.Core.Types.{ProblemDetails}

-- The errors of core/util.go.
pub data CoreErrorType : Type 0 where
  malformed_request not_supported unauthorized not_found length_required : CoreErrorType
  signature_validation rate_limited bad_nonce no_such_registration internal_server : CoreErrorType

-- The type of a Boulder error is its number; a status is a code and its description.
pub data GoError : Type 0 where
  boulder_error : (type : ℕ) (detail : Text) → GoError
  core_error : (type : CoreErrorType) (text : Text) → GoError
  problem : ProblemDetails → GoError
  status : (code : ℕ) (desc : Text) → GoError
  other : (text : Text) → GoError

-- itoa and atoi; json.Marshal and Unmarshal of a problem; utf8.Valid, as json.Marshal
-- replaces what is no UTF-8; fmt.Sprintf of a format and no arguments, and the text
-- of a status.
pub record Texts : Type 0 where
  pub itoa : ℕ → Text
  pub atoi : Text → Option ℕ
  pub write_problem : ProblemDetails → Option Text
  pub read_problem : Text → Option ProblemDetails
  pub is_utf8 : Text → Bool
  pub sprintf : Text → Text
  pub status_text : ℕ → Text → Text

-- What their documentation says.
pub record IsDocumented (t : Texts) : Type 0 where
  pub atoi-itoa : (n : ℕ) → n < 2 ^ 63 → t.atoi (t.itoa n) ≡ some n
  pub read-write_problem :
      (p : ProblemDetails) (s : Text)
      → t.is_utf8 p.problem_type ≡ true
      → t.is_utf8 p.detail ≡ true
      → p.http_status < 2 ^ 63
      → t.write_problem p ≡ some s
      → t.read_problem s ≡ some p
  pub sprintf_plain : (s : Text) → lacks b'%' s ≡ true → t.sprintf s ≡ s

-- codes.Unknown of gRPC, and the codes from 100 on.
abbrev pub unknown : ℕ
unknown = 2

unfoldable pub core_code : CoreErrorType → ℕ
core_code malformed_request = 100
core_code not_supported = 101
core_code unauthorized = 102
core_code not_found = 103
core_code length_required = 104
core_code signature_validation = 105
core_code rate_limited = 106
core_code bad_nonce = 107
core_code no_such_registration = 108
core_code internal_server = 109

abbrev pub problem_code : ℕ
problem_code = 110

-- The cases of the switch of unwrapError.
unfoldable pub core_error_of : ℕ → Option CoreErrorType
core_error_of code =
    if nat_beq code 109
    then some internal_server
    else if nat_beq code 101
    then some not_supported
    else if nat_beq code 100
    then some malformed_request
    else if nat_beq code 102
    then some unauthorized
    else if nat_beq code 103
    then some not_found
    else if nat_beq code 105
    then some signature_validation
    else if nat_beq code 108
    then some no_such_registration
    else if nat_beq code 106
    then some rate_limited
    else if nat_beq code 104
    then some length_required
    else if nat_beq code 107
    then some bad_nonce
    else none

module _ (t : Texts) where
  -- err.Error()
  unfoldable pub message : GoError → Text
  message (boulder_error type detail) = detail
  message (core_error type text) = text
  message (problem p) = p.problem_type ++ codes " :: " ++ p.detail
  message (status code desc) = t.status_text code desc
  message (other text) = text

  unfoldable pub error_to_code : GoError → ℕ
  unfolding core_code
  error_to_code (core_error type text) = core_code type
  error_to_code (problem p) = problem_code
  error_to_code (boulder_error type detail) = unknown
  error_to_code (status code desc) = unknown
  error_to_code (other text) = unknown

  -- grpc.Errorf(code, body), where the body is the format.
  unfoldable pub errorf : ℕ → Text → GoError
  errorf code body = status code (t.sprintf body)

  -- The values of "errortype" in the trailer, and the error that the handler returns.
  unfoldable pub wrap_error : GoError → List Text × GoError
  unfolding message error_to_code errorf
  wrap_error (boulder_error type detail) = (t.itoa type ∷ [], errorf unknown detail)
  wrap_error (problem p) = elim (t.write_problem p) [
    | none ↦ ([], problem p)
    | some body ↦ ([], errorf problem_code body)
  ]
  wrap_error (core_error type text) = ([], errorf (error_to_code (core_error type text)) text)
  wrap_error (status code desc) = ([], errorf unknown (message (status code desc)))
  wrap_error (other text) = ([], errorf unknown text)

  -- What gRPC makes of a handler's error: one that is no status gets the code Unknown and its text.
  unfoldable pub transport : GoError → GoError
  unfolding message
  transport (status code desc) = status code desc
  transport e = status unknown (message e)

  -- grpc.Code and grpc.ErrorDesc
  unfoldable pub code_of : GoError → ℕ
  code_of (status code desc) = code
  code_of e = unknown

  unfoldable pub desc_of : GoError → Text
  unfolding message
  desc_of (status code desc) = desc
  desc_of e = message e

  abbrev multiple_types : GoError
  multiple_types = boulder_error 0 (codes "multiple errorType metadata, wrapped error %q")

  abbrev not_decoded : GoError
  not_decoded =
      boulder_error 0 (codes "failed to decode error type, decoding error %q, wrapped error %q")

  abbrev of_type : Text → Option ℕ → GoError
  of_type unwrapped (some type) = boulder_error type (t.sprintf unwrapped)
  of_type unwrapped none = not_decoded

  abbrev of_problem : GoError → Option ProblemDetails → GoError
  of_problem e (some p) = problem p
  of_problem e none = e

  abbrev of_code : GoError → Option CoreErrorType → GoError
  of_code e (some type) = core_error type (desc_of e)
  of_code e none =
      if nat_beq (code_of e) problem_code then of_problem e (t.read_problem (desc_of e)) else e

  -- No value of "errortype" is no metadata; the client's grpc error is the argument.
  unfoldable pub unwrap_error : List Text → GoError → GoError
  unfolding core_error_of code_of desc_of
  unwrap_error [] e = of_code e (core_error_of (code_of e))
  unwrap_error (type ∷ []) e = of_type (desc_of e) (t.atoi type)
  unwrap_error (a ∷ b ∷ types) e = multiple_types

  -- What a client's call gives for the error of the server's handler.
  unfoldable pub across : GoError → GoError
  unfolding wrap_error transport unwrap_error
  across e = let (types, wrapped) = wrap_error e in unwrap_error types (transport wrapped)
