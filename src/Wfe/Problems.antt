-- ===== src/Wfe/Problems.antt =====
-- wfe/probs.go: the problem that a client of the web front end gets for an error.
use boulder.Prelude.Text.{Text, codes}
use boulder.Prelude.{ℕ, Bool, true, false, ◌++◌, if◌then◌else◌, nat_beq}
use boulder.Core.Types.{ProblemDetails}
use boulder.Probs.{
  server_internal_problem, bad_nonce, rejected_identifier, unsupported_identifier, malformed,
  not_found, server_internal, unauthorized, invalid_email, rate_limited,
}
use boulder.Rpc.Bcodes.{CoreErrorType, GoError, boulder_error, core_error, problem, status, other}

-- fmt.Sprintf("%s :: %s", msg, err)
abbrev pub detailed : Text → Text → Text
detailed msg text = msg ++ codes " :: " ++ text

abbrev pub not_implemented : Text → ProblemDetails
not_implemented detail = record {
  problem_type = server_internal_problem;
  detail = detail;
  http_status = 501;
}

-- The cases of the switch by the numbers of errors/errors.go.
unfoldable pub problem_details_for_boulder_error : ℕ → Text → Text → ProblemDetails
problem_details_for_boulder_error type text msg =
    if nat_beq type 1
    then not_implemented (detailed msg text)
    else if nat_beq type 2
    then malformed (detailed msg text)
    else if nat_beq type 5
    then malformed (detailed msg text)
    else if nat_beq type 3
    then unauthorized (detailed msg text)
    else if nat_beq type 4
    then not_found (detailed msg text)
    else if nat_beq type 6
    then rate_limited (detailed msg text)
    else if nat_beq type 0
    then server_internal msg
    else if nat_beq type 7
    then server_internal msg
    else if nat_beq type 8
    then rejected_identifier msg
    else if nat_beq type 9
    then unsupported_identifier msg
    else if nat_beq type 10
    then invalid_email msg
    else server_internal msg

unfoldable pub problem_details_for_core_error : CoreErrorType → Text → Text → ProblemDetails
problem_details_for_core_error CoreErrorType.malformed_request text msg =
    malformed (detailed msg text)
problem_details_for_core_error CoreErrorType.not_supported text msg =
    not_implemented (detailed msg text)
problem_details_for_core_error CoreErrorType.unauthorized text msg =
    unauthorized (detailed msg text)
problem_details_for_core_error CoreErrorType.not_found text msg = not_found (detailed msg text)
problem_details_for_core_error CoreErrorType.length_required text msg =
    record (malformed (codes "missing Content-Length header")) { http_status = 411 }
problem_details_for_core_error CoreErrorType.signature_validation text msg =
    malformed (detailed msg text)
problem_details_for_core_error CoreErrorType.rate_limited text msg =
    rate_limited (detailed msg text)
problem_details_for_core_error CoreErrorType.bad_nonce text msg = bad_nonce (detailed msg text)
problem_details_for_core_error CoreErrorType.no_such_registration text msg = server_internal msg
problem_details_for_core_error CoreErrorType.internal_server text msg = server_internal msg

unfoldable pub problem_details_for_error : GoError → Text → ProblemDetails
unfolding problem_details_for_boulder_error problem_details_for_core_error
problem_details_for_error (problem p) msg = p
problem_details_for_error (boulder_error type detail) msg =
    problem_details_for_boulder_error type detail msg
problem_details_for_error (core_error type text) msg = problem_details_for_core_error type text msg
problem_details_for_error (status code desc) msg = server_internal msg
problem_details_for_error (other text) msg = server_internal msg

-- An error that is no problem yet.
unfoldable pub is_problem : GoError → Bool
is_problem (problem p) = true
is_problem e = false
