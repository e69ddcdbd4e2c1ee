-- ===== src/Wfe/Statuses.antt =====
-- wfe/probs.go and probs/probs.go: the HTTP statuses that errors lead to.
use boulder.Prelude.Text.{Text}
use boulder.Prelude.{◌≤◌, ◌≡◌, false, arith}
use boulder.Core.Types.{ProblemDetails}
use boulder.Probs.{
  problem_details_to_status_code, bad_nonce, rejected_identifier, unsupported_identifier, malformed,
  not_found, server_internal, unauthorized, invalid_email, rate_limited,
}
use boulder.Rpc.Bcodes.{CoreErrorType, GoError, boulder_error, core_error, problem, status, other}
use boulder.Wfe.Problems.{
  problem_details_for_boulder_error, problem_details_for_core_error, problem_details_for_error,
  is_problem,
}

-- The HTTP statuses of a client's and a server's error.
abbrev pub IsErrorStatus : ProblemDetails → Type 0
IsErrorStatus p =
    (400 ≤ problem_details_to_status_code p) × (problem_details_to_status_code p ≤ 501)

core_status :
    (type : CoreErrorType) (x msg : Text)
    → IsErrorStatus (problem_details_for_core_error type x msg)
unfolding problem_details_to_status_code problem_details_for_core_error bad_nonce malformed
    not_found server_internal unauthorized rate_limited
core_status CoreErrorType.malformed_request x msg = omega arith
core_status CoreErrorType.not_supported x msg = omega arith
core_status CoreErrorType.unauthorized x msg = omega arith
core_status CoreErrorType.not_found x msg = omega arith
core_status CoreErrorType.length_required x msg = omega arith
core_status CoreErrorType.signature_validation x msg = omega arith
core_status CoreErrorType.rate_limited x msg = omega arith
core_status CoreErrorType.bad_nonce x msg = omega arith
core_status CoreErrorType.no_such_registration x msg = omega arith
core_status CoreErrorType.internal_server x msg = omega arith

-- The HTTP status of a problem made from an error is one of a client's or a server's error.
pub problem_details_for_error-status_code :
    (e : GoError) (msg : Text)
    → is_problem e ≡ false
    → IsErrorStatus (problem_details_for_error e msg)
unfolding problem_details_to_status_code problem_details_for_error problem_details_for_boulder_error
    is_problem bad_nonce rejected_identifier unsupported_identifier malformed not_found
    server_internal unauthorized invalid_email rate_limited
problem_details_for_error-status_code (boulder_error type detail) msg h = ground arith
problem_details_for_error-status_code (core_error type x) msg h = core_status type x msg
problem_details_for_error-status_code (problem p) msg h = ground arith
problem_details_for_error-status_code (status code desc) msg h = omega arith
problem_details_for_error-status_code (other x) msg h = omega arith
