-- ===== src/Probs.antt =====
-- probs/probs.go: the problems that clients are told of, and their HTTP statuses.
use boulder.Prelude.Text.{Text, codes, text_Eq}
use boulder.Prelude.{ℕ, ◌++◌, [], ◌∷◌, if◌then◌else◌, nat_beq, elem, ◌==◌}
use boulder.Core.Types.{ProblemDetails}

-- The types of a problem, written out as the string constants.
abbrev urn : Text → Text
urn name = codes "urn:acme:error:" ++ name

unfoldable pub connection_problem : Text
connection_problem = urn (codes "connection")

unfoldable pub malformed_problem : Text
malformed_problem = urn (codes "malformed")

unfoldable pub server_internal_problem : Text
server_internal_problem = urn (codes "serverInternal")

unfoldable pub tls_problem : Text
tls_problem = urn (codes "tls")

unfoldable pub unauthorized_problem : Text
unauthorized_problem = urn (codes "unauthorized")

unfoldable pub unknown_host_problem : Text
unknown_host_problem = urn (codes "unknownHost")

unfoldable pub rate_limited_problem : Text
rate_limited_problem = urn (codes "rateLimited")

unfoldable pub bad_nonce_problem : Text
bad_nonce_problem = urn (codes "badNonce")

unfoldable pub invalid_email_problem : Text
invalid_email_problem = urn (codes "invalidEmail")

unfoldable pub rejected_identifier_problem : Text
rejected_identifier_problem = urn (codes "rejectedIdentifier")

unfoldable pub unsupported_identifier_problem : Text
unsupported_identifier_problem = urn (codes "unsupportedIdentifier")

-- ProblemDetailsToStatusCode
unfoldable pub problem_details_to_status_code : ProblemDetails → ℕ
problem_details_to_status_code prob =
    if nat_beq prob.http_status 0
    then (if elem prob.problem_type (
          connection_problem ∷ malformed_problem ∷ tls_problem ∷ unknown_host_problem
          ∷ bad_nonce_problem ∷ invalid_email_problem ∷ rejected_identifier_problem
          ∷ unsupported_identifier_problem ∷ [])
        then 400
        else if prob.problem_type == server_internal_problem
        then 500
        else if prob.problem_type == unauthorized_problem
        then 403
        else if prob.problem_type == rate_limited_problem
        then 429
        else 500)
    else prob.http_status

abbrev of_type : Text → ℕ → Text → ProblemDetails
of_type type status detail = record { problem_type = type; detail = detail; http_status = status }

unfoldable pub bad_nonce : Text → ProblemDetails
bad_nonce = of_type bad_nonce_problem 400

unfoldable pub rejected_identifier : Text → ProblemDetails
rejected_identifier = of_type rejected_identifier_problem 400

unfoldable pub unsupported_identifier : Text → ProblemDetails
unsupported_identifier = of_type unsupported_identifier_problem 400

unfoldable pub conflict : Text → ProblemDetails
conflict = of_type malformed_problem 409

-- Malformed, without arguments for the format.
unfoldable pub malformed : Text → ProblemDetails
malformed = of_type malformed_problem 400

unfoldable pub not_found : Text → ProblemDetails
not_found = of_type malformed_problem 404

unfoldable pub server_internal : Text → ProblemDetails
server_internal = of_type server_internal_problem 500

unfoldable pub unauthorized : Text → ProblemDetails
unauthorized = of_type unauthorized_problem 403

unfoldable pub method_not_allowed : ProblemDetails
method_not_allowed = of_type malformed_problem 405 (codes "Method not allowed")

unfoldable pub content_length_required : ProblemDetails
content_length_required = of_type malformed_problem 411 (codes "missing Content-Length header")

unfoldable pub invalid_email : Text → ProblemDetails
invalid_email = of_type invalid_email_problem 400

unfoldable pub connection_failure : Text → ProblemDetails
connection_failure = of_type connection_problem 400

unfoldable pub unknown_host : Text → ProblemDetails
unknown_host = of_type unknown_host_problem 400

unfoldable pub rate_limited : Text → ProblemDetails
rate_limited = of_type rate_limited_problem 429

unfoldable pub tls_error : Text → ProblemDetails
tls_error = of_type tls_problem 400
