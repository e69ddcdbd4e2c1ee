-- ===== src/Rpc/Across.antt =====
-- grpc/bcodes.go and wfe/probs.go: an error means the same on both sides of the RPC layer.
use boulder.Prelude.Text.{Text, lacks}
use boulder.Prelude.{◌≡◌, ◌<◌, ◌^◌, refl, true, Option, some, arith}
use boulder.Rpc.Bcodes.{
  CoreErrorType, GoError, boulder_error, core_error, problem, status, other, Texts, IsDocumented,
  unknown, core_code, core_error_of, message, error_to_code, errorf, wrap_error, transport, code_of,
  desc_of, unwrap_error, across,
}
use boulder.Wfe.Problems.{problem_details_for_error}

-- The text that the server passes as a format, unless it cannot write the problem.
unfoldable pub format_of : Texts → GoError → Option Text
format_of t (boulder_error type detail) = some detail
format_of t (core_error type text) = some text
format_of t (problem p) = t.write_problem p
format_of t (status code desc) = some (t.status_text code desc)
format_of t (other text) = some text

-- What is left of an error: a status error or an untyped one has only its text.
unfoldable pub arrives : Texts → GoError → GoError
arrives t (status code desc) = status unknown (t.status_text code desc)
arrives t (other text) = status unknown text
arrives t e = e

-- The numbers are those of an int, and the texts of a problem are UTF-8.
abbrev pub IsPortable : Texts → GoError → Type 0
IsPortable t (boulder_error type detail) = type < 2 ^ 63
IsPortable t (problem p) =
    (t.is_utf8 p.problem_type ≡ true) × (t.is_utf8 p.detail ≡ true) × (p.http_status < 2 ^ 63)
IsPortable t e = Unit {0}

core_error_of-core_code : (c : CoreErrorType) → core_error_of (core_code c) ≡ some c
unfolding core_error_of core_code
core_error_of-core_code CoreErrorType.malformed_request = refl
core_error_of-core_code CoreErrorType.not_supported = refl
core_error_of-core_code CoreErrorType.unauthorized = refl
core_error_of-core_code CoreErrorType.not_found = refl
core_error_of-core_code CoreErrorType.length_required = refl
core_error_of-core_code CoreErrorType.signature_validation = refl
core_error_of-core_code CoreErrorType.rate_limited = refl
core_error_of-core_code CoreErrorType.bad_nonce = refl
core_error_of-core_code CoreErrorType.no_such_registration = refl
core_error_of-core_code CoreErrorType.internal_server = refl

-- A Boulder error, a deprecated core error and a problem come out of the RPC layer as they went in,
-- and any other error as an untyped one with its text, if a problem can be written, the text that is
-- passed as a format holds no percent sign, the type of a Boulder error and the status of a problem
-- are below 2^63, and the texts of a problem are UTF-8.
pub across-arrives :
    (t : Texts) (e : GoError) (text : Text)
    → IsDocumented t
    → IsPortable t e
    → format_of t e ≡ some text
    → lacks b'%' text ≡ true
    → across t e ≡ arrives t e
unfolding across arrives format_of wrap_error transport unwrap_error code_of desc_of errorf
    error_to_code message core_error_of
across-arrives t (boulder_error type detail) text d q f l =
    ground (arith, d.atoi-itoa type q, d.sprintf_plain detail)
across-arrives t (core_error type x) text d q f l =
    ground (arith, core_error_of-core_code type, d.sprintf_plain x)
across-arrives t (problem p) text d q f l =
    ground (arith, d.read-write_problem p text q.0 q.1 q.2, d.sprintf_plain text)
across-arrives t (status code desc) text d q f l =
    ground (arith, d.sprintf_plain (t.status_text code desc))
across-arrives t (other x) text d q f l = ground (arith, d.sprintf_plain x)

-- The client of the front end gets the same problem whether the component that failed runs in its
-- process or behind the RPC layer, if a problem can be written, the text that is passed as a format
-- holds no percent sign, the type of a Boulder error and the status of a problem are below 2^63, and
-- the texts of a problem are UTF-8.
pub across-problem_details_for_error :
    (t : Texts) (e : GoError) (text msg : Text)
    → IsDocumented t
    → IsPortable t e
    → format_of t e ≡ some text
    → lacks b'%' text ≡ true
    → problem_details_for_error (across t e) msg ≡ problem_details_for_error e msg
unfolding problem_details_for_error arrives
across-problem_details_for_error t (boulder_error type detail) text msg d q f l =
    rw (across-arrives t (boulder_error type detail) text d q f l) refl
across-problem_details_for_error t (core_error type x) text msg d q f l =
    rw (across-arrives t (core_error type x) text d q f l) refl
across-problem_details_for_error t (problem p) text msg d q f l =
    rw (across-arrives t (problem p) text d q f l) refl
across-problem_details_for_error t (status code desc) text msg d q f l =
    rw (across-arrives t (status code desc) text d q f l) refl
across-problem_details_for_error t (other x) text msg d q f l =
    rw (across-arrives t (other x) text d q f l) refl
