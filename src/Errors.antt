-- ===== src/Errors.antt =====
-- errors/errors.go: the errors that the components return. A detail is the text that the source
-- formats, without the arguments of the format. Other Go errors carry their text only. The last two
-- are sa/rollback.go: the RollbackError of a rollback that worked, and of one that failed too.
use Prim.Native.String.{◌++◌}
use boulder.Prelude.{◌≡◌, refl, String, Bool, true, false}

pub data ErrorType : Type 0 where
  internal_server not_supported malformed unauthorized not_found signature_validation : ErrorType
  rate_limit too_many_requests rejected_identifier unsupported_identifier : ErrorType
  invalid_email connection_failure : ErrorType

pub data Error : Type 0 where
  boulder_error : ErrorType → String → Error
  plain_error : String → Error
  rolled_back : Error → Error
  rollback_failed : Error → Error → Error

-- The method Error.
abbrev pub message : Error → String
message (boulder_error t detail) = detail
message (plain_error text) = text
message (rolled_back e) = message e
message (rollback_failed e also) =
    message e ++ " (also, while rolling back: " ++ message also ++ ")"

abbrev pub same_type : ErrorType → ErrorType → Bool
same_type internal_server internal_server = true
same_type not_supported not_supported = true
same_type malformed malformed = true
same_type unauthorized unauthorized = true
same_type not_found not_found = true
same_type signature_validation signature_validation = true
same_type rate_limit rate_limit = true
same_type too_many_requests too_many_requests = true
same_type rejected_identifier rejected_identifier = true
same_type unsupported_identifier unsupported_identifier = true
same_type invalid_email invalid_email = true
same_type connection_failure connection_failure = true
same_type _ _ = false

-- Is
unfoldable pub is_error_type : Error → ErrorType → Bool
is_error_type (boulder_error t detail) type = same_type t type
is_error_type _ type = false

-- The outcome of a fallible call.
pub data Result {ℓ} (V : Type ℓ) : Type ℓ where
  ok : (value : V) → Result V
  err : (failure : Error) → Result V

-- if err != nil { return err }, with the value of the call for what follows.
infixl 5 ◌>>=◌
abbrev pub ◌>>=◌ {ℓ κ} :
    {V : Type ℓ} {W : Type κ} (call : Result V) (rest : V → Result W) → Result W
err failure >>= rest = err failure
ok value >>= rest = rest value

-- What a chain that succeeds went through.
pub >>=-ok {ℓ κ} :
    {V : Type ℓ} {W : Type κ} (call : Result V) (rest : V → Result W) (w : W)
    → (call >>= rest) ≡ ok w
    → (v : V) × (call ≡ ok v) × (rest v ≡ ok w)
>>=-ok (err failure) rest w h = cc
>>=-ok (ok value) rest w h = (value, refl, h)

-- The same for a call that returns an error only.
infixl 5 ◌>>◌
abbrev pub ◌>>◌ {ℓ} : {W : Type ℓ} (call : Result (Unit {0})) (rest : Result W) → Result W
call >> rest = call >>= λ _. rest

-- if !b { return e }
abbrev pub require : Bool → Error → Result (Unit {0})
require true e = ok tt
require false e = err e
