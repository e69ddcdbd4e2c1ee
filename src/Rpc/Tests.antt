-- ===== src/Rpc/Tests.antt =====
-- grpc/ and wfe/ at concrete inputs.
use boulder.Prelude.Text.{Text, codes, lacks}
use boulder.Prelude.{
  arith, ℕ, ◌≡◌, refl, true, false, nat_beq, if◌then◌else◌, ap, ◌∙◌, sym, Option, none, some, [],
  ◌∷◌,
}
use boulder.Core.Types.{ProblemDetails}
use boulder.Errors.{Result, ok, err}
use boulder.Rpc.Bcodes.{GoError, boulder_error, Texts, IsDocumented, across}
use boulder.Rpc.Across.{format_of, arrives, across-arrives, across-problem_details_for_error}
use boulder.Wfe.Problems.{problem_details_for_error, is_problem}
use boulder.Sa.ToyCodec.{toy_codec, get-put_problem}

-- A number is one byte.
abbrev one_number : Text → Option ℕ
one_number (n ∷ []) = some n
one_number _ = none

abbrev to_option : Result ProblemDetails → Option ProblemDetails
to_option (ok p) = some p
to_option (err e) = none

abbrev read : Option Text → Option ProblemDetails
read none = none
read (some s) = to_option (toy_codec.read_problem s)

abbrev texts : Texts
texts = record {
  itoa = λ n. n ∷ [];
  atoi = one_number;
  write_problem = λ p. some (toy_codec.write_problem p);
  read_problem = λ s. read (some s);
  is_utf8 = λ s. true;
  sprintf = λ s. s;
  status_text = λ code desc. desc;
}

texts-IsDocumented : IsDocumented texts
texts-IsDocumented = record {
  atoi-itoa = λ n b. refl;
  read-write_problem = λ p s a b c h. ap read (sym h) ∙ ap to_option (get-put_problem p);
  sprintf_plain = λ s h. refl;
}

abbrev unauthorized_error : GoError
unauthorized_error = boulder_error 3 (codes "no")

formatted : format_of texts unauthorized_error ≡ some (codes "no")
unfolding format_of
formatted = refl

plain : lacks b'%' (codes "no") ≡ true
unfolding lacks
plain = refl

across-arrives_example : across texts unauthorized_error ≡ arrives texts unauthorized_error
across-arrives_example =
    across-arrives texts unauthorized_error (codes "no") texts-IsDocumented (omega arith) formatted
      plain

across-problem_details_for_error_example :
    problem_details_for_error (across texts unauthorized_error) (codes "msg")
    ≡ problem_details_for_error unauthorized_error (codes "msg")
across-problem_details_for_error_example =
    across-problem_details_for_error texts unauthorized_error (codes "no") (codes "msg")
      texts-IsDocumented (omega arith) formatted plain

no_problem : is_problem unauthorized_error ≡ false
unfolding is_problem
no_problem = refl

-- A percent sign in the text of an error is read by the format: with a formatter that drops it, the client does not
-- get the text that the server sent.
abbrev dropped : Text → Text
dropped [] = []
dropped (c ∷ s) = if nat_beq c b'%' then dropped s else c ∷ dropped s

garbled :
    across (record texts { sprintf = dropped }) (boulder_error 3 (codes "100%"))
    ≡ boulder_error 3 (codes "100")
unfolding across
garbled = refl
