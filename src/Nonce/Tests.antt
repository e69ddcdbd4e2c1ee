-- ===== src/Nonce/Tests.antt =====
-- nonce/nonce.go at concrete inputs: a toy cipher that meets the assumptions, one issued nonce.
use boulder.Prelude.Text.{Text}
use boulder.Prelude.Int.{pos, int_eq}
use boulder.Prelude.{
  ◌≡◌, refl, some, [], ◌∷◌, ◌++◌, arith, true, false, replicate, drop, elem, length, ◌≤◌, ◌+◌,
}
use boulder.Nonce.Bytes.{copy, copy_at, counter_bytes, set_bytes}
use boulder.Nonce.Defs.{
  NonceService, Cipher, new_nonce_service, use_counter, valid, nonce, issue, check, run, decrypt,
  encrypt, increment, magnitude, to_int64, unseal_counter, use_decrypted,
}
use boulder.Nonce.Used.{Distinct, Above}
use boulder.Nonce.Invariant.{IsValid}
use boulder.Nonce.Replay.{run-valid-once}
use boulder.Nonce.History.{AllSpent, run-new-bounded, valid-nonce}

toy_length : (p : Text) → length (replicate 16 0 ++ p) ≡ length p + 16
toy_length p = omega arith

abbrev toy : Cipher
toy = record {
  seal = λ n p. replicate 16 0 ++ p;
  unseal = λ n t. some (drop 16 t);
  encode = λ b. b;
  decode = λ t. some t;
  unseal-seal = λ n p. refl;
  length-seal = λ n p. toy_length p;
  decode-encode = λ b. refl;
}

abbrev eight : Text
eight = replicate 8 7

abbrev first_text : Text
first_text = eight ++ replicate 23 0 ++ 1 ∷ []

abbrev after_first : NonceService
after_first = record { latest = pos 1; earliest = pos 0; used = []; max_used = 65536 }

first_issued : nonce toy new_nonce_service (some eight) ≡ (after_first, some first_text)
unfolding nonce new_nonce_service encrypt magnitude copy copy_at counter_bytes increment
first_issued = refl

accepted : (valid toy after_first first_text).1 ≡ true
unfolding valid use_decrypted decrypt unseal_counter set_bytes to_int64 use_counter elem
accepted = refl

after_first-IsValid : IsValid after_first
after_first-IsValid = omega arith

run-new-bounded_example :
    let ns = run toy new_nonce_service (issue (some eight) ∷ check first_text ∷ []) in
    (length ns.used ≤ 65536)
    × Distinct ns.used
    × Above ns.earliest ns.used
    × AllSpent ns.used (run toy ns (check first_text ∷ []))
run-new-bounded_example =
    run-new-bounded toy (issue (some eight) ∷ check first_text ∷ []) (check first_text ∷ [])

run-valid-once_example :
    (valid toy
      (run toy (valid toy after_first first_text).0 (issue (some eight) ∷ []))
      first_text).1
    ≡ false
run-valid-once_example =
    run-valid-once toy after_first first_text (issue (some eight) ∷ []) after_first-IsValid accepted

valid-nonce_example :
    let ns = run toy new_nonce_service (issue (some eight) ∷ check first_text ∷ []) in
    (text : Text) × ((nonce toy ns (some eight)).1 ≡ some text)
    × ((valid toy (nonce toy ns (some eight)).0 text).1 ≡ true)
valid-nonce_example =
    valid-nonce toy (issue (some eight) ∷ check first_text ∷ []) eight (omega arith) refl
