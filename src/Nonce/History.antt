-- ===== src/Nonce/History.antt =====
-- nonce/nonce.go: what holds of a new service after any requests.
use boulder.Prelude.Text.{Text}
use boulder.Prelude.Int.{ℤ, pos, int_eq, int_beq_iff}
use boulder.Prelude.{
  ℕ, suc, ◌+◌, ◌^◌, ◌<◌, ◌≤◌, ◌≡◌, refl, Option, none, some, List, [], ◌∷◌, arith, true, elem,
  length, inr,
}
use boulder.Nonce.Defs.{
  NonceService, Cipher, new_nonce_service, make_room, use_counter, use_decrypted, valid, nonce, Op,
  issue, check, step, run, min_used, decrypt, increment, least,
}
use boulder.Nonce.Used.{Above, AtMost-mono, AtMost-delete, Distinct, least-le}
use boulder.Nonce.Invariant.{IsValid, run-IsValid, new_nonce_service-IsValid, max_used-run}
use boulder.Nonce.Replay.{Spent, Spent-run, IsIssued, increment_pos, accepted_next}

-- Every counter of a list is still used or too low.
abbrev pub AllSpent : List ℤ → NonceService → Type 0
AllSpent [] ns = Unit {0}
AllSpent (k ∷ ks) ns = Spent k ns × AllSpent ks ns

-- All of the list are in the set.
abbrev AllUsed : List ℤ → List ℤ → Type 0
AllUsed [] used = Unit {0}
AllUsed (k ∷ ks) used = (elem k used ≡ true) × AllUsed ks used

AllUsed-cons : (j : ℤ) (ks used : List ℤ) → AllUsed ks used → AllUsed ks (j ∷ used)
unfolding elem
AllUsed-cons j [] used h = tt
AllUsed-cons j (k ∷ ks) used h = ground (arith, AllUsed-cons j ks used h.1)

AllUsed-refl : (ks : List ℤ) → AllUsed ks ks
unfolding elem
AllUsed-refl [] = tt
AllUsed-refl (k ∷ ks) = ground (arith, int_beq_iff k k, AllUsed-cons k ks ks (AllUsed-refl ks))

AllUsed-AllSpent :
    (c : Cipher) (ns : NonceService) (ops : List Op) (ks : List ℤ)
    → IsValid ns
    → AllUsed ks ns.used
    → AllSpent ks (run c ns ops)
AllUsed-AllSpent c ns ops [] v h = tt
AllUsed-AllSpent c ns ops (k ∷ ks) v h =
    (Spent-run c k ns ops v (inr h.0), AllUsed-AllSpent c ns ops ks v h.1)

-- Whatever requests a new service has served, it holds at most 65536 used counters, none twice, each
-- above its earliest one; and after any further requests, each counter that it held is still held, or
-- is at or below the earliest one, where it is rejected.
pub run-new-bounded :
    (c : Cipher) (ops further : List Op)
    → let ns = run c new_nonce_service ops in
      (length ns.used ≤ 65536)
      × Distinct ns.used
      × Above ns.earliest ns.used
      × AllSpent ns.used (run c ns further)
unfolding new_nonce_service
run-new-bounded c ops further =
    let ns = run c new_nonce_service ops in
    let v = run-IsValid c new_nonce_service ops new_nonce_service-IsValid in
    (
      omega (arith, v.bounded, max_used-run c new_nonce_service ops),
      v.distinct,
      v.above,
      AllUsed-AllSpent c ns further ns.used v (AllUsed-refl ns.used),
    )

-- A service that has issued at most m nonces.
record IsReached (m : ℕ) (ns : NonceService) : Type 0 where
  latest : ℕ
  latest_is : ns.latest ≡ pos latest
  few : latest ≤ m
  issued : IsIssued ns

use_counter-IsIssued : (ns : NonceService) (k : ℤ) → IsIssued ns → IsIssued (use_counter ns k).0
unfolding use_counter make_room min_used
use_counter-IsIssued ns k i = record {
  edge = ground (arith, i.edge, least-le ns.latest (k ∷ ns.used));
  issued =
      ground
        (arith, i.issued, AtMost-delete ns.latest (least ns.latest (k ∷ ns.used)) (k ∷ ns.used));
}

latest-use_counter : (ns : NonceService) (k : ℤ) → (use_counter ns k).0.latest ≡ ns.latest
unfolding use_counter make_room
latest-use_counter ns k = ground arith

checked-IsReached :
    (m : ℕ) (ns : NonceService) (k : Option ℤ)
    → IsReached m ns
    → IsReached (suc m) (use_decrypted ns k).0
unfolding use_decrypted
checked-IsReached m ns none r = record {
  latest = r.latest;
  latest_is = r.latest_is;
  few = omega (arith, r.few);
  issued = r.issued;
}
checked-IsReached m ns (some k) r = record {
  latest = r.latest;
  latest_is = rw (latest-use_counter ns k) r.latest_is;
  few = omega (arith, r.few);
  issued = use_counter-IsIssued ns k r.issued;
}

step-IsReached :
    (c : Cipher) (m : ℕ) (ns : NonceService) (op : Op)
    → IsReached m ns
    → m + 1 < 2 ^ 63
    → IsReached (suc m) (step c ns op)
unfolding step nonce valid
step-IsReached c m ns (check text) r b = checked-IsReached m ns (decrypt c text) r
step-IsReached c m ns (issue random) r b =
    let few = r.few in
    let next : increment ns.latest ≡ pos (suc r.latest) =
      rw (r.latest_is) (increment_pos r.latest (omega arith)) in
    let i = r.issued in
    let at = r.latest_is in
    record {
      latest = suc r.latest;
      latest_is = next;
      few = omega arith;
      issued = record {
        edge = ground (arith, i.edge);
        issued =
            rw next (AtMost-mono ns.latest (pos (suc r.latest)) ns.used (ground arith) i.issued);
      };
    }

run-IsReached :
    (c : Cipher) (m : ℕ) (ns : NonceService) (ops : List Op)
    → IsReached m ns
    → m + length ops + 1 < 2 ^ 63
    → IsReached (m + length ops) (run c ns ops)
unfolding run
run-IsReached c m ns [] r b = record {
  latest = r.latest;
  latest_is = r.latest_is;
  few = omega (arith, r.few);
  issued = r.issued;
}
run-IsReached c m ns (op ∷ ops) r b =
    let s =
      run-IsReached c (suc m) (step c ns op) ops (step-IsReached c m ns op r (omega arith))
        (omega arith) in
    record {
      latest = s.latest;
      latest_is = s.latest_is;
      few = omega (arith, s.few);
      issued = s.issued;
    }

new-IsReached : IsReached 0 new_nonce_service
unfolding new_nonce_service
new-IsReached = record { latest = 0; latest_is = refl; few = omega arith; issued = omega arith }

-- An issued nonce is accepted: after fewer than 2^63 - 2 requests to a new service, if the random
-- source gives 8 bytes, `Nonce` returns a text, and `Valid` accepts it at once.
pub valid-nonce :
    (c : Cipher) (ops : List Op) (random : Text)
    → length ops + 2 < 2 ^ 63
    → length random ≡ 8
    → let ns = run c new_nonce_service ops in
      (text : Text) × ((nonce c ns (some random)).1 ≡ some text)
      × ((valid c (nonce c ns (some random)).0 text).1 ≡ true)
valid-nonce c ops random b h =
    let r = run-IsReached c 0 new_nonce_service ops new-IsReached (omega arith) in
    accepted_next c (run c new_nonce_service ops) random r.latest r.issued r.latest_is
      (omega (arith, r.few)) h
