-- ===== src/Nonce/Replay.antt =====
-- nonce/nonce.go: a nonce is accepted once, and an issued nonce is accepted.
use boulder.Prelude.Text.{Text}
use boulder.Prelude.Int.{ℤ, pos, int_eq, int_beq_iff}
use boulder.Prelude.{
  ℕ, suc, ◌+◌, ◌^◌, ◌<◌, ◌≡◌, Option, none, some, List, [], ◌∷◌, ◌++◌, arith, true, false, elem,
  length, ◌⊎◌, ◌∙◌, drop, replicate, length-drop, length-append,
}
use boulder.Nonce.Bytes.{
  copy, copy_at, copy-full, copy-prefix, take-length, drop-length, counter_bytes,
  length-counter_bytes, set_bytes-counter_bytes,
}
use boulder.Nonce.Defs.{
  NonceService, Cipher, least, make_room, use_counter, use_decrypted, valid, nonce, Op, issue,
  check, step, run, min_used, decrypt, encrypt, increment, magnitude, to_int64, unseal_counter,
  nonce_len,
}
use boulder.Nonce.Used.{◌<ℤ◌, ◌≤ℤ◌, Above, AtMost, AtMost-elem, least-above, elem-delete}
use boulder.Nonce.Invariant.{IsValid, valid-IsValid, step-IsValid}

-- A counter that is in the set or below its edge.
abbrev pub Spent : ℤ → NonceService → Type 0
Spent k ns = (k ≤ℤ ns.earliest) ⊎ (elem k ns.used ≡ true)

Spent-make_room :
    (k : ℤ) (ns : NonceService)
    → ns.earliest <ℤ ns.latest
    → Above ns.earliest ns.used
    → Spent k ns
    → Spent k (make_room ns)
unfolding make_room min_used
Spent-make_room k ns h a s = ground (
  arith,
  least-above ns.earliest ns.latest ns.used h a,
  elem-delete (least ns.latest ns.used) k ns.used,
  int_beq_iff (least ns.latest ns.used) k,
)

Spent-use_decrypted :
    (k : ℤ) (j : Option ℤ) (ns : NonceService)
    → IsValid ns
    → Spent k ns
    → Spent k (use_decrypted ns j).0
unfolding use_decrypted elem
Spent-use_decrypted k none ns v s = s
Spent-use_decrypted k (some j) ns v s =
    ground (arith, Spent-make_room k (record ns { used = j ∷ ns.used }), v.above)

use_counter-Spent :
    (k : ℤ) (ns : NonceService)
    → IsValid ns
    → (use_counter ns k).1 ≡ true
    → Spent k (use_counter ns k).0
unfolding use_counter elem
use_counter-Spent k ns v e =
    ground (arith, int_beq_iff k k, Spent-make_room k (record ns { used = k ∷ ns.used }), v.above)

use_counter-reject : (k : ℤ) (ns : NonceService) → Spent k ns → (use_counter ns k).1 ≡ false
unfolding use_counter
use_counter-reject k ns s = ground arith

Spent-step :
    (c : Cipher) (k : ℤ) (ns : NonceService) (op : Op)
    → IsValid ns
    → Spent k ns
    → Spent k (step c ns op)
unfolding step nonce valid
Spent-step c k ns (issue r) v s = s
Spent-step c k ns (check n) v s = Spent-use_decrypted k (decrypt c n) ns v s

pub Spent-run :
    (c : Cipher) (k : ℤ) (ns : NonceService) (ops : List Op)
    → IsValid ns
    → Spent k ns
    → Spent k (run c ns ops)
unfolding run
Spent-run c k ns [] v s = s
Spent-run c k ns (op ∷ ops) v s =
    Spent-run c k (step c ns op) ops (step-IsValid c ns op v) (Spent-step c k ns op v s)

rejected_later :
    (c : Cipher) (ns : NonceService) (k : Option ℤ) (ops : List Op)
    → IsValid ns
    → IsValid (use_decrypted ns k).0
    → (use_decrypted ns k).1 ≡ true
    → (use_decrypted (run c (use_decrypted ns k).0 ops) k).1 ≡ false
unfolding use_decrypted
rejected_later c ns none ops v w e = cc
rejected_later c ns (some k) ops v w e =
    use_counter-reject k (run c (use_counter ns k).0 ops)
      (Spent-run c k (use_counter ns k).0 ops w (use_counter-Spent k ns v e))

-- No replay. From any state that keeps the invariant: once `Valid` has accepted a nonce, it rejects
-- that nonce after every further sequence of requests.
pub run-valid-once :
    (c : Cipher) (ns : NonceService) (n : Text) (ops : List Op)
    → IsValid ns
    → (valid c ns n).1 ≡ true
    → (valid c (run c (valid c ns n).0 ops) n).1 ≡ false
unfolding valid
run-valid-once c ns n ops v e = rejected_later c ns (decrypt c n) ops v (valid-IsValid c ns n v) e

take_prefix_of_sealed :
    (random plain : Text)
    → length random ≡ 8
    → length plain ≡ 24
    → copy_at 8 (copy (replicate nonce_len 0) random) plain ≡ random ++ plain
unfolding copy_at
take_prefix_of_sealed random plain h k = rw (
  copy-prefix (replicate nonce_len 0) random (omega arith),
  take-length 8 random (drop (length random) (replicate nonce_len 0)) h,
  drop-length 8 random (drop (length random) (replicate nonce_len 0)) h,
  copy-full (drop (length random) (replicate nonce_len 0)) plain
      (length-drop (length random) (replicate {A = ℕ} nonce_len 0) ∙ omega arith),
)

to_int64_pos : (n : ℕ) → n < 2 ^ 63 → to_int64 n ≡ pos n
unfolding to_int64
to_int64_pos n h = ground arith

unseal_counter-seal :
    (c : Cipher) (random : Text) (n : ℕ)
    → length random ≡ 8
    → n < 2 ^ 63
    → unseal_counter c (random ++ c.seal (replicate 4 0 ++ random) (counter_bytes n)) ≡ some (pos n)
unfolding unseal_counter
unseal_counter-seal c random n h b =
    let ct = c.seal (replicate 4 0 ++ random) (counter_bytes n) in
    rw (
      take-length 8 random ct h,
      drop-length 8 random ct h,
      c.unseal-seal (replicate 4 0 ++ random) (counter_bytes n),
      set_bytes-counter_bytes n (omega arith),
      to_int64_pos n b,
      unseal_counter,
    )

-- A counter that `encrypt` seals is the one that `decrypt` finds, for every counter from 0 to
-- 2 ^ 63 - 1 and every 8 random bytes.
pub decrypt-encrypt :
    (c : Cipher) (random : Text) (n : ℕ)
    → length random ≡ 8
    → n < 2 ^ 63
    → (text : Text) × (encrypt c (some random) (pos n) ≡ some text)
      × (decrypt c text ≡ some (pos n))
unfolding encrypt decrypt magnitude
decrypt-encrypt c random n h b =
    let ct = c.seal (replicate 4 0 ++ random) (counter_bytes n) in
    let size : length ct ≡ 24 =
      omega (
        arith,
        c.length-seal (replicate 4 0 ++ random) (counter_bytes n),
        length-counter_bytes n,
      ) in
    (
      c.encode (random ++ ct),
      rw (take_prefix_of_sealed random ct h size),
      rw (c.decode-encode (random ++ ct), decrypt)
          (ground (arith, length-append random ct, unseal_counter-seal c random n h b)),
    )

-- The counters a service has handed out: used ones were issued, and so was its edge.
pub record IsIssued (ns : NonceService) : Type 0 where
  pub edge : ns.earliest ≤ℤ ns.latest
  pub issued : AtMost ns.latest ns.used

pub increment_pos : (n : ℕ) → n + 1 < 2 ^ 63 → increment (pos n) ≡ pos (suc n)
unfolding increment
increment_pos n h = ground arith

fresh_counter :
    (ns : NonceService) (n : ℕ)
    → ns.latest ≡ pos n
    → IsIssued ns
    → (use_counter (record ns { latest = pos (suc n) }) (pos (suc n))).1 ≡ true
unfolding use_counter
fresh_counter ns n e i = ground (arith, AtMost-elem ns.latest (pos (suc n)) ns.used i.issued)

-- From a state whose counters were issued, the next nonce is accepted at once.
pub accepted_next :
    (c : Cipher) (ns : NonceService) (random : Text) (n : ℕ)
    → IsIssued ns
    → ns.latest ≡ pos n
    → n + 1 < 2 ^ 63
    → length random ≡ 8
    → (text : Text) × ((nonce c ns (some random)).1 ≡ some text)
      × ((valid c (nonce c ns (some random)).0 text).1 ≡ true)
unfolding nonce valid use_decrypted
accepted_next c ns random n i e b h =
    let (text, sealed, opened) = decrypt-encrypt c random (suc n) h (omega arith) in
    let next : increment ns.latest ≡ pos (suc n) = rw e (increment_pos n b) in
    (text, rw next sealed, rw (next, opened) (fresh_counter ns n e i))
