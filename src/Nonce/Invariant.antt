-- ===== src/Nonce/Invariant.antt =====
-- nonce/nonce.go: what every operation keeps of the state.
use boulder.Prelude.Text.{Text}
use boulder.Prelude.Int.{ℤ, int_eq, int_beq_iff}
use boulder.Prelude.{
  ◌+◌, ◌≤◌, ◌≡◌, Option, none, some, List, [], ◌∷◌, arith, true, elem, length, inl, inr, Bool-cases,
  ltb, refl, ◌∙◌,
}
use boulder.Nonce.Defs.{
  NonceService, Cipher, new_nonce_service, least, make_room, use_counter, use_decrypted, valid,
  nonce, Op, issue, check, step, run, min_used, decrypt,
}
use boulder.Nonce.Used.{
  ◌≤ℤ◌, Above, Distinct, elem-least, least-AtLeast, Distinct-delete, length-delete, Above-delete,
}

pub record IsValid (ns : NonceService) : Type 0 where
  pub above : Above ns.earliest ns.used
  pub distinct : Distinct ns.used
  pub bounded : length ns.used ≤ ns.max_used

pub new_nonce_service-IsValid : IsValid new_nonce_service
unfolding new_nonce_service
new_nonce_service-IsValid = omega arith

-- Room is made after an entry `c` at or below the latest counter was added.
make_room-IsValid :
    (ns : NonceService) (c : ℤ)
    → Above ns.earliest ns.used
    → Distinct ns.used
    → length ns.used ≤ ns.max_used + 1
    → elem c ns.used ≡ true
    → c ≤ℤ ns.latest
    → IsValid (make_room ns)
unfolding make_room min_used
make_room-IsValid ns c a d b e h = elim (Bool-cases (ltb ns.max_used (length ns.used))) [
  | inl full ↦
      rw (full, make_room)
        (record {
          above = Above-delete (least ns.latest ns.used) ns.used (least-AtLeast ns.latest ns.used);
          distinct = Distinct-delete (least ns.latest ns.used) ns.used d;
          bounded = ground (
            arith,
            length-delete (least ns.latest ns.used) ns.used d (elem-least ns.latest c ns.used h e),
          );
        })
  | inr room ↦ rw (room, make_room) (record { above = a; distinct = d; bounded = ground arith })
]

use_counter-IsValid : (ns : NonceService) (c : ℤ) → IsValid ns → IsValid (use_counter ns c).0
unfolding use_counter elem
use_counter-IsValid ns c v =
    ground (arith, int_beq_iff c c, make_room-IsValid (record ns { used = c ∷ ns.used }) c)

use_decrypted-IsValid :
    (ns : NonceService) (k : Option ℤ) → IsValid ns → IsValid (use_decrypted ns k).0
unfolding use_decrypted
use_decrypted-IsValid ns none v = v
use_decrypted-IsValid ns (some k) v = use_counter-IsValid ns k v

pub valid-IsValid :
    (c : Cipher) (ns : NonceService) (n : Text) → IsValid ns → IsValid (valid c ns n).0
unfolding valid
valid-IsValid c ns n v = use_decrypted-IsValid ns (decrypt c n) v

pub step-IsValid : (c : Cipher) (ns : NonceService) (op : Op) → IsValid ns → IsValid (step c ns op)
unfolding step nonce
step-IsValid c ns (issue r) v = record {
  above = v.above;
  distinct = v.distinct;
  bounded = v.bounded;
}
step-IsValid c ns (check n) v = valid-IsValid c ns n v

pub run-IsValid :
    (c : Cipher) (ns : NonceService) (ops : List Op) → IsValid ns → IsValid (run c ns ops)
unfolding run
run-IsValid c ns [] v = v
run-IsValid c ns (op ∷ ops) v = run-IsValid c (step c ns op) ops (step-IsValid c ns op v)

max_used-use_decrypted :
    (ns : NonceService) (k : Option ℤ) → (use_decrypted ns k).0.max_used ≡ ns.max_used
unfolding use_decrypted make_room
max_used-use_decrypted ns none = refl
max_used-use_decrypted ns (some k) = ground arith

max_used-step : (c : Cipher) (ns : NonceService) (op : Op) → (step c ns op).max_used ≡ ns.max_used
unfolding step nonce valid
max_used-step c ns (issue r) = refl
max_used-step c ns (check n) = max_used-use_decrypted ns (decrypt c n)

pub max_used-run :
    (c : Cipher) (ns : NonceService) (ops : List Op) → (run c ns ops).max_used ≡ ns.max_used
unfolding run
max_used-run c ns [] = refl
max_used-run c ns (op ∷ ops) = max_used-run c (step c ns op) ops ∙ max_used-step c ns op
