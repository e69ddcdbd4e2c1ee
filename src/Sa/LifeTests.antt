-- ===== src/Sa/LifeTests.antt =====
-- sa/ at concrete inputs: the life of an authorization, revocation by domain, ranges of addresses and counts of
-- certificates.
use boulder.Prelude.Text.{Text, codes, text_Eq, text_eq, lacks, to_lower}
use boulder.Prelude.Int.{pos}
use boulder.Prelude.{
  ℕ, ◌≡◌, ◌↔◌, ◌⊎◌, refl, true, none, some, List, [], ◌∷◌, ◌++◌, ◌≤◌, ◌<◌, ◌+◌, ◌^◌, arith, length,
  replicate,
}
use boulder.Core.Types.{AcmeIdentifier, dns, valid}
use boulder.Nonce.Bytes.{set_bytes}
use boulder.Sa.Db.{Faults, no_faults, select}
use boulder.Sa.Operations.{Op, finalize, deactivate, revoke, perform}
use boulder.Sa.Phase.{phase, closed_with, Step, StaysClosed}
use boulder.Sa.Refinement.{run, perform-Step, run-StaysClosed}
use boulder.Sa.Revoke.{is_live, revoke_authorizations_by_domain}
use boulder.Sa.Revoked.{count_live, revoke_all, revoke_authorizations_by_domain_ends}
use boulder.Sa.IpRange.{to16, ip_range}
use boulder.Sa.IpBounds.{range_size, AllBytes, ip_range_bounds}
use boulder.Sa.ReverseName.{reverse_name}
use boulder.Sa.IssuedNames.{IssuedName, is_under}
use boulder.Sa.NameCounts.{is_under_iff}
use boulder.Sa.ToyCollation.{toy_collation, toy-IsDocumented}
use boulder.Sa.ToyCodec.{toy_codec}
use boulder.Sa.Tests.{db, done_authz, db-IsConsistent}

perform-Step_example :
    Step
      (phase db (codes "p"))
      (phase (perform toy_codec no_faults db (finalize done_authz)).1 (codes "p"))
perform-Step_example =
    perform-Step toy_codec no_faults db (finalize done_authz) (codes "p") db-IsConsistent tt

abbrev domain : AcmeIdentifier
domain = record { kind = dns; value = codes "a.org" }

abbrev calls : List (Faults × Op)
calls =
    (no_faults, deactivate (codes "f"))
    ∷ (no_faults, finalize done_authz)
    ∷ (no_faults, revoke (λ _. none) (λ _. none) domain (pos 10))
    ∷ []

closed : phase db (codes "f") ≡ closed_with valid
unfolding select text_eq
closed = refl

run-StaysClosed_example : StaysClosed valid (phase (run toy_codec db calls) (codes "f"))
run-StaysClosed_example =
    run-StaysClosed toy_codec db calls (codes "f") valid db-IsConsistent closed (tt, (tt, (tt, tt)))

few_final : count_live domain (pos 10) db.final < 3
unfolding count_live is_live text_eq
few_final = omega arith

few_pending : count_live domain (pos 10) db.pending < 3
unfolding count_live is_live text_eq
few_pending = omega arith

revoke_authorizations_by_domain_ends_example :
    (revoke_authorizations_by_domain 3 (λ _. none) (λ _. none) db domain (pos 10)
      ≡ some (record {
        db = record db {
          final = revoke_all domain (pos 10) db.final;
          pending = revoke_all domain (pos 10) db.pending;
        };
        final_count = count_live domain (pos 10) db.final;
        pending_count = count_live domain (pos 10) db.pending;
        failure = none;
      }))
    × (count_live domain (pos 10) (revoke_all domain (pos 10) db.final) ≡ 0)
    × (count_live domain (pos 10) (revoke_all domain (pos 10) db.pending) ≡ 0)
revoke_authorizations_by_domain_ends_example =
    revoke_authorizations_by_domain_ends 3 db domain (pos 10) db-IsConsistent.final_unique
      db-IsConsistent.pending_unique few_final few_pending

abbrev ip : Text
ip = 192 ∷ 0 ∷ 2 ∷ 1 ∷ []

sixteen : length (to16 ip) ≡ 16
unfolding to16
sixteen = refl

bytes : AllBytes (to16 ip)
unfolding to16
bytes = ground arith

ip_range_bounds_example :
    (set_bytes 0 (ip_range ip).0 ≤ set_bytes 0 (to16 ip))
    × (set_bytes 0 (to16 ip) < set_bytes 0 (ip_range ip).0 + range_size (to16 ip))
    × ((set_bytes 0 (ip_range ip).1 ≡ set_bytes 0 (ip_range ip).0 + range_size (to16 ip))
        ⊎ ((2 ^ 128 ≤ set_bytes 0 (ip_range ip).0 + range_size (to16 ip))
            × ((ip_range ip).1 ≡ replicate 16 255)))
ip_range_bounds_example = ip_range_bounds ip sixteen bytes

no_percent : lacks b'%' (codes "a.org") ≡ true
unfolding lacks
no_percent = refl

no_underscore : lacks b'_' (codes "a.org") ≡ true
unfolding lacks
no_underscore = refl

no_backslash : lacks b'\\' (codes "a.org") ≡ true
unfolding lacks
no_backslash = refl

no_space : lacks b' ' (codes "a.org") ≡ true
unfolding lacks
no_space = refl

no_space_below : lacks b' ' (codes "B.a.org") ≡ true
unfolding lacks
no_space_below = refl

is_under_iff_example :
    (is_under toy_collation (reverse_name (codes "a.org")) (reverse_name (codes "B.a.org")) ≡ true)
    ↔ ((to_lower (codes "B.a.org") ≡ to_lower (codes "a.org"))
        ⊎ ((p : Text) × (to_lower (codes "B.a.org") ≡ p ++ b'.' ∷ to_lower (codes "a.org"))))
is_under_iff_example =
    is_under_iff toy_collation (codes "a.org") (codes "B.a.org") toy-IsDocumented no_percent
      no_underscore no_backslash no_space no_space_below

abbrev issued : List IssuedName
issued =
    record { reversed_name = codes "org.a"; serial = codes "01"; not_before = pos 5 }
    ∷ record { reversed_name = codes "org.a.b"; serial = codes "01"; not_before = pos 5 }
    ∷ record { reversed_name = codes "org.a.c"; serial = codes "02"; not_before = pos 7 }
    ∷ record { reversed_name = codes "org.ab"; serial = codes "03"; not_before = pos 7 }
    ∷ []

abbrev out : List (Text × ℕ)
out = (codes "a.org", 2) ∷ []
