-- ===== src/Core/Records.antt =====
-- core/objects.go: what RecordsSane and FindChallenge promise.
use boulder.Prelude.{
  ℕ, zero, suc, ◌+◌, ◌≡◌, ◌≢◌, refl, true, false, Option, none, some, List, [], ◌∷◌, arith, all,
  length, nat_beq, inl, inr, ◌⊎◌, Bool-cases,
}
use boulder.Core.Types.{
  Challenge, ChallengeType, http_01, tls_sni_01, tls_sni_02, dns_01, other_challenge,
  ValidationRecord, Authorization,
}
use boulder.Core.Objects.{
  records_sane, records_sane_for, http_record_sane, tls_records_sane, dns_records_sane, is_empty,
  find_challenge, find_challenge_from,
}

abbrev pub HostsNamed : List ValidationRecord → Type 0
HostsNamed [] = Unit {0}
HostsNamed (r ∷ rs) = (is_empty r.hostname ≡ false) × HostsNamed rs

http_HostsNamed : (rs : List ValidationRecord) → all http_record_sane rs ≡ true → HostsNamed rs
unfolding all http_record_sane
http_HostsNamed [] h = tt
http_HostsNamed (r ∷ rs) h = (ground arith, http_HostsNamed rs (ground arith))

tls_HostsNamed :
    (rs : List ValidationRecord) → tls_records_sane rs ≡ true → HostsNamed rs × (length rs ≡ 1)
unfolding tls_records_sane
tls_HostsNamed [] h = cc
tls_HostsNamed (r ∷ []) h = ((ground arith, tt), refl)
tls_HostsNamed (a ∷ b ∷ rs) h = cc

dns_HostsNamed :
    (rs : List ValidationRecord) → dns_records_sane rs ≡ true → HostsNamed rs × (length rs ≡ 1)
unfolding dns_records_sane
dns_HostsNamed [] h = cc
dns_HostsNamed (r ∷ []) h = ((ground arith, tt), refl)
dns_HostsNamed (a ∷ b ∷ rs) h = cc

sane_for :
    (kind : ChallengeType) (rs : List ValidationRecord)
    → records_sane_for kind rs ≡ true
    → HostsNamed rs × ((kind ≡ http_01) ⊎ (length rs ≡ 1))
unfolding records_sane_for
sane_for http_01 rs h = (http_HostsNamed rs h, inl refl)
sane_for tls_sni_01 rs h = ((tls_HostsNamed rs h).0, inr (tls_HostsNamed rs h).1)
sane_for tls_sni_02 rs h = ((tls_HostsNamed rs h).0, inr (tls_HostsNamed rs h).1)
sane_for dns_01 rs h = ((dns_HostsNamed rs h).0, inr (dns_HostsNamed rs h).1)
sane_for (other_challenge t) rs h = cc

-- Records that pass are there at all, each names the host that was asked, and only an HTTP
-- validation, which may be redirected, has more than one.
pub records_sane-evidence :
    (ch : Challenge)
    → records_sane ch ≡ true
    → (is_empty ch.validation_record ≡ false)
      × HostsNamed ch.validation_record
      × ((ch.kind ≡ http_01) ⊎ (length ch.validation_record ≡ 1))
unfolding records_sane
records_sane-evidence ch h =
    let (hosts, single) = sane_for ch.kind ch.validation_record (ground arith) in
    (ground arith, hosts, single)

abbrev pub NoneHasId : ℕ → List Challenge → Type 0
NoneHasId id [] = Unit {0}
NoneHasId id (c ∷ cs) = (c.id ≢ id) × NoneHasId id cs

-- What an index promises: the challenge there has the id, and none before it.
abbrev pub FirstAt : ℕ → ℕ → List Challenge → Type 0
FirstAt id i [] = ⊥
FirstAt id zero (c ∷ cs) = c.id ≡ id
FirstAt id (suc i) (c ∷ cs) = (c.id ≢ id) × FirstAt id i cs

abbrev pub Found : ℕ → List Challenge → ℕ → Option ℕ → Type 0
Found id cs start none = NoneHasId id cs
Found id cs start (some k) = (i : ℕ) × (k ≡ start + i) × FirstAt id i cs

Found-cons :
    (id start : ℕ) (c : Challenge) (cs : List Challenge) (r : Option ℕ)
    → c.id ≢ id
    → Found id cs (suc start) r
    → Found id (c ∷ cs) start r
Found-cons id start c cs none h f = (h, f)
Found-cons id start c cs (some k) h (i, e, f) = (suc i, omega arith, (h, f))

find_from_Found :
    (id start : ℕ) (cs : List Challenge) → Found id cs start (find_challenge_from start cs id)
unfolding find_challenge_from
find_from_Found id start [] = tt
find_from_Found id start (c ∷ cs) = elim (Bool-cases (nat_beq c.id id)) [
  | inl y ↦ rw y (0, omega arith, ground arith)
  | inr n ↦ rw n (
      Found-cons id start c cs (find_challenge_from (suc start) cs id) (ground arith)
        (find_from_Found id (suc start) cs))
]

-- FindChallenge returns the index of the first challenge with the id, and -1 (here none) only where
-- no challenge has it.
pub find_challenge-Found :
    (authz : Authorization) (id : ℕ) → Found id authz.challenges 0 (find_challenge authz id)
unfolding find_challenge
find_challenge-Found authz id = find_from_Found id 0 authz.challenges
