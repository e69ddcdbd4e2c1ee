-- ===== src/Policy/Challenges.antt =====
-- policy/pa.go: ChallengesFor shuffles and loses nothing.
use mathlib.Core.List.{Perm}
use mathlib.Core.List.Perm
use boulder.Prelude.Text.{Text}
use boulder.Prelude.{
  ℕ, zero, suc, ◌≡◌, refl, ap, ◌∙◌, Bool, false, ◌&&◌, none, List, [], ◌∷◌, map, length, get_or,
  arith, if◌then◌else◌,
}
use boulder.Core.Types.{
  ChallengeType, http_01, tls_sni_01, tls_sni_02, dns_01, other_challenge, Challenge, pending,
}
use boulder.Features.{Flags, enabled, allow_tls02_challenges}
use boulder.Policy.Defs.{AuthorityImpl, offered, pick, challenges_for, singletons, no_challenge}

-- The indices from i on.
abbrev pub range_from : ℕ → ℕ → List ℕ
range_from i zero = []
range_from i (suc n) = i ∷ range_from (suc i) n

map-get_or-suc {ℓ} :
    {A : Type ℓ} (d x : A) (xs : List A) (i n : ℕ)
    → map (λ k. get_or (x ∷ xs) k d) (range_from (suc i) n)
      ≡ map (λ k. get_or xs k d) (range_from i n)
map-get_or-suc d x xs i zero = refl
map-get_or-suc d x xs i (suc n) = ap (λ t. get_or xs i d ∷ t) (map-get_or-suc d x xs (suc i) n)

pick-range {ℓ} : {A : Type ℓ} (d : A) (xs : List A) → pick d xs (range_from 0 (length xs)) ≡ xs
unfolding pick
pick-range d [] = refl
pick-range d (x ∷ xs) = ap (λ t. x ∷ t) (map-get_or-suc d x xs 0 (length xs) ∙ pick-range d xs)

pick-Perm {ℓ} :
    {A : Type ℓ} (d : A) (xs : List A) (perm : List ℕ)
    → Perm perm (range_from 0 (length xs))
    → Perm (pick d xs perm) xs
unfolding pick
pick-Perm d xs perm h = rw (pick-range d xs) at (Perm.map (λ i. get_or xs i d) h)

length-singletons : (i n : ℕ) → length (singletons i n) ≡ n
length-singletons i zero = refl
length-singletons i (suc n) = ap suc (length-singletons (suc i) n)

-- A challenge type that is switched on; TLS-SNI-02 also needs its feature flag.
abbrev pub is_on : AuthorityImpl → Flags → ChallengeType → Bool
is_on pa flags http_01 = pa.enabled_challenges http_01
is_on pa flags tls_sni_01 = pa.enabled_challenges tls_sni_01
is_on pa flags tls_sni_02 = pa.enabled_challenges tls_sni_02 && enabled flags allow_tls02_challenges
is_on pa flags dns_01 = pa.enabled_challenges dns_01
is_on pa flags (other_challenge t) = false

abbrev pub fresh_challenge : ChallengeType → Text → Challenge
fresh_challenge kind token = record {
  id = 0;
  kind = kind;
  status = pending;
  error = none;
  uri = [];
  token = token;
  provided_key_authorization = [];
  validation_record = [];
}

abbrev pub fresh_for :
    AuthorityImpl → Flags → (ChallengeType → Text) → List ChallengeType → List Challenge
fresh_for pa flags new_token [] = []
fresh_for pa flags new_token (k ∷ kinds) =
    if is_on pa flags k
    then fresh_challenge k (new_token k) ∷ fresh_for pa flags new_token kinds
    else fresh_for pa flags new_token kinds

abbrev pub all_kinds : List ChallengeType
all_kinds = http_01 ∷ tls_sni_01 ∷ tls_sni_02 ∷ dns_01 ∷ []

offered-eq-fresh_for :
    (pa : AuthorityImpl) (flags : Flags) (new_token : ChallengeType → Text)
    → offered pa flags new_token ≡ fresh_for pa flags new_token all_kinds
unfolding offered
offered-eq-fresh_for pa flags new_token = ground arith

-- If the pseudo-random permutations are permutations of the indices, the challenges offered are, in
-- some order, one pending challenge with a new token for each of http-01, tls-sni-01, tls-sni-02 and
-- dns-01 that is switched on, where tls-sni-02 needs its feature flag too; and the combinations are
-- the single challenges, each once.
pub challenges_for-Perm :
    (pa : AuthorityImpl) (flags : Flags) (new_token : ChallengeType → Text) (perm combo : List ℕ)
    → Perm perm (range_from 0 (length (fresh_for pa flags new_token all_kinds)))
    → Perm combo (range_from 0 (length (fresh_for pa flags new_token all_kinds)))
    → Perm (challenges_for pa flags new_token perm combo).0 (fresh_for pa flags new_token all_kinds)
      × Perm
          (challenges_for pa flags new_token perm combo).1
          (singletons 0 (length (fresh_for pa flags new_token all_kinds)))
unfolding challenges_for
challenges_for-Perm pa flags new_token perm combo h k =
    let fresh = fresh_for pa flags new_token all_kinds in
    rw (offered-eq-fresh_for pa flags new_token) (
      pick-Perm no_challenge fresh perm h,
      pick-Perm [] (singletons 0 (length fresh)) combo (rw (length-singletons 0 (length fresh)) k),
    )
