-- ===== src/Ratelimit.antt =====
-- ratelimit/rate-limits.go: the rate limit policies and their overrides. A Go int is an integer; a
-- map is an association list with one entry for a key. YAML is a parameter.
use boulder.Prelude.Text.{Text, text_Eq}
use boulder.Prelude.Int.{ℤ, pos, ◌-ℤ◌, int_eq, int_beq}
use boulder.Prelude.{Bool, not, Option, none, some, List, [], ◌∷◌, if◌then◌else◌, Eq, ◌==◌}

-- m[k], with its second result.
unfoldable pub lookup {ℓ κ} : {K : Type ℓ} {V : Type κ} ⦃e : Eq K⦄ → K → List (K × V) → Option V
lookup k [] = none
lookup k ((j, v) ∷ m) = if j == k then some v else lookup k m

pub record RateLimitPolicy : Type 0 where
  pub window : ℤ
  pub threshold : ℤ
  pub overrides : List (Text × ℤ)
  pub registration_overrides : List (ℤ × ℤ)

-- RateLimitPolicy{}
abbrev pub no_policy : RateLimitPolicy
no_policy = record {
  window = pos 0;
  threshold = pos 0;
  overrides = [];
  registration_overrides = [];
}

unfoldable pub enabled : RateLimitPolicy → Bool
enabled rlp = not (int_beq rlp.threshold (pos 0))

abbrev or_else : Option ℤ → ℤ → ℤ
or_else none d = d
or_else (some v) d = v

unfoldable pub get_threshold : RateLimitPolicy → Text → ℤ → ℤ
unfolding lookup
get_threshold rlp key reg_id =
    or_else (lookup reg_id rlp.registration_overrides)
      (or_else (lookup key rlp.overrides) rlp.threshold)

unfoldable pub window_begin : RateLimitPolicy → ℤ → ℤ
window_begin rlp window_end = window_end -ℤ rlp.window

pub record RateLimitConfig : Type 0 where
  pub total_certificates : RateLimitPolicy
  pub certificates_per_name : RateLimitPolicy
  pub registrations_per_ip : RateLimitPolicy
  pub pending_authorizations_per_account : RateLimitPolicy
  pub invalid_authorizations_per_account : RateLimitPolicy
  pub certificates_per_fqdn_set : RateLimitPolicy

-- limitsImpl: rlPolicy is nil, here none, until a policy file was loaded.
abbrev pub Limits : Type 0
Limits = Option RateLimitConfig

abbrev policy_of : (RateLimitConfig → RateLimitPolicy) → Limits → RateLimitPolicy
policy_of f none = no_policy
policy_of f (some config) = f config

abbrev pub total_certificates : Limits → RateLimitPolicy
total_certificates r = policy_of (λ c. c.total_certificates) r

abbrev pub certificates_per_name : Limits → RateLimitPolicy
certificates_per_name r = policy_of (λ c. c.certificates_per_name) r

abbrev pub registrations_per_ip : Limits → RateLimitPolicy
registrations_per_ip r = policy_of (λ c. c.registrations_per_ip) r

abbrev pub pending_authorizations_per_account : Limits → RateLimitPolicy
pending_authorizations_per_account r = policy_of (λ c. c.pending_authorizations_per_account) r

abbrev pub invalid_authorizations_per_account : Limits → RateLimitPolicy
invalid_authorizations_per_account r = policy_of (λ c. c.invalid_authorizations_per_account) r

abbrev pub certificates_per_fqdn_set : Limits → RateLimitPolicy
certificates_per_fqdn_set r = policy_of (λ c. c.certificates_per_fqdn_set) r

-- LoadPolicies, given what yaml.Unmarshal makes of the file: the new limits, and whether it
-- succeeded.
unfoldable pub load_policies : Limits → Option RateLimitConfig → Limits × Bool
load_policies r none = (r, Bool.false)
load_policies r (some new_policy) = (some new_policy, Bool.true)
