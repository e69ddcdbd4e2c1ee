-- ===== src/Ra/LimitLaws.antt =====
-- ra/ra.go: what has been checked when the rate limits let a request pass.
use boulder.Prelude.Text.{Text, text_Eq, join}
use boulder.Prelude.Int.{ℤ, ltb_ℤ, ◌+ℤ◌, ◌≤ℤ◌, ◌<ℤ◌}
use boulder.Prelude.{
  ◌≡◌, refl, true, false, Option, some, List, [], ◌∷◌, arith, if◌then◌else◌, inl, inr, ◌⊎◌,
  Bool-cases, Option-cases, ==-refl, ◌↔◌, subst,
}
use boulder.Errors.{Error, Result, ok, err, ◌>>=◌}
use boulder.Core.Objects.{is_empty}
use boulder.Core.Names.{unique_lower_names}
use boulder.Ratelimit.{
  RateLimitPolicy, enabled, get_threshold, window_begin, lookup, total_certificates,
  certificates_per_name, certificates_per_fqdn_set,
}
use boulder.Ra.Config.{Config, minutes_5}
use boulder.Ra.Limits.{
  Counts, TotalIssued, domains_for_rate_limiting, names_over, check_certificates_per_name_limit,
  check_certificates_per_fqdn_set_limit, check_total_certificates_limit, check_limits,
}

-- Each domain has a count, below its threshold.
abbrev pub AllUnder : RateLimitPolicy → ℤ → List (Text × ℤ) → List Text → Type 0
AllUnder limit reg_id counts [] = Unit {0}
AllUnder limit reg_id counts (n ∷ ns) =
    ((c : ℤ) × (lookup n counts ≡ some c) × (c <ℤ get_threshold limit n reg_id))
    × AllUnder limit reg_id counts ns

one_over :
    (limit : RateLimitPolicy) (reg_id : ℤ) (n : Text) (c : ℤ) (r : Result (List Text))
    (bad : List Text)
    → (r >>= λ rest. ok (if ltb_ℤ c (get_threshold limit n reg_id) then rest else n ∷ rest))
      ≡ ok bad
    → is_empty bad ≡ true
    → (c <ℤ get_threshold limit n reg_id) × (r ≡ ok bad)
one_over limit reg_id n c (err e) bad h k = cc
one_over limit reg_id n c (ok rest) bad h k = (ground arith, ground arith)

names_over-none :
    (limit : RateLimitPolicy) (reg_id : ℤ) (counts : List (Text × ℤ)) (ns bad : List Text)
    → names_over limit reg_id counts ns ≡ ok bad
    → is_empty bad ≡ true
    → AllUnder limit reg_id counts ns
unfolding names_over
names_over-none limit reg_id counts [] bad h k = tt
names_over-none limit reg_id counts (n ∷ ns) bad h k = elim (Option-cases (lookup n counts)) [
  | inl e ↦ cc (rw (e, names_over) at h)
  | inr (c, e) ↦
      let (under, rest) =
        one_over limit reg_id n c (names_over limit reg_id counts ns) bad (rw (e, names_over) at h)
          k in
      ((c, e, under), names_over-none limit reg_id counts ns bad rest k)
]

pub Result-cases {ℓ} :
    {A : Type ℓ} (r : Result A) → ((a : A) × (r ≡ ok a)) ⊎ ((e : Error) × (r ≡ err e))
Result-cases (ok a) = inl (a, refl)
Result-cases (err e) = inr (e, refl)

-- The limit per name lets a request pass only if the storage authority gave a count for each
-- registered domain of its names, each below the domain's threshold, or if a certificate for exactly
-- this set of names exists.
pub check_certificates_per_name_limit-ok :
    (domain : Text → Option Text) (counts : Counts) (now : ℤ) (names : List Text)
    (limit : RateLimitPolicy) (reg_id : ℤ)
    → check_certificates_per_name_limit domain counts now names limit reg_id ≡ ok tt
    → (found : List (Text × ℤ)) × (counts.certificates_by_names
          (domains_for_rate_limiting domain names)
          (window_begin limit now)
          now
        ≡ ok found)
      × (AllUnder limit reg_id found (domains_for_rate_limiting domain names)
          ⊎ (counts.fqdn_set_exists names ≡ ok true))
unfolding check_certificates_per_name_limit
check_certificates_per_name_limit-ok domain counts now names limit reg_id h =
    let tlds = domains_for_rate_limiting domain names in
    elim (Result-cases (counts.certificates_by_names tlds (window_begin limit now) now)) [
      | inr (e, failed) ↦ cc (rw (failed, check_certificates_per_name_limit) at h)
      | inl (found, f) ↦ elim (Result-cases (names_over limit reg_id found tlds)) [
        | inr (e, failed) ↦ cc (rw (f, failed, check_certificates_per_name_limit) at h)
        | inl (bad, b) ↦ elim (Bool-cases (is_empty bad)) [
          | inl y ↦ (found, f, inl (names_over-none limit reg_id found tlds bad b y))
          | inr n ↦ (found, f, inr (ground arith))
        ]
      ]
    ]

-- The limit per set of names lets a request pass exactly if the count is at most the threshold.
pub check_certificates_per_fqdn_set_limit_iff :
    (counts : Counts) (names : List Text) (limit : RateLimitPolicy) (reg_id : ℤ)
    → (check_certificates_per_fqdn_set_limit counts names limit reg_id ≡ ok tt) ↔ (
        (c : ℤ) × (counts.fqdn_sets limit.window names ≡ ok c)
        × (c ≤ℤ get_threshold limit (join b',' (unique_lower_names names)) reg_id))
unfolding check_certificates_per_fqdn_set_limit
check_certificates_per_fqdn_set_limit_iff counts names limit reg_id = (
  λ h. elim (Result-cases (counts.fqdn_sets limit.window names)) [
    | inr (e, failed) ↦ cc (rw (failed, check_certificates_per_fqdn_set_limit) at h)
    | inl (c, f) ↦ (c, f, ground arith)
  ],
  λ (c, f, le). ground arith,
)

-- The same count that uses up a limit per name does not use up a limit per set of names: for one name
-- in the form that UniqueLowerNames gives, with the count at the threshold, the name is over its limit
-- and the set passes.
pub limits_at_threshold :
    (counts : Counts) (n : Text) (limit : RateLimitPolicy) (reg_id : ℤ)
    → let t = get_threshold limit n reg_id in
      n ≡ join b',' (unique_lower_names (n ∷ []))
      → counts.fqdn_sets limit.window (n ∷ []) ≡ ok t
      → (check_certificates_per_fqdn_set_limit counts (n ∷ []) limit reg_id ≡ ok tt)
        × (names_over limit reg_id ((n, t) ∷ []) (n ∷ []) ≡ ok (n ∷ []))
unfolding names_over lookup
limits_at_threshold counts n limit reg_id e h = (
  (check_certificates_per_fqdn_set_limit_iff counts (n ∷ []) limit reg_id).1 (
    get_threshold limit n reg_id,
    h,
    subst (λ k. get_threshold limit n reg_id ≤ℤ get_threshold limit k reg_id) e (omega arith),
  ),
  ground (arith, ==-refl n),
)

-- All limits that are switched on have been checked.
pub check_limits-ok :
    (cfg : Config) (domain : Text → Option Text) (counts : Counts) (total : TotalIssued) (now : ℤ)
    (names : List Text) (reg_id : ℤ)
    → check_limits cfg domain counts total now names reg_id ≡ ok tt
    → ((enabled (total_certificates cfg.limits) ≡ false)
        ⊎ (check_total_certificates_limit cfg total now ≡ ok tt))
      × ((enabled (certificates_per_name cfg.limits) ≡ false)
          ⊎ (check_certificates_per_name_limit domain counts now names
                (certificates_per_name cfg.limits)
                reg_id
              ≡ ok tt))
      × ((enabled (certificates_per_fqdn_set cfg.limits) ≡ false)
          ⊎ (check_certificates_per_fqdn_set_limit counts names
                (certificates_per_fqdn_set cfg.limits)
                reg_id
              ≡ ok tt))
unfolding check_limits
check_limits-ok cfg domain counts total now names reg_id h =
    (ground arith, ground arith, ground arith)

-- The total limit passes exactly if the count was updated at most five minutes ago and is below the
-- threshold.
pub check_total_certificates_limit_iff :
    (cfg : Config) (total : TotalIssued) (now : ℤ)
    → (check_total_certificates_limit cfg total now ≡ ok tt) ↔ (
        (t : ℤ) × (total.last_update ≡ some t)
        × (now ≤ℤ t +ℤ minutes_5)
        × (total.count <ℤ (total_certificates cfg.limits).threshold))
unfolding check_total_certificates_limit
check_total_certificates_limit_iff cfg total now = (
  λ h. elim (Option-cases total.last_update) [
    | inl e ↦ cc (rw (e, check_total_certificates_limit) at h)
    | inr (t, e) ↦ (t, e, ground arith, ground arith)
  ],
  λ (t, e, fresh, below). ground arith,
)
