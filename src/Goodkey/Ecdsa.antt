-- ===== src/Goodkey/Ecdsa.antt =====
-- goodkey/good_key.go: the ECDSA keys that are accepted.
use boulder.Prelude.Int.{ℤ, pos, negsuc, ltb_ℤ}
use boulder.Prelude.{ℕ, ◌+◌, ◌<◌, ◌≡◌, ◌↔◌, ◌⊎◌, refl, Bool, true, not, ◌&&◌, ◌||◌, arith}
use boulder.Errors.{Error, Result, ok, ◌>>◌, require}
use boulder.Goodkey.Defs.{
  KeyPolicy, CurveName, p224, p256, p384, p521, EcdsaKey, good_curve, is_point_at_infinity_nistp,
  good_key_ecdsa,
}

pub good_curve_iff :
    (policy : KeyPolicy) (c : CurveName)
    → (good_curve policy c ≡ ok tt) ↔ (
        ((policy.allow_ecdsa_nistp256 ≡ true) × (c ≡ p256))
        ⊎ ((policy.allow_ecdsa_nistp384 ≡ true) × (c ≡ p384)))
unfolding good_curve
good_curve_iff policy p224 = ground arith
good_curve_iff policy p256 = ground arith
good_curve_iff policy p384 = ground arith
good_curve_iff policy p521 = ground arith

-- A point of the field's plane other than the one that stands for infinity.
abbrev pub IsAffine : ℤ → ℤ → ℕ → Type 0
IsAffine x y p = (m : ℕ) × (n : ℕ) × (x ≡ pos m) × (y ≡ pos n) × (m < p) × (n < p) × (0 < m + n)

affine_lem :
    (x y : ℤ) (p : ℕ)
    → ((not (is_point_at_infinity_nistp x y) ≡ true)
        × (not (ltb_ℤ x (pos 0) || ltb_ℤ y (pos 0)) ≡ true)
        × ((ltb_ℤ x (pos p) && ltb_ℤ y (pos p)) ≡ true))
      ↔ IsAffine x y p
unfolding is_point_at_infinity_nistp
affine_lem (pos m) (pos n) p =
    (λ h. (m, n, refl, refl, ground arith, ground arith, ground arith), λ h. ground arith)
affine_lem (pos m) (negsuc n) p = (λ h. absurd (ground arith), λ h. absurd (ground arith))
affine_lem (negsuc m) y p = (λ h. absurd (ground arith), λ h. absurd (ground arith))

infinity_iff : (x y : ℤ) → (is_point_at_infinity_nistp x y ≡ true) ↔ ((x ≡ pos 0) × (y ≡ pos 0))
unfolding is_point_at_infinity_nistp
infinity_iff x y = ground arith

five-ok :
    (r : Result (Unit {0})) (b c d e f : Bool) (w x y z u : Error)
    → ((r >> require b w >> require c x >> require d y >> require e z >> require f u) ≡ ok tt)
      ↔ ((r ≡ ok tt) × (b ≡ true) × (c ≡ true) × (d ≡ true) × (e ≡ true) × (f ≡ true))
five-ok r b c d e f w x y z u = ground arith

-- What the accepted keys are.
pub record IsGoodEcdsa (policy : KeyPolicy) (key : EcdsaKey) : Type 0 where
  pub allowed :
      ((policy.allow_ecdsa_nistp256 ≡ true) × (key.curve.name ≡ p256))
      ⊎ ((policy.allow_ecdsa_nistp384 ≡ true) × (key.curve.name ≡ p384))
  pub affine : IsAffine key.x key.y key.curve.prime
  pub on_curve : key.curve.is_on_curve key.x key.y ≡ true
  pub right_order :
      ((key.curve.scalar_mult key.x key.y key.curve.order).0 ≡ pos 0)
      × ((key.curve.scalar_mult key.x key.y key.curve.order).1 ≡ pos 0)

-- An ECDSA key is accepted if and only if its curve is P-256 or P-384 and the policy allows it, its coordinates are
-- numbers below the field's prime, not both 0, that lie on the curve, and the curve's order times the point is the
-- point at infinity.
pub good_key_ecdsa_iff :
    (policy : KeyPolicy) (key : EcdsaKey)
    → (good_key_ecdsa policy key ≡ ok tt) ↔ IsGoodEcdsa policy key
unfolding good_key_ecdsa
good_key_ecdsa_iff policy key =
    let q = key.curve.scalar_mult key.x key.y key.curve.order in
    let checks =
      five-ok (good_curve policy key.curve.name) _ _ _ (key.curve.is_on_curve key.x key.y)
        (is_point_at_infinity_nistp q.0 q.1) _ _ _ _ _ in
    let curve = good_curve_iff policy key.curve.name in
    let affine = affine_lem key.x key.y key.curve.prime in
    let infinity = infinity_iff q.0 q.1 in
    (
      λ h.
          let (c, a, b, d, on, o) = checks.0 h in
          record {
            allowed = curve.0 c;
            affine = affine.0 (a, b, d);
            on_curve = on;
            right_order = infinity.0 o;
          },
      λ good.
          let (a, b, d) = affine.1 good.affine in
          checks.1 (curve.1 good.allowed, a, b, d, good.on_curve, infinity.1 good.right_order),
    )
