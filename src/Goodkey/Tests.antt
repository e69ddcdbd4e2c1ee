-- ===== src/Goodkey/Tests.antt =====
-- goodkey/ at concrete inputs.
use boulder.Prelude.Int.{pos}
use boulder.Prelude.{◌+◌, ◌^◌, ◌≡◌, ◌↔◌, refl, true}
use boulder.Errors.{ok}
use boulder.Goodkey.Defs.{
  RsaKey, EcdsaKey, Curve, p256, new_key_policy, good_key_rsa, good_key_ecdsa, good_curve,
  is_point_at_infinity_nistp, check_small_primes, divisible_by_any,
}
use boulder.Goodkey.Rsa.{IsGoodRsa, good_key_rsa_iff}
use boulder.Goodkey.Ecdsa.{IsGoodEcdsa, good_key_ecdsa_iff}

abbrev key : RsaKey
key = record { modulus = 2 ^ 2047 + 1; exponent = pos 65537 }

good_key_rsa_iff_example : (good_key_rsa new_key_policy key ≡ ok tt) ↔ IsGoodRsa new_key_policy key
good_key_rsa_iff_example = good_key_rsa_iff new_key_policy key

-- 2 ^ 2047 + 1 is a multiple of 3.
divisible : check_small_primes (2 ^ 2047 + 1) ≡ true
unfolding check_small_primes divisible_by_any
divisible = refl

-- A curve with the one point (1, 2).
abbrev curve : Curve
curve = record {
  name = p256;
  prime = 7;
  order = 2;
  is_on_curve = λ x y. true;
  scalar_mult = λ x y n. (pos 0, pos 0);
}

abbrev pub point : EcdsaKey
point = record { curve = curve; x = pos 1; y = pos 2 }

good_point : good_key_ecdsa new_key_policy point ≡ ok tt
unfolding good_key_ecdsa good_curve is_point_at_infinity_nistp
good_point = refl

good_key_ecdsa_iff_example :
    (good_key_ecdsa new_key_policy point ≡ ok tt) ↔ IsGoodEcdsa new_key_policy point
good_key_ecdsa_iff_example = good_key_ecdsa_iff new_key_policy point
