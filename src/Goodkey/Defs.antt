-- ===== src/Goodkey/Defs.antt =====
-- goodkey/good_key.go: GoodKey and its checks. A modulus is a natural number, as the parsers of keys
-- give it; a coordinate has a sign. The curves' operations (crypto/elliptic) are fields of the curve.
use boulder.Prelude.Int.{ℤ, pos, pos_part, neg_part, ltb_ℤ}
use boulder.Prelude.{
  ℕ, zero, suc, ◌+◌, ◌/◌, ◌%◌, ◌^◌, Bool, true, false, not, ◌&&◌, ◌||◌, List, [], ◌∷◌,
  if◌then◌else◌, ltb, nat_beq,
}
use boulder.Errors.{boulder_error, malformed, Result, ok, err, ◌>>◌, require}

abbrev pub small_prime_ints : List ℕ
small_prime_ints =
    2 ∷ 3 ∷ 5 ∷ 7 ∷ 11 ∷ 13 ∷ 17 ∷ 19 ∷ 23 ∷ 29 ∷ 31 ∷ 37 ∷ 41 ∷ 43 ∷ 47 ∷ 53 ∷ 59 ∷ 61 ∷ 67 ∷ 71
    ∷ 73 ∷ 79 ∷ 83 ∷ 89 ∷ 97 ∷ 101 ∷ 103 ∷ 107 ∷ 109 ∷ 113 ∷ 127 ∷ 131 ∷ 137 ∷ 139 ∷ 149 ∷ 151 ∷ 157
    ∷ 163 ∷ 167 ∷ 173 ∷ 179 ∷ 181 ∷ 191 ∷ 193 ∷ 197 ∷ 199 ∷ 211 ∷ 223 ∷ 227 ∷ 229 ∷ 233 ∷ 239 ∷ 241
    ∷ 251 ∷ 257 ∷ 263 ∷ 269 ∷ 271 ∷ 277 ∷ 281 ∷ 283 ∷ 293 ∷ 307 ∷ 311 ∷ 313 ∷ 317 ∷ 331 ∷ 337 ∷ 347
    ∷ 349 ∷ 353 ∷ 359 ∷ 367 ∷ 373 ∷ 379 ∷ 383 ∷ 389 ∷ 397 ∷ 401 ∷ 409 ∷ 419 ∷ 421 ∷ 431 ∷ 433 ∷ 439
    ∷ 443 ∷ 449 ∷ 457 ∷ 461 ∷ 463 ∷ 467 ∷ 479 ∷ 487 ∷ 491 ∷ 499 ∷ 503 ∷ 509 ∷ 521 ∷ 523 ∷ 541 ∷ 547
    ∷ 557 ∷ 563 ∷ 569 ∷ 571 ∷ 577 ∷ 587 ∷ 593 ∷ 599 ∷ 601 ∷ 607 ∷ 613 ∷ 617 ∷ 619 ∷ 631 ∷ 641 ∷ 643
    ∷ 647 ∷ 653 ∷ 659 ∷ 661 ∷ 673 ∷ 677 ∷ 683 ∷ 691 ∷ 701 ∷ 709 ∷ 719 ∷ 727 ∷ 733 ∷ 739 ∷ 743 ∷ 751
    ∷ []

pub record KeyPolicy : Type 0 where
  pub allow_rsa : Bool
  pub allow_ecdsa_nistp256 : Bool
  pub allow_ecdsa_nistp384 : Bool

abbrev pub new_key_policy : KeyPolicy
new_key_policy = record {
  allow_rsa = true;
  allow_ecdsa_nistp256 = true;
  allow_ecdsa_nistp384 = true;
}

pub record RsaKey : Type 0 where
  pub modulus : ℕ
  pub exponent : ℤ

-- The curves are told apart by their parameters.
pub data CurveName : Type 0 where
  p224 p256 p384 p521 : CurveName

pub record Curve : Type 0 where
  pub name : CurveName
  pub prime : ℕ
  pub order : ℕ
  pub is_on_curve : ℤ → ℤ → Bool
  pub scalar_mult : ℤ → ℤ → ℕ → ℤ × ℤ

pub record EcdsaKey : Type 0 where
  pub curve : Curve
  pub x : ℤ
  pub y : ℤ

pub data PublicKey : Type 0 where
  rsa : RsaKey → PublicKey
  ecdsa : EcdsaKey → PublicKey
  unknown_key : PublicKey

-- big.Int.BitLen; the fuel exceeds the number.
abbrev pub bits : ℕ → ℕ → ℕ
bits zero n = 0
bits (suc fuel) n = let rest = bits fuel (n / 2) in if nat_beq n 0 then 0 else suc rest

unfoldable pub bit_len : ℕ → ℕ
bit_len n = bits (suc n) n

unfoldable pub divisible_by_any : List ℕ → ℕ → Bool
divisible_by_any [] i = false
divisible_by_any (prime ∷ primes) i = nat_beq (i % prime) 0 || divisible_by_any primes i

unfoldable pub check_small_primes : ℕ → Bool
unfolding divisible_by_any
check_small_primes i = divisible_by_any small_prime_ints i

unfoldable pub is_even : ℤ → Bool
is_even e = nat_beq ((pos_part e + neg_part e) % 2) 0

abbrev pub max_key_size : ℕ
max_key_size = 4096

unfoldable pub good_key_rsa : KeyPolicy → RsaKey → Result (Unit {0})
unfolding bit_len check_small_primes is_even
good_key_rsa policy key =
    let modulus_bit_len = bit_len key.modulus in
    require policy.allow_rsa (boulder_error malformed "RSA keys are not allowed")
    >> require (not (ltb modulus_bit_len 2048)) (boulder_error malformed "key too small: %d")
    >> require (not (ltb max_key_size modulus_bit_len))
        (boulder_error malformed "key too large: %d > %d")
    >> require (nat_beq (modulus_bit_len % 8) 0)
        (boulder_error malformed "key length wasn't a multiple of 8: %d")
    >> require (not (is_even key.exponent || ltb_ℤ key.exponent (pos (2 ^ 16 + 1))))
        (boulder_error malformed "key exponent should be odd and >2^16: %d")
    >> require (not (check_small_primes key.modulus))
        (boulder_error malformed "key divisible by small prime")

abbrev is_p256 : CurveName → Bool
is_p256 p256 = true
is_p256 _ = false

abbrev is_p384 : CurveName → Bool
is_p384 p384 = true
is_p384 _ = false

unfoldable pub good_curve : KeyPolicy → CurveName → Result (Unit {0})
good_curve policy c =
    if policy.allow_ecdsa_nistp256 && is_p256 c
    then ok tt
    else if policy.allow_ecdsa_nistp384 && is_p384 c
    then ok tt
    else err (boulder_error malformed "ECDSA curve %v not allowed")

unfoldable pub is_point_at_infinity_nistp : ℤ → ℤ → Bool
is_point_at_infinity_nistp x y =
    nat_beq (pos_part x + neg_part x) 0 && nat_beq (pos_part y + neg_part y) 0

unfoldable pub good_key_ecdsa : KeyPolicy → EcdsaKey → Result (Unit {0})
unfolding good_curve is_point_at_infinity_nistp
good_key_ecdsa policy key =
    let curve = key.curve in
    let q = curve.scalar_mult key.x key.y curve.order in
    good_curve policy curve.name
    >> require (not (is_point_at_infinity_nistp key.x key.y))
        (boulder_error malformed "key x, y must not be the point at infinity")
    >> require (not (ltb_ℤ key.x (pos 0) || ltb_ℤ key.y (pos 0)))
        (boulder_error malformed "key x, y must not be negative")
    >> require (ltb_ℤ key.x (pos curve.prime) && ltb_ℤ key.y (pos curve.prime))
        (boulder_error malformed "key x, y must not exceed P-1")
    >> require (curve.is_on_curve key.x key.y)
        (boulder_error malformed "key point is not on the curve")
    >> require (is_point_at_infinity_nistp q.0 q.1)
        (boulder_error malformed "public key does not have correct order")

unfoldable pub good_key : KeyPolicy → PublicKey → Result (Unit {0})
unfolding good_key_rsa good_key_ecdsa
good_key policy (rsa key) = good_key_rsa policy key
good_key policy (ecdsa key) = good_key_ecdsa policy key
good_key policy unknown_key = err (boulder_error malformed "unknown key type %s")
