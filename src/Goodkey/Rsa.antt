-- ===== src/Goodkey/Rsa.antt =====
-- goodkey/good_key.go: the RSA keys that are accepted, without the code's loops.
use native.Mathlib.Nat.{pow-suc, dvd_trans, mod-eq-zero_of_dvd, dvd_of_mod-eq-zero}
use boulder.Prelude.Int.{ℤ, pos, ltb_ℤ, ◌≤ℤ◌}
use boulder.Prelude.{
  ℕ, zero, suc, ◌+◌, ◌-◌, ◌/◌, ◌%◌, ◌^◌, ◌≤◌, ◌<◌, ◌≡◌, ◌≢◌, ◌↔◌, refl, subst, Bool, true, false,
  not, ◌&&◌, ◌||◌, List, [], ◌∷◌, arith, ltb, leb, nat_beq, Bool-cases, inl, inr, nat_beq_iff, all,
}
use boulder.Errors.{Error, ok, ◌>>◌, require}
use boulder.Goodkey.Defs.{
  small_prime_ints, KeyPolicy, RsaKey, bits, bit_len, divisible_by_any, check_small_primes, is_even,
  good_key_rsa,
}

pow_pos : (k : ℕ) → 0 < 2 ^ k
pow_pos zero = omega arith
pow_pos (suc k) = omega (arith, pow-suc 2 k, pow_pos k)

bits-le : (f k n : ℕ) → n < f → (bits f n ≤ k) ↔ (n < 2 ^ k)
bits-le zero k n h = absurd (ground arith)
bits-le (suc f) zero n h = ground arith
bits-le (suc f) (suc k) n h = ground (arith, pow-suc 2 k, pow_pos k, bits-le f k (n / 2))

-- The length is the number of binary digits.
pub bit_len-le : (k n : ℕ) → (bit_len n ≤ k) ↔ (n < 2 ^ k)
unfolding bit_len
bit_len-le k n = bits-le (suc n) k n (omega arith)

pub bit_len-gt : (k n : ℕ) → (k < bit_len n) ↔ (2 ^ k ≤ n)
bit_len-gt k n = ground (arith, bit_len-le k n)

-- Each number from 2 to n + 1 is divisible by one of the primes.
abbrev covered : ℕ → Bool
covered zero = true
covered (suc n) = covered n && divisible_by_any small_prime_ints (n + 2)

covered_all : covered 750 ≡ true
unfolding divisible_by_any
covered_all = refl

covered-below :
    (n k : ℕ) → covered n ≡ true → k < n → divisible_by_any small_prime_ints (k + 2) ≡ true
covered-below zero k h l = absurd (ground arith)
covered-below (suc n) k h l = ground (arith, covered-below n k)

divisible_by_any-multiple :
    (primes : List ℕ) (d n : ℕ)
    → n % d ≡ 0
    → divisible_by_any primes d ≡ true
    → divisible_by_any primes n ≡ true
unfolding divisible_by_any
divisible_by_any-multiple [] d n h e = e
divisible_by_any-multiple (p ∷ primes) d n h e = elim (Bool-cases (nat_beq (d % p) 0)) [
  | inl y ↦
      let divides =
        dvd_trans p (dvd_of_mod-eq-zero _ ((nat_beq_iff (d % p) 0).0 y)) (dvd_of_mod-eq-zero _ h) in
      ground (arith, mod-eq-zero_of_dvd _ divides)
  | inr other ↦ ground (arith, divisible_by_any-multiple primes d n h)
]

-- The factors that are looked for.
abbrev is_small_factor : ℕ → Bool
is_small_factor p = leb 2 p && ltb p 752

divisible_by_any-factor :
    (primes : List ℕ) (n : ℕ)
    → all is_small_factor primes ≡ true
    → divisible_by_any primes n ≡ true
    → (d : ℕ) × (2 ≤ d) × (d < 752) × (n % d ≡ 0)
unfolding divisible_by_any all
divisible_by_any-factor [] n a h = absurd (ground arith)
divisible_by_any-factor (p ∷ primes) n a h = elim (Bool-cases (nat_beq (n % p) 0)) [
  | inl y ↦ (p, ground arith, ground arith, ground arith)
  | inr other ↦ divisible_by_any-factor primes n (ground arith) (ground arith)
]

small_prime_ints_small : all is_small_factor small_prime_ints ≡ true
unfolding all
small_prime_ints_small = refl

-- The primes stand for all numbers from 2 to 751: a modulus passes if and only if none of them divides it.
pub check_small_primes_iff :
    (n : ℕ) → (check_small_primes n ≡ false) ↔ ((d : ℕ) → 2 ≤ d → d < 752 → n % d ≢ 0)
unfolding check_small_primes
check_small_primes_iff n = (
  λ h d l u e.
      let factored : divisible_by_any small_prime_ints d ≡ true =
        let back : d - 2 + 2 ≡ d = omega arith in
        subst (λ m. divisible_by_any small_prime_ints m ≡ true) back
          (covered-below 750 (d - 2) covered_all (omega arith)) in
      let found = divisible_by_any-multiple small_prime_ints d n e factored in
      absurd (cc (h, found)),
  λ h. elim (Bool-cases (check_small_primes n)) [
    | inl y ↦
        let (d, l, u, e) = divisible_by_any-factor small_prime_ints n small_prime_ints_small y in
        absurd (h d l u e)
    | inr passes ↦ passes
  ],
)

-- A chain of six checks succeeds if and only if each of them does.
six-ok :
    (a b c d e f : Bool) (v w x y z u : Error)
    → ((require a v >> require b w >> require c x >> require d y >> require e z >> require f u)
        ≡ ok tt)
      ↔ ((a ≡ true) × (b ≡ true) × (c ≡ true) × (d ≡ true) × (e ≡ true) × (f ≡ true))
six-ok a b c d e f v w x y z u = ground arith

exponent_cases :
    (odd : Bool) (e : ℤ)
    → (not (odd || ltb_ℤ e (pos (2 ^ 16 + 1))) ≡ true) ↔ ((odd ≡ false) × (pos (2 ^ 16 + 1) ≤ℤ e))
exponent_cases odd e = ground arith

low_iff : (len low : ℕ) → (not (ltb len (suc low)) ≡ true) ↔ (low < len)
low_iff len low = ground arith

high_iff : (len high : ℕ) → (not (ltb high len) ≡ true) ↔ (len ≤ high)
high_iff len high = ground arith

not_iff : (b : Bool) → (not b ≡ true) ↔ (b ≡ false)
not_iff b = ground arith

-- What the accepted keys are.
pub record IsGoodRsa (policy : KeyPolicy) (key : RsaKey) : Type 0 where
  pub allowed : policy.allow_rsa ≡ true
  pub long_enough : 2 ^ 2047 ≤ key.modulus
  pub short_enough : key.modulus < 2 ^ 4096
  pub whole_bytes : bit_len key.modulus % 8 ≡ 0
  pub odd : is_even key.exponent ≡ false
  pub large : pos (2 ^ 16 + 1) ≤ℤ key.exponent
  pub no_small_factor : (d : ℕ) → 2 ≤ d → d < 752 → key.modulus % d ≢ 0

-- An RSA key is accepted if and only if the policy allows RSA, the modulus has from 2048 to 4096 binary digits, a
-- multiple of 8, and no divisor from 2 to 751, and the exponent is odd and above 2^16.
pub good_key_rsa_iff :
    (policy : KeyPolicy) (key : RsaKey) → (good_key_rsa policy key ≡ ok tt) ↔ IsGoodRsa policy key
unfolding good_key_rsa
good_key_rsa_iff policy key =
    let len = bit_len key.modulus in
    let checks =
      six-ok policy.allow_rsa (not (ltb len 2048)) (not (ltb 4096 len)) (nat_beq (len % 8) 0)
        (not (is_even key.exponent || ltb_ℤ key.exponent (pos (2 ^ 16 + 1))))
        (not (check_small_primes key.modulus)) _ _ _ _ _ _ in
    let low = low_iff len 2047 in
    let high = high_iff len 4096 in
    let bytes = nat_beq_iff (len % 8) 0 in
    let exponent = exponent_cases (is_even key.exponent) key.exponent in
    let passes = not_iff (check_small_primes key.modulus) in
    (
      λ h.
          let (allowed, l, u, m, e, p) = checks.0 h in
          record {
            allowed = allowed;
            long_enough = (bit_len-gt 2047 key.modulus).0 (low.0 l);
            short_enough = (bit_len-le 4096 key.modulus).0 (high.0 u);
            whole_bytes = bytes.0 m;
            odd = (exponent.0 e).0;
            large = (exponent.0 e).1;
            no_small_factor = (check_small_primes_iff key.modulus).0 (passes.0 p);
          },
      λ good. checks.1 (
        good.allowed,
        low.1 ((bit_len-gt 2047 key.modulus).1 good.long_enough),
        high.1 ((bit_len-le 4096 key.modulus).1 good.short_enough),
        bytes.1 good.whole_bytes,
        exponent.1 (good.odd, good.large),
        passes.1 ((check_small_primes_iff key.modulus).1 good.no_small_factor),
      ),
    )
