-- ===== src/Sa/IpBounds.antt =====
-- sa/sa.go: the range of ipRange holds the address.
use native.Mathlib.Nat.{pow-suc, zero-add, one-le-pow, mul-le-mul}
use native.Mathlib.Omega.{pow_step}
use boulder.Prelude.Text.{Text}
use boulder.Prelude.{
  ℕ, zero, suc, ◌+◌, ◌-◌, ◌*◌, ◌^◌, ◌/◌, ◌%◌, ◌≤◌, ◌<◌, ◌≡◌, refl, sym, ap, ◌∙◌, true, false, ◌⊎◌,
  inl, inr, [], ◌∷◌, ◌++◌, arith, if◌then◌else◌, ltb, length, take, drop, replicate, Bool-cases,
  length-append, length-replicate,
}
use boulder.Nonce.Bytes.{
  set_bytes, big_bytes, set_bytes-append, set_bytes_zeros, set_bytes-big_bytes,
}
use boulder.Sa.IpRange.{increment_ip, to16, is_v4, mask_bytes, ip_range}

abbrev pub AllBytes : Text → Type 0
AllBytes [] = Unit {0}
AllBytes (b ∷ bs) = (b < 256) × AllBytes bs

regroup : (a b p s : ℕ) → (a * 256 + b) * p + s ≡ a * (256 * p) + (b * p + s)
regroup a b p s = grind arith

set_bytes-acc : (acc : ℕ) (bs : Text) → set_bytes acc bs ≡ acc * 256 ^ length bs + set_bytes 0 bs
unfolding set_bytes
set_bytes-acc acc [] = omega arith
set_bytes-acc acc (b ∷ bs) =
    set_bytes-acc (acc * 256 + b) bs
    ∙ regroup acc b (256 ^ length bs) (set_bytes 0 bs)
    ∙ cc (pow_step 256 (length bs), ap (λ x. set_bytes x bs) (zero-add b) ∙ set_bytes-acc b bs)

-- A digit before a number of k digits.
digit_bound : (b p s : ℕ) → b < 256 → s < p → b * p + s < 256 * p
digit_bound b p s h k = grind (arith, mul-le-mul)

set_bytes_bound : (bs : Text) → AllBytes bs → set_bytes 0 bs < 256 ^ length bs
unfolding set_bytes
set_bytes_bound [] h = omega arith
set_bytes_bound (b ∷ bs) h =
    rw (pow_step 256 (length bs), zero-add b, set_bytes-acc b bs)
      (digit_bound b (256 ^ length bs) (set_bytes 0 bs) h.0 (set_bytes_bound bs h.1))

length-big_bytes_le : (f k n : ℕ) → n < 256 ^ k → length (big_bytes f n) ≤ k
unfolding big_bytes
length-big_bytes_le zero k n h = omega arith
length-big_bytes_le (suc f) zero n h = ground arith
length-big_bytes_le (suc f) (suc k) n h = ground (
  arith,
  pow-suc 256 k,
  length-append (big_bytes f (n / 256)) ((n % 256) ∷ []),
  length-big_bytes_le f k (n / 256),
)

length-big_bytes_gt : (f k n : ℕ) → k < f → 256 ^ k ≤ n → k < length (big_bytes f n)
unfolding big_bytes
length-big_bytes_gt zero k n h g = absurd (omega arith)
length-big_bytes_gt (suc f) zero n h g =
    ground (arith, length-append (big_bytes f (n / 256)) ((n % 256) ∷ []))
length-big_bytes_gt (suc f) (suc k) n h g =
    let positive : 1 ≤ 256 ^ k = one-le-pow k 256 (omega arith) in
    ground (
      arith,
      pow-suc 256 k,
      length-append (big_bytes f (n / 256)) ((n % 256) ∷ []),
      length-big_bytes_gt f k (n / 256),
    )

zeros_value : (k : ℕ) → set_bytes 0 (replicate k 0) ≡ 0
unfolding set_bytes
zeros_value zero = refl
zeros_value (suc k) = zeros_value k

take-drop : (k : ℕ) (xs : Text) → take k xs ++ drop k xs ≡ xs
take-drop zero xs = refl
take-drop (suc k) [] = refl
take-drop (suc k) (x ∷ xs) = ap (λ t. x ∷ t) (take-drop k xs)

length-drop_bytes : (k : ℕ) (xs : Text) → length (drop k xs) ≡ length xs - k
length-drop_bytes zero xs = omega arith
length-drop_bytes (suc k) [] = omega arith
length-drop_bytes (suc k) (x ∷ xs) = length-drop_bytes k xs ∙ omega arith

drop-AllBytes : (k : ℕ) (xs : Text) → AllBytes xs → AllBytes (drop k xs)
drop-AllBytes zero xs h = h
drop-AllBytes (suc k) [] h = h
drop-AllBytes (suc k) (x ∷ xs) h = drop-AllBytes k xs h.1

-- An address is its first bytes, and what the others add.
split_value :
    (k : ℕ) (ip : Text)
    → set_bytes 0 ip ≡ set_bytes 0 (take k ip) * 256 ^ (length ip - k) + set_bytes 0 (drop k ip)
split_value k ip =
    ap (set_bytes 0) (sym (take-drop k ip))
    ∙ set_bytes-append 0 (take k ip) (drop k ip)
    ∙ set_bytes-acc (set_bytes 0 (take k ip)) (drop k ip)
    ∙ rw (length-drop_bytes k ip) refl

masked_value :
    (k : ℕ) (ip : Text) → set_bytes 0 (mask_bytes k ip) ≡ set_bytes 0 (take k ip) * 256 ^ (16 - k)
unfolding mask_bytes
masked_value k ip =
    set_bytes-append 0 (take k ip) (replicate (16 - k) 0)
    ∙ set_bytes-acc (set_bytes 0 (take k ip)) (replicate (16 - k) 0)
    ∙ rw (zeros_value (16 - k), length-replicate {A = ℕ} (16 - k) 0) (omega arith)

-- The address of a mask, and where the range above it ends.
masked_range :
    (k : ℕ) (ip : Text)
    → length ip ≡ 16
    → AllBytes ip
    → (set_bytes 0 (mask_bytes k ip) ≤ set_bytes 0 ip)
      × (set_bytes 0 ip < set_bytes 0 (mask_bytes k ip) + 256 ^ (16 - k))
masked_range k ip h a =
    let rest : set_bytes 0 (drop k ip) < 256 ^ (16 - k) =
      rw (length-drop_bytes k ip, h) at (set_bytes_bound (drop k ip) (drop-AllBytes k ip a)) in
    let value : set_bytes 0 ip
        ≡ set_bytes 0 (take k ip) * 256 ^ (16 - k) + set_bytes 0 (drop k ip) =
      rw h at (split_value k ip) in
    (omega (arith, masked_value k ip), omega (arith, masked_value k ip))

padded : ℕ → Text
padded n =
    let result = big_bytes 17 n in
    if ltb 16 (length result) then replicate 16 255 else replicate (16 - length result) 0 ++ result

padded_fits : (n : ℕ) → n < 256 ^ 16 → set_bytes 0 (padded n) ≡ n
unfolding padded
padded_fits n h =
    let small : length (big_bytes 17 n) ≤ 16 = length-big_bytes_le 17 16 n h in
    let test : ltb 16 (length (big_bytes 17 n)) ≡ false = ground arith in
    rw (test, set_bytes_zeros (16 - length (big_bytes 17 n)) (big_bytes 17 n))
      (set_bytes-big_bytes 17 n (omega arith))

padded_over : (n : ℕ) → 256 ^ 16 ≤ n → padded n ≡ replicate 16 255
unfolding padded
padded_over n h =
    let large : 16 < length (big_bytes 17 n) = length-big_bytes_gt 17 16 n (omega arith) h in
    let test : ltb 16 (length (big_bytes 17 n)) ≡ true = ground arith in rw test refl

-- The end of the range: the sum, or the highest address if there is no such address.
incremented :
    (ip : Text) (index : ℕ)
    → (set_bytes 0 (increment_ip ip index) ≡ set_bytes 0 ip + 2 ^ (128 - index))
      ⊎ ((2 ^ 128 ≤ set_bytes 0 ip + 2 ^ (128 - index))
          × (increment_ip ip index ≡ replicate 16 255))
unfolding increment_ip padded
incremented ip index = elim (Bool-cases (ltb (set_bytes 0 ip + 2 ^ (128 - index)) (256 ^ 16))) [
  | inl y ↦ inl (padded_fits (set_bytes 0 ip + 2 ^ (128 - index)) (ground arith))
  | inr n ↦ inr (ground arith, padded_over (set_bytes 0 ip + 2 ^ (128 - index)) (ground arith))
]

-- How many addresses one registrant is taken to have.
abbrev pub range_size : Text → ℕ
range_size ip = if is_v4 ip then 1 else 2 ^ 80

-- The range of ipRange begins at or below the address and extends by 1 for an IPv4 address and by
-- 2 ^ 80 for an IPv6 address, which is above it. It ends at the sum of the two, or at the highest
-- address where the sum is beyond all addresses.
pub ip_range_bounds :
    (ip : Text)
    → length (to16 ip) ≡ 16
    → AllBytes (to16 ip)
    → let (begin, end) = ip_range ip in
      (set_bytes 0 begin ≤ set_bytes 0 (to16 ip))
      × (set_bytes 0 (to16 ip) < set_bytes 0 begin + range_size (to16 ip))
      × ((set_bytes 0 end ≡ set_bytes 0 begin + range_size (to16 ip))
          ⊎ ((2 ^ 128 ≤ set_bytes 0 begin + range_size (to16 ip)) × (end ≡ replicate 16 255)))
unfolding ip_range
ip_range_bounds ip h a = elim (Bool-cases (is_v4 (to16 ip))) [
  | inl y ↦
      let (low, high) = masked_range 16 (to16 ip) h a in
      rw y (low, high, incremented (mask_bytes 16 (to16 ip)) 128)
  | inr n ↦
      let (low, high) = masked_range 6 (to16 ip) h a in
      rw n (low, high, incremented (mask_bytes 6 (to16 ip)) 48)
]
