-- ===== src/Nonce/Bytes.antt =====
-- The byte strings of nonce/nonce.go: `copy`, and math/big's Bytes and SetBytes.
use native.Mathlib.Nat.{pow-suc}
use boulder.Prelude.Text.{Text}
use boulder.Prelude.{
  ℕ, zero, suc, ◌+◌, ◌-◌, ◌*◌, ◌/◌, ◌%◌, ◌^◌, ◌≤◌, ◌<◌, ◌≡◌, refl, ap, [], ◌∷◌, ◌++◌, arith,
  if◌then◌else◌, nat_beq, length, take, drop, replicate, length-append, length-drop,
  length-replicate, ◌∙◌,
}

-- copy(dst, src): the longer of the two is cut short.
unfoldable pub copy : Text → Text → Text
copy [] src = []
copy (d ∷ dst) [] = d ∷ dst
copy (d ∷ dst) (x ∷ src) = x ∷ copy dst src

-- copy(dst[n:], src)
unfoldable pub copy_at : ℕ → Text → Text → Text
unfolding copy
copy_at n dst src = take n dst ++ copy (drop n dst) src

-- big.Int.Bytes: big-endian, with no leading zero; at most `f` bytes are asked for.
unfoldable pub big_bytes : ℕ → ℕ → Text
big_bytes zero n = []
big_bytes (suc f) n = if nat_beq n 0 then [] else big_bytes f (n / 256) ++ (n % 256) ∷ []

-- big.Int.SetBytes, from an accumulator.
unfoldable pub set_bytes : ℕ → Text → ℕ
set_bytes acc [] = acc
set_bytes acc (b ∷ bs) = set_bytes (acc * 256 + b) bs

pub set_bytes-append :
    (acc : ℕ) (xs ys : Text) → set_bytes acc (xs ++ ys) ≡ set_bytes (set_bytes acc xs) ys
unfolding set_bytes
set_bytes-append acc [] ys = refl
set_bytes-append acc (x ∷ xs) ys = set_bytes-append (acc * 256 + x) xs ys

pub set_bytes_zeros : (k : ℕ) (xs : Text) → set_bytes 0 (replicate k 0 ++ xs) ≡ set_bytes 0 xs
unfolding set_bytes
set_bytes_zeros zero xs = refl
set_bytes_zeros (suc k) xs = set_bytes_zeros k xs

pub set_bytes-big_bytes : (f n : ℕ) → n < 256 ^ f → set_bytes 0 (big_bytes f n) ≡ n
unfolding set_bytes big_bytes
set_bytes-big_bytes zero n h = omega arith
set_bytes-big_bytes (suc f) n h = ground (
  arith,
  pow-suc 256 f,
  set_bytes-append 0 (big_bytes f (n / 256)) ((n % 256) ∷ []),
  set_bytes-big_bytes f (n / 256),
)

length-big_bytes : (f n : ℕ) → length (big_bytes f n) ≤ f
unfolding big_bytes
length-big_bytes zero n = omega arith
length-big_bytes (suc f) n =
    ground
      (arith, length-append (big_bytes f (n / 256)) ((n % 256) ∷ []), length-big_bytes f (n / 256))

-- The eight bytes in which a counter travels.
unfoldable pub counter_bytes : ℕ → Text
unfolding big_bytes copy_at
counter_bytes n = let bytes = big_bytes 8 n in copy_at (8 - length bytes) (replicate 8 0) bytes

pub copy-full : (d a : Text) → length d ≡ length a → copy d a ≡ a
unfolding copy
copy-full [] [] h = refl
copy-full [] (x ∷ a) h = absurd (omega arith)
copy-full (y ∷ d) [] h = absurd (omega arith)
copy-full (y ∷ d) (x ∷ a) h = ap (λ t. x ∷ t) (copy-full d a (omega arith))

pub copy-prefix : (d a : Text) → length a ≤ length d → copy d a ≡ a ++ drop (length a) d
unfolding copy
copy-prefix [] [] h = refl
copy-prefix [] (x ∷ a) h = absurd (omega arith)
copy-prefix (y ∷ d) [] h = refl
copy-prefix (y ∷ d) (x ∷ a) h = ap (λ t. x ∷ t) (copy-prefix d a (omega arith))

take-replicate : (j k : ℕ) → j ≤ k → take j (replicate {A = ℕ} k 0) ≡ replicate j 0
take-replicate zero k h = refl
take-replicate (suc j) zero h = absurd (omega arith)
take-replicate (suc j) (suc k) h = ap (λ t. 0 ∷ t) (take-replicate j k (omega arith))

pub take-length : (n : ℕ) (xs ys : Text) → length xs ≡ n → take n (xs ++ ys) ≡ xs
take-length zero [] ys h = refl
take-length zero (x ∷ xs) ys h = absurd (omega arith)
take-length (suc n) [] ys h = absurd (omega arith)
take-length (suc n) (x ∷ xs) ys h = ap (λ t. x ∷ t) (take-length n xs ys (omega arith))

pub drop-length : (n : ℕ) (xs ys : Text) → length xs ≡ n → drop n (xs ++ ys) ≡ ys
drop-length zero [] ys h = refl
drop-length zero (x ∷ xs) ys h = absurd (omega arith)
drop-length (suc n) [] ys h = absurd (omega arith)
drop-length (suc n) (x ∷ xs) ys h = drop-length n xs ys (omega arith)

counter_bytes-shape :
    (bytes : Text)
    → length bytes ≤ 8
    → copy_at (8 - length bytes) (replicate 8 0) bytes ≡ replicate (8 - length bytes) 0 ++ bytes
unfolding copy_at
counter_bytes-shape bytes h = cc (
  take-replicate (8 - length bytes) 8 (omega arith),
  copy-full (drop (8 - length bytes) (replicate 8 0)) bytes
      (length-drop (8 - length bytes) (replicate {A = ℕ} 8 0) ∙ omega arith),
)

pub length-counter_bytes : (n : ℕ) → length (counter_bytes n) ≡ 8
unfolding counter_bytes
length-counter_bytes n =
    let small = length-big_bytes 8 n in
    rw (counter_bytes-shape (big_bytes 8 n) small) (
      omega (
        arith,
        length-append (replicate (8 - length (big_bytes 8 n)) 0) (big_bytes 8 n),
        length-replicate {A = ℕ} (8 - length (big_bytes 8 n)) 0,
      ))

-- A counter below 2 ^ 64 comes back from its eight bytes.
pub set_bytes-counter_bytes : (n : ℕ) → n < 256 ^ 8 → set_bytes 0 (counter_bytes n) ≡ n
unfolding counter_bytes
set_bytes-counter_bytes n h =
    rw
      (
        counter_bytes-shape (big_bytes 8 n) (length-big_bytes 8 n),
        set_bytes_zeros (8 - length (big_bytes 8 n)) (big_bytes 8 n),
      )
      (set_bytes-big_bytes 8 n h)
