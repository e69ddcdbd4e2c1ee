-- ===== src/Core/Serial.antt =====
-- core/util.go: SerialToString, StringToSerial and ValidSerial. A serial number is a natural number.
use native.Mathlib.Nat.{pow-suc}
use boulder.Prelude.Text.{Text}
use boulder.Prelude.{
  ℕ, zero, suc, ◌+◌, ◌-◌, ◌*◌, ◌/◌, ◌%◌, ◌^◌, ◌≤◌, ◌<◌, ◌≡◌, refl, Bool, true, false, ◌&&◌, ◌||◌,
  not, Option, none, some, [], ◌∷◌, ◌++◌, arith, ltb, leb, nat_beq, if◌then◌else◌, length, take,
  replicate, all, length-append, length-replicate, ap, ◌∙◌,
}

unfoldable pub hex_digit : ℕ → ℕ
hex_digit d = if ltb d 10 then b'0' + d else b'a' + d - 10

unfoldable pub hex_value : ℕ → ℕ
hex_value c =
    if leb b'0' c && leb c b'9'
    then c - b'0'
    else if leb b'a' c && leb c b'f'
    then c - b'a' + 10
    else c - b'A' + 10

unfoldable pub is_hex_digit : ℕ → Bool
is_hex_digit c =
    (leb b'0' c && leb c b'9') || (leb b'a' c && leb c b'f') || (leb b'A' c && leb c b'F')

-- The digits of a number, with no leading zero but for 0 itself; the fuel exceeds the number.
unfoldable pub hex_digits : ℕ → ℕ → Text
unfolding hex_digit
hex_digits zero n = []
hex_digits (suc f) n = elim (ltb n 16) [
  | true ↦ hex_digit n ∷ []
  | false ↦ hex_digits f (n / 16) ++ hex_digit (n % 16) ∷ []
]

-- fmt.Sprintf("%036x", serial)
unfoldable pub serial_to_string : ℕ → Text
unfolding hex_digits
serial_to_string serial =
    let digits = hex_digits (suc serial) serial in replicate (36 - length digits) b'0' ++ digits

-- hex.DecodeString succeeds.
unfoldable pub is_hex_string : Text → Bool
unfolding is_hex_digit
is_hex_string s = nat_beq (length s % 2) 0 && all is_hex_digit s

unfoldable pub valid_serial : Text → Bool
valid_serial serial =
    if ltb (length serial) 32 && ltb 36 (length serial) then false else is_hex_string serial

unfoldable pub read_hex : ℕ → Text → ℕ
unfolding hex_value
read_hex acc [] = acc
read_hex acc (c ∷ s) = read_hex (acc * 16 + hex_value c) s

-- fmt.Sscanf with %036x reads at most 36 digits of a string of digits, and fails on none.
unfoldable pub scan_serial : Text → Option ℕ
unfolding read_hex
scan_serial [] = none
scan_serial (c ∷ s) = some (read_hex 0 (take 36 (c ∷ s)))

unfoldable pub string_to_serial : Text → Option ℕ
string_to_serial serial = if not (valid_serial serial) then none else scan_serial serial

-- The length test can never fail: what counts is that the string is an even number of hex digits.
pub valid_serial-any_length : (s : Text) → valid_serial s ≡ is_hex_string s
unfolding valid_serial
valid_serial-any_length s = ground arith

read_hex-append : (acc : ℕ) (xs ys : Text) → read_hex acc (xs ++ ys) ≡ read_hex (read_hex acc xs) ys
unfolding read_hex
read_hex-append acc [] ys = refl
read_hex-append acc (x ∷ xs) ys = read_hex-append (acc * 16 + hex_value x) xs ys

hex_value-hex_digit : (d : ℕ) → d < 16 → hex_value (hex_digit d) ≡ d
unfolding hex_value hex_digit
hex_value-hex_digit d h = ground arith

is_hex_digit-hex_digit : (d : ℕ) → d < 16 → is_hex_digit (hex_digit d) ≡ true
unfolding is_hex_digit hex_digit
is_hex_digit-hex_digit d h = ground arith

read_hex-zeros : (k : ℕ) (s : Text) → read_hex 0 (replicate k b'0' ++ s) ≡ read_hex 0 s
unfolding read_hex
read_hex-zeros zero s = refl
read_hex-zeros (suc k) s = read_hex-zeros k s

read_hex-hex_digits : (f n : ℕ) → n < f → read_hex 0 (hex_digits f n) ≡ n
unfolding read_hex hex_digits
read_hex-hex_digits zero n h = absurd (omega arith)
read_hex-hex_digits (suc f) n h = ground (
  arith,
  read_hex-append 0 (hex_digits f (n / 16)) (hex_digit (n % 16) ∷ []),
  hex_value-hex_digit n,
  hex_value-hex_digit (n % 16),
  read_hex-hex_digits f (n / 16),
)

length-hex_digits : (f k n : ℕ) → n < 16 ^ k → 0 < k → length (hex_digits f n) ≤ k
unfolding hex_digits
length-hex_digits zero k n h p = omega arith
length-hex_digits (suc f) zero n h p = absurd (omega arith)
length-hex_digits (suc f) (suc zero) n h p = ground (arith, pow-suc 16 zero)
length-hex_digits (suc f) (suc (suc k)) n h p = ground (
  arith,
  pow-suc 16 (suc k),
  length-append (hex_digits f (n / 16)) (hex_digit (n % 16) ∷ []),
  length-hex_digits f (suc k) (n / 16),
)

all-append :
    (p : ℕ → Bool) (xs ys : Text) → all p xs ≡ true → all p ys ≡ true → all p (xs ++ ys) ≡ true
unfolding all
all-append p [] ys h k = k
all-append p (x ∷ xs) ys h k = ground (arith, all-append p xs ys)

hex_digits-all : (f n : ℕ) → all is_hex_digit (hex_digits f n) ≡ true
unfolding hex_digits all
hex_digits-all zero n = refl
hex_digits-all (suc f) n = ground (
  arith,
  all-append is_hex_digit (hex_digits f (n / 16)) (hex_digit (n % 16) ∷ []),
  is_hex_digit-hex_digit n,
  is_hex_digit-hex_digit (n % 16),
  hex_digits-all f (n / 16),
)

zeros-all : (k : ℕ) → all is_hex_digit (replicate k b'0') ≡ true
unfolding all is_hex_digit
zeros-all zero = refl
zeros-all (suc k) = ground (arith, zeros-all k)

-- A serial number below 16 ^ 36 is written with 36 digits.
length-serial_to_string : (n : ℕ) → n < 16 ^ 36 → length (serial_to_string n) ≡ 36
unfolding serial_to_string
length-serial_to_string n h = omega (
  arith,
  length-append (replicate (36 - length (hex_digits (suc n) n)) b'0') (hex_digits (suc n) n),
  length-replicate {A = ℕ} (36 - length (hex_digits (suc n) n)) b'0',
  length-hex_digits (suc n) 36 n h,
)

take_all : (k : ℕ) (s : Text) → length s ≤ k → take k s ≡ s
take_all zero [] h = refl
take_all zero (c ∷ s) h = absurd (omega arith)
take_all (suc k) [] h = refl
take_all (suc k) (c ∷ s) h = ap (λ t. c ∷ t) (take_all k s (omega arith))

scan_serial_all : (s : Text) → length s ≡ 36 → scan_serial s ≡ some (read_hex 0 s)
unfolding scan_serial
scan_serial_all [] h = absurd (omega arith)
scan_serial_all (c ∷ s) h = rw (take_all 36 (c ∷ s) (omega arith))

pub serial_to_string-valid : (n : ℕ) → n < 16 ^ 36 → valid_serial (serial_to_string n) ≡ true
unfolding is_hex_string
serial_to_string-valid n h =
    rw (valid_serial-any_length (serial_to_string n))
      (ground (arith, length-serial_to_string n h, written n))
  where
    written : (n : ℕ) → all is_hex_digit (serial_to_string n) ≡ true
    written n =
        unfold serial_to_string in
        all-append is_hex_digit (replicate (36 - length (hex_digits (suc n) n)) b'0')
          (hex_digits (suc n) n) (zeros-all (36 - length (hex_digits (suc n) n)))
          (hex_digits-all (suc n) n)

read_hex-serial_to_string : (n : ℕ) → read_hex 0 (serial_to_string n) ≡ n
unfolding serial_to_string
read_hex-serial_to_string n =
    read_hex-zeros (36 - length (hex_digits (suc n) n)) (hex_digits (suc n) n)
    ∙ read_hex-hex_digits (suc n) n (omega arith)

-- A serial number below 16 ^ 36 comes back from its string, which is valid and has 36 characters.
pub string_to_serial-serial_to_string :
    (n : ℕ)
    → n < 16 ^ 36
    → (string_to_serial (serial_to_string n) ≡ some n)
      × (valid_serial (serial_to_string n) ≡ true)
      × (length (serial_to_string n) ≡ 36)
unfolding string_to_serial
string_to_serial-serial_to_string n h = (
  rw (
    serial_to_string-valid n h,
    scan_serial_all (serial_to_string n) (length-serial_to_string n h),
    read_hex-serial_to_string n,
  ),
  serial_to_string-valid n h,
  length-serial_to_string n h,
)
