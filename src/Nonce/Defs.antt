-- ===== src/Nonce/Defs.antt =====
-- nonce/nonce.go: the state and every operation of `NonceService`.
use boulder.Prelude.Text.{Text}
use boulder.Prelude.Int.{ℤ, pos, negsuc, ltb_ℤ, int_eq}
use boulder.Prelude.{
  ℕ, zero, suc, ◌+◌, ◌-◌, ◌%◌, ◌^◌, ◌≡◌, Bool, true, false, Option, none, some, List, [], ◌∷◌, ◌++◌,
  ltb, if◌then◌else◌, nat_beq, ◌==◌, elem, length, take, drop, replicate,
}
use boulder.Nonce.Bytes.{copy, copy_at, counter_bytes, set_bytes}

-- What the service uses of AES-GCM under its key, and of base64.RawURLEncoding. A sealed text opens
-- under the nonce that sealed it, and is 16 bytes longer; an encoding decodes.
pub record Cipher : Type 0 where
  pub seal : Text → Text → Text
  pub unseal : Text → Text → Option Text
  pub encode : Text → Text
  pub decode : Text → Option Text
  pub unseal-seal : (nonce plain : Text) → unseal nonce (seal nonce plain) ≡ some plain
  pub length-seal : (nonce plain : Text) → length (seal nonce plain) ≡ length plain + 16
  pub decode-encode : (b : Text) → decode (encode b) ≡ some b

abbrev pub nonce_len : ℕ
nonce_len = 32

abbrev pub max_used_default : ℕ
max_used_default = 65536

-- A Go map from counters to true is the list of its keys.
pub record NonceService : Type 0 where
  pub latest : ℤ
  pub earliest : ℤ
  pub used : List ℤ
  pub max_used : ℕ

unfoldable pub new_nonce_service : NonceService
new_nonce_service = record {
  latest = pos 0;
  earliest = pos 0;
  used = [];
  max_used = max_used_default;
}

-- latest++ on an int64.
unfoldable pub increment : ℤ → ℤ
increment (pos n) = if ltb (suc n) (2 ^ 63) then pos (suc n) else negsuc (2 ^ 63 - 1)
increment (negsuc zero) = pos 0
increment (negsuc (suc n)) = negsuc n

-- The absolute value, which big.Int.Bytes writes.
unfoldable pub magnitude : ℤ → ℕ
magnitude (pos n) = n
magnitude (negsuc n) = suc n

-- big.Int.Int64: the low 64 bits, in two's complement.
unfoldable pub to_int64 : ℕ → ℤ
to_int64 v = let low = v % 2 ^ 64 in if ltb low (2 ^ 63) then pos low else negsuc (2 ^ 64 - 1 - low)

module _ (c : Cipher) where
  open c use {seal, unseal, encode, decode}

  -- The argument is what rand.Read wrote to nonce[4:], or none if it failed.
  unfoldable pub encrypt : Option Text → ℤ → Option Text
  encrypt none counter = none
  encrypt (some random) counter =
      let nonce = replicate 4 0 ++ random in
      let ct = seal nonce (counter_bytes (magnitude counter)) in
      some (encode (copy_at 8 (copy (replicate nonce_len 0) (drop 4 nonce)) ct))

  unfoldable pub unseal_counter : Text → Option ℤ
  unseal_counter decoded = elim (unseal (replicate 4 0 ++ take 8 decoded) (drop 8 decoded)) [
    | none ↦ none
    | some plain ↦ some (to_int64 (set_bytes 0 plain))
  ]

  unfoldable pub decrypt : Text → Option ℤ
  decrypt nonce = elim (decode nonce) [
    | none ↦ none
    | some decoded ↦ if nat_beq (length decoded) nonce_len then unseal_counter decoded else none
  ]

  -- The method Nonce.
  unfoldable pub nonce : NonceService → Option Text → NonceService × Option Text
  nonce ns random =
      let latest = increment ns.latest in (record ns { latest = latest }, encrypt random latest)

-- The scan of minUsed, from a first candidate.
unfoldable pub least : ℤ → List ℤ → ℤ
least min [] = min
least min (t ∷ ts) = least (if ltb_ℤ t min then t else min) ts

unfoldable pub min_used : NonceService → ℤ
unfolding least
min_used ns = least ns.latest ns.used

-- delete(used, k)
unfoldable pub delete : ℤ → List ℤ → List ℤ
delete k [] = []
delete k (t ∷ ts) = if t == k then delete k ts else t ∷ delete k ts

-- The end of Valid, after the counter went into `used`.
unfoldable pub make_room : NonceService → NonceService
unfolding min_used delete
make_room ns =
    if ltb ns.max_used (length ns.used)
    then (let min = min_used ns in record ns { earliest = min; used = delete min ns.used })
    else ns

-- The part of Valid under the mutex.
unfoldable pub use_counter : NonceService → ℤ → NonceService × Bool
unfolding make_room elem
use_counter ns c =
    if ltb_ℤ ns.latest c
    then (ns, false)
    else if ltb_ℤ ns.earliest c
    then (if elem c ns.used
        then (ns, false)
        else (make_room (record ns { used = c ∷ ns.used }), true))
    else (ns, false)

-- Valid after the call of decrypt: without a counter the nonce is rejected.
unfoldable pub use_decrypted : NonceService → Option ℤ → NonceService × Bool
unfolding use_counter
use_decrypted ns none = (ns, false)
use_decrypted ns (some counter) = use_counter ns counter

-- The method Valid.
unfoldable pub valid : Cipher → NonceService → Text → NonceService × Bool
valid c ns text = use_decrypted ns (decrypt c text)

-- What clients may ask for, with the bytes that the random source gives.
pub data Op : Type 0 where
  issue : Option Text → Op
  check : Text → Op

module _ (c : Cipher) where
  unfoldable pub step : NonceService → Op → NonceService
  step ns (issue random) = (nonce c ns random).0
  step ns (check text) = (valid c ns text).0

  unfoldable pub run : NonceService → List Op → NonceService
  run ns [] = ns
  run ns (op ∷ ops) = run (step ns op) ops
