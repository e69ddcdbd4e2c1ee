-- ===== src/Sa/IpRange.antt =====
-- sa/sa.go: incrementIP and ipRange. An address is its bytes, 4 or 16 of them.
use boulder.Prelude.Text.{Text}
use boulder.Prelude.{
  ℕ, ◌+◌, ◌-◌, ◌^◌, ◌/◌, Bool, false, ◌&&◌, [], ◌∷◌, ◌++◌, if◌then◌else◌, ltb, nat_beq, all, length,
  take, replicate,
}
use boulder.Nonce.Bytes.{set_bytes, big_bytes}

-- The sum has at most 17 bytes.
unfoldable pub increment_ip : Text → ℕ → Text
increment_ip ip index =
    let result = big_bytes 17 (set_bytes 0 ip + 2 ^ (128 - index)) in
    if ltb 16 (length result) then replicate 16 255 else replicate (16 - length result) 0 ++ result

-- The prefix of an IPv4 address in 16 bytes.
abbrev pub v4_prefix : Text
v4_prefix = replicate 10 0 ++ 255 ∷ 255 ∷ []

-- net.IP.To16 and whether To4 gives an address.
unfoldable pub to16 : Text → Text
to16 ip = if nat_beq (length ip) 4 then v4_prefix ++ ip else ip

unfoldable pub is_v4 : Text → Bool
is_v4 (a ∷ b ∷ c ∷ d ∷ e ∷ f ∷ g ∷ h ∷ i ∷ j ∷ k ∷ l ∷ rest) =
    all (λ x. nat_beq x 0) (a ∷ b ∷ c ∷ d ∷ e ∷ f ∷ g ∷ h ∷ i ∷ j ∷ [])
    && nat_beq k 255
    && nat_beq l 255
is_v4 _ = false

-- ip.Mask(net.CIDRMask(8 * bytes, 128)): a mask of whole bytes.
unfoldable pub mask_bytes : ℕ → Text → Text
mask_bytes bytes ip = take bytes ip ++ replicate (16 - bytes) 0

abbrev pub mask_length : Text → ℕ
mask_length ip = if is_v4 ip then 128 else 48

unfoldable pub ip_range : Text → Text × Text
ip_range ip =
    let ip = to16 ip in
    let begin = mask_bytes (mask_length ip / 8) ip in (begin, increment_ip begin (mask_length ip))
