-- ===== src/Prelude/Text.antt =====
-- Go strings and byte slices, as lists of bytes, and the functions of the package `strings` that the
-- program calls, written out.
use Prim.Native.Nat.{ℕ, ◌+◌}
use Prim.Native.Char.{code}
use Prim.Native.String.{String}
use mathlib.Core.Path.{◌≡◌, refl, ap, ◌∙◌}
use mathlib.Core.Logic.{◌↔◌, inl, inr}
use mathlib.Core.Bool.{Bool, true, false, not, ◌&&◌, ◌||◌}
use mathlib.Core.List.{List, [], ◌∷◌, ◌++◌, map}
use native.Mathlib.Omega.{arith}
use boulder.Prelude.Tests.{Bool-cases, ltb, leb, nat_beq, if◌then◌else◌, Eq}

abbrev pub Text : Type 0
Text = List ℕ

-- The bytes of an ASCII literal.
abbrev pub codes : String → Text
codes String.[] = []
codes (String.◌∷◌ c s) = code c ∷ codes s

unfoldable pub text_eq : Text → Text → Bool
text_eq [] [] = true
text_eq [] (y ∷ ys) = false
text_eq (x ∷ xs) [] = false
text_eq (x ∷ xs) (y ∷ ys) = nat_beq x y && text_eq xs ys

text_eq_sound : (xs ys : Text) → text_eq xs ys ≡ true → xs ≡ ys
unfolding text_eq
text_eq_sound [] [] h = refl
text_eq_sound [] (y ∷ ys) h = cc
text_eq_sound (x ∷ xs) [] h = cc
text_eq_sound (x ∷ xs) (y ∷ ys) h = ground (arith, text_eq_sound xs ys)

pub text_eq_refl : (xs : Text) → text_eq xs xs ≡ true
unfolding text_eq
text_eq_refl [] = refl
text_eq_refl (x ∷ xs) = ground (arith, text_eq_refl xs)

pub text_eq_iff : (xs ys : Text) → (text_eq xs ys ≡ true) ↔ (xs ≡ ys)
text_eq_iff xs ys = (text_eq_sound xs ys, λ e. rw e (text_eq_refl ys))

instance abbrev pub text_Eq : Eq Text
text_Eq = record { beq = text_eq; beq_iff = text_eq_iff }

-- Order of strings: by bytes.
unfoldable pub text_ltb : Text → Text → Bool
text_ltb [] [] = false
text_ltb [] (y ∷ ys) = true
text_ltb (x ∷ xs) [] = false
text_ltb (x ∷ xs) (y ∷ ys) = ltb x y || (nat_beq x y && text_ltb xs ys)

pub text_ltb_irrefl : (xs : Text) → text_ltb xs xs ≡ false
unfolding text_ltb
text_ltb_irrefl [] = refl
text_ltb_irrefl (x ∷ xs) = ground (arith, text_ltb_irrefl xs)

pub text_ltb_trans :
    (xs ys zs : Text) → text_ltb xs ys ≡ true → text_ltb ys zs ≡ true → text_ltb xs zs ≡ true
unfolding text_ltb
text_ltb_trans [] [] zs h k = cc
text_ltb_trans [] (y ∷ ys) [] h k = cc
text_ltb_trans [] (y ∷ ys) (z ∷ zs) h k = refl
text_ltb_trans (x ∷ xs) [] zs h k = cc
text_ltb_trans (x ∷ xs) (y ∷ ys) [] h k = cc
text_ltb_trans (x ∷ xs) (y ∷ ys) (z ∷ zs) h k = ground (arith, text_ltb_trans xs ys zs)

pub text_ltb_total : (xs ys : Text) → text_ltb xs ys ≡ false → text_ltb ys xs ≡ false → xs ≡ ys
unfolding text_ltb
text_ltb_total [] [] h k = refl
text_ltb_total [] (y ∷ ys) h k = cc
text_ltb_total (x ∷ xs) [] h k = cc
text_ltb_total (x ∷ xs) (y ∷ ys) h k = ground (arith, text_ltb_total xs ys)

-- strings.Split at a one-byte separator: always one piece more than separators.
abbrev push_first : ℕ → List Text → List Text
push_first c [] = (c ∷ []) ∷ []
push_first c (l ∷ ls) = (c ∷ l) ∷ ls

unfoldable pub split : ℕ → Text → List Text
split sep [] = [] ∷ []
split sep (c ∷ s) = let rest = split sep s in if nat_beq c sep then [] ∷ rest else push_first c rest

-- strings.Join with a one-byte separator.
unfoldable pub join : ℕ → List Text → Text
join sep [] = []
join sep (l ∷ []) = l
join sep (l ∷ m ∷ ls) = l ++ sep ∷ join sep (m ∷ ls)

join-push_first :
    (sep c : ℕ) (l : Text) (ls : List Text) → join sep ((c ∷ l) ∷ ls) ≡ c ∷ join sep (l ∷ ls)
unfolding join
join-push_first sep c l [] = refl
join-push_first sep c l (m ∷ ls) = refl

pub split_shape : (sep : ℕ) (s : Text) → (l : Text) × (ls : List Text) × (split sep s ≡ l ∷ ls)
unfolding split
split_shape sep [] = ([], [], refl)
split_shape sep (c ∷ s) =
    let (l, ls, e) = split_shape sep s in
    elim (Bool-cases (nat_beq c sep)) [
      | inl y ↦ ([], split sep s, ground arith)
      | inr n ↦ (c ∷ l, ls, ground arith)
    ]

-- Splitting loses nothing.
pub join-split : (sep : ℕ) (s : Text) → join sep (split sep s) ≡ s
unfolding split join
join-split sep [] = refl
join-split sep (c ∷ s) =
    let (l, ls, e) = split_shape sep s in
    ground (arith, join-split sep s, join-push_first sep c l ls)

-- No byte of the text is the given one.
unfoldable pub lacks : ℕ → Text → Bool
lacks sep [] = true
lacks sep (c ∷ s) = not (nat_beq c sep) && lacks sep s

split-append :
    (sep : ℕ) (l s : Text) → lacks sep l ≡ true → split sep (l ++ sep ∷ s) ≡ l ∷ split sep s
unfolding split lacks
split-append sep [] s h = ground arith
split-append sep (c ∷ l) s h = ground (arith, split-append sep l s)

split-lacks : (sep : ℕ) (l : Text) → lacks sep l ≡ true → split sep l ≡ l ∷ []
unfolding split lacks
split-lacks sep [] h = refl
split-lacks sep (c ∷ l) h = ground (arith, split-lacks sep l)

abbrev pub AllLack : ℕ → List Text → Type 0
AllLack sep [] = Unit {0}
AllLack sep (l ∷ ls) = (lacks sep l ≡ true) × AllLack sep ls

-- The pieces come back if none holds the separator.
pub split-join :
    (sep : ℕ) (l : Text) (ls : List Text)
    → AllLack sep (l ∷ ls)
    → split sep (join sep (l ∷ ls)) ≡ l ∷ ls
unfolding join
split-join sep l [] h = split-lacks sep l h.0
split-join sep l (m ∷ ls) h =
    split-append sep l (join sep (m ∷ ls)) h.0 ∙ ap (λ t. l ∷ t) (split-join sep m ls h.1)

-- strings.HasSuffix for a one-byte suffix, and the last byte.
unfoldable pub last_is : ℕ → Text → Bool
last_is b [] = false
last_is b (c ∷ []) = nat_beq c b
last_is b (c ∷ d ∷ s) = last_is b (d ∷ s)

-- strings.ToLower on ASCII letters. Go also lowers other letters, and U+0130 and U+212A to ASCII ones;
-- their bytes stay as they are here.
unfoldable pub lower_byte : ℕ → ℕ
lower_byte c = if leb b'A' c && leb c b'Z' then c + 32 else c

unfoldable pub to_lower : Text → Text
unfolding lower_byte
to_lower s = map lower_byte s

pub lower_byte_idem : (c : ℕ) → lower_byte (lower_byte c) ≡ lower_byte c
unfolding lower_byte
lower_byte_idem c = ground arith

pub to_lower_idem : (s : Text) → to_lower (to_lower s) ≡ to_lower s
unfolding to_lower
to_lower_idem [] = refl
to_lower_idem (c ∷ s) = cc (lower_byte_idem c, to_lower_idem s)
