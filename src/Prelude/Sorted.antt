-- ===== src/Prelude/Sorted.antt =====
-- sort.Strings on lists with repetitions: sorted once, a list stays as it is.
use boulder.Prelude.Tests.{Bool-cases}
use boulder.Prelude.Text.{Text, text_ltb, text_ltb_irrefl, text_ltb_trans, text_ltb_total}
use boulder.Prelude.Sorting.{insert_text, sort_strings}
use boulder.Prelude.Lists.{length}
use mathlib.Core.Path.{◌≡◌, refl}
use mathlib.Core.Logic.{inl, inr}
use mathlib.Core.Bool.{true, false}
use mathlib.Core.List.{List, [], ◌∷◌}
use native.Mathlib.Omega.{arith}

-- No entry is below the text, and no entry is below an earlier one.
abbrev NotAbove : Text → List Text → Type 0
NotAbove x [] = Unit {0}
NotAbove x (y ∷ ys) = (text_ltb y x ≡ false) × NotAbove x ys

abbrev InOrder : List Text → Type 0
InOrder [] = Unit {0}
InOrder (x ∷ xs) = NotAbove x xs × InOrder xs

text_ltb_asymm : (x y : Text) → text_ltb x y ≡ true → text_ltb y x ≡ false
text_ltb_asymm x y h = ground (arith, text_ltb_trans x y x h, text_ltb_irrefl x)

not_below_trans :
    (x y z : Text) → text_ltb y x ≡ false → text_ltb z y ≡ false → text_ltb z x ≡ false
not_below_trans x y z h k = elim (Bool-cases (text_ltb z x)) [
  | inr n ↦ n
  | inl zx ↦ elim (Bool-cases (text_ltb y z)) [
    | inl yz ↦ absurd (cc (text_ltb_trans y z x yz zx, h))
    | inr n ↦ absurd (cc (text_ltb_total y z n k, zx, h))
  ]
]

NotAbove-mono : (x y : Text) (ys : List Text) → text_ltb y x ≡ false → NotAbove y ys → NotAbove x ys
NotAbove-mono x y [] h b = tt
NotAbove-mono x y (z ∷ ys) h b = (not_below_trans x y z h b.0, NotAbove-mono x y ys h b.1)

NotAbove-insert_text :
    (w x : Text) (ys : List Text)
    → text_ltb x w ≡ false
    → NotAbove w ys
    → NotAbove w (insert_text x ys)
unfolding insert_text
NotAbove-insert_text w x [] h b = (h, tt)
NotAbove-insert_text w x (y ∷ ys) h b = ground (arith, NotAbove-insert_text w x ys h b.1)

insert_text-InOrder : (x : Text) (ys : List Text) → InOrder ys → InOrder (insert_text x ys)
unfolding insert_text
insert_text-InOrder x [] s = (tt, tt)
insert_text-InOrder x (y ∷ ys) s = elim (Bool-cases (text_ltb y x)) [
  | inl below ↦
      rw below
        (NotAbove-insert_text y x ys (text_ltb_asymm y x below) s.0, insert_text-InOrder x ys s.1)
  | inr above ↦ rw above ((above, NotAbove-mono x y ys above s.0), s)
]

sort_strings-InOrder : (xs : List Text) → InOrder (sort_strings xs)
unfolding sort_strings
sort_strings-InOrder [] = tt
sort_strings-InOrder (x ∷ xs) = insert_text-InOrder x (sort_strings xs) (sort_strings-InOrder xs)

insert_text-first : (x : Text) (ys : List Text) → NotAbove x ys → insert_text x ys ≡ x ∷ ys
unfolding insert_text
insert_text-first x [] b = refl
insert_text-first x (y ∷ ys) b = rw (b.0) refl

InOrder-sorted : (xs : List Text) → InOrder xs → sort_strings xs ≡ xs
unfolding sort_strings
InOrder-sorted [] s = refl
InOrder-sorted (x ∷ xs) s = rw (InOrder-sorted xs s.1) (insert_text-first x xs s.0)

pub sort_strings_idem : (xs : List Text) → sort_strings (sort_strings xs) ≡ sort_strings xs
sort_strings_idem xs = InOrder-sorted (sort_strings xs) (sort_strings-InOrder xs)

length-insert_text : (x : Text) (ys : List Text) → length (insert_text x ys) ≡ length (x ∷ ys)
unfolding insert_text
length-insert_text x [] = refl
length-insert_text x (y ∷ ys) = ground (arith, length-insert_text x ys)

pub length-sort_strings : (xs : List Text) → length (sort_strings xs) ≡ length xs
unfolding sort_strings
length-sort_strings [] = refl
length-sort_strings (x ∷ xs) =
    omega (arith, length-insert_text x (sort_strings xs), length-sort_strings xs)
