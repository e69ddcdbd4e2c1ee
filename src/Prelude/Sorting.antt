-- ===== src/Prelude/Sorting.antt =====
-- sort.Strings, and lists of texts that are sorted with no repetition.
use boulder.Prelude.Tests.{◌==◌, elem, if◌then◌else◌, Bool-cases, ==-refl}
use boulder.Prelude.Text.{
  Text, text_Eq, text_eq_iff, text_ltb, text_ltb_irrefl, text_ltb_trans, text_ltb_total,
}
use mathlib.Core.Path.{◌≡◌, refl, ap, ap₂, sym, ◌∙◌}
use mathlib.Core.Logic.{inl, inr}
use mathlib.Core.Bool.{true, false, ◌||◌}
use mathlib.Core.List.{List, [], ◌∷◌}
use native.Mathlib.Omega.{arith}

unfoldable pub insert_text : Text → List Text → List Text
insert_text x [] = x ∷ []
insert_text x (y ∷ ys) = if text_ltb y x then y ∷ insert_text x ys else x ∷ y ∷ ys

unfoldable pub sort_strings : List Text → List Text
unfolding insert_text
sort_strings [] = []
sort_strings (x ∷ xs) = insert_text x (sort_strings xs)

abbrev pub Before : Text → List Text → Type 0
Before x [] = Unit {0}
Before x (y ∷ ys) = (text_ltb x y ≡ true) × Before x ys

-- Each entry is below all later ones.
abbrev pub IsSorted : List Text → Type 0
IsSorted [] = Unit {0}
IsSorted (x ∷ xs) = Before x xs × IsSorted xs

abbrev pub Distinct : List Text → Type 0
Distinct [] = Unit {0}
Distinct (x ∷ xs) = (elem x xs ≡ false) × Distinct xs

Before-mono : (x y : Text) (ys : List Text) → text_ltb x y ≡ true → Before y ys → Before x ys
Before-mono x y [] h b = tt
Before-mono x y (z ∷ ys) h b = (text_ltb_trans x y z h b.0, Before-mono x y ys h b.1)

pub elem-insert_text :
    (z x : Text) (ys : List Text) → elem z (insert_text x ys) ≡ (x == z || elem z ys)
unfolding elem insert_text
elem-insert_text z x [] = refl
elem-insert_text z x (y ∷ ys) = ground (arith, elem-insert_text z x ys)

pub elem-sort_strings : (z : Text) (xs : List Text) → elem z (sort_strings xs) ≡ elem z xs
unfolding elem sort_strings
elem-sort_strings z [] = refl
elem-sort_strings z (x ∷ xs) =
    ground (arith, elem-insert_text z x (sort_strings xs), elem-sort_strings z xs)

Before-insert_text :
    (w x : Text) (ys : List Text) → text_ltb w x ≡ true → Before w ys → Before w (insert_text x ys)
unfolding insert_text
Before-insert_text w x [] h b = (h, tt)
Before-insert_text w x (y ∷ ys) h b = ground (arith, Before-insert_text w x ys h b.1)

insert_text-IsSorted :
    (x : Text) (ys : List Text) → elem x ys ≡ false → IsSorted ys → IsSorted (insert_text x ys)
unfolding insert_text elem
insert_text-IsSorted x [] n s = (tt, tt)
insert_text-IsSorted x (y ∷ ys) n s = elim (Bool-cases (text_ltb y x)) [
  | inl below ↦
      rw below (Before-insert_text y x ys below s.0, insert_text-IsSorted x ys (ground arith) s.1)
  | inr above ↦
      let h : text_ltb x y ≡ true = ground (arith, text_ltb_total x y, text_eq_iff y x) in
      rw above ((h, Before-mono x y ys h s.0), s)
]

pub sort_strings-IsSorted : (xs : List Text) → Distinct xs → IsSorted (sort_strings xs)
unfolding sort_strings
sort_strings-IsSorted [] d = tt
sort_strings-IsSorted (x ∷ xs) d =
    insert_text-IsSorted x (sort_strings xs) (elem-sort_strings x xs ∙ d.0)
      (sort_strings-IsSorted xs d.1)

Before-elem : (x z : Text) (ys : List Text) → Before x ys → elem z ys ≡ true → text_ltb x z ≡ true
unfolding elem
Before-elem x z [] b h = cc
Before-elem x z (y ∷ ys) b h = ground (arith, text_eq_iff y z, Before-elem x z ys b.1)

Before-not_elem : (x : Text) (ys : List Text) → Before x ys → elem x ys ≡ false
Before-not_elem x ys b = elim (Bool-cases (elem x ys)) [
  | inl y ↦ ground (arith, Before-elem x x ys b y, text_ltb_irrefl x)
  | inr n ↦ n
]

not_head :
    (x y : Text) (ys : List Text) → Before y ys → text_ltb x y ≡ true → elem x (y ∷ ys) ≡ false
unfolding elem
not_head x y ys b h = elim (Bool-cases (elem x ys)) [
  | inl m ↦ ground (arith, text_ltb_trans x y x h (Before-elem y x ys b m), text_ltb_irrefl x)
  | inr n ↦ ground (arith, n, text_eq_iff y x, text_ltb_irrefl x)
]

same_head :
    (x y : Text) (xs ys : List Text)
    → Before x xs
    → Before y ys
    → elem x (y ∷ ys) ≡ true
    → elem y (x ∷ xs) ≡ true
    → x ≡ y
same_head x y xs ys b c h k =
    text_ltb_total x y
      (elim (Bool-cases (text_ltb x y)) [ inl l ↦ ground (arith, not_head x y ys c l) | inr g ↦ g ])
      (elim (Bool-cases (text_ltb y x)) [ inl l ↦ ground (arith, not_head y x xs b l) | inr g ↦ g ])

elem_head : (x : Text) (xs : List Text) → elem x (x ∷ xs) ≡ true
unfolding elem
elem_head x xs = ground (arith, ==-refl x)

elem_nil : (x : Text) → elem x [] ≡ false
unfolding elem
elem_nil x = refl

same_tail :
    (x z : Text) (xs ys : List Text)
    → Before x xs
    → Before x ys
    → elem z (x ∷ xs) ≡ elem z (x ∷ ys)
    → elem z xs ≡ elem z ys
unfolding elem
same_tail x z xs ys b c h =
    ground (arith, text_eq_iff x z, Before-not_elem x xs b, Before-not_elem x ys c)

-- A sorted list with no repetition is determined by its members.
pub IsSorted-ext :
    (xs ys : List Text) → IsSorted xs → IsSorted ys → ((z : Text) → elem z xs ≡ elem z ys) → xs ≡ ys
IsSorted-ext [] [] s t h = refl
IsSorted-ext [] (y ∷ ys) s t h = cc (h y, elem_head y ys, elem_nil y)
IsSorted-ext (x ∷ xs) [] s t h = cc (h x, elem_head x xs, elem_nil x)
IsSorted-ext (x ∷ xs) (y ∷ ys) s t h =
    let e : x ≡ y =
      same_head x y xs ys s.0 t.0 (sym (h x) ∙ elem_head x xs) (h y ∙ elem_head y ys) in
    let rest : xs ≡ ys =
      IsSorted-ext xs ys s.1 t.1
        λ z. same_tail x z xs ys s.0 (rw e t.0) (h z ∙ ap (λ w. elem z (w ∷ ys)) (sym e)) in
    ap₂ ◌∷◌ e rest
