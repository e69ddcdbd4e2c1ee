-- ===== src/Nonce/Used.antt =====
-- The set of used counters of nonce/nonce.go, and the scan for its least entry.
use boulder.Prelude.Int.{ℤ, pos_part, neg_part, eq_of_parts, int_eq, int_beq_iff}
use boulder.Prelude.{
  suc, ◌+◌, ◌≤◌, ◌<◌, ◌≡◌, refl, true, false, List, [], ◌∷◌, arith, if◌then◌else◌, ◌==◌, elem,
  length, Bool-cases, ◌⊎◌, inl, inr,
}
use boulder.Nonce.Defs.{least, delete}

infix 50 ◌<ℤ◌
abbrev pub ◌<ℤ◌ : ℤ → ℤ → Type 0
a <ℤ b = pos_part a + neg_part b < pos_part b + neg_part a

infix 50 ◌≤ℤ◌
abbrev pub ◌≤ℤ◌ : ℤ → ℤ → Type 0
a ≤ℤ b = pos_part a + neg_part b ≤ pos_part b + neg_part a

abbrev pub Above : ℤ → List ℤ → Type 0
Above e [] = Unit {0}
Above e (t ∷ ts) = (e <ℤ t) × Above e ts

abbrev pub AtMost : ℤ → List ℤ → Type 0
AtMost l [] = Unit {0}
AtMost l (t ∷ ts) = (t ≤ℤ l) × AtMost l ts

abbrev pub Distinct : List ℤ → Type 0
Distinct [] = Unit {0}
Distinct (t ∷ ts) = (elem t ts ≡ false) × Distinct ts

pub Above-elem : (e c : ℤ) (ts : List ℤ) → Above e ts → elem c ts ≡ true → e <ℤ c
unfolding elem
Above-elem e c [] h m = cc
Above-elem e c (t ∷ ts) h m = ground (arith, int_beq_iff t c, Above-elem e c ts h.1)

pub AtMost-elem : (l c : ℤ) (ts : List ℤ) → AtMost l ts → elem c ts ≡ true → c ≤ℤ l
unfolding elem
AtMost-elem e c [] h m = cc
AtMost-elem e c (t ∷ ts) h m = ground (arith, int_beq_iff t c, AtMost-elem e c ts h.1)

pub AtMost-mono : (l m : ℤ) (ts : List ℤ) → l ≤ℤ m → AtMost l ts → AtMost m ts
AtMost-mono l m [] h a = tt
AtMost-mono l m (t ∷ ts) h a = (omega arith, AtMost-mono l m ts h a.1)

pub least-le : (m : ℤ) (ts : List ℤ) → least m ts ≤ℤ m
unfolding least
least-le m [] = omega arith
least-le m (t ∷ ts) = ground (arith, least-le t ts, least-le m ts)

pub least-above : (e m : ℤ) (ts : List ℤ) → e <ℤ m → Above e ts → e <ℤ least m ts
unfolding least
least-above e m [] h a = h
least-above e m (t ∷ ts) h a = ground (arith, least-above e t ts, least-above e m ts)

pub least-le_elem : (m c : ℤ) (ts : List ℤ) → elem c ts ≡ true → least m ts ≤ℤ c
unfolding least elem
least-le_elem m c [] h = cc
least-le_elem m c (t ∷ ts) h = ground (
  arith,
  int_beq_iff t c,
  least-le t ts,
  least-le m ts,
  least-le_elem t c ts,
  least-le_elem m c ts,
)

least-cases : (m : ℤ) (ts : List ℤ) → (least m ts ≡ m) ⊎ (elem (least m ts) ts ≡ true)
unfolding least elem
least-cases m [] = inl refl
least-cases m (t ∷ ts) =
    ground (arith, int_beq_iff t (least t ts), least-cases t ts, least-cases m ts)

-- The scan that starts at or above an entry ends at an entry.
pub elem-least : (m c : ℤ) (ts : List ℤ) → c ≤ℤ m → elem c ts ≡ true → elem (least m ts) ts ≡ true
elem-least m c ts h e = ground (arith, least-cases m ts, least-le_elem m c ts e, eq_of_parts m c)

abbrev AtLeast : ℤ → List ℤ → Type 0
AtLeast l [] = Unit {0}
AtLeast l (t ∷ ts) = (l ≤ℤ t) × AtLeast l ts

pub least-AtLeast : (m : ℤ) (ts : List ℤ) → AtLeast (least m ts) ts
unfolding least
least-AtLeast m [] = tt
least-AtLeast m (t ∷ ts) =
    ground (arith, least-le t ts, least-le m ts, least-AtLeast t ts, least-AtLeast m ts)

pub elem-delete :
    (k c : ℤ) (ts : List ℤ) → elem c (delete k ts) ≡ (if k == c then false else elem c ts)
unfolding elem delete
elem-delete k c [] = ground arith
elem-delete k c (t ∷ ts) =
    ground (arith, int_beq_iff t k, int_beq_iff t c, int_beq_iff k c, elem-delete k c ts)

pub Distinct-delete : (k : ℤ) (ts : List ℤ) → Distinct ts → Distinct (delete k ts)
unfolding delete
Distinct-delete k [] d = tt
Distinct-delete k (t ∷ ts) d = ground (arith, elem-delete k t ts, Distinct-delete k ts d.1)

delete_absent : (k : ℤ) (ts : List ℤ) → elem k ts ≡ false → delete k ts ≡ ts
unfolding delete elem
delete_absent k [] h = refl
delete_absent k (t ∷ ts) h = ground (arith, delete_absent k ts)

pub length-delete :
    (k : ℤ) (ts : List ℤ) → Distinct ts → elem k ts ≡ true → suc (length (delete k ts)) ≡ length ts
unfolding delete elem
length-delete k [] d h = cc
length-delete k (t ∷ ts) d h = elim (Bool-cases (t == k)) [
  | inl y ↦ ground (arith, int_beq_iff t k, delete_absent k ts)
  | inr n ↦ ground (arith, length-delete k ts d.1)
]

pub Above-delete : (k : ℤ) (ts : List ℤ) → AtLeast k ts → Above k (delete k ts)
unfolding delete
Above-delete k [] h = tt
Above-delete k (t ∷ ts) h = ground (arith, int_beq_iff t k, eq_of_parts t k, Above-delete k ts h.1)

pub Above-delete_other : (e k : ℤ) (ts : List ℤ) → Above e ts → Above e (delete k ts)
unfolding delete
Above-delete_other e k [] h = tt
Above-delete_other e k (t ∷ ts) h = ground (arith, Above-delete_other e k ts h.1)

pub AtMost-delete : (e k : ℤ) (ts : List ℤ) → AtMost e ts → AtMost e (delete k ts)
unfolding delete
AtMost-delete e k [] h = tt
AtMost-delete e k (t ∷ ts) h = ground (arith, AtMost-delete e k ts h.1)
