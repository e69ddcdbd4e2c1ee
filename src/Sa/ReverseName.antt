-- ===== src/Sa/ReverseName.antt =====
-- sa/sa.go: reverseName. The label order is reversed, so that the names under a domain share a prefix.
use mathlib.Core.List.{
  append_assoc, map-append, reverse, reverse-append, reverse-cons, reverse-reverse,
}
use boulder.Prelude.Text.{
  Text, split, join, split_shape, join-split, split-join, lacks, AllLack, to_lower, lower_byte,
}
use boulder.Prelude.{ℕ, ◌≡◌, ◌≢◌, refl, ap, ◌∙◌, subst, true, List, [], ◌∷◌, ◌++◌, map, arith}

-- strings.Split, the swap of the labels, and strings.Join
unfoldable pub reverse_name : Text → Text
reverse_name domain = join b'.' (reverse (split b'.' domain))

-- A separator splits a text into the labels before it and those after it.
split-sep : (sep : ℕ) (a b : Text) → split sep (a ++ sep ∷ b) ≡ split sep a ++ split sep b
unfolding split
split-sep sep [] b = ground arith
split-sep sep (c ∷ a) b = let (l, ls, e) = split_shape sep a in ground (arith, split-sep sep a b)

join-append :
    (sep : ℕ) (l m : Text) (ls ms : List Text)
    → join sep ((l ∷ ls) ++ m ∷ ms) ≡ join sep (l ∷ ls) ++ sep ∷ join sep (m ∷ ms)
unfolding join
join-append sep l m [] ms = refl
join-append sep l m (k ∷ ls) ms =
    rw
      (
        join-append sep k m ls ms,
        append_assoc l (sep ∷ join sep (k ∷ ls)) (sep ∷ join sep (m ∷ ms)),
      )
      refl

-- The pieces of a text lack the separator, and every byte that the text lacks.
split-lacks_sep : (sep : ℕ) (s : Text) → AllLack sep (split sep s)
unfolding split lacks
split-lacks_sep sep [] = (refl, tt)
split-lacks_sep sep (c ∷ s) =
    let (l, ls, e) = split_shape sep s in ground (arith, split-lacks_sep sep s)

split-lacks_all : (sep b : ℕ) (s : Text) → lacks b s ≡ true → AllLack b (split sep s)
unfolding split lacks
split-lacks_all sep b [] h = (refl, tt)
split-lacks_all sep b (c ∷ s) h =
    let (l, ls, e) = split_shape sep s in ground (arith, split-lacks_all sep b s)

AllLack-append : (b : ℕ) (ls ms : List Text) → AllLack b ls → AllLack b ms → AllLack b (ls ++ ms)
AllLack-append b [] ms h k = k
AllLack-append b (l ∷ ls) ms h k = (h.0, AllLack-append b ls ms h.1 k)

AllLack-reverse : (b : ℕ) (ls : List Text) → AllLack b ls → AllLack b (reverse ls)
AllLack-reverse b [] h = tt
AllLack-reverse b (l ∷ ls) h =
    rw (reverse-cons l ls)
      (AllLack-append b (reverse ls) (l ∷ []) (AllLack-reverse b ls h.1) (h.0, tt))

pub lacks-append :
    (b : ℕ) (s t : Text) → lacks b s ≡ true → lacks b t ≡ true → lacks b (s ++ t) ≡ true
unfolding lacks
lacks-append b [] t h k = k
lacks-append b (c ∷ s) t h k = ground (arith, lacks-append b s t)

lacks-join : (sep b : ℕ) (ls : List Text) → sep ≢ b → AllLack b ls → lacks b (join sep ls) ≡ true
unfolding lacks join
lacks-join sep b [] ne h = refl
lacks-join sep b (l ∷ []) ne h = h.0
lacks-join sep b (l ∷ m ∷ ls) ne h =
    let rest = lacks-join sep b (m ∷ ls) ne h.1 in
    lacks-append b l (sep ∷ join sep (m ∷ ls)) h.0 (ground arith)

pub lacks-reverse_name :
    (b : ℕ) (d : Text) → b'.' ≢ b → lacks b d ≡ true → lacks b (reverse_name d) ≡ true
unfolding reverse_name
lacks-reverse_name b d ne h =
    lacks-join b'.' b (reverse (split b'.' d)) ne
      (AllLack-reverse b (split b'.' d) (split-lacks_all b'.' b d h))

-- The labels of a text, backwards, are a list with a first label.
append-shape : (l : Text) (ls : List Text) → (m : Text) × (ms : List Text) × (ls ++ l ∷ [] ≡ m ∷ ms)
append-shape l [] = (l, [], refl)
append-shape l (k ∷ ks) = (k, ks ++ l ∷ [], refl)

labels_back : (d : Text) → (m : Text) × (ms : List Text) × (reverse (split b'.' d) ≡ m ∷ ms)
labels_back d =
    let (l, ls, e) = split_shape b'.' d in
    let (m, ms, f) = append-shape l (reverse ls) in (m, ms, ap reverse e ∙ reverse-cons l ls ∙ f)

-- Reversed twice, a name is what it was.
pub reverse_name-reverse_name : (d : Text) → reverse_name (reverse_name d) ≡ d
unfolding reverse_name
reverse_name-reverse_name d =
    let (m, ms, e) = labels_back d in
    let back : split b'.' (join b'.' (reverse (split b'.' d))) ≡ reverse (split b'.' d) = rw e (
      split-join b'.' m ms
        (subst (AllLack b'.') e (AllLack-reverse b'.' (split b'.' d) (split-lacks_sep b'.' d)))) in
    rw (back, reverse-reverse (split b'.' d)) (join-split b'.' d)

-- What stands behind a dot comes first.
pub reverse_name-append :
    (a b : Text) → reverse_name (a ++ b'.' ∷ b) ≡ reverse_name b ++ b'.' ∷ reverse_name a
unfolding reverse_name
reverse_name-append a b =
    let (m, ms, e) = labels_back a in
    let (k, ks, f) = labels_back b in
    rw (split-sep b'.' a b, reverse-append (split b'.' a) (split b'.' b), e, f)
      (join-append b'.' k m ks ms)

split-to_lower : (s : Text) → split b'.' (to_lower s) ≡ map to_lower (split b'.' s)
unfolding split to_lower lower_byte
split-to_lower [] = refl
split-to_lower (c ∷ s) = let (l, ls, e) = split_shape b'.' s in ground (arith, split-to_lower s)

join-to_lower : (ls : List Text) → join b'.' (map to_lower ls) ≡ to_lower (join b'.' ls)
unfolding join to_lower lower_byte
join-to_lower [] = refl
join-to_lower (l ∷ []) = refl
join-to_lower (l ∷ m ∷ ls) =
    rw (map-append lower_byte l (b'.' ∷ join b'.' (m ∷ ls)), join-to_lower (m ∷ ls)) refl

reverse-map {ℓ κ} :
    {A : Type ℓ} {B : Type κ} (f : A → B) (ls : List A) → reverse (map f ls) ≡ map f (reverse ls)
reverse-map f [] = refl
reverse-map f (l ∷ ls) =
    rw
      (
        reverse-cons (f l) (map f ls),
        reverse-map f ls,
        reverse-cons l ls,
        map-append f (reverse ls) (l ∷ []),
      )
      refl

-- Case does not matter to the order of the labels.
pub reverse_name-to_lower : (d : Text) → reverse_name (to_lower d) ≡ to_lower (reverse_name d)
unfolding reverse_name
reverse_name-to_lower d =
    rw
      (
        split-to_lower d,
        reverse-map to_lower (split b'.' d),
        join-to_lower (reverse (split b'.' d)),
      )
      refl
