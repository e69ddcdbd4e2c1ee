-- ===== src/Sa/ToyCollation.antt =====
-- A toy collation that meets what MySQL documents, for the examples.
use boulder.Prelude.Text.{Text, text_Eq, text_eq_iff, lacks, to_lower, lower_byte}
use boulder.Prelude.{
  ℕ, ◌<◌, ◌≡◌, refl, sym, ap, ◌∙◌, Bool, true, false, ◌&&◌, ◌||◌, [], ◌∷◌, ◌++◌, arith, nat_beq,
  if◌then◌else◌, ◌==◌,
}
use mathlib.Core.List.{map-append}
use boulder.Sa.IssuedNames.{Collation}
use boulder.Sa.NameCounts.{IsDocumented}

unfoldable pub like : Text → Text → Bool
like [] [] = true
like [] (c ∷ s) = false
like (q ∷ p) [] = nat_beq q b'%' && like p []
like (q ∷ p) (c ∷ s) =
    let skip = like p (c ∷ s) in
    let eat = like (q ∷ p) s in
    let next = like p s in
    if nat_beq q b'%' then skip || eat else (nat_beq q b'_' || nat_beq q c) && next

like-any : (s : Text) → like (b'%' ∷ []) s ≡ true
unfolding like
like-any [] = refl
like-any (c ∷ s) = ground (arith, like-any s)

-- A text with no wildcard, and then any text.
like-prefix :
    (p s : Text)
    → lacks b'%' p ≡ true
    → lacks b'_' p ≡ true
    → like (p ++ b'%' ∷ []) s ≡ true
    → (q : Text) × (s ≡ p ++ q)
unfolding like lacks
like-prefix [] s h k e = (s, refl)
like-prefix (c ∷ p) [] h k e = ground arith
like-prefix (c ∷ p) (d ∷ s) h k e =
    let (q, f) = like-prefix p s (ground arith) (ground arith) (ground arith) in (q, ground arith)

prefix-like : (p q : Text) → lacks b'%' p ≡ true → like (p ++ b'%' ∷ []) (p ++ q) ≡ true
unfolding like lacks
prefix-like [] q h = like-any q
prefix-like (c ∷ p) q h = ground (arith, prefix-like p q)

lacks-to_lower : (s : Text) (b : ℕ) → b < b'A' → lacks b s ≡ true → lacks b (to_lower s) ≡ true
unfolding lacks to_lower lower_byte
lacks-to_lower [] b h k = refl
lacks-to_lower (c ∷ s) b h k = ground (arith, lacks-to_lower s b h)

lacks_underscore : (s : Text) → lacks b'_' s ≡ true → lacks b'_' (to_lower s) ≡ true
unfolding lacks to_lower lower_byte
lacks_underscore [] k = refl
lacks_underscore (c ∷ s) k = ground (arith, lacks_underscore s)

abbrev pub toy_collation : Collation
toy_collation = record {
  same = λ s t. to_lower s == to_lower t;
  like = λ p s. like (to_lower p) (to_lower s);
}

lower_any : (p : Text) → to_lower (p ++ b'%' ∷ []) ≡ to_lower p ++ b'%' ∷ []
unfolding to_lower lower_byte
lower_any p = map-append lower_byte p (b'%' ∷ [])

pub toy-IsDocumented : IsDocumented toy_collation
toy-IsDocumented = record {
  same_iff = λ s t h k. text_eq_iff (to_lower s) (to_lower t);
  like_iff = λ p s any one escape.
      let free = lacks-to_lower p b'%' (omega arith) any in
      (
        λ e.
            like-prefix (to_lower p) (to_lower s) free (lacks_underscore p one)
              (ap (λ r. like r (to_lower s)) (sym (lower_any p)) ∙ e),
        λ q.
            ap (λ r. like r (to_lower s)) (lower_any p)
            ∙ ap (λ r. like (to_lower p ++ b'%' ∷ []) r) q.1
            ∙ prefix-like (to_lower p) q.0 free,
      );
}
