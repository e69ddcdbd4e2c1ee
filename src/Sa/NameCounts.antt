-- ===== src/Sa/NameCounts.antt =====
-- sa/sa.go: which certificates CountCertificatesByNames counts, and how many at most.
use mathlib.Core.List.{append_assoc, map-append}
use boulder.Prelude.Text.{Text, text_Eq, lacks, to_lower, lower_byte}
use boulder.Prelude.Int.{ℤ, ◌<ℤ◌, ◌≤ℤ◌}
use boulder.Prelude.Sorting.{Distinct}
use boulder.Prelude.{
  ℕ, ◌≤◌, ◌<◌, ◌≡◌, ◌↔◌, ◌⊎◌, inl, inr, refl, sym, ap, ◌∙◌, true, List, [], ◌∷◌, ◌++◌, arith,
  length, elem, Bool-cases,
}
use boulder.Sa.ReverseName.{
  lacks-append, reverse_name, lacks-reverse_name, reverse_name-reverse_name, reverse_name-append,
  reverse_name-to_lower,
}
use boulder.Sa.IssuedNames.{IssuedName, Collation, is_under, select_serials}

-- What MySQL documents of the collation ascii_general_ci: case does not matter, and `=` ignores
-- spaces at the end; in a pattern `%` is any text, `_` any byte, and a backslash escapes.
pub record IsDocumented (coll : Collation) : Type 0 where
  pub same_iff :
      (s t : Text)
      → lacks b' ' s ≡ true
      → lacks b' ' t ≡ true
      → (coll.same s t ≡ true) ↔ (to_lower s ≡ to_lower t)
  pub like_iff :
      (p s : Text)
      → lacks b'%' p ≡ true
      → lacks b'_' p ≡ true
      → lacks b'\\' p ≡ true
      → (coll.like (p ++ b'%' ∷ []) s ≡ true) ↔ ((q : Text) × (to_lower s ≡ to_lower p ++ q))

lower_dot : (r : Text) → to_lower (r ++ b'.' ∷ []) ≡ to_lower r ++ b'.' ∷ []
unfolding to_lower lower_byte
lower_dot r = map-append lower_byte r (b'.' ∷ [])

-- The pattern of the query on a name: a text, a dot, and any text.
like_pattern :
    (coll : Collation) (r s : Text)
    → IsDocumented coll
    → lacks b'%' r ≡ true
    → lacks b'_' r ≡ true
    → lacks b'\\' r ≡ true
    → (coll.like (r ++ b'.' ∷ b'%' ∷ []) s ≡ true)
      ↔ ((q : Text) × (to_lower s ≡ to_lower r ++ b'.' ∷ q))
unfolding lacks
like_pattern coll r s d h k m =
    let dotted = r ++ b'.' ∷ [] in
    let same_pattern = append_assoc r (b'.' ∷ []) (b'%' ∷ []) in
    let likes =
      d.like_iff dotted s (lacks-append b'%' r (b'.' ∷ []) h refl)
        (lacks-append b'_' r (b'.' ∷ []) k refl) (lacks-append b'\\' r (b'.' ∷ []) m refl) in
    (
      λ e.
          let (q, f) = likes.0 (ap (λ p. coll.like p s) same_pattern ∙ e) in
          (q, f ∙ ap (λ t. t ++ q) (lower_dot r) ∙ append_assoc (to_lower r) (b'.' ∷ []) q),
      λ p.
          ap (λ t. coll.like t s) (sym same_pattern)
          ∙ likes.1 (
            p.0,
            p.1
                ∙ sym (append_assoc (to_lower r) (b'.' ∷ []) p.0)
                ∙ ap (λ t. t ++ p.0) (sym (lower_dot r)),
          ),
    )

-- The names whose reversal is that of the domain, or starts with it and a dot.
reversed_iff :
    (d n : Text)
    → ((reverse_name n ≡ reverse_name d)
        ⊎ ((q : Text) × (reverse_name n ≡ reverse_name d ++ b'.' ∷ q)))
      ↔ ((n ≡ d) ⊎ ((p : Text) × (n ≡ p ++ b'.' ∷ d)))
reversed_iff d n = (
  λ h. elim h [
    | inl e ↦
        inl (sym (reverse_name-reverse_name n) ∙ ap reverse_name e ∙ reverse_name-reverse_name d)
    | inr (q, e) ↦ inr (
      reverse_name q,
      sym (reverse_name-reverse_name n)
          ∙ ap reverse_name e
          ∙ reverse_name-append (reverse_name d) q
          ∙ ap (λ t. reverse_name q ++ b'.' ∷ t) (reverse_name-reverse_name d),
    )
  ],
  λ h. elim h [
    | inl e ↦ inl (ap reverse_name e)
    | inr (p, e) ↦ inr (reverse_name p, ap reverse_name e ∙ reverse_name-append p d)
  ],
)

-- With the comparisons that MySQL documents, the query for a domain finds, of the names without
-- spaces, that domain itself and the names under it, in any case, and no other; the domain holds
-- none of `%`, `_`, the backslash and the space.
pub is_under_iff :
    (coll : Collation) (d n : Text)
    → IsDocumented coll
    → lacks b'%' d ≡ true
    → lacks b'_' d ≡ true
    → lacks b'\\' d ≡ true
    → lacks b' ' d ≡ true
    → lacks b' ' n ≡ true
    → (is_under coll (reverse_name d) (reverse_name n) ≡ true)
      ↔ ((to_lower n ≡ to_lower d) ⊎ ((p : Text) × (to_lower n ≡ p ++ b'.' ∷ to_lower d)))
unfolding is_under
is_under_iff coll d n doc h k l m o =
    let r = reverse_name d in
    let v = reverse_name n in
    let likes =
      like_pattern coll r v doc (lacks-reverse_name b'%' d (λ e. omega arith) h)
        (lacks-reverse_name b'_' d (λ e. omega arith) k)
        (lacks-reverse_name b'\\' d (λ e. omega arith) l) in
    let same =
      doc.same_iff v r (lacks-reverse_name b' ' n (λ e. omega arith) o)
        (lacks-reverse_name b' ' d (λ e. omega arith) m) in
    let names = reversed_iff (to_lower d) (to_lower n) in
    let lower_d = reverse_name-to_lower d in
    let lower_n = reverse_name-to_lower n in
    (
      λ e. names.0 (elim (Bool-cases (coll.same v r)) [
        | inl y ↦ inl (lower_n ∙ same.0 y ∙ sym lower_d)
        | inr other ↦
            let (q, f) = likes.0 (ground arith) in
            inr (q, lower_n ∙ f ∙ ap (λ t. t ++ b'.' ∷ q) (sym lower_d))
      ]),
      λ e. elim (names.1 e) [
        | inl y ↦ ground (arith, same.1 (sym lower_n ∙ y ∙ lower_d))
        | inr (q, y) ↦
            ground (arith, likes.1 (q, sym lower_n ∙ y ∙ ap (λ t. t ++ b'.' ∷ q) lower_d))
      ],
    )

-- A row of the query: its name is under the domain, and it was issued after one time and not after
-- another.
abbrev pub IsInWindow : Collation → Text → ℤ → ℤ → IssuedName → Type 0
IsInWindow coll rd earliest latest r =
    (is_under coll rd r.reversed_name ≡ true)
    × (earliest <ℤ r.not_before)
    × (r.not_before ≤ℤ latest)

module _ (coll : Collation) (rd : Text) (earliest latest : ℤ) where
  -- Some row of the query has the serial.
  abbrev pub IsFound : Text → List IssuedName → Type 0
  IsFound s [] = ⊥
  IsFound s (r ∷ rows) = (IsInWindow coll rd earliest latest r × (r.serial ≡ s)) ⊎ IsFound s rows

  -- Each serial of a list is that of a row of the query.
  abbrev pub AllFound : List Text → List IssuedName → Type 0
  AllFound [] rows = Unit {0}
  AllFound (s ∷ serials) rows = IsFound s rows × AllFound serials rows

  -- The serial of each row of the query is in a list.
  abbrev pub IsComplete : List IssuedName → List Text → Type 0
  IsComplete [] serials = Unit {0}
  IsComplete (r ∷ rows) serials =
      ((¬ IsInWindow coll rd earliest latest r) ⊎ (elem r.serial serials ≡ true))
      × IsComplete rows serials

-- A count of distinct serials, at most 10001 of them: all are found by the query for the domain, and
-- unless it finds more than 10001 rows, all that it finds are counted.
abbrev pub IsCount : Collation → List IssuedName → Text → ℤ → ℤ → ℕ → Type 0
IsCount coll rows d earliest latest n =
    (serials : List Text) × (length serials ≡ n)
    × (n ≤ 10_001)
    × Distinct serials
    × AllFound coll (reverse_name d) earliest latest serials rows
    × ((10_001 < length (select_serials coll (reverse_name d) earliest latest rows))
        ⊎ IsComplete coll (reverse_name d) earliest latest rows serials)
