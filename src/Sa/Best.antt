-- ===== src/Sa/Best.antt =====
-- sa/sa.go: the map that the loop of GetValidAuthorizations builds, as a search for each name.
use boulder.Prelude.Text.{Text, text_Eq, text_eq_iff}
use boulder.Prelude.Int.{int_eq, ℤ, int_eq}
use boulder.Prelude.{
  ◌≡◌, refl, Bool, true, Option, none, some, List, [], ◌∷◌, arith, inl, inr, ◌⊎◌, sym, ◌∙◌,
  Bool-cases, ◌==◌, if◌then◌else◌, ap,
}
use boulder.Errors.{Result, ok, err, ◌>>=◌}
use boulder.Core.Types.{Authorization}
use boulder.Sa.Queries.{select_authzs, by_name, put_name, is_better, latest_by_name, IsRow, add_row}

-- What one row, with its expiry, does to the entry of a name, and what all rows do.
unfoldable pub better :
    Text → Authorization → Option ℤ → Option Authorization → Option Authorization
better n a none cur = cur
better n a (some t) cur =
    if a.identifier.value == n then (if is_better t cur then some a else cur) else cur

unfoldable pub best : Text → List Authorization → Option Authorization → Option Authorization
best n [] cur = cur
best n (a ∷ rows) cur = best n rows (better n a a.expires cur)

by_name-put_name :
    (n : Text) (a : Authorization) (m : List Authorization)
    → by_name n (put_name a m) ≡ (if a.identifier.value == n then some a else by_name n m)
unfolding by_name put_name
by_name-put_name n a [] = refl
by_name-put_name n a (b ∷ m) = ground (
  arith,
  text_eq_iff b.identifier.value a.identifier.value,
  text_eq_iff b.identifier.value n,
  text_eq_iff a.identifier.value n,
  by_name-put_name n a m,
)

entry_of :
    (n : Text) (a : Authorization) (t : ℤ) (m : List Authorization)
    → by_name n (if is_better t (by_name a.identifier.value m) then put_name a m else m)
      ≡ better n a (some t) (by_name n m)
unfolding better
entry_of n a t m = elim (Bool-cases (a.identifier.value == n)) [
  | inl y ↦
      let e : a.identifier.value ≡ n = (text_eq_iff a.identifier.value n).0 y in
      ground (
        arith,
        by_name-put_name n a m,
        ap (λ k. by_name k m) e,
        ap (λ k. is_better t (by_name k m)) e,
      )
  | inr d ↦ ground (arith, by_name-put_name n a m)
]

add_row-better :
    (n : Text) (a : Authorization) (t : Option ℤ) (m m' : List Authorization)
    → add_row a t m ≡ ok m'
    → by_name n m' ≡ better n a t (by_name n m)
unfolding add_row better
add_row-better n a none m m' h = ground arith
add_row-better n a (some t) m m' h = ground (arith, entry_of n a t m)

add_row-cases :
    (a : Authorization) (rows m : List Authorization) (r : Result (List Authorization))
    (m' : List Authorization)
    → (r >>= latest_by_name rows) ≡ ok m'
    → (m1 : List Authorization) × (r ≡ ok m1) × (latest_by_name rows m1 ≡ ok m')
add_row-cases a rows m (ok m1) m' h = (m1, refl, h)
add_row-cases a rows m (err e) m' h = cc

pub latest-best :
    (n : Text) (rows m m' : List Authorization)
    → latest_by_name rows m ≡ ok m'
    → by_name n m' ≡ best n rows (by_name n m)
unfolding latest_by_name best
latest-best n [] m m' h = ground arith
latest-best n (a ∷ rows) m m' h =
    let (m1, e, rest) = add_row-cases a rows m (add_row a a.expires m) m' h in
    latest-best n rows m1 m' rest ∙ ap (best n rows) (add_row-better n a a.expires m m1 e)

pub IsRow-select :
    (p : Authorization → Bool) (a : Authorization) (rows : List Authorization)
    → IsRow a (select_authzs p rows)
    → IsRow a rows × (p a ≡ true)
unfolding select_authzs
IsRow-select p a [] h = absurd h
IsRow-select p a (b ∷ rows) h = elim (Bool-cases (p b)) [
  | inl y ↦ elim (select_head y) [
    | inl e ↦ (inl e, ap p (sym e) ∙ y)
    | inr r ↦ let (r', q) = IsRow-select p a rows r in (inr r', q)
  ]
  | inr n ↦ let (r, q) = IsRow-select p a rows (rw n at h) in (inr r, q)
]
  where
    select_head : p b ≡ true → (b ≡ a) ⊎ IsRow a (select_authzs p rows)
    select_head y = rw y at h

pub select-IsRow :
    (p : Authorization → Bool) (a : Authorization) (rows : List Authorization)
    → IsRow a rows
    → p a ≡ true
    → IsRow a (select_authzs p rows)
unfolding select_authzs
select-IsRow p a [] h q = h
select-IsRow p a (b ∷ rows) (inl e) q = rw (ap p e ∙ q) (inl e)
select-IsRow p a (b ∷ rows) (inr r) q = elim (Bool-cases (p b)) [
  | inl y ↦ rw y (inr (select-IsRow p a rows r q))
  | inr n ↦ rw n (select-IsRow p a rows r q)
]

better-cases :
    (n : Text) (b : Authorization) (t : Option ℤ) (cur : Option Authorization) (a : Authorization)
    → better n b t cur ≡ some a
    → (cur ≡ some a) ⊎ ((b ≡ a) × (a.identifier.value ≡ n))
unfolding better
better-cases n b none cur a h = inl h
better-cases n b (some t) cur a h = elim (Bool-cases (b.identifier.value == n)) [
  | inl y ↦ elim (Bool-cases (is_better t cur)) [
    | inl y' ↦
        let e : b ≡ a = ground arith in
        inr (
          e,
          ap (λ (x : Authorization). x.identifier.value) (sym e)
              ∙ (text_eq_iff b.identifier.value n).0 y,
        )
    | inr n' ↦ inl (ground arith)
  ]
  | inr d ↦ inl (ground arith)
]

pub best-cases :
    (n : Text) (rows : List Authorization) (cur : Option Authorization) (a : Authorization)
    → best n rows cur ≡ some a
    → (cur ≡ some a) ⊎ (IsRow a rows × (a.identifier.value ≡ n))
unfolding best
best-cases n [] cur a h = inl h
best-cases n (b ∷ rows) cur a h = elim (best-cases n rows (better n b b.expires cur) a h) [
  | inr (r, e) ↦ inr (inr r, e)
  | inl e ↦ elim (better-cases n b b.expires cur a e) [
    | inl c ↦ inl c
    | inr (q, v) ↦ inr (inl q, v)
  ]
]
