-- ===== src/Sa/ValidAuthz.antt =====
-- sa/sa.go: GetValidAuthorizations returns, for each name, the usable authorization that expires last.
use boulder.Prelude.Text.{Text, text_Eq, text_eq_iff}
use boulder.Prelude.Int.{◌<ℤ◌, int_beq_iff, int_eq, ℤ, int_eq, ◌≤ℤ◌}
use boulder.Prelude.{
  Option-cases, elem, ◌≡◌, refl, true, false, Option, none, some, List, [], ◌∷◌, arith, inl, inr,
  sym, ◌∙◌, Bool-cases, ◌==◌, subst,
}
use boulder.Errors.{Error, ok}
use boulder.Core.Types.{is_valid, is_dns, Authorization}
use boulder.Sa.Db.{Db}
use boulder.Sa.Queries.{
  is_usable, select_authzs, by_name, is_better, get_valid_authorizations, IsRow, expires_before,
}
use boulder.Sa.Best.{better, best, latest-best, IsRow-select, select-IsRow, best-cases}

-- An entry is there and does not expire before a time.
abbrev pub LastsUntil : ℤ → Option Authorization → Type 0
LastsUntil u none = ⊥
LastsUntil u (some a) = (t : ℤ) × (a.expires ≡ some t) × (u ≤ℤ t)

later :
    (a : Authorization) (u t v : ℤ)
    → a.expires ≡ some v
    → is_better t (some a) ≡ true
    → u ≤ℤ v
    → u ≤ℤ t
unfolding is_better
later a u t v x y le = ground arith

better-lasts :
    (n : Text) (b : Authorization) (t : Option ℤ) (cur : Option Authorization) (u : ℤ)
    → b.expires ≡ t
    → LastsUntil u cur
    → LastsUntil u (better n b t cur)
unfolding better
better-lasts n b none cur u e l = l
better-lasts n b (some t) none u e l = absurd l
better-lasts n b (some t) (some a) u e (v, x, le) = elim (Bool-cases (b.identifier.value == n)) [
  | inl y ↦ elim (Bool-cases (is_better t (some a))) [
    | inl y' ↦ rw (y, y') (t, e, later a u t v x y' le)
    | inr n' ↦ rw (y, n') (v, x, le)
  ]
  | inr d ↦ rw d (v, x, le)
]

best-lasts :
    (n : Text) (rows : List Authorization) (cur : Option Authorization) (u : ℤ)
    → LastsUntil u cur
    → LastsUntil u (best n rows cur)
unfolding best
best-lasts n [] cur u l = l
best-lasts n (b ∷ rows) cur u l =
    best-lasts n rows (better n b b.expires cur) u (better-lasts n b b.expires cur u refl l)

not_before : (t : ℤ) (x : Option ℤ) → expires_before t x ≡ false → (u : ℤ) × (x ≡ some u) × (t ≤ℤ u)
not_before t none h = cc
not_before t (some u) h = (u, refl, ground arith)

better-new :
    (n : Text) (b : Authorization) (t : ℤ) (cur : Option Authorization)
    → b.expires ≡ some t
    → (b.identifier.value == n) ≡ true
    → LastsUntil t (better n b (some t) cur)
unfolding better is_better
better-new n b t none e same = rw same (t, e, omega arith)
better-new n b t (some a) e same = elim (Bool-cases (expires_before t a.expires)) [
  | inl y ↦ rw (same, y) (t, e, omega arith)
  | inr k ↦ rw (same, k) (not_before t a.expires k)
]

best-row :
    (n : Text) (rows : List Authorization) (cur : Option Authorization) (b : Authorization) (t : ℤ)
    → IsRow b rows
    → b.expires ≡ some t
    → (b.identifier.value == n) ≡ true
    → LastsUntil t (best n rows cur)
unfolding best
best-row n [] cur b t r e same = absurd r
best-row n (c ∷ rows) cur b t (inr r) e same =
    best-row n rows (better n c c.expires cur) b t r e same
best-row n (c ∷ rows) cur b t (inl q) e same = best-lasts n rows (better n c c.expires cur) t (
    subst (λ x. LastsUntil t (better n x x.expires cur)) (sym q)
      (subst (λ x. LastsUntil t (better n b x cur)) (sym e) (better-new n b t cur e same)))

lasting :
    (u : ℤ) (o : Option Authorization) (a : Authorization)
    → LastsUntil u o
    → o ≡ some a
    → LastsUntil u (some a)
lasting u o a l e = rw e at l

entry_best :
    (fault : Option Error) (db : Db) (reg_id : ℤ) (names : List Text) (now : ℤ)
    (found : List Authorization) (n : Text) (a : Authorization)
    → get_valid_authorizations fault db reg_id names now ≡ ok found
    → by_name n found ≡ some a
    → best n (select_authzs (is_usable reg_id names now) db.final) none ≡ some a
unfolding get_valid_authorizations by_name
entry_best fault db reg_id [] now found n a h e = cc
entry_best fault db reg_id (m ∷ names) now found n a h e =
    let rows = select_authzs (is_usable reg_id (m ∷ names) now) db.final in
    sym (latest-best n rows [] found (ground arith)) ∙ e

get_valid_authorizations-IsRow :
    (fault : Option Error) (db : Db) (reg_id : ℤ) (names : List Text) (now : ℤ)
    (found : List Authorization) (n : Text) (a : Authorization)
    → get_valid_authorizations fault db reg_id names now ≡ ok found
    → by_name n found ≡ some a
    → IsRow a db.final × (is_usable reg_id names now a ≡ true) × (a.identifier.value ≡ n)
get_valid_authorizations-IsRow fault db reg_id names now found n a h e =
    let rows = select_authzs (is_usable reg_id names now) db.final in
    elim (best-cases n rows none a (entry_best fault db reg_id names now found n a h e)) [
      | inl q ↦ cc
      | inr (row, name) ↦
          let (final, usable) = IsRow-select (is_usable reg_id names now) a db.final row in
          (final, usable, name)
    ]

is_usable-row :
    (reg_id : ℤ) (names : List Text) (now : ℤ) (a : Authorization)
    → is_usable reg_id names now a ≡ true
    → (t : ℤ) × (a.expires ≡ some t)
      × (now <ℤ t)
      × (a.registration_id ≡ reg_id)
      × (is_dns a.identifier.kind ≡ true)
      × (elem a.identifier.value names ≡ true)
      × (is_valid a.status ≡ true)
unfolding is_usable
is_usable-row reg_id names now a u = elim (Option-cases a.expires) [
  | inl e ↦ absurd (ground arith)
  | inr (t, e) ↦ (
    t,
    e,
    ground arith,
    ground (arith, int_beq_iff a.registration_id reg_id),
    ground arith,
    ground arith,
    ground arith,
  )
]

-- The entry that GetValidAuthorizations returns for a name is a final row with that name, which was
-- asked for: a row for a DNS name, of the registration, with the status valid and an expiry after the
-- time that was passed.
pub get_valid_authorizations-usable :
    (fault : Option Error) (db : Db) (reg_id : ℤ) (names : List Text) (now : ℤ)
    (found : List Authorization) (n : Text) (a : Authorization)
    → get_valid_authorizations fault db reg_id names now ≡ ok found
    → by_name n found ≡ some a
    → (t : ℤ) × IsRow a db.final
      × (a.identifier.value ≡ n)
      × (elem n names ≡ true)
      × (is_dns a.identifier.kind ≡ true)
      × (a.registration_id ≡ reg_id)
      × (is_valid a.status ≡ true)
      × (a.expires ≡ some t)
      × (now <ℤ t)
get_valid_authorizations-usable fault db reg_id names now found n a h e =
    let (row, usable, name) =
      get_valid_authorizations-IsRow fault db reg_id names now found n a h e in
    let (t, x, later, of_account, kind, asked, status) = is_usable-row reg_id names now a usable in
    (t, row, name, rw name at asked, kind, of_account, status, x, later)

-- No final row of the registration that is usable for the name expires later than the entry that
-- is returned.
pub get_valid_authorizations-latest :
    (fault : Option Error) (db : Db) (reg_id : ℤ) (names : List Text) (now : ℤ)
    (found : List Authorization) (a b : Authorization) (t : ℤ)
    → get_valid_authorizations fault db reg_id names now ≡ ok found
    → by_name b.identifier.value found ≡ some a
    → IsRow b db.final
    → is_usable reg_id names now b ≡ true
    → b.expires ≡ some t
    → LastsUntil t (some a)
get_valid_authorizations-latest fault db reg_id names now found a b t h e row usable x =
    let n = b.identifier.value in
    let rows = select_authzs (is_usable reg_id names now) db.final in
    lasting t (best n rows none) a
      (best-row n rows none b t (select-IsRow (is_usable reg_id names now) b db.final row usable) x
        ((text_eq_iff n n).1 refl))
      (entry_best fault db reg_id names now found n a h e)
