-- ===== src/Sa/Revoked.antt =====
-- sa/sa.go: RevokeAuthorizationsByDomain ends, and revokes every authorization that it should.
use boulder.Prelude.Text.{Text, text_Eq, text_eq_iff}
use boulder.Prelude.Int.{ℤ}
use boulder.Prelude.{
  ℕ, zero, suc, ◌+◌, ◌<◌, ◌≡◌, refl, sym, ap, ◌∙◌, true, false, none, some, List, [], ◌∷◌, arith,
  if◌then◌else◌, length, elem, take, Bool-cases, inl, inr, ==-refl,
}
use boulder.Core.Types.{AcmeIdentifier, Authorization}
use boulder.Core.Objects.{is_empty}
use boulder.Sa.Db.{Db, has_id}
use boulder.Sa.Rows.{UniqueIds}
use boulder.Sa.Revoke.{
  is_live, live_ids, get_authorization_ids, get_authorization_ids_max, revoke_row, revoke_rows,
  rows_affected, Batches, revoke_table, revoke_authorizations_by_domain,
}

module _ (ident : AcmeIdentifier) (now : ℤ) where
  -- The table in which every live authorization for the name is revoked, and how many there are.
  unfoldable pub revoke_all : List Authorization → List Authorization
  revoke_all [] = []
  revoke_all (a ∷ rows) =
      if is_live ident now a then revoke_row a ∷ revoke_all rows else a ∷ revoke_all rows

  unfoldable pub count_live : List Authorization → ℕ
  count_live [] = 0
  count_live (a ∷ rows) = if is_live ident now a then suc (count_live rows) else count_live rows

  -- One batch of at most k rows.
  revoke_first : ℕ → List Authorization → List Authorization
  revoke_first zero rows = rows
  revoke_first (suc k) [] = []
  revoke_first (suc k) (a ∷ rows) =
      if is_live ident now a
      then revoke_row a ∷ revoke_first k rows
      else a ∷ revoke_first (suc k) rows

  pub elem-take : (x : Text) (k : ℕ) (l : List Text) → elem x l ≡ false → elem x (take k l) ≡ false
  unfolding elem
  elem-take x zero l h = refl
  elem-take x (suc k) [] h = refl
  elem-take x (suc k) (y ∷ l) h = ground (arith, elem-take x k l)

  pub elem-live_ids :
      (x : Text) (rows : List Authorization)
      → has_id x rows ≡ false
      → elem x (live_ids ident now rows) ≡ false
  unfolding elem has_id live_ids
  elem-live_ids x [] h = refl
  elem-live_ids x (a ∷ rows) h = ground (arith, elem-live_ids x rows)

  skip_id :
      (x : Text) (ids : List Text) (rows : List Authorization)
      → has_id x rows ≡ false
      → (revoke_rows (x ∷ ids) rows ≡ revoke_rows ids rows)
        × (rows_affected (x ∷ ids) rows ≡ rows_affected ids rows)
  unfolding elem has_id revoke_rows rows_affected
  skip_id x ids [] h = (refl, refl)
  skip_id x ids (a ∷ rows) h =
      ground (arith, text_eq_iff a.id x, text_eq_iff x a.id, skip_id x ids rows)

  none_revoked :
      (rows : List Authorization) → (revoke_rows [] rows ≡ rows) × (rows_affected [] rows ≡ 0)
  unfolding elem revoke_rows rows_affected
  none_revoked [] = (refl, refl)
  none_revoked (a ∷ rows) = ground (arith, none_revoked rows)

  batch :
      (k : ℕ) (rows : List Authorization)
      → UniqueIds rows
      → (revoke_rows (take k (live_ids ident now rows)) rows ≡ revoke_first k rows)
        × (rows_affected (take k (live_ids ident now rows)) rows
            ≡ length (take k (live_ids ident now rows)))
  unfolding revoke_first revoke_rows rows_affected live_ids elem
  batch zero rows u = none_revoked rows
  batch (suc k) [] u = (refl, refl)
  batch (suc k) (a ∷ rows) u = elim (Bool-cases (is_live ident now a)) [
    | inl y ↦ ground (
      arith,
      ==-refl a.id,
      skip_id a.id (take k (live_ids ident now rows)) rows,
      batch k rows u.1,
    )
    | inr n ↦ ground (
      arith,
      elem-take a.id (suc k) (live_ids ident now rows),
      elem-live_ids a.id rows u.0,
      batch (suc k) rows u.1,
    )
  ]

  revoke_first-all :
      (k : ℕ) (rows : List Authorization) → revoke_all (revoke_first k rows) ≡ revoke_all rows
  unfolding revoke_first revoke_all is_live
  revoke_first-all zero rows = refl
  revoke_first-all (suc k) [] = refl
  revoke_first-all (suc k) (a ∷ rows) =
      ground (arith, revoke_first-all k rows, revoke_first-all (suc k) rows)

  count-first :
      (k : ℕ) (rows : List Authorization)
      → count_live (revoke_first k rows) + length (take k (live_ids ident now rows))
        ≡ count_live rows
  unfolding revoke_first count_live live_ids is_live
  count-first zero rows = omega arith
  count-first (suc k) [] = refl
  count-first (suc k) (a ∷ rows) = ground (arith, count-first k rows, count-first (suc k) rows)

  has_id-first :
      (id : Text) (k : ℕ) (rows : List Authorization)
      → has_id id (revoke_first k rows) ≡ has_id id rows
  unfolding revoke_first has_id
  has_id-first id zero rows = refl
  has_id-first id (suc k) [] = refl
  has_id-first id (suc k) (a ∷ rows) =
      ground (arith, has_id-first id k rows, has_id-first id (suc k) rows)

  UniqueIds-first :
      (k : ℕ) (rows : List Authorization) → UniqueIds rows → UniqueIds (revoke_first k rows)
  unfolding revoke_first
  UniqueIds-first zero rows u = u
  UniqueIds-first (suc k) [] u = u
  UniqueIds-first (suc k) (a ∷ rows) u = ground (
    arith,
    has_id-first a.id k rows,
    has_id-first a.id (suc k) rows,
    UniqueIds-first k rows u.1,
    UniqueIds-first (suc k) rows u.1,
  )

  none_live :
      (rows : List Authorization)
      → is_empty (live_ids ident now rows) ≡ true
      → (revoke_all rows ≡ rows) × (count_live rows ≡ 0)
  unfolding revoke_all count_live live_ids
  none_live [] h = (refl, refl)
  none_live (a ∷ rows) h = ground (arith, none_live rows)

  empty-take : (k : ℕ) (l : List Text) → is_empty (take (suc k) l) ≡ is_empty l
  empty-take k [] = refl
  empty-take k (x ∷ l) = refl

  pos_length : (l : List Text) → is_empty l ≡ false → 0 < length l
  pos_length [] h = absurd (ground arith)
  pos_length (x ∷ l) h = omega arith

  abbrev batches : List Authorization → ℕ → Batches
  batches rows n = record { rows = rows; count = n; failure = none }

  ended :
      (f n : ℕ) (rows : List Authorization)
      → is_empty (get_authorization_ids ident now rows) ≡ true
      → revoke_table (suc f) (λ _. none) ident now rows n ≡ some (batches rows n)
  unfolding revoke_table
  ended f n rows h = rw h refl

  found_ids :
      (rows : List Authorization)
      → UniqueIds rows
      → (revoke_rows (get_authorization_ids ident now rows) rows
          ≡ revoke_first get_authorization_ids_max rows)
        × (rows_affected (get_authorization_ids ident now rows) rows
            ≡ length (get_authorization_ids ident now rows))
  unfolding get_authorization_ids
  found_ids rows u = batch get_authorization_ids_max rows u

  -- One round that finds rows, each once.
  one_round :
      (f n : ℕ) (rows : List Authorization)
      → UniqueIds rows
      → is_empty (get_authorization_ids ident now rows) ≡ false
      → revoke_table (suc f) (λ _. none) ident now rows n
        ≡ revoke_table f
            (λ _. none)
            ident
            now
            (revoke_first get_authorization_ids_max rows)
            (n + length (get_authorization_ids ident now rows))
  unfolding revoke_table
  one_round f n rows u h =
      let (revoked_rows, all_found) = found_ids rows u in
      rw (h, all_found, revoked_rows) (ground arith)

  count_batch :
      (rows : List Authorization)
      → is_empty (get_authorization_ids ident now rows) ≡ false
      → (count_live (revoke_first get_authorization_ids_max rows)
            + length (get_authorization_ids ident now rows)
          ≡ count_live rows)
        × (0 < length (get_authorization_ids ident now rows))
  unfolding get_authorization_ids
  count_batch rows h = (
    count-first get_authorization_ids_max rows,
    pos_length (take get_authorization_ids_max (live_ids ident now rows)) h,
  )

  batch_empty :
      (rows : List Authorization)
      → is_empty (get_authorization_ids ident now rows) ≡ true
      → (revoke_all rows ≡ rows) × (count_live rows ≡ 0)
  unfolding get_authorization_ids
  batch_empty rows h = none_live rows (sym (empty-take 999 (live_ids ident now rows)) ∙ h)

  -- With more fuel than there are live rows the loop ends, without an error, with all of them revoked
  -- and counted.
  pub revoke_table_ends :
      (fuel n : ℕ) (rows : List Authorization)
      → UniqueIds rows
      → count_live rows < fuel
      → revoke_table fuel (λ _. none) ident now rows n
        ≡ some (batches (revoke_all rows) (n + count_live rows))
  revoke_table_ends zero n rows u h = absurd (omega arith)
  revoke_table_ends (suc f) n rows u h =
      elim (Bool-cases (is_empty (get_authorization_ids ident now rows))) [
        | inl y ↦
            let (all_done, nothing) = batch_empty rows y in
            ended f n rows y
            ∙ rw (all_done, nothing) (ap (λ c. some (batches rows c)) (omega arith))
        | inr m ↦
            let (sum, positive) = count_batch rows m in
            let batch_rows = revoke_first get_authorization_ids_max rows in
            let ids = get_authorization_ids ident now rows in
            one_round f n rows u m
            ∙ revoke_table_ends f (n + length ids) batch_rows
                (UniqueIds-first get_authorization_ids_max rows u) (omega arith)
            ∙ rw (revoke_first-all get_authorization_ids_max rows)
                (ap (λ c. some (batches (revoke_all rows) c)) (omega arith))
      ]

none_left :
    (ident : AcmeIdentifier) (now : ℤ) (rows : List Authorization)
    → count_live ident now (revoke_all ident now rows) ≡ 0
unfolding count_live revoke_all is_live
none_left ident now [] = refl
none_left ident now (a ∷ rows) = ground (arith, none_left ident now rows)

-- RevokeAuthorizationsByDomain ends if its statements work: with more fuel than either table has live
-- authorizations for the name, it returns no error and the two numbers of them, and leaves each of
-- them revoked and every other row as it was; no live one is left.
pub revoke_authorizations_by_domain_ends :
    (fuel : ℕ) (db : Db) (ident : AcmeIdentifier) (now : ℤ)
    → UniqueIds db.final
    → UniqueIds db.pending
    → count_live ident now db.final < fuel
    → count_live ident now db.pending < fuel
    → (revoke_authorizations_by_domain fuel (λ _. none) (λ _. none) db ident now
        ≡ some (record {
          db = record db {
            final = revoke_all ident now db.final;
            pending = revoke_all ident now db.pending;
          };
          final_count = count_live ident now db.final;
          pending_count = count_live ident now db.pending;
          failure = none;
        }))
      × (count_live ident now (revoke_all ident now db.final) ≡ 0)
      × (count_live ident now (revoke_all ident now db.pending) ≡ 0)
unfolding revoke_authorizations_by_domain
revoke_authorizations_by_domain_ends fuel db ident now u v h k = (
  rw
      (
        revoke_table_ends ident now fuel 0 db.final u h,
        revoke_table_ends ident now fuel 0 db.pending v k,
      )
      (ground arith),
  none_left ident now db.final,
  none_left ident now db.pending,
)
