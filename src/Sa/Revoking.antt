-- ===== src/Sa/Revoking.antt =====
-- sa/sa.go: what RevokeAuthorizationsByDomain does to each row, whichever statements fail, and that its loops end.
use boulder.Prelude.Text.{Text, text_Eq, text_eq_iff}
use mathlib.Core.Option
use boulder.Prelude.Int.{ℤ}
use boulder.Prelude.{
  ℕ, zero, suc, ◌+◌, ◌≤◌, ◌<◌, ◌≡◌, ◌⊎◌, refl, ◌∙◌, Bool, true, false, not, ◌&&◌, Option, none,
  some, List, [], ◌∷◌, arith, if◌then◌else◌, length, elem, take, Option-cases, inl, inr, sym, ltb,
  ◌==◌, Bool-cases, ==-refl,
}
use boulder.Errors.{Error, plain_error}
use boulder.Core.Types.{AcmeStatus, is_invalid, is_revoked, AcmeIdentifier, Authorization}
use boulder.Core.Objects.{is_empty}
use boulder.Sa.Db.{Db, has_id, select}
use boulder.Sa.Rows.{UniqueIds, Apart, Apart-elem}
use boulder.Sa.Revoke.{
  is_live, live_ids, get_authorization_ids, get_authorization_ids_max, revoke_row, revoke_rows,
  rows_affected, Batches, Revocation, revoke_table, after_final, revoke_authorizations_by_domain,
}
use boulder.Sa.Revoked.{count_live, elem-take, elem-live_ids}

-- A status from which an authorization is revoked.
abbrev pub is_revocable : AcmeStatus → Bool
is_revocable s = not (is_invalid s) && not (is_revoked s)

has_id-revoke_rows :
    (id : Text) (ids : List Text) (rows : List Authorization)
    → has_id id (revoke_rows ids rows) ≡ has_id id rows
unfolding has_id revoke_rows
has_id-revoke_rows id ids [] = refl
has_id-revoke_rows id ids (a ∷ rows) = ground (arith, has_id-revoke_rows id ids rows)

UniqueIds-revoke_rows :
    (ids : List Text) (rows : List Authorization)
    → UniqueIds rows
    → UniqueIds (revoke_rows ids rows)
unfolding revoke_rows
UniqueIds-revoke_rows ids [] u = tt
UniqueIds-revoke_rows ids (a ∷ rows) u =
    ground (arith, has_id-revoke_rows a.id ids rows, UniqueIds-revoke_rows ids rows u.1)

select-revoke_rows :
    (id : Text) (ids : List Text) (rows : List Authorization)
    → select id (revoke_rows ids rows)
      ≡ (if elem id ids then Option.map revoke_row (select id rows) else select id rows)
unfolding select revoke_rows
select-revoke_rows id ids [] = ground arith
select-revoke_rows id ids (a ∷ rows) =
    ground (arith, text_eq_iff a.id id, select-revoke_rows id ids rows)

-- An id that is found for a revocation is that of a live row, the only one with it.
select-live :
    (ident : AcmeIdentifier) (now : ℤ) (id : Text) (rows : List Authorization)
    → UniqueIds rows
    → elem id (live_ids ident now rows) ≡ true
    → (a : Authorization) × (select id rows ≡ some a) × (is_revocable a.status ≡ true)
unfolding select live_ids elem is_live
select-live ident now id [] u h = absurd (ground arith)
select-live ident now id (a ∷ rows) u h = elim (Bool-cases (a.id == id)) [
  | inl y ↦
      (a, rw y refl, ground (arith, text_eq_iff a.id id, elem-live_ids ident now a.id rows u.0))
  | inr n ↦
      let (b, found, live) =
        select-live ident now id rows u.1
          (ground (arith, text_eq_iff a.id id, text_eq_iff id a.id)) in
      (b, rw n found, live)
]

-- What may have become of a row.
abbrev pub Touched : Option Authorization → Option Authorization → Type 0
Touched old new =
    (new ≡ old)
    ⊎ ((a : Authorization) × (old ≡ some a)
        × (is_revocable a.status ≡ true)
        × (new ≡ some (revoke_row a)))

Touched-trans : (x y z : Option Authorization) → Touched x y → Touched y z → Touched x z
Touched-trans x y z (inl e) (inl f) = inl (f ∙ e)
Touched-trans x y z (inl e) (inr (a, f, live, g)) = inr (a, ground arith, live, g)
Touched-trans x y z (inr (a, e, live, f)) (inl g) = inr (a, e, live, g ∙ f)
Touched-trans x y z (inr (a, e, live, f)) (inr (b, g, again, k)) = absurd (ground arith)

-- What a revocation keeps of a table.
pub record Keeps (rows out : List Authorization) : Type 0 where
  pub same_ids : (id : Text) → has_id id out ≡ has_id id rows
  pub unique : UniqueIds out
  pub touched : (id : Text) → Touched (select id rows) (select id out)

Keeps-refl : (rows : List Authorization) → UniqueIds rows → Keeps rows rows
Keeps-refl rows u = record { same_ids = λ id. refl; unique = u; touched = λ id. inl refl }

Keeps-trans : (a b c : List Authorization) → Keeps a b → Keeps b c → Keeps a c
Keeps-trans a b c k l = record {
  same_ids = λ id. l.same_ids id ∙ k.same_ids id;
  unique = l.unique;
  touched =
      λ id. Touched-trans (select id a) (select id b) (select id c) (k.touched id) (l.touched id);
}

elem-get_authorization_ids :
    (ident : AcmeIdentifier) (now : ℤ) (id : Text) (rows : List Authorization)
    → elem id (get_authorization_ids ident now rows) ≡ true
    → elem id (live_ids ident now rows) ≡ true
unfolding get_authorization_ids
elem-get_authorization_ids ident now id rows h =
    elim (Bool-cases (elem id (live_ids ident now rows))) [
      | inl y ↦ y
      | inr n ↦ absurd (
          ground
            (arith, elem-take ident now id get_authorization_ids_max (live_ids ident now rows) n))
    ]

Keeps-batch :
    (ident : AcmeIdentifier) (now : ℤ) (rows : List Authorization)
    → UniqueIds rows
    → Keeps rows (revoke_rows (get_authorization_ids ident now rows) rows)
Keeps-batch ident now rows u =
    let ids = get_authorization_ids ident now rows in
    record {
      same_ids = λ id. has_id-revoke_rows id ids rows;
      unique = UniqueIds-revoke_rows ids rows u;
      touched = λ id. elim (Bool-cases (elem id ids)) [
        | inr n ↦ inl (rw (select-revoke_rows id ids rows, n) refl)
        | inl y ↦
            let (a, found, live) =
              select-live ident now id rows u (elem-get_authorization_ids ident now id rows y) in
            inr (a, found, live, rw (select-revoke_rows id ids rows, y, found) refl)
      ];
    }

count_live-le :
    (ident : AcmeIdentifier) (now : ℤ) (ids : List Text) (rows : List Authorization)
    → count_live ident now (revoke_rows ids rows) ≤ count_live ident now rows
unfolding count_live revoke_rows is_live
count_live-le ident now ids [] = omega arith
count_live-le ident now ids (a ∷ rows) = ground (arith, count_live-le ident now ids rows)

-- A batch revokes the first live row at least.
count_live-first :
    (ident : AcmeIdentifier) (now : ℤ) (ids l : List Text) (x : Text) (rows : List Authorization)
    → live_ids ident now rows ≡ x ∷ l
    → elem x ids ≡ true
    → count_live ident now (revoke_rows ids rows) < count_live ident now rows
unfolding count_live revoke_rows live_ids is_live
count_live-first ident now ids l x [] h k = absurd (ground arith)
count_live-first ident now ids l x (a ∷ rows) h k = elim (Bool-cases (is_live ident now a)) [
  | inl y ↦
      let first : a.id ≡ x = ground arith in
      let there : elem a.id ids ≡ true = rw first k in
      ground (arith, count_live-le ident now ids rows)
  | inr n ↦
      ground (arith, count_live-le ident now ids rows, count_live-first ident now ids l x rows)
]

not_empty : (l : List Text) → is_empty l ≡ false → (x : Text) × (r : List Text) × (l ≡ x ∷ r)
not_empty [] h = absurd (ground arith)
not_empty (x ∷ r) h = (x, r, refl)

first_taken : (x : Text) (k : ℕ) (l : List Text) → elem x (take (suc k) (x ∷ l)) ≡ true
unfolding elem
first_taken x k l = ground (arith, ==-refl x)

empty_taken : (k : ℕ) (l : List Text) → is_empty (take (suc k) l) ≡ is_empty l
empty_taken k [] = refl
empty_taken k (x ∷ l) = refl

count_live-batch :
    (ident : AcmeIdentifier) (now : ℤ) (rows : List Authorization)
    → is_empty (get_authorization_ids ident now rows) ≡ false
    → count_live ident now (revoke_rows (get_authorization_ids ident now rows) rows)
      < count_live ident now rows
unfolding get_authorization_ids
count_live-batch ident now rows h =
    let live = live_ids ident now rows in
    let (x, l, e) = not_empty live (rw (empty_taken 999 live) at h) in
    let taken : elem x (take get_authorization_ids_max live) ≡ true = rw e (first_taken x 999 l) in
    count_live-first ident now (take get_authorization_ids_max live) l x rows e taken

count_live-length :
    (ident : AcmeIdentifier) (now : ℤ) (rows : List Authorization)
    → count_live ident now rows ≤ length rows
unfolding count_live
count_live-length ident now [] = omega arith
count_live-length ident now (a ∷ rows) = ground (arith, count_live-length ident now rows)

abbrev stopped : List Authorization → ℕ → Option Error → Batches
stopped rows n failure = record { rows = rows; count = n; failure = failure }

-- The loop over one table ends, with or without an error.
revoke_table-Keeps :
    (ident : AcmeIdentifier) (now : ℤ) (fuel : ℕ) (fault : ℕ → Option Error) (n : ℕ)
    (rows : List Authorization)
    → UniqueIds rows
    → count_live ident now rows < fuel
    → (b : Batches) × (revoke_table fuel fault ident now rows n ≡ some b) × Keeps rows b.rows
unfolding revoke_table
revoke_table-Keeps ident now zero fault n rows u h = absurd (omega arith)
revoke_table-Keeps ident now (suc f) fault n rows u h =
    let ids = get_authorization_ids ident now rows in
    let found = rows_affected ids rows in
    let batch = Keeps-batch ident now rows u in
    elim (Option-cases (fault 0)) [
      | inr (e, failed) ↦
          (stopped rows n (some e), rw (failed, revoke_table) refl, Keeps-refl rows u)
      | inl works ↦ elim (Bool-cases (is_empty ids)) [
        | inl y ↦ (stopped rows n none, rw (works, y, revoke_table) refl, Keeps-refl rows u)
        | inr more ↦ elim (Option-cases (fault 1)) [
          | inr (e, failed) ↦ (
            stopped rows n (some e),
            rw (works, more, failed, revoke_table) refl,
            Keeps-refl rows u,
          )
          | inl writes ↦ elim (Bool-cases (ltb found (length ids))) [
            | inl y ↦ (
              stopped (revoke_rows ids rows) (n + found)
                  (some (plain_error "Didn't revoke all found authorizations")),
              rw (works, more, writes, y, revoke_table) refl,
              batch,
            )
            | inr all ↦
                let (b, rest, k) =
                  revoke_table-Keeps ident now f (λ i. fault (i + 2)) (n + found)
                    (revoke_rows ids rows) batch.unique
                    (omega (arith, count_live-batch ident now rows more)) in
                (
                  b,
                  rw (works, more, writes, all, revoke_table) rest,
                  Keeps-trans rows (revoke_rows ids rows) b.rows batch k,
                )
          ]
        ]
      ]
    ]

abbrev both : Db → Batches → Batches → Revocation
both db b c = record {
  db = record db { final = b.rows; pending = c.rows };
  final_count = b.count;
  pending_count = c.count;
  failure = c.failure;
}

abbrev first_only : Db → Batches → Error → Revocation
first_only db b e = record {
  db = record db { final = b.rows };
  final_count = b.count;
  pending_count = 0;
  failure = some e;
}

after-Keeps :
    (db : Db) (b c : Batches)
    → Keeps db.final b.rows
    → Keeps db.pending c.rows
    → UniqueIds db.pending
    → (r : Revocation) × (after_final db (some b) (λ _. some c) ≡ some r)
      × Keeps db.final r.db.final
      × Keeps db.pending r.db.pending
after-Keeps db b c k l v = elim (Option-cases b.failure) [
  | inr (e, failed) ↦ (first_only db b e, rw failed refl, k, Keeps-refl db.pending v)
  | inl none_failed ↦ (both db b c, rw none_failed refl, k, l)
]

-- RevokeAuthorizationsByDomain ends, with or without an error, if it has more fuel than there are rows; each row is as it
-- was or is revoked.
pub revoke_authorizations_by_domain-Keeps :
    (fuel : ℕ) (on_final on_pending : ℕ → Option Error) (db : Db) (ident : AcmeIdentifier) (now : ℤ)
    → UniqueIds db.final
    → UniqueIds db.pending
    → length db.final + length db.pending < fuel
    → (r : Revocation) × (revoke_authorizations_by_domain fuel on_final on_pending db ident now
        ≡ some r)
      × Keeps db.final r.db.final
      × Keeps db.pending r.db.pending
unfolding revoke_authorizations_by_domain
revoke_authorizations_by_domain-Keeps fuel on_final on_pending db ident now u v h =
    let (b, e, k) =
      revoke_table-Keeps ident now fuel on_final 0 db.final u
        (omega (arith, count_live-length ident now db.final)) in
    let (c, f, l) =
      revoke_table-Keeps ident now fuel on_pending 0 db.pending v
        (omega (arith, count_live-length ident now db.pending)) in
    rw (e, f) (after-Keeps db b c k l v)

absent-Apart :
    (rows final : List Authorization)
    → ((id : Text) → has_id id rows ≡ true → has_id id final ≡ false)
    → Apart rows final
unfolding has_id
absent-Apart [] final h = tt
absent-Apart (a ∷ rows) final h =
    (h a.id (ground (arith, ==-refl a.id)), absent-Apart rows final (λ id k. h id (ground arith)))

pub Apart-Keeps :
    (rows final rows' final' : List Authorization)
    → Keeps rows rows'
    → Keeps final final'
    → Apart rows final
    → Apart rows' final'
Apart-Keeps rows final rows' final' k l p =
    absent-Apart rows' final'
      (λ id h. l.same_ids id ∙ Apart-elem id rows final p (sym (k.same_ids id) ∙ h))
