-- ===== src/Sa/Phase.antt =====
-- sa/sa.go: the life of an authorization, seen from outside: an abstract machine on phases.
use boulder.Prelude.Text.{Text, text_Eq, text_eq_iff}
use boulder.Prelude.{
  ◌≡◌, refl, Bool, true, false, Option, none, some, List, [], ◌∷◌, arith, inl, inr, ◌⊎◌,
  if◌then◌else◌, ◌==◌,
}
use boulder.Core.Types.{AcmeStatus, deactivated, revoked, is_pending, is_valid, Authorization}
use boulder.Sa.Db.{Db, has_id, select, columns, update, delete}
use boulder.Sa.Revoking.{is_revocable}
use boulder.Sa.Authz.{status_is_pending, set_status}

pub data Phase : Type 0 where
  absent : Phase
  open_with : AcmeStatus → Phase
  closed_with : AcmeStatus → Phase

abbrev pub phase_of : Option Authorization → Option Authorization → Phase
phase_of (some a) f = open_with a.status
phase_of none (some b) = closed_with b.status
phase_of none none = absent

-- What the two tables say of an identifier.
abbrev pub phase : Db → Text → Phase
phase db id = phase_of (select id db.pending) (select id db.final)

-- What may happen to one authorization.
pub data Step : Phase → Phase → Type 0 where
  stays : (p : Phase) → Step p p
  created : (s : AcmeStatus) → Step absent (open_with s)
  changed : (s s' : AcmeStatus) → status_is_pending s' ≡ true → Step (open_with s) (open_with s')
  finalized :
      (s s' : AcmeStatus) → status_is_pending s' ≡ false → Step (open_with s) (closed_with s')
  deactivated_open :
      (s : AcmeStatus) → is_pending s ≡ true → Step (open_with s) (open_with deactivated)
  deactivated_closed :
      (s : AcmeStatus) → is_valid s ≡ true → Step (closed_with s) (closed_with deactivated)
  revoked_open : (s : AcmeStatus) → is_revocable s ≡ true → Step (open_with s) (open_with revoked)
  revoked_closed :
      (s : AcmeStatus) → is_revocable s ≡ true → Step (closed_with s) (closed_with revoked)

pub data Reach (p : Phase) : Phase → Type 0 where
  here : Reach p p
  next : {q r : Phase} → Reach p q → Step q r → Reach p r

abbrev pub StaysClosed : AcmeStatus → Phase → Type 0
StaysClosed s p =
    (p ≡ closed_with s)
    ⊎ ((is_valid s ≡ true) × (p ≡ closed_with deactivated))
    ⊎ ((is_revocable s ≡ true) × (p ≡ closed_with revoked))

valid_is_revocable : (s : AcmeStatus) → is_valid s ≡ true → is_revocable s ≡ true
valid_is_revocable s h = ground arith

-- The status of a phase that is closed.
abbrev IsClosedWith : AcmeStatus → AcmeStatus → Type 0
IsClosedWith s t =
    (t ≡ s) ⊎ ((is_valid s ≡ true) × (t ≡ deactivated)) ⊎ ((is_revocable s ≡ true) × (t ≡ revoked))

closed_status : (s t : AcmeStatus) → StaysClosed s (closed_with t) → IsClosedWith s t
closed_status s t (inl e) = inl (ground arith)
closed_status s t (inr (inl (v, e))) = inr (inl (v, ground arith))
closed_status s t (inr (inr (v, e))) = inr (inr (v, ground arith))

not_absent : {W : Type 0} (s : AcmeStatus) → StaysClosed s absent → W
not_absent s (inl e) = absurd (ground arith)
not_absent s (inr (inl (v, e))) = absurd (ground arith)
not_absent s (inr (inr (v, e))) = absurd (ground arith)

not_open : {W : Type 0} (s t : AcmeStatus) → StaysClosed s (open_with t) → W
not_open s t (inl e) = absurd (ground arith)
not_open s t (inr (inl (v, e))) = absurd (ground arith)
not_open s t (inr (inr (v, e))) = absurd (ground arith)

then_deactivated :
    (s t : AcmeStatus)
    → is_valid t ≡ true
    → IsClosedWith s t
    → StaysClosed s (closed_with deactivated)
then_deactivated s t k (inl e) = inr (inl (ground arith, refl))
then_deactivated s t k (inr (inl (v, e))) = inr (inl (v, refl))
then_deactivated s t k (inr (inr (v, e))) = absurd (ground arith)

then_revoked :
    (s t : AcmeStatus)
    → is_revocable t ≡ true
    → IsClosedWith s t
    → StaysClosed s (closed_with revoked)
then_revoked s t k (inl e) = inr (inr (ground arith, refl))
then_revoked s t k (inr (inl (v, e))) = inr (inr (valid_is_revocable s v, refl))
then_revoked s t k (inr (inr (v, e))) = inr (inr (v, refl))

closed_step : (s : AcmeStatus) {p q : Phase} → Step p q → StaysClosed s p → StaysClosed s q
closed_step s (stays p) h = h
closed_step s (created t) h = not_absent s h
closed_step s (changed t u k) h = not_open s t h
closed_step s (finalized t u k) h = not_open s t h
closed_step s (deactivated_open t k) h = not_open s t h
closed_step s (revoked_open t k) h = not_open s t h
closed_step s (deactivated_closed t k) h = then_deactivated s t k (closed_status s t h)
closed_step s (revoked_closed t k) h = then_revoked s t k (closed_status s t h)

-- A closed authorization keeps its status, unless it was valid and is deactivated, or is revoked and was neither
-- invalid nor revoked.
pub Reach-StaysClosed :
    (s : AcmeStatus) {p q : Phase} → Reach p q → StaysClosed s p → StaysClosed s q
Reach-StaysClosed s here h = h
Reach-StaysClosed s (next r st) h = closed_step s st (Reach-StaysClosed s r h)

-- The rows under each statement.
pub select-none :
    (id : Text) (rows : List Authorization) → has_id id rows ≡ false → select id rows ≡ none
unfolding has_id select
select-none id [] h = refl
select-none id (b ∷ rows) h = ground (arith, select-none id rows)

pub select-update :
    (id : Text) (a : Authorization) (rows : List Authorization)
    → select id (update a rows)
      ≡ (if a.id == id then (if has_id id rows then some (columns a) else none) else select id rows)
unfolding select update has_id
select-update id a [] = ground arith
select-update id a (b ∷ rows) = ground (
  arith,
  text_eq_iff b.id a.id,
  text_eq_iff b.id id,
  text_eq_iff a.id id,
  select-update id a rows,
)

pub select-delete :
    (id k : Text) (rows : List Authorization)
    → select id (delete k rows) ≡ (if k == id then none else select id rows)
unfolding select delete
select-delete id k [] = ground arith
select-delete id k (b ∷ rows) =
    ground
      (arith, text_eq_iff b.id k, text_eq_iff b.id id, text_eq_iff k id, select-delete id k rows)

abbrev pub with_status :
    (AcmeStatus → Bool) → AcmeStatus → Option Authorization → Option Authorization
with_status old new none = none
with_status old new (some a) = some (if old a.status then record a { status = new } else a)

pub select-set_status :
    (id k : Text) (old : AcmeStatus → Bool) (new : AcmeStatus) (rows : List Authorization)
    → select id (set_status old new k rows)
      ≡ (if k == id then with_status old new (select id rows) else select id rows)
unfolding select set_status
select-set_status id k old new [] = ground arith
select-set_status id k old new (b ∷ rows) = ground (
  arith,
  text_eq_iff b.id k,
  text_eq_iff b.id id,
  text_eq_iff k id,
  select-set_status id k old new rows,
)
