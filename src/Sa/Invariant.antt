-- ===== src/Sa/Invariant.antt =====
-- sa/sa.go: an authorization has one row, pending or final.
use boulder.Prelude.Text.{Text, text_Eq}
use boulder.Prelude.Int.{ℤ}
use boulder.Prelude.{ℕ, ◌≡◌, refl, false, Option, none, some, List, [], ◌∷◌, arith, inl, inr, ◌⊎◌}
use boulder.Errors.{Error, Result, ok, err}
use boulder.Core.Types.{AcmeIdentifier, Authorization, is_pending, is_valid, deactivated}
use boulder.Sa.Model.{Codec}
use boulder.Sa.Db.{Db, Faults, transaction, has_id, existing, columns}
use boulder.Sa.Authz.{
  new_id, new_pending_authorization, update_pending_authorization, finalize_authorization,
  deactivate_authorization,
}
use boulder.Sa.Operations.{Op, create, change, finalize, deactivate, revoke, perform, done, rounds}
use boulder.Sa.Revoking.{Keeps, Apart-Keeps, revoke_authorizations_by_domain-Keeps}
use boulder.Sa.Outcomes.{
  perform-err, finalize_authorization-ok, update_pending_authorization-ok,
  new_pending_authorization-ok,
}
use boulder.Sa.Rows.{
  UniqueIds, Apart, UniqueIds-update, UniqueIds-delete, UniqueIds-set_status, Apart-update,
  Apart-set_status, Apart-set_status_final, Apart-finalize, Apart-elem,
}

pub record IsConsistent (db : Db) : Type 0 where
  pub pending_unique : UniqueIds db.pending
  pub final_unique : UniqueIds db.final
  pub apart : Apart db.pending db.final

-- The query whose error NewPendingAuthorization drops did work.
abbrev pub FinalQueryWorks : Op → Faults → Type 0
FinalQueryWorks (create tokens authz) fs = fs.at 1 ≡ none
FinalQueryWorks _ fs = Unit {0}

pub new_id-not_final :
    (q : Option Error) (db : Db) (tokens : List Text) (id : Text)
    → new_id q none db tokens ≡ some id
    → has_id id db.final ≡ false
unfolding new_id existing
new_id-not_final q db [] id h = cc
new_id-not_final q db (t ∷ tokens) id h = ground (arith, new_id-not_final q db tokens id)

pub Outcome-cases : (r : Result (Unit {0})) → (r ≡ ok tt) ⊎ ((e : Error) × (r ≡ err e))
Outcome-cases (ok tt) = inl refl
Outcome-cases (err e) = inr (e, refl)

deactivate-IsConsistent :
    (fs : Faults) (db : Db) (id : Text)
    → IsConsistent db
    → IsConsistent (deactivate_authorization fs db id).1
unfolding deactivate_authorization transaction
deactivate-IsConsistent fs db id v = ground (
  arith,
  UniqueIds-set_status is_pending deactivated id db.pending v.pending_unique,
  UniqueIds-set_status is_valid deactivated id db.final v.final_unique,
  Apart-set_status is_pending deactivated id db.pending db.final v.apart,
  Apart-set_status_final is_valid deactivated id db.pending db.final v.apart,
)

update-IsConsistent :
    (codec : Codec) (fs : Faults) (db : Db) (a : Authorization)
    → IsConsistent db
    → (update_pending_authorization codec fs db a).0 ≡ ok tt
    → IsConsistent (update_pending_authorization codec fs db a).1
update-IsConsistent codec fs db a v h =
    let (here, pend, p, f) = update_pending_authorization-ok codec fs db a h in
    record {
      pending_unique = rw p (UniqueIds-update a db.pending v.pending_unique);
      final_unique = rw f v.final_unique;
      apart =
          rw (p, f)
            (Apart-update a db.pending db.final (Apart-elem a.id db.pending db.final v.apart here)
              v.apart);
    }

finalize-IsConsistent :
    (codec : Codec) (fs : Faults) (db : Db) (a : Authorization)
    → IsConsistent db
    → (finalize_authorization codec fs db a).0 ≡ ok tt
    → IsConsistent (finalize_authorization codec fs db a).1
finalize-IsConsistent codec fs db a v h =
    let (here, final, new, p, f) = finalize_authorization-ok codec fs db a h in
    record {
      pending_unique = rw p (UniqueIds-delete a.id db.pending v.pending_unique);
      final_unique = rw f (new, v.final_unique);
      apart = rw (p, f) (Apart-finalize (columns a) db.pending db.final v.apart);
    }

create-IsConsistent :
    (codec : Codec) (fs : Faults) (db : Db) (tokens : List Text) (a made : Authorization)
    → IsConsistent db
    → fs.at 1 ≡ none
    → (new_pending_authorization codec fs tokens db a).0 ≡ ok made
    → IsConsistent (new_pending_authorization codec fs tokens db a).1
create-IsConsistent codec fs db tokens a made v q h =
    let (drawn, new, status, p, f) = new_pending_authorization-ok codec fs tokens db a made h in
    let not_final : has_id made.id db.final ≡ false =
      new_id-not_final (fs.at 0) db tokens made.id (rw q at drawn) in
    record {
      pending_unique = rw p (new, v.pending_unique);
      final_unique = rw f v.final_unique;
      apart = rw (p, f) (not_final, v.apart);
    }

-- An operation that fails keeps the invariant because it changes nothing.
or_unchanged :
    (db : Db) (r : Result (Unit {0}) × Db)
    → IsConsistent db
    → ((e : Error) → r.0 ≡ err e → r.1 ≡ db)
    → (r.0 ≡ ok tt → IsConsistent r.1)
    → IsConsistent r.1
or_unchanged db r v failed worked = elim (Outcome-cases r.0) [
  | inl y ↦ worked y
  | inr (e, n) ↦ rw (failed e n) v
]

pub created_ok :
    (r : Result Authorization × Db)
    → (done r).0 ≡ ok tt
    → (made : Authorization) × (r.0 ≡ ok made) × ((done r).1 ≡ r.1)
created_ok (ok made, db) h = (made, refl, refl)
created_ok (err e, db) h = cc

-- A revocation keeps the keys, and leaves each row as it was or revoked.
pub revoke-Keeps :
    (codec : Codec) (fs : Faults) (db : Db) (on_final on_pending : ℕ → Option Error)
    (ident : AcmeIdentifier) (now : ℤ)
    → IsConsistent db
    → let out = (perform codec fs db (revoke on_final on_pending ident now)).1 in
      Keeps db.final out.final × Keeps db.pending out.pending
unfolding perform
revoke-Keeps codec fs db on_final on_pending ident now v =
    let (r, e, final, pending) =
      revoke_authorizations_by_domain-Keeps (rounds db) on_final on_pending db ident now
        v.final_unique v.pending_unique (omega arith) in
    rw e (final, pending)

revoke-IsConsistent :
    (codec : Codec) (fs : Faults) (db : Db) (on_final on_pending : ℕ → Option Error)
    (ident : AcmeIdentifier) (now : ℤ)
    → IsConsistent db
    → IsConsistent (perform codec fs db (revoke on_final on_pending ident now)).1
revoke-IsConsistent codec fs db on_final on_pending ident now v =
    let (final, pending) = revoke-Keeps codec fs db on_final on_pending ident now v in
    record {
      pending_unique = pending.unique;
      final_unique = final.unique;
      apart = Apart-Keeps db.pending db.final _ _ pending final v.apart;
    }

-- Every operation that writes the tables of authorizations, with any statements failing, keeps the
-- keys of the two tables unique and apart: an authorization is pending or final, never both and
-- never twice. The operations are NewPendingAuthorization, UpdatePendingAuthorization,
-- FinalizeAuthorization, DeactivateAuthorization and RevokeAuthorizationsByDomain; the first of
-- them must not lose the error of its query for a final row.
pub perform-IsConsistent :
    (codec : Codec) (fs : Faults) (db : Db) (op : Op)
    → IsConsistent db
    → FinalQueryWorks op fs
    → IsConsistent (perform codec fs db op).1
perform-IsConsistent codec fs db (create tokens a) v q =
    or_unchanged db _ v (λ e. perform-err codec fs db (create tokens a) e tt)
      (λ h.
        unfold perform in
        let (made, e, same) = created_ok (new_pending_authorization codec fs tokens db a) h in
        rw same (create-IsConsistent codec fs db tokens a made v q e))
perform-IsConsistent codec fs db (change a) v q =
    or_unchanged db _ v (λ e. perform-err codec fs db (change a) e tt)
      (λ h. unfold perform in update-IsConsistent codec fs db a v h)
perform-IsConsistent codec fs db (finalize a) v q =
    or_unchanged db _ v (λ e. perform-err codec fs db (finalize a) e tt)
      (λ h. unfold perform in finalize-IsConsistent codec fs db a v h)
perform-IsConsistent codec fs db (deactivate id) v q =
    unfold perform in deactivate-IsConsistent fs db id v
perform-IsConsistent codec fs db (revoke on_final on_pending ident now) v q =
    revoke-IsConsistent codec fs db on_final on_pending ident now v
