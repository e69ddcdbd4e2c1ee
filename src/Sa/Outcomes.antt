-- ===== src/Sa/Outcomes.antt =====
-- sa/sa.go: what each operation on an authorization does when it succeeds, and that it does nothing
-- when it fails.
use boulder.Prelude.Text.{Text, text_Eq}
use boulder.Prelude.{◌≡◌, true, false, some, List, ◌∷◌, arith}
use boulder.Errors.{Error, Result, ok, err}
use boulder.Core.Types.{Authorization}
use boulder.Sa.Model.{Codec}
use boulder.Sa.Db.{Db, Faults, transaction, has_id, existing, columns, insert, update, delete}
use boulder.Sa.Transactions.{transaction-err}
use boulder.Sa.Authz.{
  status_is_pending, new_id, new_pending_authorization, update_pending_authorization,
  finalize_authorization, deactivate_authorization,
}
use boulder.Sa.Operations.{Op, create, change, finalize, deactivate, revoke, perform, done}

-- All operations but the revocation by domain are one transaction.
abbrev pub IsTransaction : Op → Type 0
IsTransaction (revoke on_final on_pending ident now) = ⊥
IsTransaction _ = Unit {0}

-- A transaction that returns an error leaves every table as it was.
pub perform-err :
    (codec : Codec) (fs : Faults) (db : Db) (op : Op) (e : Error)
    → IsTransaction op
    → (perform codec fs db op).0 ≡ err e
    → (perform codec fs db op).1 ≡ db
unfolding perform new_pending_authorization update_pending_authorization finalize_authorization
    deactivate_authorization
perform-err codec fs db (create tokens authz) e t h = created _ h
  where
    created :
        (body : Result (Authorization × Db))
        → (done (transaction fs db body)).0 ≡ err e
        → (done (transaction fs db body)).1 ≡ db
    created body h = unfold transaction in ground arith
perform-err codec fs db (change authz) e t h = transaction-err fs db _ e h
perform-err codec fs db (finalize authz) e t h = transaction-err fs db _ e h
perform-err codec fs db (deactivate id) e t h = transaction-err fs db _ e h
perform-err codec fs db (revoke on_final on_pending ident now) e t h = elim t [ ]

-- Finalizing succeeds only for a pending row and an authorization whose own status is final, and
-- moves the row: the new final row is the authorization that was passed.
pub finalize_authorization-ok :
    (codec : Codec) (fs : Faults) (db : Db) (authz : Authorization)
    → (finalize_authorization codec fs db authz).0 ≡ ok tt
    → (has_id authz.id db.pending ≡ true)
      × (status_is_pending authz.status ≡ false)
      × (has_id authz.id db.final ≡ false)
      × ((finalize_authorization codec fs db authz).1.pending ≡ delete authz.id db.pending)
      × ((finalize_authorization codec fs db authz).1.final ≡ columns authz ∷ db.final)
unfolding finalize_authorization transaction existing insert
finalize_authorization-ok codec fs db authz h =
    (ground arith, ground arith, ground arith, ground arith, ground arith)

pub update_pending_authorization-ok :
    (codec : Codec) (fs : Faults) (db : Db) (authz : Authorization)
    → (update_pending_authorization codec fs db authz).0 ≡ ok tt
    → (has_id authz.id db.pending ≡ true)
      × (status_is_pending authz.status ≡ true)
      × ((update_pending_authorization codec fs db authz).1.pending ≡ update authz db.pending)
      × ((update_pending_authorization codec fs db authz).1.final ≡ db.final)
unfolding update_pending_authorization transaction existing
update_pending_authorization-ok codec fs db authz h =
    (ground arith, ground arith, ground arith, ground arith)

pub new_pending_authorization-ok :
    (codec : Codec) (fs : Faults) (tokens : List Text) (db : Db) (authz made : Authorization)
    → (new_pending_authorization codec fs tokens db authz).0 ≡ ok made
    → (new_id (fs.at 0) (fs.at 1) db tokens ≡ some made.id)
      × (has_id made.id db.pending ≡ false)
      × (made.status ≡ authz.status)
      × ((new_pending_authorization codec fs tokens db authz).1.pending ≡ columns made ∷ db.pending)
      × ((new_pending_authorization codec fs tokens db authz).1.final ≡ db.final)
unfolding new_pending_authorization transaction insert
new_pending_authorization-ok codec fs tokens db authz made h =
    (ground arith, ground arith, ground arith, ground arith, ground arith)

-- What the new row keeps of the authorization that was passed.
pub new_pending_authorization-kept :
    (codec : Codec) (fs : Faults) (tokens : List Text) (db : Db) (authz made : Authorization)
    → (new_pending_authorization codec fs tokens db authz).0 ≡ ok made
    → (made.identifier ≡ authz.identifier)
      × (made.registration_id ≡ authz.registration_id)
      × (made.expires ≡ authz.expires)
      × (made.combinations ≡ authz.combinations)
unfolding new_pending_authorization transaction insert
new_pending_authorization-kept codec fs tokens db authz made h =
    (ground arith, ground arith, ground arith, ground arith)
