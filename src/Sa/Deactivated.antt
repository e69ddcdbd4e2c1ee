-- ===== src/Sa/Deactivated.antt =====
-- sa/sa.go: a pending authorization that is deactivated keeps its row, and can still be finalized.
use boulder.Prelude.Text.{Text, text_Eq}
use boulder.Prelude.{◌≡◌, refl, true, some, List, [], ◌∷◌, arith, inl, inr, Bool-cases, ◌==◌}
use boulder.Errors.{ok}
use boulder.Core.Types.{deactivated, is_pending, Authorization}
use boulder.Sa.Model.{Codec}
use boulder.Sa.Db.{Db, Faults, no_faults, transaction, has_id, existing, select, columns}
use boulder.Sa.Authz.{finalize_authorization, set_status, deactivate_authorization}
use boulder.Sa.Outcomes.{finalize_authorization-ok}
use boulder.Sa.Rows.{has_id-set_status}

pub select-some :
    (id : Text) (rows : List Authorization)
    → has_id id rows ≡ true
    → (a : Authorization) × (select id rows ≡ some a)
unfolding has_id select
select-some id [] h = cc
select-some id (b ∷ rows) h = elim (Bool-cases (b.id == id)) [
  | inl y ↦ rw y (b, refl)
  | inr n ↦ rw n (select-some id rows (rw n at h))
]

deactivated_rows :
    (db : Db) (id : Text)
    → has_id id db.pending ≡ true
    → (deactivate_authorization no_faults db id).1
      ≡ record db { pending = set_status is_pending deactivated id db.pending }
unfolding deactivate_authorization transaction existing
deactivated_rows db id h = rw h refl

finalize_again :
    (codec : Codec) (fs : Faults) (db : Db) (authz : Authorization) (rows : List Authorization)
    → (finalize_authorization codec fs db authz).0 ≡ ok tt
    → has_id authz.id rows ≡ true
    → (finalize_authorization codec fs (record db { pending = rows }) authz).0 ≡ ok tt
unfolding finalize_authorization transaction existing
finalize_again codec fs db authz rows h here =
    let (a, e) = select-some authz.id rows here in ground arith

-- Whenever a pending authorization could be finalized, it still can be after it was deactivated: the
-- row that is stored is the one passed, with its status, which may be valid.
pub finalize-deactivate :
    (codec : Codec) (fs : Faults) (db : Db) (authz : Authorization)
    → (finalize_authorization codec fs db authz).0 ≡ ok tt
    → ((finalize_authorization codec fs (deactivate_authorization no_faults db authz.id).1 authz).0
        ≡ ok tt)
      × ((finalize_authorization codec fs
            (deactivate_authorization no_faults db authz.id).1
            authz).1.final
          ≡ columns authz ∷ db.final)
finalize-deactivate codec fs db authz h =
    let here = (finalize_authorization-ok codec fs db authz h).0 in
    let rows = set_status is_pending deactivated authz.id db.pending in
    let again =
      finalize_again codec fs db authz rows h
        (rw (has_id-set_status authz.id authz.id is_pending deactivated db.pending) here) in
    rw (deactivated_rows db authz.id here)
      (again, (finalize_authorization-ok codec fs (record db { pending = rows }) authz again).4)
