-- ===== src/Sa/Refinement.antt =====
-- sa/sa.go: the operations on authorizations do what the abstract machine on phases allows.
use boulder.Prelude.Text.{Text, text_Eq, text_eq_iff}
use boulder.Prelude.Int.{ℤ}
use boulder.Prelude.{
  ℕ, ◌≡◌, refl, true, Option, none, some, List, [], ◌∷◌, inl, inr, ◌⊎◌, Bool-cases, ◌==◌,
}
use boulder.Errors.{Error, Result, ok, err}
use boulder.Core.Types.{
  AcmeStatus, AcmeIdentifier, deactivated, is_pending, is_valid, Authorization,
}
use boulder.Sa.Model.{Codec}
use boulder.Sa.Db.{Db, Faults, statement, transaction, has_id, existing, select}
use boulder.Sa.Authz.{
  set_status, new_pending_authorization, update_pending_authorization, finalize_authorization,
  deactivate_authorization,
}
use boulder.Sa.Operations.{Op, create, change, finalize, deactivate, revoke, perform}
use boulder.Sa.Revoking.{Touched}
use boulder.Sa.Outcomes.{
  perform-err, finalize_authorization-ok, update_pending_authorization-ok,
  new_pending_authorization-ok,
}
use boulder.Sa.Invariant.{
  IsConsistent, perform-IsConsistent, revoke-Keeps, FinalQueryWorks, new_id-not_final, created_ok,
  Outcome-cases,
}
use boulder.Sa.Deactivated.{select-some}
use boulder.Sa.Phase.{
  Phase, absent, open_with, closed_with, phase_of, phase, Step, stays, created, changed, finalized,
  deactivated_open, deactivated_closed, revoked_open, revoked_closed, Reach, here, next,
  StaysClosed, Reach-StaysClosed, select-none, select-update, select-delete, select-set_status,
  with_status,
}

-- The step between two phases that are computed.
abbrev Between :
    Option Authorization
    → Option Authorization
    → Option Authorization
    → Option Authorization
    → Type 0
Between p f p' f' = Step (phase_of p f) (phase_of p' f')

create-Step :
    (codec : Codec) (fs : Faults) (db : Db) (tokens : List Text) (a made : Authorization)
    (id : Text)
    → fs.at 1 ≡ none
    → (new_pending_authorization codec fs tokens db a).0 ≡ ok made
    → Step (phase db id) (phase (new_pending_authorization codec fs tokens db a).1 id)
unfolding select
create-Step codec fs db tokens a made id q h =
    let (drawn, new, status, p, f) = new_pending_authorization-ok codec fs tokens db a made h in
    rw (p, f)
      (elim (Bool-cases (made.id == id)) [
        | inr n ↦ rw n (stays (phase db id))
        | inl y ↦
            let e : made.id ≡ id = (text_eq_iff made.id id).0 y in
            let fresh = select-none id db.pending (rw e at new) in
            let open_q = new_id-not_final (fs.at 0) db tokens id (rw (q, e) at drawn) in
            let not_final = select-none id db.final open_q in
            rw (y, fresh, not_final) (created made.status)
      ])

change-Step :
    (codec : Codec) (fs : Faults) (db : Db) (a : Authorization) (id : Text)
    → (update_pending_authorization codec fs db a).0 ≡ ok tt
    → Step (phase db id) (phase (update_pending_authorization codec fs db a).1 id)
change-Step codec fs db a id h =
    let (there, status, p, f) = update_pending_authorization-ok codec fs db a h in
    rw (p, f, select-update id a db.pending)
      (elim (Bool-cases (a.id == id)) [
        | inr n ↦ rw n (stays (phase db id))
        | inl y ↦
            let e : a.id ≡ id = (text_eq_iff a.id id).0 y in
            let here' : has_id id db.pending ≡ true = rw e at there in
            let (b, found) = select-some id db.pending here' in
            rw (y, here', found) (changed b.status a.status status)
      ])

finalize-Step :
    (codec : Codec) (fs : Faults) (db : Db) (a : Authorization) (id : Text)
    → (finalize_authorization codec fs db a).0 ≡ ok tt
    → Step (phase db id) (phase (finalize_authorization codec fs db a).1 id)
unfolding select
finalize-Step codec fs db a id h =
    let (there, status, fresh, p, f) = finalize_authorization-ok codec fs db a h in
    rw (p, f, select-delete id a.id db.pending)
      (elim (Bool-cases (a.id == id)) [
        | inr n ↦ rw n (stays (phase db id))
        | inl y ↦
            let e : a.id ≡ id = (text_eq_iff a.id id).0 y in
            let (b, found) = select-some id db.pending (rw e at there) in
            rw (y, found) (finalized b.status a.status status)
      ])

pending_to_deactivated :
    (p f : Option Authorization)
    → Step (phase_of p f) (phase_of (with_status is_pending deactivated p) f)
pending_to_deactivated none f = stays (phase_of none f)
pending_to_deactivated (some a) f = elim (Bool-cases (is_pending a.status)) [
  | inl y ↦ rw y (deactivated_open a.status y)
  | inr n ↦ rw n (stays (open_with a.status))
]

valid_to_deactivated :
    (f : Option Authorization)
    → Step (phase_of none f) (phase_of none (with_status is_valid deactivated f))
valid_to_deactivated none = stays absent
valid_to_deactivated (some a) = elim (Bool-cases (is_valid a.status)) [
  | inl y ↦ rw y (deactivated_closed a.status y)
  | inr n ↦ rw n (stays (closed_with a.status))
]

after_commit :
    (b c : Option Error) (r : Option Error) (at : ℕ → Option Error) (db db' : Db) (e : Option Error)
    → let fs : Faults = record { begin = b; commit = c; rollback = r; at = at } in
      let after = (transaction fs db (statement e (ok (tt {0}, db')))).1 in
      (after ≡ db) ⊎ (after ≡ db')
unfolding transaction
after_commit (some x) c r at db db' e = inl refl
after_commit none c r at db db' (some x) = inl refl
after_commit none (some x) r at db db' none = inl refl
after_commit none none r at db db' none = inr refl

-- The tables after a deactivation, whose statements may fail.
deactivated_cases :
    (fs : Faults) (db : Db) (k : Text)
    → ((deactivate_authorization fs db k).1 ≡ db)
      ⊎ ((deactivate_authorization fs db k).1
          ≡ record db { pending = set_status is_pending deactivated k db.pending })
      ⊎ ((deactivate_authorization fs db k).1
          ≡ record db { final = set_status is_valid deactivated k db.final })
unfolding deactivate_authorization
deactivated_cases fs db k = elim (Bool-cases (existing (fs.at 0) k db.pending)) [
  | inl y ↦
      elim (after_commit fs.begin fs.commit fs.rollback fs.at db
        (record db { pending = set_status is_pending deactivated k db.pending }) (fs.at 1)) [
          | inl e ↦ inl (rw y e)
          | inr e ↦ inr (inl (rw y e))
        ]
  | inr n ↦
      elim (after_commit fs.begin fs.commit fs.rollback fs.at db
        (record db { final = set_status is_valid deactivated k db.final }) (fs.at 1)) [
          | inl e ↦ inl (rw n e)
          | inr e ↦ inr (inr (rw n e))
        ]
]

closed_or_hidden :
    (p f : Option Authorization)
    → Step (phase_of p f) (phase_of p (with_status is_valid deactivated f))
closed_or_hidden none f = valid_to_deactivated f
closed_or_hidden (some a) f = stays (open_with a.status)

deactivate-Step :
    (fs : Faults) (db : Db) (k id : Text)
    → Step (phase db id) (phase (deactivate_authorization fs db k).1 id)
deactivate-Step fs db k id = elim (deactivated_cases fs db k) [
  | inl e ↦ rw e (stays (phase db id))
  | inr (inl e) ↦
      rw (e, select-set_status id k is_pending deactivated db.pending)
        (elim (Bool-cases (k == id)) [
          | inl y ↦ rw y (pending_to_deactivated (select id db.pending) (select id db.final))
          | inr n ↦ rw n (stays (phase db id))
        ])
  | inr (inr e) ↦
      rw (e, select-set_status id k is_valid deactivated db.final)
        (elim (Bool-cases (k == id)) [
          | inl y ↦ rw y (closed_or_hidden (select id db.pending) (select id db.final))
          | inr n ↦ rw n (stays (phase db id))
        ])
]

-- A row that a revocation touches was neither invalid nor revoked. The rows of one table at a time are new.
closed_touched :
    (p f f' : Option Authorization) → Touched f f' → Step (phase_of p f) (phase_of p f')
closed_touched (some a) f f' t = stays (open_with a.status)
closed_touched none f f' (inl e) = rw e (stays (phase_of none f))
closed_touched none f f' (inr (a, e, live, e')) = rw (e, e') (revoked_closed a.status live)

touched_step :
    (p f p' f' : Option Authorization)
    → Touched p p'
    → Touched f f'
    → Step (phase_of p f) (phase_of p' f')
touched_step p f p' f' (inl e) u = rw e (closed_touched p f f' u)
touched_step p f p' f' (inr (a, e, live, e')) u = rw (e, e') (revoked_open a.status live)

revoke-Step :
    (codec : Codec) (fs : Faults) (db : Db) (on_final on_pending : ℕ → Option Error)
    (ident : AcmeIdentifier) (now : ℤ) (id : Text)
    → IsConsistent db
    → Step (phase db id) (phase (perform codec fs db (revoke on_final on_pending ident now)).1 id)
revoke-Step codec fs db on_final on_pending ident now id v =
    let (final, pending) = revoke-Keeps codec fs db on_final on_pending ident now v in
    touched_step (select id db.pending) (select id db.final) _ _ (pending.touched id)
      (final.touched id)

-- A transaction that fails changes no phase.
or_stays :
    (db : Db) (id : Text) (r : Result (Unit {0}) × Db)
    → ((e : Error) → r.0 ≡ err e → r.1 ≡ db)
    → (r.0 ≡ ok tt → Step (phase db id) (phase r.1 id))
    → Step (phase db id) (phase r.1 id)
or_stays db id r failed worked = elim (Outcome-cases r.0) [
  | inr (e, n) ↦ rw (failed e n) (stays (phase db id))
  | inl y ↦ worked y
]

-- Refinement: when NewPendingAuthorization, UpdatePendingAuthorization, FinalizeAuthorization,
-- DeactivateAuthorization or RevokeAuthorizationsByDomain is called on consistent tables, with any
-- statements failing, and whether it succeeds or not, the phase of every identifier makes a step of
-- the abstract machine. The first of them must not lose the error of its query for a final row.
pub perform-Step :
    (codec : Codec) (fs : Faults) (db : Db) (op : Op) (id : Text)
    → IsConsistent db
    → FinalQueryWorks op fs
    → Step (phase db id) (phase (perform codec fs db op).1 id)
perform-Step codec fs db (create tokens a) id v q =
    or_stays db id _ (λ e. perform-err codec fs db (create tokens a) e tt)
      (λ h.
        unfold perform in
        let (made, e, same) = created_ok (new_pending_authorization codec fs tokens db a) h in
        rw same (create-Step codec fs db tokens a made id q e))
perform-Step codec fs db (change a) id v q =
    or_stays db id _ (λ e. perform-err codec fs db (change a) e tt)
      (λ h. unfold perform in change-Step codec fs db a id h)
perform-Step codec fs db (finalize a) id v q =
    or_stays db id _ (λ e. perform-err codec fs db (finalize a) e tt)
      (λ h. unfold perform in finalize-Step codec fs db a id h)
perform-Step codec fs db (deactivate k) id v q = unfold perform in deactivate-Step fs db k id
perform-Step codec fs db (revoke on_final on_pending ident now) id v q =
    revoke-Step codec fs db on_final on_pending ident now id v

-- A history of calls, each with the failures that it meets.
pub run : Codec → Db → List (Faults × Op) → Db
run codec db [] = db
run codec db ((fs, op) ∷ calls) = run codec (perform codec fs db op).1 calls

abbrev pub AllQueriesWork : List (Faults × Op) → Type 0
AllQueriesWork [] = Unit {0}
AllQueriesWork ((fs, op) ∷ calls) = FinalQueryWorks op fs × AllQueriesWork calls

run-Reach :
    (codec : Codec) (start : Phase) (db : Db) (calls : List (Faults × Op)) (id : Text)
    → IsConsistent db
    → AllQueriesWork calls
    → Reach start (phase db id)
    → Reach start (phase (run codec db calls) id)
unfolding run
run-Reach codec start db [] id v q r = r
run-Reach codec start db ((fs, op) ∷ calls) id v q r =
    run-Reach codec start (perform codec fs db op).1 calls id
      (perform-IsConsistent codec fs db op v q.0) q.1
      (next r (perform-Step codec fs db op id v q.0))

-- A final authorization of consistent tables stays final under every history of calls of the five
-- operations, each with its own failures, where no creation loses the error of its query for a final
-- row: it keeps its status, unless it was valid and has been deactivated, or was neither invalid nor
-- revoked and has been revoked.
pub run-StaysClosed :
    (codec : Codec) (db : Db) (calls : List (Faults × Op)) (id : Text) (s : AcmeStatus)
    → IsConsistent db
    → phase db id ≡ closed_with s
    → AllQueriesWork calls
    → StaysClosed s (phase (run codec db calls) id)
run-StaysClosed codec db calls id s v e q =
    Reach-StaysClosed s (run-Reach codec (phase db id) db calls id v q here) (inl e)
