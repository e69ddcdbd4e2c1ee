-- ===== src/Sa/Authz.antt =====
-- sa/sa.go and sa/authz.go: the life of an authorization in the database.
use boulder.Prelude.Text.{Text, text_Eq}
use boulder.Prelude.Int.{int_eq}
use boulder.Prelude.{
  ℕ, suc, ◌+◌, Bool, true, false, not, ◌||◌, ◌&&◌, Option, none, some, List, [], ◌∷◌, ◌++◌,
  if◌then◌else◌, ◌==◌, nat_beq, length,
}
use boulder.Errors.{
  Error, plain_error, boulder_error, internal_server, Result, ok, err, ◌>>=◌, ◌>>◌, require,
}
use boulder.Core.Types.{
  AcmeStatus, pending, processing, unknown, deactivated, is_pending, is_valid, Challenge,
  Authorization,
}
use boulder.Sa.Model.{Codec, ChallModel, challenge_to_model, model_to_challenge}
use boulder.Sa.Db.{
  Db, Faults, statement, transaction, existing, select, insert, update, delete, challenges_of,
  update_challenge,
}

unfoldable pub status_is_pending : AcmeStatus → Bool
status_is_pending pending = true
status_is_pending processing = true
status_is_pending unknown = true
status_is_pending _ = false

abbrev not_pending : Error
not_pending = boulder_error internal_server "authorization is not pending"

abbrev finalized : Error
finalized = boulder_error internal_server "cannot update a finalized authorization"

abbrev not_found : Error
not_found = boulder_error internal_server "authorization with ID not found"

abbrev with_id_not_pending : Error
with_id_not_pending = boulder_error internal_server "authorization with ID is not pending"

abbrev pub or_fail {ℓ} : {V : Type ℓ} (found : Option V) (failure : Error) → Result V
or_fail (some row) failure = ok row
or_fail none failure = err failure

-- The loop that draws tokens until one is new. `queries` has the failures of its two queries.
unfoldable pub new_id : Option Error → Option Error → Db → List Text → Option Text
new_id qp qf db [] = none
new_id qp qf db (t ∷ tokens) =
    let rest = new_id qp qf db tokens in
    if existing qp t db.pending || existing qf t db.final then rest else some t

module _ (codec : Codec) where
  -- The loop of updateChallenges over the challenges and the stored rows; `f` has the failures of
  -- the updates.
  unfoldable pub update_each :
      (ℕ → Option Error)
      → List Challenge
      → List ChallModel
      → List ChallModel
      → Result (List ChallModel)
  update_each f [] ms table = ok table
  update_each f (ch ∷ chs) [] table = err (plain_error "index out of range")
  update_each f (ch ∷ chs) (m ∷ ms) table = challenge_to_model codec ch m.authorization_id >>= λ cm.
      statement (f 0)
        (update_each (λ n. f (suc n)) chs ms (update_challenge (record cm { id = m.id }) table))

  unfoldable pub update_challenges :
      (ℕ → Option Error) → Text → List Challenge → List ChallModel → Result (List ChallModel)
  update_challenges f auth_id challenges table =
      let challs = challenges_of auth_id table in
      statement (f 0) (
        require (nat_beq (length challs) (length challenges))
          (plain_error "Invalid number of challenges provided")
        >> update_each (λ n. f (suc n)) challenges challs table)

  -- The loop of NewPendingAuthorization that stores the challenges, each under the next key.
  unfoldable pub insert_each :
      (ℕ → Option Error)
      → Text
      → List Challenge
      → List ChallModel
      → ℕ
      → Result (List Challenge × List ChallModel × ℕ)
  insert_each f auth_id [] table next = ok ([], table, next)
  insert_each f auth_id (ch ∷ chs) table next = challenge_to_model codec ch auth_id >>= λ cm.
      statement (f 0) (
        model_to_challenge codec (record cm { id = next }) >>= λ challenge.
        insert_each (λ n. f (suc n)) auth_id chs (table ++ record cm { id = next } ∷ []) (suc next)
        >>= λ (rest, table', next'). ok (challenge ∷ rest, table', next'))

  -- NewPendingAuthorization. The tokens are what NewToken draws, one after the other.
  unfoldable pub new_pending_authorization :
      Faults → List Text → Db → Authorization → Result Authorization × Db
  new_pending_authorization fs tokens db authz = transaction fs db (
      or_fail (new_id (fs.at 0) (fs.at 1) db tokens) (plain_error "no token left") >>= λ id.
      let pending_authz = record authz { id = id } in
      statement (fs.at 2) (insert pending_authz db.pending) >>= λ rows.
      insert_each (λ n. fs.at (n + 3)) id authz.challenges db.challenges db.next_challenge
      >>= λ (challenges, table, next). ok (
        record pending_authz { challenges = challenges },
        record db { pending = rows; challenges = table; next_challenge = next },
      ))

  -- UpdatePendingAuthorization
  unfoldable pub update_pending_authorization : Faults → Db → Authorization → Result (Unit {0}) × Db
  update_pending_authorization fs db authz = transaction fs db (
      require (status_is_pending authz.status) not_pending
      >> require (not (existing (fs.at 0) authz.id db.final)) finalized
      >> require (existing (fs.at 1) authz.id db.pending) not_found
      >> statement (fs.at 2) (or_fail (select authz.id db.pending) not_found)
      >>= λ pa. statement (fs.at 3) (ok (update authz db.pending)) >>= λ rows.
          update_challenges (λ n. fs.at (n + 4)) authz.id authz.challenges db.challenges
          >>= λ table. ok (tt, record db { pending = rows; challenges = table }))

  -- FinalizeAuthorization
  unfoldable pub finalize_authorization : Faults → Db → Authorization → Result (Unit {0}) × Db
  finalize_authorization fs db authz = transaction fs db (
      require (existing (fs.at 0) authz.id db.pending) not_found
      >> require (not (status_is_pending authz.status)) with_id_not_pending
      >> statement (fs.at 1) (or_fail (select authz.id db.pending) not_found)
      >>= λ pa. statement (fs.at 2) (insert authz db.final) >>= λ rows.
          statement (fs.at 3) (ok (delete authz.id db.pending)) >>= λ rest.
          update_challenges (λ n. fs.at (n + 4)) authz.id authz.challenges db.challenges
          >>= λ table. ok (tt, record db { pending = rest; final = rows; challenges = table }))

-- UPDATE … SET status = … WHERE id = … and status = …; the test is the old status.
unfoldable pub set_status :
    (AcmeStatus → Bool) → AcmeStatus → Text → List Authorization → List Authorization
set_status old new id [] = []
set_status old new id (a ∷ rows) =
    if a.id == id && old a.status
    then record a { status = new } ∷ set_status old new id rows
    else a ∷ set_status old new id rows

-- DeactivateAuthorization
unfoldable pub deactivate_authorization : Faults → Db → Text → Result (Unit {0}) × Db
deactivate_authorization fs db id = transaction fs db (
    statement (fs.at 1) (
      if existing (fs.at 0) id db.pending
      then ok (tt, record db { pending = set_status is_pending deactivated id db.pending })
      else ok (tt, record db { final = set_status is_valid deactivated id db.final })))
