-- ===== src/Sa/Db.antt =====
-- sa/: the tables as lists of rows, statements that may fail, and transactions.
-- Every query of the source can fail. A call takes its failures as an argument: `at n` is the error
-- of its n-th statement, if any, and begin, commit and rollback are those of the transaction itself.
-- A transaction whose body ends with an error is rolled back, as the source does on every such
-- return (sa/rollback.go), so that a Rollback that is forgotten cannot be expressed here; one that cannot
-- commit leaves the tables as they were.
use boulder.Prelude.Text.{Text, text_Eq}
use boulder.Prelude.{
  ℕ, Bool, false, ◌||◌, Option, none, some, List, [], ◌∷◌, if◌then◌else◌, ◌==◌, nat_beq,
}
use boulder.Errors.{Error, plain_error, rolled_back, rollback_failed, Result, ok, err}
use boulder.Core.Types.{Authorization}
use boulder.Sa.Model.{ChallModel}

-- The tables pendingAuthorizations, authz and challenges; rows of the first two hold no challenges.
pub record Db : Type 0 where
  pub pending : List Authorization
  pub final : List Authorization
  pub challenges : List ChallModel
  pub next_challenge : ℕ

pub record Faults : Type 0 where
  pub begin : Option Error
  pub commit : Option Error
  pub rollback : Option Error
  pub at : ℕ → Option Error

abbrev pub no_faults : Faults
no_faults = record { begin = none; commit = none; rollback = none; at = λ n. none }

-- A statement that fails with an error, or goes on.
abbrev pub statement {ℓ} : {A : Type ℓ} → Option Error → Result A → Result A
statement (some e) r = err e
statement none r = r

-- Rollback
abbrev pub rollback_error : Option Error → Error → Error
rollback_error none e = rolled_back e
rollback_error (some also) e = rollback_failed e also

abbrev finish {ℓ κ} : {A : Type ℓ} {S : Type κ} → Faults → S → Result (A × S) → Result A × S
finish fs db (err e) = (err (rollback_error fs.rollback e), db)
finish fs db (ok (a, db')) = elim fs.commit [ some e ↦ (err e, db) | none ↦ (ok a, db') ]

unfoldable pub transaction {ℓ κ} :
    {A : Type ℓ} {S : Type κ} → Faults → S → Result (A × S) → Result A × S
transaction fs db body = elim fs.begin [ some e ↦ (err e, db) | none ↦ finish fs db body ]

-- SELECT count(*) FROM … WHERE id = …, without the failures.
unfoldable pub has_id : Text → List Authorization → Bool
has_id id [] = false
has_id id (a ∷ rows) = a.id == id || has_id id rows

-- existingPending and existingFinal drop the error of the query, and then count 0 rows.
unfoldable pub existing : Option Error → Text → List Authorization → Bool
existing (some e) id rows = false
existing none id rows = has_id id rows

unfoldable pub select : Text → List Authorization → Option Authorization
select id [] = none
select id (a ∷ rows) = if a.id == id then some a else select id rows

-- The columns of an authorization: its challenges are in their own table.
abbrev pub columns : Authorization → Authorization
columns a = record a { challenges = [] }

-- INSERT fails on a key that is there.
unfoldable pub insert : Authorization → List Authorization → Result (List Authorization)
insert a rows =
    if has_id a.id rows
    then err (plain_error "Error 1062: Duplicate entry")
    else ok (columns a ∷ rows)

-- UPDATE … WHERE id = …
unfoldable pub update : Authorization → List Authorization → List Authorization
update a [] = []
update a (b ∷ rows) = if b.id == a.id then columns a ∷ update a rows else b ∷ update a rows

unfoldable pub delete : Text → List Authorization → List Authorization
delete id [] = []
delete id (b ∷ rows) = if b.id == id then delete id rows else b ∷ delete id rows

-- getChallengesQuery; the table is in the order of its ids.
unfoldable pub challenges_of : Text → List ChallModel → List ChallModel
challenges_of id [] = []
challenges_of id (c ∷ rows) =
    if c.authorization_id == id then c ∷ challenges_of id rows else challenges_of id rows

unfoldable pub update_challenge : ChallModel → List ChallModel → List ChallModel
update_challenge cm [] = []
update_challenge cm (c ∷ rows) =
    if nat_beq c.id cm.id then cm ∷ update_challenge cm rows else c ∷ update_challenge cm rows
