-- ===== src/Sa/Operations.antt =====
-- sa/sa.go: the operations that write the tables of authorizations, as the storage authority's clients call them.
use boulder.Prelude.Text.{Text}
use boulder.Prelude.Int.{ℤ}
use boulder.Prelude.{ℕ, suc, ◌+◌, Option, none, some, List, length}
use boulder.Errors.{Error, plain_error, Result, ok, err}
use boulder.Core.Types.{AcmeIdentifier, Authorization}
use boulder.Sa.Model.{Codec}
use boulder.Sa.Db.{Db, Faults}
use boulder.Sa.Authz.{
  new_pending_authorization, update_pending_authorization, finalize_authorization,
  deactivate_authorization,
}
use boulder.Sa.Revoke.{Revocation, revoke_authorizations_by_domain}

-- The failures of the statements of a revocation are those of its two loops; `now` is clk.Now().
pub data Op : Type 0 where
  create : List Text → Authorization → Op
  change : Authorization → Op
  finalize : Authorization → Op
  deactivate : Text → Op
  revoke : (on_final on_pending : ℕ → Option Error) → AcmeIdentifier → (now : ℤ) → Op

abbrev pub done {ℓ} : {A : Type ℓ} → Result A × Db → Result (Unit {0}) × Db
done (ok a, db) = (ok tt, db)
done (err e, db) = (err e, db)

-- More rounds than there are rows.
abbrev pub rounds : Db → ℕ
rounds db = suc (length db.final + length db.pending)

-- What is left of a revocation is its error and the tables; each of its batches is written at once, so that
-- those before an error stay.
abbrev pub revoked_by : Db → Option Revocation → Result (Unit {0}) × Db
revoked_by db none = (err (plain_error "out of fuel"), db)
revoked_by db (some r) = (elim r.failure [ none ↦ ok tt | some e ↦ err e ], r.db)

unfoldable pub perform : Codec → Faults → Db → Op → Result (Unit {0}) × Db
perform codec fs db (create tokens authz) =
    done (new_pending_authorization codec fs tokens db authz)
perform codec fs db (change authz) = update_pending_authorization codec fs db authz
perform codec fs db (finalize authz) = finalize_authorization codec fs db authz
perform codec fs db (deactivate id) = deactivate_authorization fs db id
perform codec fs db (revoke on_final on_pending ident now) =
    revoked_by db (revoke_authorizations_by_domain (rounds db) on_final on_pending db ident now)
