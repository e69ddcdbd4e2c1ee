-- ===== src/Sa/Transactions.antt =====
-- sa/: what a transaction leaves behind.
use boulder.Prelude.{◌≡◌, arith, Option, some, none}
use boulder.Errors.{Error, Result, ok, err}
use boulder.Sa.Db.{Faults, statement, transaction}

module _ {ℓ κ} {A : Type ℓ} {S : Type κ} where
  -- A failed transaction changes nothing.
  pub transaction-err :
      (fs : Faults) (db : S) (body : Result (A × S)) (e : Error)
      → (transaction fs db body).0 ≡ err e
      → (transaction fs db body).1 ≡ db
  unfolding transaction
  transaction-err fs db body e h = ground arith

  -- One that returns has run its whole body.
  pub transaction-ok :
      (fs : Faults) (db : S) (body : Result (A × S)) (a : A)
      → (transaction fs db body).0 ≡ ok a
      → body ≡ ok (a, (transaction fs db body).1)
  unfolding transaction
  transaction-ok fs db body a h = ground arith

-- A statement that gives a value has not failed.
pub statement-ok {ℓ} :
    {A : Type ℓ} (fault : Option Error) (r : Result A) (a : A) → statement fault r ≡ ok a → r ≡ ok a
statement-ok (some e) r a h = cc
statement-ok none r a h = h
