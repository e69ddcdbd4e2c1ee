-- ===== src/Sa/Revoke.antt =====
-- sa/authz.go and RevokeAuthorizationsByDomain of sa/sa.go: authorizations are revoked in batches until
-- no more are found. A table counts the rows that an UPDATE finds, as the connection asks for.
use boulder.Prelude.Text.{Text, text_Eq}
use boulder.Prelude.Int.{ℤ}
use boulder.Prelude.{
  ℕ, zero, suc, ◌+◌, Bool, true, false, not, ◌&&◌, Option, none, some, List, [], ◌∷◌, ◌==◌,
  if◌then◌else◌, ltb, length, elem, take,
}
use boulder.Errors.{Error, plain_error}
use boulder.Core.Types.{
  revoked, is_invalid, is_revoked, IdentifierType, dns, other_identifier, AcmeIdentifier,
  Authorization,
}
use boulder.Core.Objects.{is_empty}
use boulder.Sa.Db.{Db}
use boulder.Sa.Queries.{after}

abbrev pub get_authorization_ids_max : ℕ
get_authorization_ids_max = 1000

abbrev same_kind : IdentifierType → IdentifierType → Bool
same_kind dns dns = true
same_kind (other_identifier s) (other_identifier t) = s == t
same_kind _ _ = false

-- The identifiers are compared by their JSON.
abbrev pub same_identifier : AcmeIdentifier → AcmeIdentifier → Bool
same_identifier a b = same_kind a.kind b.kind && (a.value == b.value)

-- The WHERE clause of getAuthorizationIDsByDomain.
unfoldable pub is_live : AcmeIdentifier → ℤ → Authorization → Bool
is_live ident now a =
    same_identifier a.identifier ident
    && not (is_invalid a.status)
    && not (is_revoked a.status)
    && after a.expires now

unfoldable pub live_ids : AcmeIdentifier → ℤ → List Authorization → List Text
live_ids ident now [] = []
live_ids ident now (a ∷ rows) =
    if is_live ident now a then a.id ∷ live_ids ident now rows else live_ids ident now rows

-- getAuthorizationIDsByDomain
unfoldable pub get_authorization_ids : AcmeIdentifier → ℤ → List Authorization → List Text
unfolding live_ids
get_authorization_ids ident now rows = take get_authorization_ids_max (live_ids ident now rows)

abbrev pub revoke_row : Authorization → Authorization
revoke_row a = record a { status = revoked }

-- revokeAuthorizations: the rows, and how many the UPDATE finds.
unfoldable pub revoke_rows : List Text → List Authorization → List Authorization
revoke_rows ids [] = []
revoke_rows ids (a ∷ rows) =
    if elem a.id ids then revoke_row a ∷ revoke_rows ids rows else a ∷ revoke_rows ids rows

unfoldable pub rows_affected : List Text → List Authorization → ℕ
rows_affected ids [] = 0
rows_affected ids (a ∷ rows) =
    if elem a.id ids then suc (rows_affected ids rows) else rows_affected ids rows

-- The rows of a table, how many were revoked, and the error that ended the loop.
pub record Batches : Type 0 where
  pub rows : List Authorization
  pub count : ℕ
  pub failure : Option Error

-- The loop over the batches of one table, with the failures of its statements; none is out of fuel.
unfoldable pub revoke_table :
    ℕ → (ℕ → Option Error) → AcmeIdentifier → ℤ → List Authorization → ℕ → Option Batches
revoke_table zero fault ident now rows count = none
revoke_table (suc fuel) fault ident now rows count = elim (fault 0) [
  | some e ↦ some (record { rows = rows; count = count; failure = some e })
  | none ↦
      let ids = get_authorization_ids ident now rows in
      let found = rows_affected ids rows in
      let more =
        revoke_table fuel (λ n. fault (n + 2)) ident now (revoke_rows ids rows) (count + found) in
      if is_empty ids
      then some (record { rows = rows; count = count; failure = none })
      else elim (fault 1) [
        | some e ↦ some (record { rows = rows; count = count; failure = some e })
        | none ↦
            if ltb found (length ids)
            then some (record {
              rows = revoke_rows ids rows;
              count = count + found;
              failure = some (plain_error "Didn't revoke all found authorizations");
            })
            else more
      ]
]

-- What RevokeAuthorizationsByDomain returns, and the tables.
pub record Revocation : Type 0 where
  pub db : Db
  pub final_count : ℕ
  pub pending_count : ℕ
  pub failure : Option Error

abbrev pub then_pending : Db → Batches → Option Batches → Option Revocation
then_pending db first none = none
then_pending db first (some second) = some (record {
  db = record db { final = first.rows; pending = second.rows };
  final_count = first.count;
  pending_count = second.count;
  failure = second.failure;
})

-- The second table is reached only if the first one's loop ended without an error.
abbrev pub after_final : Db → Option Batches → (Unit {0} → Option Batches) → Option Revocation
after_final db none second = none
after_final db (some first) second = elim first.failure [
  | none ↦ then_pending db first (second tt)
  | some e ↦ some (record {
    db = record db { final = first.rows };
    final_count = first.count;
    pending_count = 0;
    failure = some e;
  })
]

-- RevokeAuthorizationsByDomain, with the failures of the statements on each table.
unfoldable pub revoke_authorizations_by_domain :
    ℕ → (ℕ → Option Error) → (ℕ → Option Error) → Db → AcmeIdentifier → ℤ → Option Revocation
revoke_authorizations_by_domain fuel on_final on_pending db ident now =
    after_final db (revoke_table fuel on_final ident now db.final 0)
      (λ _. revoke_table fuel on_pending ident now db.pending 0)
