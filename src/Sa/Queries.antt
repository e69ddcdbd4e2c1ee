-- ===== src/Sa/Queries.antt =====
-- sa/sa.go: which authorizations are found and counted.
use boulder.Prelude.Text.{Text, text_Eq}
use boulder.Prelude.Int.{ℤ, ltb_ℤ, int_eq}
use boulder.Prelude.{
  ℕ, suc, ◌≡◌, Bool, true, false, Option, none, some, List, [], ◌∷◌, ◌⊎◌, ◌==◌, if◌then◌else◌, not,
  ◌&&◌, elem,
}
use boulder.Errors.{Error, plain_error, boulder_error, internal_server, Result, ok, err, ◌>>=◌}
use boulder.Core.Types.{Authorization, is_valid, is_pending, is_invalid, is_dns}
use boulder.Sa.Db.{Db, statement}

abbrev pub after : Option ℤ → ℤ → Bool
after none now = false
after (some t) now = ltb_ℤ now t

-- The WHERE clause of GetValidAuthorizations; the names are those of DNS identifiers.
unfoldable pub is_usable : ℤ → List Text → ℤ → Authorization → Bool
is_usable reg_id names now a =
    (a.registration_id == reg_id)
    && after a.expires now
    && is_dns a.identifier.kind
    && elem a.identifier.value names
    && is_valid a.status

unfoldable pub select_authzs : (Authorization → Bool) → List Authorization → List Authorization
select_authzs p [] = []
select_authzs p (a ∷ rows) = if p a then a ∷ select_authzs p rows else select_authzs p rows

-- byName[name]
unfoldable pub by_name : Text → List Authorization → Option Authorization
by_name n [] = none
by_name n (a ∷ m) = if a.identifier.value == n then some a else by_name n m

-- byName[auth.Identifier.Value] = auth
unfoldable pub put_name : Authorization → List Authorization → List Authorization
put_name a [] = a ∷ []
put_name a (b ∷ m) = if b.identifier.value == a.identifier.value then a ∷ m else b ∷ put_name a m

-- !present || auth.Expires.After(*existing.Expires)
abbrev pub expires_before : ℤ → Option ℤ → Bool
expires_before t none = true
expires_before t (some u) = ltb_ℤ u t

unfoldable pub is_better : ℤ → Option Authorization → Bool
is_better t none = true
is_better t (some existing) = expires_before t existing.expires

-- The body of the loop over the rows, given the row's expiry. The map so far is the list of its
-- authorizations.
unfoldable pub add_row : Authorization → Option ℤ → List Authorization → Result (List Authorization)
add_row a none m = ok m
add_row a (some t) m =
    if not (is_dns a.identifier.kind)
    then err (plain_error "unknown identifier type")
    else ok (if is_better t (by_name a.identifier.value m) then put_name a m else m)

unfoldable pub latest_by_name :
    List Authorization → List Authorization → Result (List Authorization)
latest_by_name [] m = ok m
latest_by_name (a ∷ rows) m = add_row a a.expires m >>= latest_by_name rows

-- GetValidAuthorizations. The failure is that of the query.
unfoldable pub get_valid_authorizations :
    Option Error → Db → ℤ → List Text → ℤ → Result (List Authorization)
get_valid_authorizations fault db reg_id [] now =
    err (boulder_error internal_server "no names received")
get_valid_authorizations fault db reg_id (n ∷ names) now =
    statement fault (latest_by_name (select_authzs (is_usable reg_id (n ∷ names) now) db.final) [])

unfoldable pub count_if : (Authorization → Bool) → List Authorization → ℕ
count_if p [] = 0
count_if p (a ∷ rows) = if p a then suc (count_if p rows) else count_if p rows

-- CountPendingAuthorizations
unfoldable pub count_pending_authorizations : Option Error → Db → ℤ → ℤ → Result ℕ
unfolding count_if
count_pending_authorizations fault db reg_id now = statement fault (
    ok (
      count_if (λ a. (a.registration_id == reg_id) && after a.expires now && is_pending a.status)
        db.pending))

abbrev at_or_before : Option ℤ → ℤ → Bool
at_or_before none t = false
at_or_before (some e) t = not (ltb_ℤ t e)

-- CountInvalidAuthorizations
unfoldable pub count_invalid_authorizations : Option Error → Db → ℤ → Text → ℤ → ℤ → Result ℕ
unfolding count_if
count_invalid_authorizations fault db reg_id hostname earliest latest = statement fault (
    ok (
      count_if
        (λ a.
          (a.registration_id == reg_id)
          && is_dns a.identifier.kind
          && (a.identifier.value == hostname)
          && after a.expires earliest
          && at_or_before a.expires latest
          && is_invalid a.status)
        db.final))

-- Rows of a table.
abbrev pub IsRow : Authorization → List Authorization → Type 0
IsRow a [] = ⊥
IsRow a (b ∷ rows) = (b ≡ a) ⊎ IsRow a rows
