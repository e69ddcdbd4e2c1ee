-- ===== src/Sa/GetAuthz.antt =====
-- sa/sa.go: GetAuthorization.
use boulder.Prelude.Text.{Text, text_Eq, text_eq_iff}
use boulder.Prelude.{
  ◌≡◌, sym, ap, ◌∙◌, none, some, List, [], ◌∷◌, arith, true, inl, inr, ==-refl, Bool-cases,
}
use boulder.Errors.{plain_error, Result, ok, ◌>>=◌, >>=-ok}
use boulder.Core.Types.{Challenge, Authorization}
use boulder.Sa.Model.{Codec, ChallModel, model_to_challenge}
use boulder.Sa.Db.{Db, Faults, statement, transaction, has_id, select, challenges_of}
use boulder.Sa.Authz.{or_fail}
use boulder.Sa.Rows.{UniqueIds, Apart-elem}
use boulder.Sa.Invariant.{IsConsistent}
use boulder.Sa.Transactions.{transaction-ok, statement-ok}
use boulder.Sa.Queries.{IsRow}
use boulder.Sa.Phase.{select-none}

-- The row of either table; a pending one comes first.
unfoldable pub select_either : Faults → Db → Text → Result Authorization
select_either fs db id = statement (fs.at 0) (elim (select id db.pending) [
  | some pa ↦ ok pa
  | none ↦
      statement (fs.at 1)
        (or_fail (select id db.final) (plain_error "No pendingAuthorization or authz with ID %s"))
])

-- The loop over the challenges.
unfoldable pub read_challenges : Codec → List ChallModel → Result (List Challenge)
read_challenges codec [] = ok []
read_challenges codec (c ∷ rows) = model_to_challenge codec c >>= λ chall.
    read_challenges codec rows >>= λ challs. ok (chall ∷ challs)

unfoldable pub read_authorization : Codec → Faults → Db → Text → Result (Authorization × Db)
read_authorization codec fs db id = select_either fs db id >>= λ authz.
    statement (fs.at 2) (read_challenges codec (challenges_of authz.id db.challenges)) >>= λ challs.
    ok (record authz { challenges = challs }, db)

unfoldable pub get_authorization : Codec → Faults → Db → Text → Result Authorization
unfolding read_authorization
get_authorization codec fs db id = (transaction fs db (read_authorization codec fs db id)).0

IsRow-has_id :
    (a : Authorization) (rows : List Authorization) → IsRow a rows → has_id a.id rows ≡ true
unfolding has_id
IsRow-has_id a [] r = elim r [ ]
IsRow-has_id a (b ∷ rows) (inl e) = ground (arith, ==-refl a.id)
IsRow-has_id a (b ∷ rows) (inr r) = ground (arith, IsRow-has_id a rows r)

IsRow-select :
    (a : Authorization) (rows : List Authorization)
    → UniqueIds rows
    → IsRow a rows
    → select a.id rows ≡ some a
unfolding select
IsRow-select a [] u r = elim r [ ]
IsRow-select a (b ∷ rows) u (inl e) = ground (arith, ==-refl a.id)
IsRow-select a (b ∷ rows) u (inr r) =
    ground (arith, text_eq_iff b.id a.id, IsRow-has_id a rows r, IsRow-select a rows u.1 r)

not_pending :
    (db : Db) (id : Text)
    → IsConsistent db
    → has_id id db.final ≡ true
    → select id db.pending ≡ none
not_pending db id v h = elim (Bool-cases (has_id id db.pending)) [
  | inr n ↦ select-none id db.pending n
  | inl y ↦ absurd (ground (arith, Apart-elem id db.pending db.final v.apart y))
]

selected :
    (fs : Faults) (db : Db) (a got : Authorization)
    → select a.id db.pending ≡ none
    → select a.id db.final ≡ some a
    → select_either fs db a.id ≡ ok got
    → got ≡ a
unfolding select_either
selected fs db a got n s h = ground arith

-- GetAuthorization on consistent tables gives a final row with its challenges.
pub get_authorization-final :
    (codec : Codec) (fs : Faults) (db : Db) (a authz : Authorization)
    → IsConsistent db
    → IsRow a db.final
    → get_authorization codec fs db a.id ≡ ok authz
    → (challenges : List Challenge) × (read_challenges codec (challenges_of a.id db.challenges)
        ≡ ok challenges)
      × (authz ≡ record a { challenges = challenges })
unfolding get_authorization
get_authorization-final codec fs db a authz v r h =
    let body = transaction-ok fs db (read_authorization codec fs db a.id) authz h in
    let (got, e, rest) = >>=-ok (select_either fs db a.id) _ _ body in
    let got_is =
      selected fs db a got (not_pending db a.id v (IsRow-has_id a db.final r))
        (IsRow-select a db.final v.final_unique r) e in
    let (challenges, f, made) =
      >>=-ok (statement (fs.at 2) (read_challenges codec (challenges_of got.id db.challenges))) _ _
        rest in
    let read = statement-ok (fs.at 2) _ challenges f in
    (
      challenges,
      ap (λ (b : Authorization). read_challenges codec (challenges_of b.id db.challenges))
            (sym got_is)
          ∙ read,
      first_of _ _ _ made ∙ ap (λ (b : Authorization). record b { challenges = challenges }) got_is,
    )
  where
    first_of :
        (x y : Authorization) (d : Db)
        → ◌≡◌ {A = Result (Authorization × Db)} (ok (x, db)) (ok (y, d))
        → y ≡ x
    first_of x y d e = ground arith
