-- ===== src/Ra/NewAuthzLaws.antt =====
-- ra/ra.go: what NewAuthorization returns.
use boulder.Prelude.Text.{Text, text_Eq, to_lower}
use boulder.Prelude.Int.{ℤ, ◌+ℤ◌, ◌<ℤ◌}
use boulder.Prelude.{
  List, ap, sym, ◌∙◌, ◌≡◌, refl, true, false, Option, none, some, [], ◌∷◌, arith, all, inl, inr,
  ◌⊎◌, Bool-cases, Option-cases,
}
use boulder.Errors.{Error, Result, ok, err, ◌>>◌}
use boulder.Features.{Flags}
use boulder.Core.Types.{AcmeIdentifier, is_valid, Challenge, Authorization, pending}
use boulder.Core.Objects.{is_sane_for_client_offer}
use boulder.Policy.Defs.{Names, AuthorityImpl, willing_to_issue}
use boulder.Sa.Model.{Codec}
use boulder.Sa.Db.{Db, Faults, has_id, columns, challenges_of}
use boulder.Sa.Outcomes.{new_pending_authorization-ok, new_pending_authorization-kept}
use boulder.Sa.Invariant.{IsConsistent}
use boulder.Sa.GetAuthz.{read_challenges, get_authorization, get_authorization-final}
use boulder.Sa.Queries.{IsRow, get_valid_authorizations, by_name}
use boulder.Sa.ValidAuthz.{get_valid_authorizations-usable}
use boulder.Ra.Config.{Config, hours_24}
use boulder.Ra.LimitLaws.{Result-cases}
use boulder.Ra.NewAuthz.{
  AuthzServices, Draws, check_new_authorization, find_reusable, among, populated, if_lasting,
  create_authorization, offered_sane, lowered, reuse_or, new_authorization,
}

lasting_one :
    (cut_off : ℤ) (x : Option ℤ) (authz got : Authorization)
    → if_lasting cut_off x authz ≡ ok (some got)
    → (got ≡ authz) × (t : ℤ) × (x ≡ some t) × (cut_off <ℤ t)
lasting_one cut_off none authz got h = absurd (ground arith)
lasting_one cut_off (some t) authz got h = (ground arith, t, refl, ground arith)

populated_one :
    (cut_off : ℤ) (r : Result Authorization) (got : Authorization)
    → populated cut_off r ≡ ok (some got)
    → (r ≡ ok got) × (t : ℤ) × (got.expires ≡ some t) × (cut_off <ℤ t)
populated_one cut_off (err e) got h = absurd (ground arith)
populated_one cut_off (ok authz) got h =
    let (same, t, x, later) = lasting_one cut_off authz.expires authz got h in
    rw same (refl, t, x, later)

-- The authorization is the stored valid row of the account for the name, with its stored challenges,
-- and it lasts for 24 more hours.
abbrev pub Reused : Codec → Db → ℤ → Text → ℤ → Authorization → Type 0
Reused codec db now name reg_id authz =
    (existing : Authorization) × (challenges : List Challenge) × (t : ℤ) × IsRow existing db.final
    × (existing.identifier.value ≡ name)
    × (existing.registration_id ≡ reg_id)
    × (is_valid existing.status ≡ true)
    × (read_challenges codec (challenges_of existing.id db.challenges) ≡ ok challenges)
    × (authz ≡ record existing { challenges = challenges })
    × (existing.expires ≡ some t)
    × (now +ℤ hours_24 <ℤ t)

among-Reused :
    (codec : Codec) (on_get : Faults) (fault : Option Error) (db : Db) (now reg_id : ℤ)
    (name : Text) (authz : Authorization)
    → IsConsistent db
    → among
        (get_authorization codec on_get db)
        now
        name
        (get_valid_authorizations fault db reg_id (name ∷ []) now)
      ≡ ok (some authz)
    → Reused codec db now name reg_id authz
among-Reused codec on_get fault db now reg_id name authz v h =
    elim (Result-cases (get_valid_authorizations fault db reg_id (name ∷ []) now)) [
      | inr (e, f) ↦ absurd (ground arith)
      | inl (auths, g) ↦ elim (Option-cases (by_name name auths)) [
        | inl n ↦ absurd (ground arith)
        | inr (existing, b) ↦
            let (got, t, x, later) =
              populated_one (now +ℤ hours_24) (get_authorization codec on_get db existing.id) authz
                (ground arith) in
            let (u, row, value, asked, kind, account, status, y, fresh) =
              get_valid_authorizations-usable fault db reg_id (name ∷ []) now auths name existing g
                b in
            let (challenges, read, same) =
              get_authorization-final codec on_get db existing authz v row got in
            let until = ap (λ a. a.expires) (sym same) ∙ x in
            (existing, challenges, t, row, value, account, status, read, same, until, later)
      ]
    ]

find-Reused :
    (cfg : Config) (codec : Codec) (on_get : Faults) (fault : Option Error) (db : Db)
    (now reg_id : ℤ) (name : Text) (authz : Authorization)
    → IsConsistent db
    → find_reusable cfg (get_authorization codec on_get db) fault db now name reg_id
      ≡ ok (some authz)
    → (cfg.reuse_valid_authz ≡ true) × Reused codec db now name reg_id authz
unfolding find_reusable
find-Reused cfg codec on_get fault db now reg_id name authz v h =
    elim (Bool-cases cfg.reuse_valid_authz) [
      | inl y ↦ (
        y,
        among-Reused codec on_get fault db now reg_id name authz v (rw (y, find_reusable) at h),
      )
      | inr n ↦ absurd (ground arith)
    ]

-- The authorization is a new pending row for an identifier and an account, until a time, with
-- challenges that are sane to offer.
abbrev pub Created : Db → Db → AcmeIdentifier → ℤ → ℤ → Authorization → Type 0
Created db db' identifier reg_id expires authz =
    (authz.status ≡ pending)
    × (authz.identifier ≡ identifier)
    × (authz.registration_id ≡ reg_id)
    × (authz.expires ≡ some expires)
    × (has_id authz.id db.pending ≡ false)
    × (all is_sane_for_client_offer authz.challenges ≡ true)
    × (db'.pending ≡ columns authz ∷ db.pending)
    × (db'.final ≡ db.final)

offered_one :
    (r : Result Authorization × Db) (authz : Authorization)
    → (offered_sane r).0 ≡ ok authz
    → (r.0 ≡ ok authz)
      × (all is_sane_for_client_offer authz.challenges ≡ true)
      × ((offered_sane r).1 ≡ r.1)
offered_one (err e, db) authz h = absurd (ground arith)
offered_one (ok a, db) authz h = elim (Bool-cases (all is_sane_for_client_offer a.challenges)) [
  | inr n ↦ absurd (ground arith)
  | inl y ↦
      let same : a ≡ authz = ground arith in
      (ap ok same, ap (λ x. all is_sane_for_client_offer x.challenges) (sym same) ∙ y, rw y refl)
]

create-Created :
    (codec : Codec) (fs : Faults) (draws : Draws) (db : Db) (cfg : Config) (pa : AuthorityImpl)
    (flags : Flags) (now : ℤ) (identifier : AcmeIdentifier) (reg_id : ℤ) (authz : Authorization)
    → (create_authorization codec fs draws db cfg pa flags now identifier reg_id).0 ≡ ok authz
    → Created db
        (create_authorization codec fs draws db cfg pa flags now identifier reg_id).1
        identifier
        reg_id
        (now +ℤ cfg.pending_authorization_lifetime)
        authz
unfolding create_authorization
create-Created codec fs draws db cfg pa flags now identifier reg_id authz h =
    let (made, sane, same) = offered_one _ authz h in
    let (drawn, new, status, rows, final) =
      new_pending_authorization-ok codec fs draws.tokens db _ authz made in
    let (name, account, until, combinations) =
      new_pending_authorization-kept codec fs draws.tokens db _ authz made in
    (status, name, account, until, new, sane, rw same rows, rw same final)

checks_first :
    (r : Result (Unit {0})) (s : Result (Option Authorization)) (o : Option Authorization)
    → (r >> s) ≡ ok o
    → (r ≡ ok tt) × (s ≡ ok o)
checks_first (ok u) s o h = (refl, h)
checks_first (err e) s o h = absurd (ground arith)

reuse_cases :
    (db : Db) (r : Result (Option Authorization)) (new : Result Authorization × Db)
    (authz : Authorization)
    → (reuse_or db r new).0 ≡ ok authz
    → ((r ≡ ok (some authz)) × ((reuse_or db r new).1 ≡ db))
      ⊎ ((r ≡ ok none) × (new.0 ≡ ok authz) × ((reuse_or db r new).1 ≡ new.1))
reuse_cases db (err e) new authz h = absurd (ground arith)
reuse_cases db (ok (some a)) new authz h = inl (ground arith, refl)
reuse_cases db (ok none) new authz h = inr (refl, h, refl)

passed_willing :
    (cfg : Config) (services : AuthzServices) (names : Names) (pa : AuthorityImpl) (flags : Flags)
    (now : ℤ) (identifier : AcmeIdentifier) (reg_id : ℤ)
    → check_new_authorization cfg services names pa flags now identifier reg_id ≡ ok tt
    → willing_to_issue names pa flags identifier ≡ none
unfolding check_new_authorization
passed_willing cfg services names pa flags now identifier reg_id h =
    elim (Option-cases (willing_to_issue names pa flags identifier)) [
      | inl n ↦ n
      | inr (e, refused) ↦ absurd (ground arith)
    ]

-- On consistent tables, NewAuthorization returns an authorization only for a name, in lower case, that
-- the policy authority is willing to issue for, when all its checks pass. It is the stored valid row
-- of the same account and name, with its challenges, which lasts for 24 more hours, where the
-- configuration allows to use it again, and then nothing is stored; or it is new: pending, for the
-- name and the account, until the configured lifetime ends, under a key that no pending row has,
-- with challenges that are sane to offer, and stored.
pub new_authorization-ok :
    (codec : Codec) (fs on_get : Faults) (draws : Draws) (fault : Option Error) (db : Db)
    (cfg : Config) (services : AuthzServices) (names : Names) (pa : AuthorityImpl) (flags : Flags)
    (now : ℤ) (requested : AcmeIdentifier) (reg_id : ℤ) (authz : Authorization)
    → IsConsistent db
    → let called =
        new_authorization codec fs on_get draws fault db cfg services names pa flags now requested
          reg_id in
      called.0 ≡ ok authz
      → (check_new_authorization cfg services names pa flags now (lowered requested) reg_id ≡ ok tt)
        × (willing_to_issue names pa flags (lowered requested) ≡ none)
        × (((cfg.reuse_valid_authz ≡ true)
              × Reused codec db now (lowered requested).value reg_id authz
              × (called.1 ≡ db))
            ⊎ Created db called.1
                (lowered requested)
                reg_id
                (now +ℤ cfg.pending_authorization_lifetime)
                authz)
unfolding new_authorization
new_authorization-ok codec fs on_get draws fault db cfg services names pa flags now requested reg_id
      authz v h =
    let name = to_lower requested.value in
    let found = find_reusable cfg (get_authorization codec on_get db) fault db now name reg_id in
    let checks =
      check_new_authorization cfg services names pa flags now (lowered requested) reg_id in
    let new = create_authorization codec fs draws db cfg pa flags now (lowered requested) reg_id in
    elim (reuse_cases db (checks >> found) new authz h) [
      | inl (reused, same) ↦
          let (passed, f) = checks_first checks found (some authz) reused in
          let (on, stored) = find-Reused cfg codec on_get fault db now reg_id name authz v f in
          (
            passed,
            passed_willing cfg services names pa flags now (lowered requested) reg_id passed,
            inl (on, stored, same),
          )
      | inr (none_found, made, same) ↦
          let (passed, f) = checks_first checks found none none_found in
          (
            passed,
            passed_willing cfg services names pa flags now (lowered requested) reg_id passed,
            inr (
                rw same (
                  create-Created codec fs draws db cfg pa flags now (lowered requested) reg_id authz
                    made)),
          )
    ]
