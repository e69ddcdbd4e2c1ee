-- ===== src/Ra/Answers.antt =====
-- ra/ra.go: what UpdateAuthorization accepts from a client.
use boulder.Prelude.Text.{Text, text_Eq, text_eq_iff}
use boulder.Prelude.Int.{ℤ, ◌≤ℤ◌}
use boulder.Prelude.{
  ℕ, ◌≡◌, refl, true, false, ◌&&◌, Option, none, some, ◌∷◌, ◌++◌, arith, if◌then◌else◌, get_elem?,
  set, inl, inr, Bool-cases, Option-cases, ◌⊎◌,
}
use boulder.Errors.{Result, ok, err}
use boulder.Core.Types.{is_valid, Challenge, Authorization, Registration}
use boulder.Core.Objects.{expected_key_authorization, is_sane_for_validation}
use boulder.Sa.Model.{Codec}
use boulder.Sa.Db.{Db, Faults}
use boulder.Ra.Config.{Config}
use boulder.Ra.Validation.{answer_challenge, update_authorization, stored, store_answer, expired_at}

-- An answer is accepted only if it is the challenge's token, a dot and the thumbprint of the
-- account's key, and what is stored is the challenge with that answer, sane for validation.
pub answer_challenge-ok :
    (ch response answered : Challenge) (get_registration : Result Registration)
    (thumbprint : Text → Option Text)
    → answer_challenge ch response get_registration thumbprint ≡ ok answered
    → (reg : Registration) × (t : Text) × (get_registration ≡ ok reg)
      × (thumbprint reg.key ≡ some t)
      × (response.provided_key_authorization ≡ ch.token ++ b'.' ∷ t)
      × (answered ≡ record ch { provided_key_authorization = response.provided_key_authorization })
      × (is_sane_for_validation answered ≡ true)
unfolding answer_challenge expected_key_authorization
answer_challenge-ok ch response answered (err e) thumbprint h = cc
answer_challenge-ok ch response answered (ok reg) thumbprint h =
    elim (Option-cases (thumbprint reg.key)) [
      | inl e ↦ ground arith
      | inr (t, e) ↦ (
        reg,
        t,
        refl,
        e,
        ground (arith, text_eq_iff (ch.token ++ b'.' ∷ t) response.provided_key_authorization),
        ground arith,
        ground arith,
      )
    ]

stored-ok :
    (authz got : Authorization) (r : Result (Unit {0}) × Db)
    → (stored authz r).0 ≡ ok got
    → got ≡ authz
stored-ok authz got (ok u, db) h = ground arith
stored-ok authz got (err e, db) h = cc

store_answer-ok :
    (codec : Codec) (fs : Faults) (db : Db) (base authz : Authorization) (index : ℕ)
    (r : Result Challenge)
    → (store_answer codec fs db base index r).0 ≡ ok authz
    → (new : Challenge) × (r ≡ ok new)
      × (authz ≡ record base { challenges = set base.challenges index new })
store_answer-ok codec fs db base authz index (err e) h = cc
store_answer-ok codec fs db base authz index (ok ch) h = (ch, refl, stored-ok _ authz _ h)

not_expired :
    (now : ℤ) (x : Option ℤ) → expired_at now x ≡ false → (t : ℤ) × (x ≡ some t) × (now ≤ℤ t)
not_expired now none h = cc
not_expired now (some t) h = (t, refl, ground arith)

-- UpdateAuthorization succeeds only for an authorization that has not expired and has a challenge at
-- the index. The result is the authorization as it was, which happens only where valid ones are
-- reused and this one is valid, or the authorization with the accepted answer in that challenge.
pub update_authorization-ok :
    (codec : Codec) (fs : Faults) (db : Db) (cfg : Config) (now : ℤ)
    (get_registration : Result Registration) (thumbprint : Text → Option Text)
    (base authz : Authorization) (index : ℕ) (response : Challenge)
    → (update_authorization codec fs db cfg now get_registration thumbprint base index response).0
      ≡ ok authz
    → (t : ℤ) × (old : Challenge) × (base.expires ≡ some t)
      × (now ≤ℤ t)
      × (get_elem? base.challenges index ≡ some old)
      × (((authz ≡ base) × (cfg.reuse_valid_authz ≡ true) × (is_valid base.status ≡ true))
          ⊎ ((new : Challenge) × (answer_challenge old response get_registration thumbprint
                ≡ ok new)
              × (authz ≡ record base { challenges = set base.challenges index new })))
unfolding update_authorization
update_authorization-ok codec fs db cfg now get_registration thumbprint base authz index response
      h =
    elim (Bool-cases (expired_at now base.expires)) [
      | inl y ↦ cc (rw (y, update_authorization) at h)
      | inr alive ↦
          let (t, e, le) = not_expired now base.expires alive in
          elim (Option-cases (get_elem? base.challenges index)) [
            | inl out ↦ cc (rw (alive, out, update_authorization) at h)
            | inr (old, at) ↦
                (t, old, e, le, at, outcome old (rw (alive, at, update_authorization) at h))
          ]
    ]
  where
    outcome :
        (old : Challenge)
        → (if cfg.reuse_valid_authz && is_valid base.status
            then (ok base, db)
            else store_answer codec fs db base index
                (answer_challenge old response get_registration thumbprint)).0
          ≡ ok authz
        → ((authz ≡ base) × (cfg.reuse_valid_authz ≡ true) × (is_valid base.status ≡ true))
          ⊎ ((new : Challenge) × (answer_challenge old response get_registration thumbprint
                ≡ ok new)
              × (authz ≡ record base { challenges = set base.challenges index new }))
    outcome old k = elim (Bool-cases (cfg.reuse_valid_authz && is_valid base.status)) [
      | inl y ↦ inl (ground arith)
      | inr n ↦ inr (
          store_answer-ok codec fs db base authz index
            (answer_challenge old response get_registration thumbprint) (rw n at k))
    ]
