-- ===== src/Ra/Authorized.antt =====
-- ra/ra.go: a certificate is issued only for names that the account is authorized for.
use boulder.Prelude.Text.{Text, text_Eq, to_lower}
use boulder.Prelude.Int.{◌<ℤ◌, ℤ, int_eq}
use boulder.Prelude.{
  ◌≡◌, refl, Bool, true, false, not, Option, none, some, List, [], ◌∷◌, arith, if◌then◌else◌, inl,
  inr, map,
}
use boulder.Errors.{
  boulder_error, malformed, unauthorized, Error, Result, ok, err, ◌>>=◌, >>=-ok, require,
}
use boulder.Features.{Flags}
use boulder.Core.Types.{Authorization, Registration, is_valid, dns}
use boulder.Core.Objects.{is_empty}
use boulder.Csr.Defs.{CertificateRequest, normalize_csr, verify_csr, check_csr}
use boulder.Csr.Laws.{AllWilling, check_csr-none}
use boulder.Sa.Db.{Db}
use boulder.Sa.Queries.{IsRow, by_name, get_valid_authorizations}
use boulder.Sa.ValidAuthz.{get_valid_authorizations-usable}
use boulder.Policy.Defs.{Names, AuthorityImpl, willing_to_issue}
use boulder.Policy.Names.{willing_to_issue-lower}
use boulder.Ra.Config.{Config}
use boulder.Ra.LimitLaws.{Result-cases}
use boulder.Ra.Limits.{check_limits}
use boulder.Ra.Issue.{
  positive, judge, bad_names, check_authorizations, Services, checked_csr, authorize_request,
}

-- The account has a valid authorization for the name in the database, which expires after now.
abbrev pub Authorized : Db → ℤ → ℤ → Text → Type 0
Authorized db now reg_id n =
    (a : Authorization) × (t : ℤ) × IsRow a db.final
    × (a.identifier.value ≡ n)
    × (is_valid a.status ≡ true)
    × (a.registration_id ≡ reg_id)
    × (a.expires ≡ some t)
    × (now <ℤ t)

abbrev pub AllAuthorized : Db → ℤ → ℤ → List Text → Type 0
AllAuthorized db now reg_id [] = Unit {0}
AllAuthorized db now reg_id (n ∷ ns) = Authorized db now reg_id n × AllAuthorized db now reg_id ns

good_entry :
    (now : ℤ) (o : Option Authorization)
    → judge now o ≡ ok true
    → (a : Authorization) × (o ≡ some a)
unfolding judge
good_entry now none h = absurd (ground arith)
good_entry now (some a) h = (a, refl)

one_bad :
    (j : Result Bool) (r : Result (List Text)) (n : Text) (bad : List Text)
    → (j >>= λ good. r >>= λ rest. ok (if good then rest else n ∷ rest)) ≡ ok bad
    → is_empty bad ≡ true
    → (j ≡ ok true) × (r ≡ ok bad)
one_bad (err e) r n bad h k = cc
one_bad (ok g) (err e) n bad h k = cc
one_bad (ok true) (ok rest) n bad h k = (refl, h)
one_bad (ok false) (ok rest) n bad h k = absurd (ground arith)

bad_names-none :
    (fault : Option Error) (db : Db) (now reg_id : ℤ) (names : List Text)
    (auths : List Authorization) (ns bad : List Text)
    → get_valid_authorizations fault db reg_id names now ≡ ok auths
    → bad_names now auths ns ≡ ok bad
    → is_empty bad ≡ true
    → AllAuthorized db now reg_id ns
unfolding bad_names
bad_names-none fault db now reg_id names auths [] bad g h k = tt
bad_names-none fault db now reg_id names auths (n ∷ ns) bad g h k =
    let (good, rest) = one_bad (judge now (by_name n auths)) (bad_names now auths ns) n bad h k in
    let (a, e) = good_entry now (by_name n auths) good in
    let (t, row, name, asked, kind, of_account, status, x, later) =
      get_valid_authorizations-usable fault db reg_id names now auths n a g e in
    (
      (a, t, row, name, status, of_account, x, later),
      bad_names-none fault db now reg_id names auths ns bad g rest k,
    )

-- checkAuthorizations succeeds only if the account has a valid authorization, not expired, for
-- each of the names in lower case.
pub check_authorizations-ok :
    (fault : Option Error) (db : Db) (now reg_id : ℤ) (names : List Text)
    → check_authorizations fault db now names reg_id ≡ ok tt
    → AllAuthorized db now reg_id (map to_lower names)
unfolding check_authorizations
check_authorizations-ok fault db now reg_id names h =
    let lowered = map to_lower names in
    elim (Result-cases (get_valid_authorizations fault db reg_id lowered now)) [
      | inr (e, f) ↦ cc (rw (f, check_authorizations) at h)
      | inl (auths, g) ↦ elim (Result-cases (bad_names now auths lowered)) [
        | inr (e, f) ↦ cc (rw (g, f, check_authorizations) at h)
        | inl (bad, b) ↦
            bad_names-none fault db now reg_id lowered auths lowered bad g b (ground arith)
      ]
    ]

lower-willing :
    (names : Names) (pa : AuthorityImpl) (flags : Flags) (ns : List Text)
    → AllWilling (willing_to_issue names pa flags) ns
    → map to_lower ns ≡ ns
lower-willing names pa flags [] w = refl
lower-willing names pa flags (n ∷ ns) w = cc (
  willing_to_issue-lower names pa flags (record { kind = dns; value = n }) w.0,
  lower-willing names pa flags ns w.1,
)

checked-none :
    (csr : CertificateRequest) (o : Option Error) (got : CertificateRequest)
    → checked_csr (csr, o) ≡ ok got
    → (o ≡ none) × (got ≡ csr)
checked-none csr none got h = (refl, ground arith)
checked-none csr (some e) got h = cc

-- The steps before a request is passed on, when each of them succeeds.
steps-ok {ℓ κ} :
    {A : Type ℓ} {B : Type κ} (first : Result (Unit {0})) (get : Result A) (check : Result B)
    (named : B → Result (Unit {0})) (keyed limited authorized : A → B → Result (Unit {0})) (b : B)
    → (first >>= λ _. get >>= λ x. check >>= λ y.
        named y >>= λ _. keyed x y >>= λ _. limited x y >>= λ _. authorized x y >>= λ _. ok y)
      ≡ ok b
    → (a : A) × (get ≡ ok a) × (check ≡ ok b) × (limited a b ≡ ok tt) × (authorized a b ≡ ok tt)
steps-ok (err e) get check named keyed limited authorized b h = absurd (ground arith)
steps-ok (ok _) (err e) check named keyed limited authorized b h = absurd (ground arith)
steps-ok (ok _) (ok a) (err e) named keyed limited authorized b h = absurd (ground arith)
steps-ok (ok _) (ok a) (ok y) named keyed limited authorized b h =
    let (_, n, h1) =
      >>=-ok (named y) (λ _. keyed a y >>= λ _. limited a y >>= λ _. authorized a y >>= λ _. ok y) _
        h in
    let (_, k, h2) =
      >>=-ok (keyed a y) (λ _. limited a y >>= λ _. authorized a y >>= λ _. ok y) _ h1 in
    let (u, l, h3) = >>=-ok (limited a y) (λ _. authorized a y >>= λ _. ok y) _ h2 in
    let (v, z, h4) = >>=-ok (authorized a y) (λ _. ok y) _ h3 in (a, refl, h4, cc, cc)

-- A request that the registration authority passes on to be signed is the client's request,
-- normalized: the policy authority is willing to issue for each of its names, the rate limits
-- have been checked for them, and the account has a valid authorization that has not expired for
-- each of them.
pub authorize_request-ok :
    (cfg : Config) (services : Services) (names : Names) (pa : AuthorityImpl) (flags : Flags)
    (fault : Option Error) (db : Db) (now : ℤ) (req csr : CertificateRequest) (reg_id : ℤ)
    → authorize_request cfg services names pa flags fault db now req reg_id ≡ ok csr
    → (registration : Registration) × (services.get_registration reg_id ≡ ok registration)
      × (csr ≡ normalize_csr req cfg.force_cn_from_san)
      × AllWilling (willing_to_issue names pa flags) csr.dns_names
      × (check_limits cfg services.domain services.counts services.total now csr.dns_names
            registration.id
          ≡ ok tt)
      × AllAuthorized db now registration.id csr.dns_names
unfolding authorize_request verify_csr
authorize_request-ok cfg services names pa flags fault db now req csr reg_id h =
    let (registration, registered, verified, limited, authorized) =
      steps-ok (require (positive reg_id) (boulder_error malformed "invalid registration ID: %d"))
        (services.get_registration reg_id)
        (checked_csr (
          verify_csr req cfg.max_names services.good_key (willing_to_issue names pa flags)
            cfg.force_cn_from_san))
        (λ c.
          require (not (is_empty c.dns_names))
            (boulder_error unauthorized "CSR has no names in it"))
        (λ r c.
          require (not (services.same_key c.public_key (some r.key)))
            (boulder_error malformed "certificate public key must be different than account key"))
        (λ r c.
          check_limits cfg services.domain services.counts services.total now c.dns_names r.id)
        (λ r c. check_authorizations fault db now c.dns_names r.id) csr h in
    let (passed, same) =
      checked-none (normalize_csr req cfg.force_cn_from_san)
        (check_csr (normalize_csr req cfg.force_cn_from_san) cfg.max_names services.good_key
          (willing_to_issue names pa flags))
        csr verified in
    let willing =
      (check_csr-none csr cfg.max_names services.good_key (willing_to_issue names pa flags)
        (rw (← same) at passed)).6 in
    (
      registration,
      registered,
      same,
      willing,
      limited,
      rw (lower-willing names pa flags csr.dns_names willing) at
          (check_authorizations-ok fault db now registration.id csr.dns_names authorized),
    )
