-- ===== src/Ra/Outcome.antt =====
-- ra/ra.go: when an authorization becomes valid.
use boulder.Prelude.Text.{text_Eq}
use boulder.Prelude.Int.{ℤ, ◌+ℤ◌}
use boulder.Prelude.{
  ℕ, zero, suc, ◌<◌, ◌≡◌, refl, ap, ◌∙◌, Bool, true, false, some, List, [], ◌∷◌, arith,
  if◌then◌else◌, length, set, all, inl, inr, Bool-cases, get_elem?-set_self, ◌⊎◌,
}
use boulder.Errors.{ok}
use boulder.Core.Types.{valid, invalid, is_valid, Challenge, Authorization, ValidationRecord}
use boulder.Core.Objects.{records_sane}
use boulder.Sa.Model.{Codec}
use boulder.Sa.Db.{Db, Faults, columns, delete}
use boulder.Sa.Outcomes.{finalize_authorization-ok}
use boulder.Ra.Config.{Config, VaError, no_va_error, problem, va_failure}
use boulder.Ra.Validation.{
  validated, any_combo, decide, on_validation_update, record_outcome, finish_validation,
}

abbrev pub NoneValid : List Challenge → Type 0
NoneValid [] = Unit {0}
NoneValid (c ∷ cs) = (is_valid c.status ≡ false) × NoneValid cs

abbrev is_nil : List ℕ → Bool
is_nil [] = true
is_nil (x ∷ xs) = false

abbrev pub NoneEmpty : List (List ℕ) → Type 0
NoneEmpty [] = Unit {0}
NoneEmpty (c ∷ cs) = (is_nil c ≡ false) × NoneEmpty cs

-- One of the combinations is the challenge alone.
abbrev pub Alone : ℕ → List (List ℕ) → Type 0
Alone i [] = ⊥
Alone i (c ∷ cs) = (c ≡ i ∷ []) ⊎ Alone i cs

none_validated : (cs : List Challenge) (i : ℕ) → NoneValid cs → validated cs i ≡ false
unfolding validated
none_validated [] i h = refl
none_validated (c ∷ cs) zero h = h.0
none_validated (c ∷ cs) (suc i) h = none_validated cs i h.1

NoneValid-set :
    (cs : List Challenge) (i : ℕ) (c : Challenge)
    → NoneValid cs
    → is_valid c.status ≡ false
    → NoneValid (set cs i c)
NoneValid-set [] i c h k = tt
NoneValid-set (d ∷ cs) zero c h k = (k, h.1)
NoneValid-set (d ∷ cs) (suc i) c h k = (h.0, NoneValid-set cs i c h.1 k)

any_combo-none :
    (cs : List Challenge) (combos : List (List ℕ))
    → NoneValid cs
    → NoneEmpty combos
    → any_combo cs combos ≡ false
unfolding any_combo all
any_combo-none cs [] h k = refl
any_combo-none cs ([] ∷ combos) h k = cc
any_combo-none cs ((i ∷ is) ∷ combos) h k =
    ground (arith, none_validated cs i h, any_combo-none cs combos h k.1)

any_combo-Alone :
    (cs : List Challenge) (combos : List (List ℕ)) (i : ℕ)
    → validated cs i ≡ true
    → Alone i combos
    → any_combo cs combos ≡ true
unfolding any_combo all
any_combo-Alone cs [] i h k = absurd k
any_combo-Alone cs (c ∷ combos) i h (inl e) = rw e (ground arith)
any_combo-Alone cs (c ∷ combos) i h (inr r) = ground (arith, any_combo-Alone cs combos i h r)

validated-set :
    (cs : List Challenge) (i : ℕ) (c : Challenge)
    → i < length cs
    → validated (set cs i c) i ≡ is_valid c.status
unfolding validated
validated-set cs i c h = rw (get_elem?-set_self cs i c h, validated)

-- The validation succeeded: the authority reported nothing, and the records are sane.
abbrev pub succeeded : Challenge → List ValidationRecord → VaError → Bool
succeeded ch records no_va_error = records_sane (record ch { validation_record = records })
succeeded ch records _ = false

record_outcome-status :
    (ch : Challenge) (records : List ValidationRecord) (e : VaError)
    → (record_outcome ch records e).status ≡ (if succeeded ch records e then valid else invalid)
unfolding record_outcome
record_outcome-status ch records no_va_error = ground arith
record_outcome-status ch records (problem p) = refl
record_outcome-status ch records (va_failure x) = refl

any_combo-outcome :
    (authz : Authorization) (index : ℕ) (ch : Challenge) (records : List ValidationRecord)
    (e : VaError)
    → NoneValid authz.challenges
    → NoneEmpty authz.combinations
    → Alone index authz.combinations
    → index < length authz.challenges
    → any_combo (set authz.challenges index (record_outcome ch records e)) authz.combinations
      ≡ succeeded ch records e
any_combo-outcome authz index ch records e n k a b =
    let new = record_outcome ch records e in
    let s = record_outcome-status ch records e in
    elim (Bool-cases (succeeded ch records e)) [
      | inl y ↦ rw y (
          any_combo-Alone (set authz.challenges index new) authz.combinations index
            (validated-set authz.challenges index new b ∙ ground (arith, ap is_valid s)) a)
      | inr z ↦ rw z (
          any_combo-none (set authz.challenges index new) authz.combinations
            (NoneValid-set authz.challenges index new n (ground (arith, ap is_valid s))) k)
    ]

decide-columns :
    (cfg : Config) (now : ℤ) (a : Authorization) (s : Bool)
    → any_combo a.challenges a.combinations ≡ s
    → is_valid a.status ≡ false
    → columns (decide cfg now a) ≡ record a {
      status = (if s then valid else invalid);
      expires = (if s then some (now +ℤ cfg.authorization_lifetime) else a.expires);
      challenges = [];
    }
unfolding decide
decide-columns cfg now a true e p = rw (e, decide)
decide-columns cfg now a false e p = rw (e, p, decide)

id-decide : (cfg : Config) (now : ℤ) (a : Authorization) → (decide cfg now a).id ≡ a.id
unfolding decide
id-decide cfg now a = ground arith

-- For an authorization that is not valid, has no valid challenge yet, has no empty combination, and
-- lists the answered challenge as a combination of its own, if storing the outcome succeeds: the row that a finished validation stores is valid,
-- for the configured lifetime from now, exactly if the validation authority reported no problem
-- and its records are sane, and is invalid with the old expiry otherwise. It replaces the pending
-- row.
pub finish_validation-status :
    (codec : Codec) (fs : Faults) (db : Db) (cfg : Config) (now : ℤ) (authz : Authorization)
    (index : ℕ) (ch : Challenge) (records : List ValidationRecord) (e : VaError)
    → is_valid authz.status ≡ false
    → NoneValid authz.challenges
    → NoneEmpty authz.combinations
    → Alone index authz.combinations
    → index < length authz.challenges
    → (finish_validation codec fs db cfg now authz index ch records e).0 ≡ ok tt
    → ((finish_validation codec fs db cfg now authz index ch records e).1.final
        ≡ record authz {
          status = (if succeeded ch records e then valid else invalid);
          expires =
              (if succeeded ch records e
                then some (now +ℤ cfg.authorization_lifetime)
                else authz.expires);
          challenges = [];
        }
          ∷ db.final)
      × ((finish_validation codec fs db cfg now authz index ch records e).1.pending
          ≡ delete authz.id db.pending)
unfolding finish_validation on_validation_update
finish_validation-status codec fs db cfg now authz index ch records e p n k a b h =
    let new = record authz {
      challenges = set authz.challenges index (record_outcome ch records e);
    } in
    let (here, final, fresh, rest, rows) =
      finalize_authorization-ok codec fs db (decide cfg now new) h in
    let combo = any_combo-outcome authz index ch records e n k a b in
    (
      rows ∙ ap (λ r. r ∷ db.final) (decide-columns cfg now new (succeeded ch records e) combo p),
      rest ∙ ap (λ i. delete i db.pending) (id-decide cfg now new),
    )
