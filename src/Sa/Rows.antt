-- ===== src/Sa/Rows.antt =====
-- sa/: the keys of the tables under each statement.
use boulder.Prelude.Text.{Text, text_Eq, text_eq_iff}
use boulder.Prelude.{◌≡◌, refl, Bool, true, false, List, [], ◌∷◌, arith, ◌==◌, if◌then◌else◌}
use boulder.Core.Types.{AcmeStatus, Authorization}
use boulder.Sa.Db.{has_id, update, delete}
use boulder.Sa.Authz.{set_status}

abbrev pub UniqueIds : List Authorization → Type 0
UniqueIds [] = Unit {0}
UniqueIds (a ∷ rows) = (has_id a.id rows ≡ false) × UniqueIds rows

-- No row of the first table has its key in the second.
abbrev pub Apart : List Authorization → List Authorization → Type 0
Apart [] final = Unit {0}
Apart (a ∷ rows) final = (has_id a.id final ≡ false) × Apart rows final

pub has_id-update :
    (id : Text) (a : Authorization) (rows : List Authorization)
    → has_id id (update a rows) ≡ has_id id rows
unfolding has_id update
has_id-update id a [] = refl
has_id-update id a (b ∷ rows) = ground (arith, text_eq_iff b.id a.id, has_id-update id a rows)

pub has_id-delete :
    (id k : Text) (rows : List Authorization)
    → has_id id (delete k rows) ≡ (if k == id then false else has_id id rows)
unfolding has_id delete
has_id-delete id k [] = ground arith
has_id-delete id k (b ∷ rows) =
    ground
      (arith, text_eq_iff b.id k, text_eq_iff b.id id, text_eq_iff k id, has_id-delete id k rows)

pub has_id-set_status :
    (id k : Text) (old : AcmeStatus → Bool) (new : AcmeStatus) (rows : List Authorization)
    → has_id id (set_status old new k rows) ≡ has_id id rows
unfolding has_id set_status
has_id-set_status id k old new [] = refl
has_id-set_status id k old new (b ∷ rows) = ground (arith, has_id-set_status id k old new rows)

pub UniqueIds-update :
    (a : Authorization) (rows : List Authorization) → UniqueIds rows → UniqueIds (update a rows)
unfolding update
UniqueIds-update a [] u = tt
UniqueIds-update a (b ∷ rows) u = ground (
  arith,
  text_eq_iff b.id a.id,
  has_id-update b.id a rows,
  has_id-update a.id a rows,
  UniqueIds-update a rows u.1,
)

pub UniqueIds-delete :
    (k : Text) (rows : List Authorization) → UniqueIds rows → UniqueIds (delete k rows)
unfolding delete
UniqueIds-delete k [] u = tt
UniqueIds-delete k (b ∷ rows) u =
    ground (arith, has_id-delete b.id k rows, UniqueIds-delete k rows u.1)

pub UniqueIds-set_status :
    (old : AcmeStatus → Bool) (new : AcmeStatus) (k : Text) (rows : List Authorization)
    → UniqueIds rows
    → UniqueIds (set_status old new k rows)
unfolding set_status
UniqueIds-set_status old new k [] u = tt
UniqueIds-set_status old new k (b ∷ rows) u =
    ground (arith, has_id-set_status b.id k old new rows, UniqueIds-set_status old new k rows u.1)

pub Apart-update :
    (a : Authorization) (rows final : List Authorization)
    → has_id a.id final ≡ false
    → Apart rows final
    → Apart (update a rows) final
unfolding update
Apart-update a [] final h p = tt
Apart-update a (b ∷ rows) final h p = ground (arith, Apart-update a rows final h p.1)

pub Apart-delete :
    (k : Text) (rows final : List Authorization) → Apart rows final → Apart (delete k rows) final
unfolding delete
Apart-delete k [] final p = tt
Apart-delete k (b ∷ rows) final p = ground (arith, Apart-delete k rows final p.1)

pub Apart-set_status :
    (old : AcmeStatus → Bool) (new : AcmeStatus) (k : Text) (rows final : List Authorization)
    → Apart rows final
    → Apart (set_status old new k rows) final
unfolding set_status
Apart-set_status old new k [] final p = tt
Apart-set_status old new k (b ∷ rows) final p =
    ground (arith, Apart-set_status old new k rows final p.1)

pub Apart-set_status_final :
    (old : AcmeStatus → Bool) (new : AcmeStatus) (k : Text) (rows final : List Authorization)
    → Apart rows final
    → Apart rows (set_status old new k final)
Apart-set_status_final old new k [] final p = tt
Apart-set_status_final old new k (b ∷ rows) final p =
    ground (
      arith,
      has_id-set_status b.id k old new final,
      Apart-set_status_final old new k rows final p.1,
    )

-- A final row for a key that is deleted from the pending ones.
pub Apart-finalize :
    (a : Authorization) (rows final : List Authorization)
    → Apart rows final
    → Apart (delete a.id rows) (a ∷ final)
unfolding delete has_id
Apart-finalize a [] final p = tt
Apart-finalize a (b ∷ rows) final p =
    ground (arith, text_eq_iff b.id a.id, text_eq_iff a.id b.id, Apart-finalize a rows final p.1)

pub Apart-elem :
    (k : Text) (rows final : List Authorization)
    → Apart rows final
    → has_id k rows ≡ true
    → has_id k final ≡ false
unfolding has_id
Apart-elem k [] final p h = cc
Apart-elem k (b ∷ rows) final p h = ground (arith, text_eq_iff b.id k, Apart-elem k rows final p.1)
