-- ===== src/Features/Laws.antt =====
-- features/features.go: what Set and Reset do to the flags.
use boulder.Prelude.Text.{text_Eq}
use boulder.Prelude.{Bool, false, ◌≡◌, arith, ==-refl}
use boulder.Features.{FeatureFlag, Flags, write, enabled, reset, flag_name}

-- Until Reset is called, a write and then Reset bring the start values back.
pub reset-write :
    (s : Flags) (f g : FeatureFlag) (v : Bool)
    → s.aliased ≡ false
    → enabled (reset (write s f v)) g ≡ s.initial g
unfolding enabled reset write
reset-write s f g v h = rw (h, write)

-- After one Reset the start values are gone with the next write: Reset brings back what was written.
pub reset-write-reset :
    (s : Flags) (f : FeatureFlag) (v : Bool) → enabled (reset (write (reset s) f v)) f ≡ v
unfolding enabled reset write
reset-write-reset s f v = ground (arith, ==-refl (flag_name f))
