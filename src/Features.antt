-- ===== src/Features.antt =====
-- features/features.go: the feature flags. The source keeps a pointer to a map in `features` and one
-- to another in `initial`; the model keeps the two maps and which of them `features` points to, since
-- Reset makes both names point to one map. A flag that is missing from the map makes Enabled panic.
pub mod Laws
mod Tests
use boulder.Prelude.Text.{Text, codes, text_Eq}
use boulder.Prelude.{
  ℕ, Bool, true, false, Option, none, some, List, [], ◌∷◌, if◌then◌else◌, Eq, ◌==◌, ◌≡◌, ◌↔◌, arith,
  refl,
}

pub data FeatureFlag : Type 0 where
  unused idna_support allow_account_deactivation allow_key_rollover : FeatureFlag
  resubmit_missing_scts_only google_safe_browsing_v4 use_aia_issuer_url : FeatureFlag
  allow_tls02_challenges generate_ocsp_early : FeatureFlag

-- FeatureFlag.String, which `stringer` generates.
abbrev pub flag_name : FeatureFlag → Text
flag_name unused = codes "unused"
flag_name idna_support = codes "IDNASupport"
flag_name allow_account_deactivation = codes "AllowAccountDeactivation"
flag_name allow_key_rollover = codes "AllowKeyRollover"
flag_name resubmit_missing_scts_only = codes "ResubmitMissingSCTsOnly"
flag_name google_safe_browsing_v4 = codes "GoogleSafeBrowsingV4"
flag_name use_aia_issuer_url = codes "UseAIAIssuerURL"
flag_name allow_tls02_challenges = codes "AllowTLS02Challenges"
flag_name generate_ocsp_early = codes "GenerateOCSPEarly"

abbrev pub all_flags : List FeatureFlag
all_flags =
    unused ∷ idna_support ∷ allow_account_deactivation ∷ allow_key_rollover
    ∷ resubmit_missing_scts_only ∷ google_safe_browsing_v4 ∷ use_aia_issuer_url
    ∷ allow_tls02_challenges ∷ generate_ocsp_early ∷ []

-- Every flag has an entry in both maps, so a map is a function.
abbrev pub FlagMap : Type 0
FlagMap = FeatureFlag → Bool

pub record Flags : Type 0 where
  pub features : FlagMap
  pub initial : FlagMap
  pub aliased : Bool

-- The state after the package's `init`.
abbrev pub start : Flags
start = record { features = λ f. false; initial = λ f. false; aliased = false }

abbrev pub same_flag : FeatureFlag → FeatureFlag → Bool
same_flag f g = flag_name f == flag_name g

abbrev pub put : FlagMap → FeatureFlag → Bool → FlagMap
put m f v = λ g. if same_flag f g then v else m g

-- features[f] = v: a write through one name is seen through the other if both name one map.
unfoldable pub write : Flags → FeatureFlag → Bool → Flags
write s f v =
    if s.aliased
    then record { features = put s.features f v; initial = put s.features f v; aliased = true }
    else record s { features = put s.features f v }

unfoldable pub find_name : Text → List FeatureFlag → Option FeatureFlag
find_name n [] = none
find_name n (f ∷ fs) = if flag_name f == n then some f else find_name n fs

-- Set, over the entries in the order that the map's iteration gives. The flag says whether an error
-- was returned; the entries before the unknown name stay set.
unfoldable pub set_features : Flags → List (Text × Bool) → Flags × Bool
set_features s [] = (s, true)
set_features s ((n, v) ∷ rest) = elim (find_name n all_flags) [
  | none ↦ (s, false)
  | some f ↦ set_features (write s f v) rest
]

unfoldable pub enabled : Flags → FeatureFlag → Bool
enabled s f = s.features f

-- Reset: features = initial.
unfoldable pub reset : Flags → Flags
reset s = record s { features = s.initial; aliased = true }
