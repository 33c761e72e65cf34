-- ===== src/Controllers/Expiration.antt =====
-- `carryExpirationDates` and `expirationDateKey`
pub mod Laws
pub mod Stable
use cloud_profile_sync.Common.{
  String, Option, none, some, Bool, true, false, List, [], ◌∷◌, map, ◌==◌, string_eq, if◌then◌else◌,
}
use cloud_profile_sync.Common.Dict.{Dict, lookup, insert}
use cloud_profile_sync.Common.Text.{◌<>◌}
use cloud_profile_sync.Gardener.{
  Time, MachineImage, MachineImageVersion, Classification, supported, deprecated, other,
}

unfoldable pub expiration_date_key : String → String → String
expiration_date_key image_name version = image_name <> "/" <> version

-- The dates by key.
abbrev pub Stored : Type 0
Stored = Dict String Time

unfoldable pub store_versions : String → List MachineImageVersion → Stored → Stored
unfolding insert
store_versions image_name [] stored = stored
store_versions image_name (v ∷ vs) stored = store_versions image_name vs (elim v.expiration_date [
  | none ↦ stored
  | some date ↦ insert (expiration_date_key image_name v.version) date stored
])

unfoldable pub store_images : List MachineImage → Stored → Stored
unfolding store_versions
store_images [] stored = stored
store_images (img ∷ imgs) stored = store_images imgs (store_versions img.name img.versions stored)

abbrev pub is_deprecated : Option Classification → Bool
is_deprecated none = false
is_deprecated (some supported) = false
is_deprecated (some deprecated) = true
is_deprecated (some (other c)) = false

unfoldable pub carry_version : Stored → String → MachineImageVersion → MachineImageVersion
unfolding lookup
carry_version stored image_name v =
    if is_deprecated v.classification
    then elim (lookup (expiration_date_key image_name v.version) stored) [
      | none ↦ v
      | some date ↦ record v { expiration_date = some date }
    ]
    else v

unfoldable pub carry_image : Stored → MachineImage → MachineImage
unfolding carry_version
carry_image stored img = record img { versions = map (carry_version stored img.name) img.versions }

unfoldable pub carry_expiration_dates : List MachineImage → List MachineImage → List MachineImage
unfolding store_images carry_image
carry_expiration_dates existing next = map (carry_image (store_images existing [])) next
