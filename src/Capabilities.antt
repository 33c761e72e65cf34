-- ===== src/Capabilities.antt =====
-- cloudprofilesync/ossync/capabilities.go
pub mod Equal
pub mod Allowed
use cloud_profile_sync.Common.{
  ℕ, String, Option, none, some, Bool, true, false, List, [], ◌∷◌, ◌++◌, length, is_empty, any,
  contains, equal, select, ◌==◌, nat_eq, string_eq, if◌then◌else◌,
}
use cloud_profile_sync.Common.Dict.{Dict, lookup, insert}
use cloud_profile_sync.Gardener.{Capabilities, MachineImageFlavor, CapabilityDefinition}

abbrev pub architecture_capability : String
architecture_capability = "architecture"

abbrev pub feature_set_annotation : String
feature_set_annotation = "feature_set"

-- A nil map reads as an empty one.
abbrev pub entries : Capabilities → Dict String (List String)
entries none = []
entries (some m) = m

-- The loop over the keys of `a`.
unfoldable pub all_equal_in : Dict String (List String) → Dict String (List String) → Bool
all_equal_in [] b = true
all_equal_in ((k, a_vals) ∷ rest) b =
    let rest_equal = all_equal_in rest b in
    elim (lookup k b) [
      | none ↦ false
      | some b_vals ↦ if equal a_vals b_vals then rest_equal else false
    ]

unfoldable pub capabilities_equal : Capabilities → Capabilities → Bool
unfolding all_equal_in
capabilities_equal a b =
    if length (entries a) == length (entries b) then all_equal_in (entries a) (entries b) else false

unfoldable pub merge_capability_flavor :
    List MachineImageFlavor → Capabilities → List MachineImageFlavor
unfolding capabilities_equal any
merge_capability_flavor existing caps =
    if is_empty (entries caps)
    then existing
    else if any (λ f. capabilities_equal f.capabilities caps) existing
    then existing
    else existing ++ record { capabilities = caps } ∷ []

-- The set of values of one definition is the list of its values.
unfoldable pub collect_allowed :
    List CapabilityDefinition → Dict String (List String) → Dict String (List String)
collect_allowed [] allowed = allowed
collect_allowed (cap ∷ caps) allowed = collect_allowed caps (insert cap.name cap.values allowed)

unfoldable pub allowed_capability_values : List CapabilityDefinition → Dict String (List String)
unfolding collect_allowed insert
allowed_capability_values caps = collect_allowed caps []

-- The values of one key that are allowed.
unfoldable pub allowed_values : Dict String (List String) → String → List String → List String
unfolding lookup select contains
allowed_values allowed key values = elim (lookup key allowed) [
  | none ↦ []
  | some vals ↦ select (λ v. contains vals v) values
]

-- The loop over the keys of `caps`.
unfoldable pub filter_entries :
    Dict String (List String) → Dict String (List String) → Dict String (List String)
unfolding allowed_values
filter_entries [] allowed = []
filter_entries ((key, values) ∷ caps) allowed =
    let rest = filter_entries caps allowed in
    elim (allowed_values allowed key values) [ [] ↦ rest | v ∷ vs ↦ (key, v ∷ vs) ∷ rest ]

abbrev some_unless_empty : Dict String (List String) → Capabilities
some_unless_empty [] = none
some_unless_empty (e ∷ es) = some (e ∷ es)

unfoldable pub filter_capabilities : Capabilities → Dict String (List String) → Capabilities
unfolding filter_entries
filter_capabilities caps allowed =
    if is_empty allowed then none else some_unless_empty (filter_entries (entries caps) allowed)
