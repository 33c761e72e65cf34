-- ===== src/Controllers/Shoots.antt =====
-- `gardenerVersionFromShoots`
pub mod Laws
use Prim.Native.Nat.{Ordering}
use cloud_profile_sync.Common.{
  String, Bool, List, [], ◌∷◌, contains, ◌==◌, string_eq, if◌then◌else◌,
}
use cloud_profile_sync.Common.Sort.{sort_func}
use cloud_profile_sync.Common.Result.{Result, ok, err, no_shoots}
use cloud_profile_sync.Semver.{Semver}
use cloud_profile_sync.Gardener.{Shoot}

-- The set of the versions that are not empty.
unfoldable pub version_set : List Shoot → List String → List String
unfolding contains
version_set [] set = set
version_set (s ∷ shoots) set = version_set shoots (
    if s.gardener_version == ""
    then set
    else if contains set s.gardener_version
    then set
    else s.gardener_version ∷ set)

module _ (S : Semver) where
  abbrev pub Entry : Type 0
  Entry = String × S.Version

  unfoldable pub read_entries : List String → List Entry
  read_entries [] = []
  read_entries (raw ∷ raws) =
      let rest = read_entries raws in
      elim (S.parse_tolerant raw) [ err _ ↦ rest | ok v ↦ (raw, v) ∷ rest ]

  abbrev pub compare_entries : Entry → Entry → Ordering
  compare_entries a b = S.compare a.1 b.1

  abbrev first_raw : List Entry → Result String
  first_raw [] = err no_shoots
  first_raw (entry ∷ rest) = ok entry.0

  unfoldable pub gardener_version_from_shoots : List Shoot → Result String
  unfolding version_set read_entries
  gardener_version_from_shoots shoots =
      first_raw (sort_func compare_entries (read_entries (version_set shoots [])))
