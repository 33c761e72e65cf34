-- ===== src/Source.antt =====
-- `SourceImage`, `RegionImage` and the interfaces of cloudprofilesync/ossync/os_image_updater.go
use cloud_profile_sync.Common.{String, Option, Bool, List, ◌==◌, string_eq, if◌then◌else◌}
use cloud_profile_sync.Common.Result.{Result}
use cloud_profile_sync.Gardener.{Capabilities, Classification, Time, RawExtension}

pub record RegionImage : Type 0 where
  pub region : String
  pub id : String

pub record SourceImage : Type 0 where
  pub version : String
  pub clean_version : String
  pub architectures : List String
  pub capabilities : Capabilities
  pub support_in_place_update : Bool
  pub regions : List RegionImage
  pub classification : Option Classification
  pub expiration_date : Option Time

unfoldable pub effective_version : SourceImage → String
effective_version s = if s.clean_version == "" then s.version else s.clean_version

-- What a call of `GetVersions` returns.
abbrev pub Source : Type 0
Source = Result (List SourceImage)

-- `Configure`
abbrev pub Provider : Type 0
Provider = Option RawExtension → List SourceImage → Result (Option RawExtension)

-- `Filter`
abbrev pub VersionFilter : Type 0
VersionFilter = List SourceImage → List SourceImage
