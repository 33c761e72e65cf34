-- ===== src/Gardener.antt =====
-- The types of Gardener's API (github.com/gardener/gardener, not part of the repository) with the
-- fields that the program reads or writes. What it only carries along is one opaque text.
use cloud_profile_sync.Common.{String, Option, Bool, List}
use cloud_profile_sync.Common.Int.{ℤ}
use cloud_profile_sync.Common.Dict.{Dict}

-- Nanoseconds since an epoch, and a difference of such.
abbrev pub Time : Type 0
Time = ℤ

abbrev pub Duration : Type 0
Duration = ℤ

-- `runtime.RawExtension`: its raw JSON.
abbrev pub RawExtension : Type 0
RawExtension = String

-- A Go map that may be nil: none is nil.
abbrev pub Capabilities : Type 0
Capabilities = Option (Dict String (List String))

pub data Classification : Type 0 where
  supported deprecated : Classification
  other : String → Classification

pub record ExpirableVersion : Type 0 where
  pub version : String
  pub classification : Option Classification
  pub expiration_date : Option Time

pub record InPlaceUpdates : Type 0 where
  pub supported : Bool
  pub min_version_for_update : Option String

pub record MachineImageFlavor : Type 0 where
  pub capabilities : Capabilities

pub record MachineImageVersion : Type 0 where
  pub version : String
  pub classification : Option Classification
  pub expiration_date : Option Time
  pub architectures : List String
  pub capability_flavors : List MachineImageFlavor
  pub in_place_updates : Option InPlaceUpdates

pub record MachineImage : Type 0 where
  pub name : String
  pub versions : List MachineImageVersion

pub record CapabilityDefinition : Type 0 where
  pub name : String
  pub values : List String

pub record KubernetesSettings : Type 0 where
  pub versions : List ExpirableVersion

pub record CloudProfileSpec : Type 0 where
  pub ca_bundle : Option String
  pub kubernetes : KubernetesSettings
  pub machine_images : List MachineImage
  pub machine_types : List String
  pub provider_config : Option RawExtension
  pub regions : List String
  pub seed_selector : Option String
  pub type : String
  pub volume_types : List String
  pub bastion : Option String
  pub limits : Option String
  pub machine_capabilities : List CapabilityDefinition
  pub control_plane : Option String

pub record ShootMachineImage : Type 0 where
  pub name : String
  pub version : Option String

pub record Worker : Type 0 where
  pub image : Option ShootMachineImage

pub record Shoot : Type 0 where
  -- `Spec.CloudProfile`, the name that it refers to
  pub cloud_profile : Option String
  -- `Spec.Provider.Workers`
  pub workers : List Worker
  -- `Status.Gardener.Version`
  pub gardener_version : String
