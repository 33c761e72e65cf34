-- ===== src/Api.antt =====
-- api/v1alpha1/managedcloudprofile.go: the custom resource that the controller reads.
-- Pointers are `Option`. `CloudProfileSpec` has the fields of Gardener's type of that name.
use cloud_profile_sync.Common.{String, Option, Bool, List, Eq}
use cloud_profile_sync.Common.Text.{Bytes}
use cloud_profile_sync.Common.Dict.{Dict}
use cloud_profile_sync.Common.Int.{ℤ}
use cloud_profile_sync.Gardener.{CloudProfileSpec, Duration, Time}

pub record SecretReference : Type 0 where
  pub name : String
  pub namespace : String
  pub key : String

pub record ImageFilter : Type 0 where
  pub required_feature_set_values : List String

pub record Oci : Type 0 where
  pub registry : String
  pub repository : String
  pub username : String
  pub password : SecretReference
  pub insecure : Bool
  pub image_filter : Option ImageFilter
  pub feature_to_capability_map : Dict String String

pub record GlanceSource : Type 0 where
  pub auth_url_format : String
  pub regions : List String
  pub name_prefix : String
  pub keep_latest : ℤ
  pub version_offset : ℤ
  pub excluded_suffixes : List String
  pub require_all_regions : Bool
  pub parallel : ℤ
  pub project_name : String
  pub project_domain_name : String
  pub username : String
  pub user_domain_name : String
  pub password_secret : SecretReference

pub record MachineImageUpdateSource : Type 0 where
  pub oci : Option Oci
  pub glance : Option GlanceSource

pub record IroncoreMetal : Type 0 where
  pub registry : String
  pub repository : String

-- `OpenStack` points to a struct with no fields: whether it is set.
pub record MachineImageUpdateProvider : Type 0 where
  pub ironcore_metal : Option IroncoreMetal
  pub open_stack : Bool

pub record MachineImageUpdate : Type 0 where
  pub source : MachineImageUpdateSource
  pub provider : MachineImageUpdateProvider
  pub image_name : String
  pub min_version_for_update : Option String

pub record GarbageCollectionConfig : Type 0 where
  pub enabled : Bool
  pub max_age : Duration

pub record LandscapeSetup : Type 0 where
  pub oci : Oci
  pub provider : String

pub record KubernetesVersionUpdateConfig : Type 0 where
  pub expiration_threshold : Duration
  pub landscape_setup : Option LandscapeSetup

pub record ManagedCloudProfileSpec : Type 0 where
  pub cloud_profile : CloudProfileSpec
  pub machine_images_paused : Bool
  pub machine_image_updates : List MachineImageUpdate
  pub garbage_collection : Option GarbageCollectionConfig
  pub kubernetes_update : Option KubernetesVersionUpdateConfig

-- `ReconcileStatus`; a new object has the empty text.
pub data ReconcileStatus : Type 0 where
  unset succeeded failed : ReconcileStatus

-- `metav1.ConditionStatus`
pub data ConditionStatus : Type 0 where
  unset condition_true condition_false : ConditionStatus

condition_status_discrete : Discrete ConditionStatus
condition_status_discrete = hlevel

instance unfoldable pub condition_status_eq : Eq ConditionStatus
unfolding condition_status_discrete
condition_status_eq = record { dec = condition_status_discrete }

-- `metav1.Condition`
pub record Condition : Type 0 where
  pub type : String
  pub status : ConditionStatus
  pub observed_generation : ℤ
  pub last_transition_time : Option Time
  pub reason : String
  pub message : Bytes

pub record ManagedCloudProfileStatus : Type 0 where
  pub status : ReconcileStatus
  pub conditions : List Condition

pub record ManagedCloudProfile : Type 0 where
  pub name : String
  pub generation : ℤ
  pub spec : ManagedCloudProfileSpec
  pub status : ManagedCloudProfileStatus
