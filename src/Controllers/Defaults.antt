-- ===== src/Controllers/Defaults.antt =====
-- `SetupWithManager` of controllers/managedcloudprofile_controller.go, as far as it chooses the two
-- factories, with the defaults of cloud_profile_helpers.go and garbage_collection.go. How long the
-- goroutines of a `GetVersions` take is a parameter: `listing` is what the call answers. Beside
-- them stands `CloudProfileSpecToGardener`.
use cloud_profile_sync.Common.{ℕ, String, Option, none, some, Bool}
use cloud_profile_sync.Common.Int.{ℤ}
use cloud_profile_sync.Common.Dict.{Dict}
use cloud_profile_sync.Common.Result.{Result, ok, ◌>>=◌, ◌>>◌}
use cloud_profile_sync.Gardener.{Time, CloudProfileSpec}
use cloud_profile_sync.Source.{Source}
use cloud_profile_sync.Api.{ImageFilter}
use cloud_profile_sync.OciRepo.{Params}
use cloud_profile_sync.OciSource.{Oci, Calls, new_oci}
use cloud_profile_sync.Keppel.{HttpClient, Response, fetch_keppel_tags}
use cloud_profile_sync.Collection.{RegistryClient, get_registry_provider}

-- The type of `OCISourceFactory.Create`.
abbrev pub Create : Type 0
Create = Params → ℕ → Dict String String → Option ImageFilter → Result Source

module _ (new_repo : Params → Result Calls) (listing : Oci → Source) where
  -- `DefaultOCISourceFactory`
  unfoldable pub default_create : Create
  unfolding new_oci
  default_create params parallel feature_to_capability_map image_filter = do
    o ← new_oci new_repo params parallel feature_to_capability_map image_filter
    ok (listing o)

  unfoldable pub oci_source_factory : Option Create → Create
  unfolding default_create
  oci_source_factory none = default_create
  oci_source_factory (some create) = create

module _ {Request : Type 0} (unix : ℤ → Time) (url_string : String → String → String)
    (new_request : String → Result Request) (send : HttpClient → Request → Result Response) where
  -- `KeppelClient.GetTags`
  unfoldable pub get_tags : RegistryClient
  unfolding fetch_keppel_tags
  get_tags registry repository =
      fetch_keppel_tags unix url_string new_request send registry repository

  unfoldable pub registry_provider :
      Option (String → Result RegistryClient) → String → Result RegistryClient
  unfolding get_registry_provider get_tags
  registry_provider none = get_registry_provider get_tags
  registry_provider (some provider) = provider

-- The fields of `Reconciler` beside the client; a nil factory is `none`.
pub record Reconciler : Type 0 where
  pub oci_source_factory : Option Create
  pub registry_provider_func : Option (String → Result RegistryClient)
  pub enable_capabilities : Bool

-- `SetupWithManager`; `complete` is what the builder answers for the reconciler. The changed
-- reconciler is the one that the manager then calls.
module _ (default : Create) (get_registry_provider : String → Result RegistryClient)
    (complete : Reconciler → Result (Unit {0})) where
  abbrev filled : Reconciler → Reconciler
  filled r = record r {
    oci_source_factory = some (elim r.oci_source_factory [ none ↦ default | some f ↦ f ]);
    registry_provider_func =
        some (elim r.registry_provider_func [ none ↦ get_registry_provider | some f ↦ f ]);
  }

  unfoldable pub setup_with_manager : Reconciler → Result Reconciler
  setup_with_manager r = complete (filled r) >> ok (filled r)

-- Both types have the same fields, and are one type here.
unfoldable pub cloud_profile_spec_to_gardener : CloudProfileSpec → CloudProfileSpec
cloud_profile_spec_to_gardener spec = record {
  ca_bundle = spec.ca_bundle;
  kubernetes = spec.kubernetes;
  machine_images = spec.machine_images;
  machine_types = spec.machine_types;
  provider_config = spec.provider_config;
  regions = spec.regions;
  seed_selector = spec.seed_selector;
  type = spec.type;
  volume_types = spec.volume_types;
  bastion = spec.bastion;
  limits = spec.limits;
  machine_capabilities = spec.machine_capabilities;
  control_plane = spec.control_plane;
}
