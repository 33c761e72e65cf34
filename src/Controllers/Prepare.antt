-- ===== src/Controllers/Prepare.antt =====
-- What a reconciliation computes before it writes: `selectSource`, `selectProvider`,
-- `getCredential`, `prepareMachineImageUpdate` and `prepareKubernetesUpdate`.
-- All that lies outside the repository is in the record `Env`.
pub mod Referenced
use cloud_profile_sync.Common.{
  ℕ, Option, none, some, String, Bool, List, [], ◌∷◌, ◌==◌, string_eq, if◌then◌else◌,
}
use cloud_profile_sync.Common.Dict.{Dict, lookup}
use cloud_profile_sync.Common.Result.{Result, ok, err, plain, wrapped, is_no_shoots, ◌>>=◌, ◌>>◌}
use cloud_profile_sync.Semver.{Semver}
use cloud_profile_sync.Gardener.{Time, Shoot, MachineImage, RawExtension, ExpirableVersion}
use cloud_profile_sync.Source.{Source, Provider, VersionFilter}
use cloud_profile_sync.Api.{
  SecretReference, MachineImageUpdate, MachineImageUpdateSource, Oci, GlanceSource, ImageFilter,
  KubernetesVersionUpdateConfig, LandscapeSetup, ManagedCloudProfile,
}
use cloud_profile_sync.OciRepo.{Params}
use cloud_profile_sync.Updater
use cloud_profile_sync.Updater.{ImageUpdater}
use cloud_profile_sync.Collection.{RegistryClient, Filter, filter_images, build_gc_filter}
use cloud_profile_sync.Glance.{Glance, GlanceParams, new_glance}
use cloud_profile_sync.Landscape.{Repo}
use cloud_profile_sync.Landscape.Source.{new_landscape_kubernetes_source}
use cloud_profile_sync.Landscape.Resolution as Resolution
use cloud_profile_sync.Kubernetes
use cloud_profile_sync.Kubernetes.{KubernetesVersionUpdater, KubernetesVersionSource}
use cloud_profile_sync.Openstack.{OpenStackProvider}
use cloud_profile_sync.Openstack
use cloud_profile_sync.Ironcore.{IroncoreProvider}
use cloud_profile_sync.Ironcore
use cloud_profile_sync.Controllers.Shoots.{gardener_version_from_shoots}

pub record Env : Type 1 where
  pub semver : Semver
  pub now : Time
  pub enable_capabilities : Bool
  -- `r.List` of the Shoots of all namespaces
  pub list_shoots : Result (List Shoot)
  -- `r.Get` of a Secret by namespace and name: its data
  pub get_secret : String → String → Result (Dict String String)
  -- `r.OCISourceFactory.Create`
  pub create_oci_source : Params → ℕ → Dict String String → Option ImageFilter → Result Source
  -- what `GetVersions` of a Glance source returns
  pub glance_versions : Glance → Source
  -- `ocirepo.New`, as the landscape source uses it
  pub new_repo : Params → Result Repo
  pub registry_provider : String → Result RegistryClient
  pub decode_ironcore : RawExtension → Result Ironcore.Config
  pub encode_ironcore : Ironcore.Config → Result RawExtension
  pub decode_openstack : RawExtension → Result Openstack.Config
  pub encode_openstack : Openstack.Config → Result RawExtension

module _ (env : Env) where
  unfoldable pub get_credential : SecretReference → Result String
  unfolding lookup
  get_credential ref = if ref.name == "" then ok "" else (do
    secret ← wrapped "failed to get secret: %w" [] (env.get_secret ref.namespace ref.name)
    elim (lookup ref.key secret) [
      | none ↦
          err (plain "secret %s/%s does not have key %s" (ref.namespace ∷ ref.name ∷ ref.key ∷ []))
      | some value ↦ ok value
    ])

  abbrev pub repo_params : Oci → String → Params
  repo_params src password = record {
    registry = src.registry;
    repository = src.repository;
    username = src.username;
    password = password;
    insecure = src.insecure;
  }

  unfoldable pub new_oci_source : Oci → Result Source
  unfolding get_credential
  new_oci_source src = do
    password ← get_credential src.password
    wrapped "failed to initialize OCI source: %w" [] (
        env.create_oci_source (repo_params src password) 1 src.feature_to_capability_map
          src.image_filter)

  abbrev glance_params : GlanceSource → String → GlanceParams
  glance_params g password = record {
    auth_url_format = g.auth_url_format;
    regions = g.regions;
    name_prefix = g.name_prefix;
    keep_latest = g.keep_latest;
    parallel = g.parallel;
    version_offset = g.version_offset;
    excluded_suffixes = g.excluded_suffixes;
    require_all_regions = g.require_all_regions;
    project_name = g.project_name;
    project_domain_name = g.project_domain_name;
    username = g.username;
    user_domain_name = g.user_domain_name;
    password = password;
  }

  unfoldable pub new_glance_source : GlanceSource → Result Source
  unfolding get_credential
  new_glance_source g = do
    password ← get_credential g.password_secret
    source ←
        wrapped "failed to initialize Glance source: %w" [] (new_glance (glance_params g password))
    ok (env.glance_versions source)

  unfoldable pub select_source : MachineImageUpdateSource → Result Source
  unfolding new_oci_source new_glance_source
  select_source src = elim src.oci [
    | some oci ↦ new_oci_source oci
    | none ↦ elim src.glance [
      | some g ↦ new_glance_source g
      | none ↦ err (plain "no machine images source configured" [])
    ]
  ]

  unfoldable pub select_provider : MachineImageUpdate → Result Provider
  select_provider update = elim update.provider.ironcore_metal [
    | some metal ↦ ok (
        Ironcore.configure env.decode_ironcore env.encode_ironcore (record {
          registry = metal.registry;
          repository = metal.repository;
          image_name = update.image_name;
          enable_capabilities = env.enable_capabilities;
        }))
    | none ↦
        if update.provider.open_stack
        then ok (
            Openstack.configure env.decode_openstack env.encode_openstack (record {
              image_name = update.image_name;
              enable_capabilities = env.enable_capabilities;
            }))
        else err (plain "no known provider configured" [])
  ]

  unfoldable pub validate_min_version_for_update : Option String → Result (Unit {0})
  validate_min_version_for_update none = ok tt
  validate_min_version_for_update (some v) =
      elim (wrapped "minVersionForUpdate %q is not valid semver: %w" (v ∷ [])
        (env.semver.parse v)) [ ok _ ↦ ok tt | err e ↦ err e ]

  -- An error of `buildGCFilter` is logged, and nothing is collected.
  abbrev pub filter_or_none : Result (Option Filter) → Option VersionFilter
  filter_or_none (err e) = none
  filter_or_none (ok none) = none
  filter_or_none (ok (some f)) = some (filter_images f)

  abbrev pub updater_for :
      ManagedCloudProfile → List Shoot → MachineImageUpdate → Source → Provider → ImageUpdater
  updater_for mcp shoots update source provider = record {
    source = source;
    provider = some provider;
    image_name = update.image_name;
    enable_capabilities = env.enable_capabilities;
    min_version_for_update = update.min_version_for_update;
    filter = filter_or_none (build_gc_filter env.registry_provider env.now mcp shoots update);
  }

  unfoldable pub prepare_machine_image_update :
      ManagedCloudProfile
      → List Shoot
      → List MachineImage × Option RawExtension
      → MachineImageUpdate
      → Result (List MachineImage × Option RawExtension)
  unfolding select_source select_provider validate_min_version_for_update
  prepare_machine_image_update mcp shoots base update = do
    validate_min_version_for_update update.min_version_for_update
    source ← select_source update.source
    provider ← select_provider update
    let updater = updater_for mcp shoots update source provider
    source_images ←
        wrapped "fetching machine images failed: %w" [] (Updater.fetch env.semver updater)
    wrapped "applying machine images failed: %w" [] (
        Updater.apply env.semver updater mcp.spec.cloud_profile.machine_capabilities base.0 base.1
          source_images)

  unfoldable pub landscape_setup_source : LandscapeSetup → Result KubernetesVersionSource
  unfolding get_credential new_landscape_kubernetes_source
  landscape_setup_source ls = do
    password ← wrapped "getting oci password: %w" [] (get_credential ls.oci.password)
    source ←
        wrapped "initializing landscape source: %w" []
          (new_landscape_kubernetes_source env.new_repo (repo_params ls.oci password) ls.provider)
    ok (Resolution.fetch_versions source.oci_repo env.semver source.provider)

  -- With no shoots there is no Gardener version; other errors are passed on.
  abbrev version_or_none : Result String → Result (Option String)
  version_or_none (ok v) = ok (some v)
  version_or_none (err e) =
      if is_no_shoots e then ok none else wrapped "resolving Gardener version: %w" [] (err e)

  abbrev select_landscape : Option LandscapeSetup → Result KubernetesVersionSource
  select_landscape none = err (plain "no kubernetes version source configured" [])
  select_landscape (some ls) =
      wrapped "getting landscape setup source: %w" [] (landscape_setup_source ls)

  unfoldable pub prepare_kubernetes_update :
      KubernetesVersionUpdateConfig → List Shoot → Result (List ExpirableVersion)
  unfolding landscape_setup_source gardener_version_from_shoots is_no_shoots
  prepare_kubernetes_update cfg shoots = do
    source ← select_landscape cfg.landscape_setup
    gardener_version ← version_or_none (gardener_version_from_shoots env.semver shoots)
    let updater : KubernetesVersionUpdater = record {
      source = source;
      expiration_threshold = cfg.expiration_threshold;
    }
    fetched ←
        wrapped "fetching kubernetes versions failed: %w" []
          (Kubernetes.fetch updater gardener_version)
    wrapped "applying kubernetes versions failed: %w" [] (Kubernetes.apply env.now updater fetched)
