-- ===== src/Controllers/Reconcile/Client.antt =====
-- What controller-runtime and Gardener's defaults document, as laws of a `Server`, and what the
-- function that `reconcileCloudProfile` hands to `CreateOrPatch` makes of the images under them.
use mathlib.Core.Path.{ap₂}
use cloud_profile_sync.Common.{
  ◌≡◌, refl, sym, ap, ◌∙◌, ◌⊎◌, String, Option, none, some, Bool, true, false, List, [], ◌∷◌, ◌++◌,
  map, is_some, ◌==◌, string_eq, if◌then◌else◌, arith,
}
use cloud_profile_sync.Common.Result.{Result, ok, ok_inj, >>=-eq-ok}
use cloud_profile_sync.Indexed.{find}
use cloud_profile_sync.Gardener.{
  Time, MachineImage, MachineImageVersion, RawExtension, ExpirableVersion, CloudProfileSpec,
}
use cloud_profile_sync.Api.{ManagedCloudProfile, ManagedCloudProfileStatus}
use cloud_profile_sync.Updater.Index.{version_of}
use cloud_profile_sync.Updater.Listing.{versions_named}
use cloud_profile_sync.Controllers.Prepare.{Env}
use cloud_profile_sync.Controllers.Expiration.{
  Stored, carry_version, carry_image, carry_expiration_dates, store_images, expiration_date_key,
}
use cloud_profile_sync.Controllers.Expiration.Stable.{Dated, dated, dates_of}
use cloud_profile_sync.Controllers.Reconcile.{
  CloudProfile, Server, mutate, chosen_images, chosen_kubernetes, copy_static_spec_fields,
}

-- The names of the images and of their versions, with the dates of these.
abbrev pub Outline : Type 0
Outline = List (String × List (String × Option Time))

abbrev pub outline_version : MachineImageVersion → String × Option Time
outline_version v = (v.version, v.expiration_date)

abbrev pub outline : List MachineImage → Outline
outline [] = []
outline (img ∷ imgs) = (img.name, map outline_version img.versions) ∷ outline imgs

abbrev pub empty_spec : CloudProfileSpec
empty_spec = record {
  ca_bundle = none;
  kubernetes = record { versions = [] };
  machine_images = [];
  machine_types = [];
  provider_config = none;
  regions = [];
  seed_selector = none;
  type = "";
  volume_types = [];
  bastion = none;
  limits = none;
  machine_capabilities = [];
  control_plane = none;
}

-- The object that the function of `CreateOrPatch` starts from: the stored one, or one with a name.
abbrev pub started_from : String → Option CloudProfile → CloudProfile
started_from name none = record { name = name; owner = none; spec = empty_spec }
started_from name (some stored) = stored

pub record IsDocumented (server : Server) : Type 0 where
  -- `CreateOrPatch` calls the function on the stored object, or on a new one, and an answer without
  -- an error means that what the function made of it is stored.
  pub stores :
      (name : String) (f : CloudProfile → Result CloudProfile) (stored : Option CloudProfile)
      {result : Option CloudProfile}
      → server.create_or_patch name f stored ≡ ok result
      → (p : CloudProfile) × (f (started_from name stored) ≡ ok p) × (result ≡ some p)
  -- An error leaves the stored object, or what the function made of it.
  pub leaves :
      (name : String) (f : CloudProfile → Result CloudProfile) (stored : Option CloudProfile)
      → (server.left_by_error name f stored ≡ stored)
        ⊎ ((p : CloudProfile) × (f (started_from name stored) ≡ ok p)
            × (server.left_by_error name f stored ≡ some p))
  -- `SetControllerReference` changes the references only, and not a second time.
  pub refers :
      (mcp : ManagedCloudProfile) (p : CloudProfile) {q : CloudProfile}
      → server.set_controller_reference mcp p ≡ ok q
      → (q.name ≡ p.name) × (q.spec ≡ p.spec)
  pub refers_once :
      (mcp : ManagedCloudProfile) (p r : CloudProfile) {q : CloudProfile}
      (status : ManagedCloudProfileStatus)
      → server.set_controller_reference mcp p ≡ ok q
      → r.owner ≡ q.owner
      → server.set_controller_reference (record mcp { status = status }) r ≡ ok r
  -- The defaults leave the names, the references, and the versions of the images with their dates.
  pub defaults_name : (p : CloudProfile) → (server.set_defaults p).name ≡ p.name
  pub defaults_owner : (p : CloudProfile) → (server.set_defaults p).owner ≡ p.owner
  pub defaults_outline :
      (p : CloudProfile)
      → outline (server.set_defaults p).spec.machine_images ≡ outline p.spec.machine_images

-- The keys and dates that `carryExpirationDates` reads are those of the outline.
abbrev dates_from : Outline → List Dated
dates_from [] = []
dates_from ((name, vs) ∷ imgs) =
    map (λ v. (expiration_date_key name v.0, v.1)) vs ++ dates_from imgs

versions-dates_from :
    (name : String) (vs : List MachineImageVersion)
    → map (dated name) vs
      ≡ map
          (λ (v : String × Option Time). (expiration_date_key name v.0, v.1))
          (map outline_version vs)
versions-dates_from name [] = refl
versions-dates_from name (v ∷ vs) = ap (◌∷◌ (dated name v)) (versions-dates_from name vs)

pub dates_of-outline : (imgs : List MachineImage) → dates_of imgs ≡ dates_from (outline imgs)
dates_of-outline [] = refl
dates_of-outline (img ∷ imgs) =
    ap₂ ◌++◌ (versions-dates_from img.name img.versions) (dates_of-outline imgs)

pub dates_of_eq :
    (imgs others : List MachineImage)
    → outline imgs ≡ outline others
    → dates_of imgs ≡ dates_of others
dates_of_eq imgs others e = dates_of-outline imgs ∙ ap dates_from e ∙ sym (dates_of-outline others)

-- Whether an outline has a version under a name.
abbrev has_version : String → List (String × Option Time) → Bool
has_version k [] = false
has_version k ((v, _) ∷ vs) = if v == k then true else has_version k vs

abbrev lists : String → String → Outline → Bool
lists name k [] = false
lists name k ((n, vs) ∷ imgs) = if n == name then has_version k vs else lists name k imgs

find-has_version :
    (k : String) (vs : List MachineImageVersion)
    → is_some (find version_of k vs) ≡ has_version k (map outline_version vs)
unfolding find
find-has_version k [] = refl
find-has_version k (v ∷ vs) = ground (arith, find-has_version k vs)

pub find-lists :
    (name k : String) (images : List MachineImage)
    → is_some (find version_of k (versions_named name images)) ≡ lists name k (outline images)
unfolding find
find-lists name k [] = refl
find-lists name k (img ∷ imgs) =
    ground (arith, find-lists name k imgs, find-has_version k img.versions)

module _ (stored : Stored) where
  carry-has_version :
      (name k : String) (vs : List MachineImageVersion)
      → has_version k (map outline_version (map (carry_version stored name) vs))
        ≡ has_version k (map outline_version vs)
  unfolding carry_version
  carry-has_version name k [] = refl
  carry-has_version name k (v ∷ vs) = ground (arith, carry-has_version name k vs)

  carry-lists :
      (name k : String) (imgs : List MachineImage)
      → lists name k (outline (map (carry_image stored) imgs)) ≡ lists name k (outline imgs)
  unfolding carry_image
  carry-lists name k [] = refl
  carry-lists name k (img ∷ imgs) =
      ground (arith, carry-lists name k imgs, carry-has_version img.name k img.versions)

-- Carrying dates over changes no version.
pub carry_expiration_dates-lists :
    (existing next : List MachineImage) (name k : String)
    → is_some (find version_of k (versions_named name (carry_expiration_dates existing next)))
      ≡ is_some (find version_of k (versions_named name next))
unfolding carry_expiration_dates
carry_expiration_dates-lists existing next name k =
    find-lists name k (carry_expiration_dates existing next)
    ∙ carry-lists (store_images existing []) name k next
    ∙ sym (find-lists name k next)

module _ (env : Env) (server : Server) (laws : IsDocumented server) (mcp : ManagedCloudProfile)
    (prepared : List MachineImage × Option RawExtension) (versions : List ExpirableVersion) where
  -- The specification that is written over a stored one, before the defaults.
  abbrev written_over :
      List MachineImage × Option RawExtension → CloudProfileSpec → CloudProfileSpec
  written_over (images, config) spec =
      record (copy_static_spec_fields spec mcp.spec.cloud_profile) {
        machine_images = carry_expiration_dates spec.machine_images images;
        provider_config = config;
        kubernetes = chosen_kubernetes env server mcp versions;
      }

  abbrev pub written_spec : CloudProfileSpec → CloudProfileSpec
  written_spec = written_over prepared

  pub mutate_written :
      (stored : CloudProfile) {result : CloudProfile}
      → mcp.spec.machine_images_paused ≡ false
      → mutate env server mcp prepared versions stored ≡ ok result
      → (owned : CloudProfile) × (server.set_controller_reference mcp stored ≡ ok owned)
        × (result ≡ server.set_defaults (record owned { spec = written_spec stored.spec }))
  unfolding mutate chosen_images
  mutate_written stored {result} active h =
      let (owned, e, made) = >>=-eq-ok (server.set_controller_reference mcp stored) _ h in
      let same : owned.spec ≡ stored.spec = (laws.refers mcp stored e).1 in
      let chosen : chosen_images env server mcp prepared owned ≡ prepared =
        ground (arith, active) in
      (
        owned,
        e,
        sym (ok_inj made)
            ∙ ap₂
                (λ images spec.
                  server.set_defaults (record owned { spec = written_over images spec }))
                chosen same,
      )

  pub mutate-ok :
      (stored : CloudProfile) {owned : CloudProfile}
      → mcp.spec.machine_images_paused ≡ false
      → server.set_controller_reference mcp stored ≡ ok owned
      → mutate env server mcp prepared versions stored
        ≡ ok (server.set_defaults (record owned { spec = written_spec stored.spec }))
  unfolding mutate chosen_images
  mutate-ok stored {owned} active e =
      let same : owned.spec ≡ stored.spec = (laws.refers mcp stored e).1 in
      let chosen : chosen_images env server mcp prepared owned ≡ prepared =
        ground (arith, active) in
      rw e (
        ap₂
          (λ images spec.
            ok (server.set_defaults (record owned { spec = written_over images spec })))
          chosen same)

  -- What is written lists the versions that were prepared.
  pub mutate-lists :
      (stored : CloudProfile) {result : CloudProfile}
      → mcp.spec.machine_images_paused ≡ false
      → mutate env server mcp prepared versions stored ≡ ok result
      → (name k : String)
      → is_some (find version_of k (versions_named name result.spec.machine_images))
        ≡ is_some (find version_of k (versions_named name prepared.0))
  mutate-lists stored {result} active h name k =
      let (owned, _, made) = mutate_written stored active h in
      let before : CloudProfile = record owned { spec = written_spec stored.spec } in
      find-lists name k result.spec.machine_images
      ∙ ap (lists name k) (
          ap (λ (p : CloudProfile). outline p.spec.machine_images) made
          ∙ laws.defaults_outline before)
      ∙ sym (find-lists name k before.spec.machine_images)
      ∙ carry_expiration_dates-lists stored.spec.machine_images prepared.0 name k
