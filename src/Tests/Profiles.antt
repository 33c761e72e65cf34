-- ===== src/Tests/Profiles.antt =====
-- The providers' configurations and the reconciliation.
use mathlib.Core.List.{foldl}
use cloud_profile_sync.Common.{
  ◌≡◌, ◌≢◌, refl, String, string_eq, Option, none, some, true, false, List, [], ◌∷◌,
}
use cloud_profile_sync.Common.Int.{pos}
use cloud_profile_sync.Common.Text.{ascii}
use cloud_profile_sync.Common.Result.{Result, ok, err, Error, foreign, is_kind, invalid, other}
use cloud_profile_sync.Indexed.{find}
use cloud_profile_sync.Gardener.{MachineImage, RawExtension}
use cloud_profile_sync.Api.{succeeded}
use cloud_profile_sync.Source.{SourceImage}
use cloud_profile_sync.Openstack as Openstack
use cloud_profile_sync.Openstack.{OpenStackProvider, upsert_regions}
use cloud_profile_sync.Openstack.Laws.{catalog, put, write_versions-refines}
use cloud_profile_sync.Ironcore as Ironcore
use cloud_profile_sync.Ironcore.{IroncoreProvider, write_flat}
use cloud_profile_sync.Controllers.Prepare.{Env}
use cloud_profile_sync.Controllers.Status.{next_status, applied_condition}
use cloud_profile_sync.Controllers.Reconcile.{
  CloudProfile, World, Server, list_needed_shoots, prepare_all_images, prepare_versions,
  reconcile_cloud_profile,
}
use cloud_profile_sync.Controllers.Reconcile.Laws.{prepare_all, unprepared_keeps_profile}
use cloud_profile_sync.Controllers.Reconcile.Patch.{PatchesStatus}
use cloud_profile_sync.Controllers.Reconcile.Answers.{IsAnswered, reconcile_cloud_profile_ok_iff}
use cloud_profile_sync.Controllers.Reconcile.Told.{IsReported, reconcile_tells}
use cloud_profile_sync.Controllers.Reconcile.{
  write_profile, mark_failed, patch_status_and_condition,
}
use cloud_profile_sync.Common.{◌↔◌, inl, ◌==◌, if◌then◌else◌, Eq}
use cloud_profile_sync.Api.{Condition, ManagedCloudProfileStatus, ReconcileStatus}
use cloud_profile_sync.Gardener.{ExpirableVersion}
use cloud_profile_sync.Common.{sym, ap, arith}
use cloud_profile_sync.Common.Result.{ok_inj}
use cloud_profile_sync.Api.{ManagedCloudProfile}
use cloud_profile_sync.Controllers.Reconcile.{reconcile}
use cloud_profile_sync.Controllers.Reconcile.History.{
  History, begin, reconciled, IsCoherent, History-IsCoherent,
}
use cloud_profile_sync.Openstack.{RegionIdMapping, merge_regions}
use cloud_profile_sync.Common.{nat_eq}
use cloud_profile_sync.Tests.Data.{texts, image, shoot, managed, profile_spec}

abbrev openstack : OpenStackProvider
openstack = record { image_name = "linux"; enable_capabilities = true }

abbrev pub images : List SourceImage
images = image "2" "" ∷ image "3" "" ∷ []

abbrev listed : Openstack.Image
listed = record {
  name = "linux";
  versions =
      record {
        version = "2";
        regions = record { name = "eu"; id = "old" } ∷ [];
        capability_flavors = [];
      }
      ∷ [];
}

write_versions-refines_example :
    catalog (Openstack.write_versions openstack images listed).versions
    ≡ foldl (put openstack) (catalog listed.versions) images
unfolding find
write_versions-refines_example = write_versions-refines openstack images listed (refl, tt)

abbrev pub openstack_config : Openstack.Config
openstack_config = record { machine_images = listed ∷ []; rest = "{}" }

abbrev ironcore : IroncoreProvider
ironcore = record {
  registry = "keppel.example";
  repository = "account/linux";
  image_name = "linux";
  enable_capabilities = true;
}

abbrev ironcore_config : Ironcore.Config
ironcore_config = record {
  machine_images = record { name = "windows"; versions = [] } ∷ [];
  rest = "{}";
}

abbrev architectures : List String
architectures = "amd64" ∷ "arm64" ∷ []

abbrev unavailable : Error
unavailable = foreign other "connection refused"

abbrev pub env : Env
env = record {
  semver = texts;
  now = pos 10;
  enable_capabilities = true;
  list_shoots = ok (shoot "1" ∷ []);
  get_secret = λ _ _. err unavailable;
  create_oci_source = λ _ _ _ _. ok (ok images);
  glance_versions = λ _. ok images;
  new_repo = λ _. err unavailable;
  registry_provider = λ _. err unavailable;
  decode_ironcore = λ _. ok ironcore_config;
  encode_ironcore = λ _. ok "{}";
  decode_openstack = λ _. ok openstack_config;
  encode_openstack = λ _. ok "{}";
}

abbrev create_or_patch :
    String
    → (CloudProfile → Result CloudProfile)
    → Option CloudProfile
    → Result (Option CloudProfile)
create_or_patch name f none = elim (f (record { name = name; owner = none; spec = profile_spec })) [
  | ok p ↦ ok (some p)
  | err e ↦ err e
]
create_or_patch name f (some stored) = elim (f stored) [ ok p ↦ ok (some p) | err e ↦ err e ]

reconcile_status_discrete : Discrete ReconcileStatus
reconcile_status_discrete = hlevel

instance unfoldable reconcile_status_eq : Eq ReconcileStatus
unfolding reconcile_status_discrete
reconcile_status_eq = record { dec = reconcile_status_discrete }

-- A merge patch: a field that does not differ stays as it is stored. The conditions differ here.
abbrev merge_patch :
    ManagedCloudProfileStatus
    → ManagedCloudProfileStatus
    → ManagedCloudProfileStatus
    → Result (Unit {0}) × ManagedCloudProfileStatus
merge_patch base next stored = (
  ok tt,
  record {
    status = if base.status == next.status then stored.status else next.status;
    conditions = next.conditions;
  },
)

abbrev pub server : Server
server = record {
  create_or_patch = create_or_patch;
  set_controller_reference = λ mcp p. ok (record p { owner = some mcp.name });
  set_defaults = λ p. p;
  left_by_error = λ _ _ stored. stored;
  patch_status = merge_patch;
  status_eq = λ _ _. false;
  text = λ _. ascii "error";
}

abbrev refusing : Server
refusing = record server { create_or_patch = λ _ _ _. err (foreign invalid "spec.type: required") }

abbrev pub world : World
world = record {
  profile = some (record { name = "profile"; owner = none; spec = profile_spec });
  status = managed.status;
}

abbrev unlisted : Env
unlisted = record env { list_shoots = err unavailable }

abbrev unlisted_error : Error
unlisted_error = elim (prepare_all unlisted server managed) [ err e ↦ e | ok _ ↦ unavailable ]

unprepared_keeps_profile_example :
    ((reconcile_cloud_profile unlisted server managed world).1.profile ≡ world.profile)
    × ((reconcile_cloud_profile unlisted server managed world).0 ≢ ok tt)
unfolding prepare_all list_needed_shoots
unprepared_keeps_profile_example =
    unprepared_keeps_profile unlisted server managed world unlisted_error refl

abbrev prepared : List MachineImage × Option RawExtension
prepared = (profile_spec.machine_images, none)

server-PatchesStatus : PatchesStatus server
server-PatchesStatus = record {
  patches = λ base next. inl (ground arith);
  equal = λ a b e. absurd (ground (arith, e));
}

refusing-PatchesStatus : PatchesStatus refusing
refusing-PatchesStatus = record {
  patches = server-PatchesStatus.patches;
  equal = server-PatchesStatus.equal;
}

reconcile_cloud_profile_ok_iff_example :
    ((reconcile_cloud_profile env refusing managed world).0 ≡ ok tt) ↔ (
      (images : List MachineImage × Option RawExtension) × (versions : List ExpirableVersion)
      × (prepare_all env refusing managed ≡ ok (images, versions))
      × IsAnswered env refusing managed images versions world)
reconcile_cloud_profile_ok_iff_example = reconcile_cloud_profile_ok_iff env refusing managed world

is_requeued : (reconcile env refusing (ok managed) world).0 ≡ ok (some 300)
unfolding reconcile reconcile_cloud_profile list_needed_shoots prepare_all_images prepare_versions
    write_profile mark_failed patch_status_and_condition is_kind
is_requeued = refl

reconcile_tells_example :
    (images : List MachineImage × Option RawExtension) × (versions : List ExpirableVersion)
    × (prepare_all env refusing managed ≡ ok (images, versions))
    × IsReported env refusing refusing-PatchesStatus managed world refl images versions
        (reconcile env refusing (ok managed) world).1
reconcile_tells_example =
    reconcile_tells env refusing refusing-PatchesStatus managed world refl (some 300) is_requeued

-- One reconciliation that succeeds, and one that the server refuses.
abbrev after_one : World
after_one = (reconcile env server (ok managed) world).1

abbrev read_again : ManagedCloudProfile
read_again = record managed { status = after_one.status }

abbrev after_two : World
after_two = (reconcile env refusing (ok read_again) after_one).1

two_reconciliations : History world after_two
two_reconciliations =
    reconciled env refusing (ok read_again) refusing-PatchesStatus
      (λ mcp e. ap (λ m. m.status) (sym (ok_inj e)))
      (reconciled env server (ok managed) server-PatchesStatus
        (λ mcp e. ap (λ m. m.status) (sym (ok_inj e))) begin)

History-IsCoherent_example : IsCoherent after_two.status
History-IsCoherent_example =
    History-IsCoherent world after_two two_reconciliations
      (λ h. ground (arith, h), λ h. ground (arith, h))

-- A read that is older than the failure that is stored: the patch changes the conditions only.
abbrev earlier : Condition
earlier = record (applied_condition managed) { observed_generation = pos 0 }

abbrev stale : ManagedCloudProfile
stale = record managed { status = record { status = succeeded; conditions = earlier ∷ [] } }

abbrev failed_since : World
failed_since = record world { status = record { status = ReconcileStatus.failed; conditions = [] } }

stays_failed :
    (patch_status_and_condition env server stale succeeded
      (applied_condition managed)
      failed_since).1.status.status
    ≡ ReconcileStatus.failed
unfolding patch_status_and_condition next_status string_eq reconcile_status_eq
stays_failed = refl
