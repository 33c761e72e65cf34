-- ===== src/Tests/Data.antt =====
-- The data of the tests. Versions are texts that are not empty, in the order of texts.
use Prim.Native.Char.{Char}
use mathlib.Core.HLevel.{hedberg}
use cloud_profile_sync.Common.{
  string_eq, ◌≡◌, refl, ap, String, none, some, Bool, true, false, [], ◌∷◌, arith,
}
use cloud_profile_sync.Common.Int.{pos}
use cloud_profile_sync.Common.Order.{compare_text, compare_text-IsOrder, by_key-IsOrder}
use cloud_profile_sync.Common.Result.{Result, ok, err, plain, Error, foreign, canceled, other}
use cloud_profile_sync.Semver.{Semver, IsSemver}
use cloud_profile_sync.Gardener.{
  Capabilities, MachineImage, MachineImageVersion, CloudProfileSpec, Shoot,
}
use cloud_profile_sync.Source.{SourceImage}
use cloud_profile_sync.Glance.{Glance, GlanceParams}
use cloud_profile_sync.Updater.{ImageUpdater}
use cloud_profile_sync.Api.{Oci, MachineImageUpdate, ManagedCloudProfile, ReconcileStatus}

abbrev print_text : Char × String → String
print_text (c, s) = String.◌∷◌ c s

abbrev read_text : String → Result (Char × String)
read_text String.[] = err (plain "Version string empty" [])
read_text (String.◌∷◌ c s) = ok (c, s)

abbrev pub texts : Semver
texts = record {
  Version = Char × String;
  parse = read_text;
  parse_tolerant = read_text;
  compare = λ v w. compare_text (print_text v) (print_text w);
  string = print_text;
}

abbrev is_nil : String → Bool
is_nil String.[] = true
is_nil (String.◌∷◌ c s) = false

pub texts-IsSemver : IsSemver texts
texts-IsSemver = record {
  order = by_key-IsOrder print_text compare_text-IsOrder;
  parse-string = λ v. refl;
  parse_tolerant-string = λ v. refl;
  string-ne-nil = λ v h. let p : false ≡ true = ap is_nil h in absurd (ground arith);
}

abbrev pub amd64 : Capabilities
amd64 = some (("architecture", "amd64" ∷ []) ∷ [])

abbrev pub image : String → String → SourceImage
image version clean_version = record {
  version = version;
  clean_version = clean_version;
  architectures = "amd64" ∷ [];
  capabilities = amd64;
  support_in_place_update = false;
  regions = record { region = "eu"; id = "id" } ∷ [];
  classification = none;
  expiration_date = none;
}

abbrev pub entry : String → MachineImageVersion
entry version = record {
  version = version;
  classification = none;
  expiration_date = none;
  architectures = "amd64" ∷ [];
  capability_flavors = [];
  in_place_updates = none;
}

abbrev pub linux : MachineImage
linux = record { name = "linux"; versions = entry "1" ∷ entry "2" ∷ [] }

abbrev pub windows : MachineImage
windows = record { name = "windows"; versions = [] }

abbrev pub updater : ImageUpdater
updater = record {
  source = ok (image "2-amd64" "2" ∷ image "3-amd64" "3" ∷ []);
  provider = none;
  image_name = "linux";
  enable_capabilities = true;
  min_version_for_update = some "1";
  filter = none;
}

abbrev pub shoot : String → Shoot
shoot version = record {
  cloud_profile = some "profile";
  workers = record { image = some (record { name = "linux"; version = some "3" }) } ∷ [];
  gardener_version = version;
}

abbrev pub oci : Oci
oci = record {
  registry = "keppel.example";
  repository = "account/linux";
  username = "";
  password = record { name = ""; namespace = ""; key = "" };
  insecure = false;
  image_filter = none;
  feature_to_capability_map = [];
}

abbrev pub update : MachineImageUpdate
update = record {
  source = record { oci = some oci; glance = none };
  provider = record { ironcore_metal = none; open_stack = true };
  image_name = "linux";
  min_version_for_update = none;
}

abbrev pub profile_spec : CloudProfileSpec
profile_spec = record {
  ca_bundle = none;
  kubernetes = record { versions = [] };
  machine_images = linux ∷ windows ∷ [];
  machine_types = [];
  provider_config = none;
  regions = "eu" ∷ [];
  seed_selector = none;
  type = "openstack";
  volume_types = [];
  bastion = none;
  limits = none;
  machine_capabilities = [];
  control_plane = none;
}

abbrev pub managed : ManagedCloudProfile
managed = record {
  name = "profile";
  generation = pos 1;
  spec = record {
    cloud_profile = profile_spec;
    machine_images_paused = false;
    machine_image_updates = [];
    garbage_collection = some (record { enabled = true; max_age = pos 5 });
    kubernetes_update = none;
  };
  status = record { status = ReconcileStatus.unset; conditions = [] };
}

abbrev pub gone : Error
gone = foreign canceled "context canceled"

abbrev pub broken : Error
broken = foreign other "timeout"

abbrev pub params : GlanceParams
params = record {
  auth_url_format = "https://identity.%s";
  regions = "eu" ∷ "us" ∷ [];
  name_prefix = "linux-";
  keep_latest = pos 0;
  parallel = pos 0;
  version_offset = pos 0;
  excluded_suffixes = [];
  require_all_regions = true;
  project_name = "images";
  project_domain_name = "cloud";
  username = "reader";
  user_domain_name = "cloud";
  password = "";
}

abbrev pub glance : Glance
glance = record {
  params = params;
  name_prefix = "linux-";
  keep_latest = pos 3;
  offset = 0;
  parallel = 8;
}

String-IsSet : IsSet String
String-IsSet = hedberg string_eq.dec

pub SourceImage-IsSet : IsSet SourceImage
SourceImage-IsSet = hlevel (String-IsSet)
