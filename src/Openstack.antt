-- ===== src/Openstack.antt =====
-- cloudprofilesync/ossync/provider/openstack/provider.go. The JSON form of the configuration, a
-- type of gardener-extension-provider-openstack, is a pair of parameters, `decode` and `encode`.
pub mod Laws
pub mod Order
use Prim.Native.Nat.{Ordering}
use mathlib.Core.List.{foldl}
use cloud_profile_sync.Common.{
  ℕ, String, Option, none, some, Bool, true, false, ◌&&◌, List, [], ◌∷◌, ◌++◌, length, modify,
  index_func, is_some, ◌==◌, string_eq, if◌then◌else◌,
}
use cloud_profile_sync.Common.Dict.{Dict, lookup, insert}
use cloud_profile_sync.Common.Order.{compare_text, or_then}
use cloud_profile_sync.Common.Result.{Result, ok, err, ◌>>=◌}
use cloud_profile_sync.Common.Sort.{sort_func}
use cloud_profile_sync.Gardener.{Capabilities, RawExtension}
use cloud_profile_sync.Source.{RegionImage, SourceImage}
use cloud_profile_sync.Capabilities.{capabilities_equal}

pub record RegionIdMapping : Type 0 where
  pub name : String
  pub id : String

pub record Flavor : Type 0 where
  pub capabilities : Capabilities
  pub regions : List RegionIdMapping

pub record Version : Type 0 where
  pub version : String
  pub regions : List RegionIdMapping
  pub capability_flavors : List Flavor

pub record Image : Type 0 where
  pub name : String
  pub versions : List Version

-- `rest` is what the program does not touch.
pub record Config : Type 0 where
  pub machine_images : List Image
  pub rest : String

pub record OpenStackProvider : Type 0 where
  pub image_name : String
  pub enable_capabilities : Bool

unfoldable pub upsert_region : List RegionIdMapping → String → String → List RegionIdMapping
upsert_region [] name id = record { name = name; id = id } ∷ []
upsert_region (r ∷ rs) name id =
    if r.name == name then record r { id = id } ∷ rs else r ∷ upsert_region rs name id

unfoldable pub compare_regions : RegionIdMapping → RegionIdMapping → Ordering
compare_regions a b = or_then (compare_text a.name b.name) (compare_text a.id b.id)

unfoldable pub sort_regions : List RegionIdMapping → List RegionIdMapping
unfolding compare_regions sort_func
sort_regions regions = sort_func compare_regions regions

unfoldable pub upsert_regions : List RegionIdMapping → List RegionImage → List RegionIdMapping
unfolding upsert_region
upsert_regions regions [] = regions
upsert_regions regions (r ∷ rs) = upsert_regions (upsert_region regions r.region r.id) rs

abbrev pub merge_regions : List RegionImage → List RegionIdMapping → List RegionIdMapping
merge_regions imgs regions = sort_regions (upsert_regions regions imgs)

-- The flavor of the source image's capabilities gets its regions, and is appended first if there
-- is none.
unfoldable pub upsert_flavor : SourceImage → List Flavor → List Flavor
unfolding capabilities_equal upsert_regions sort_regions
upsert_flavor src [] =
    record { capabilities = src.capabilities; regions = merge_regions src.regions [] } ∷ []
upsert_flavor src (f ∷ fs) =
    if capabilities_equal f.capabilities src.capabilities
    then record f { regions = merge_regions src.regions f.regions } ∷ fs
    else f ∷ upsert_flavor src fs

unfoldable pub update_entry : OpenStackProvider → SourceImage → Version → Version
unfolding upsert_flavor
update_entry p src entry =
    if p.enable_capabilities && is_some src.capabilities
    then record entry {
      regions = [];
      capability_flavors = upsert_flavor src entry.capability_flavors;
    }
    else record entry { regions = merge_regions src.regions entry.regions }

-- `image.Versions` with the index by version.
pub record Versions : Type 0 where
  pub list : List Version
  pub existing : Dict String ℕ

unfoldable pub index_versions : List Version → ℕ → Dict String ℕ → Dict String ℕ
unfolding insert
index_versions [] i existing = existing
index_versions (v ∷ vs) i existing = index_versions vs (ℕ.suc i) (insert v.version i existing)

-- The first part of a round: the entry's index, appended if there is none.
unfoldable pub ensure_entry : Versions → String → Versions × ℕ
ensure_entry s version = elim (lookup version s.existing) [
  | some idx ↦ (s, idx)
  | none ↦ (
    record {
      list = s.list ++ record { version = version; regions = []; capability_flavors = [] } ∷ [];
      existing = insert version (length s.list) s.existing;
    },
    length s.list,
  )
]

unfoldable pub write_version : OpenStackProvider → Versions → SourceImage → Versions
unfolding ensure_entry update_entry modify lookup insert
write_version p s src =
    let (s', idx) = ensure_entry s src.version in
    record s' { list = modify s'.list idx (update_entry p src) }

unfoldable pub write_versions : OpenStackProvider → List SourceImage → Image → Image
unfolding write_version index_versions
write_versions p versions image =
    let start : Versions = record {
      list = image.versions;
      existing = index_versions image.versions 0 [];
    } in
    record image { versions = (foldl (write_version p) start versions).list }

unfoldable pub update_config : OpenStackProvider → List SourceImage → Config → Config
unfolding write_versions index_func modify
update_config p versions cfg = elim (index_func (λ m. m.name == p.image_name) cfg.machine_images) [
  | some i ↦ record cfg { machine_images = modify cfg.machine_images i (write_versions p versions) }
  | none ↦ record cfg {
    machine_images =
        cfg.machine_images
        ++ write_versions p versions (record { name = p.image_name; versions = [] }) ∷ [];
  }
]

module _ (decode : RawExtension → Result Config) (encode : Config → Result RawExtension) where
  abbrev decode_or_empty : Option RawExtension → Result Config
  decode_or_empty none = ok (record { machine_images = []; rest = "" })
  decode_or_empty (some raw) = decode raw

  unfoldable pub configure :
      OpenStackProvider → Option RawExtension → List SourceImage → Result (Option RawExtension)
  unfolding update_config
  configure p provider_config versions = do
    cfg ← decode_or_empty provider_config
    raw ← encode (update_config p versions cfg)
    ok (some raw)
