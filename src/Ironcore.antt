-- ===== src/Ironcore.antt =====
-- cloudprofilesync/ossync/provider/ironcore/provider.go. The JSON form of the configuration, a type
-- of gardener-extension-provider-ironcore-metal, is a pair of parameters, `decode` and `encode`.
pub mod Laws
use mathlib.Core.List.{foldl}
use cloud_profile_sync.Common.{
  ℕ, String, Option, none, some, Bool, true, false, not, ◌&&◌, List, [], ◌∷◌, ◌++◌, length, modify,
  index_func, any, is_some, ◌==◌, string_eq, if◌then◌else◌,
}
use cloud_profile_sync.Common.Dict.{Dict, lookup, insert}
use cloud_profile_sync.Common.Text.{◌<>◌}
use cloud_profile_sync.Common.Result.{Result, ok, err, ◌>>=◌}
use cloud_profile_sync.Gardener.{Capabilities, RawExtension}
use cloud_profile_sync.Source.{SourceImage}

pub record Flavor : Type 0 where
  pub image : String
  pub capabilities : Capabilities

pub record Version : Type 0 where
  pub version : String
  pub image : String
  pub architecture : Option String
  pub capability_flavors : List Flavor

pub record Image : Type 0 where
  pub name : String
  pub versions : List Version

-- `rest` is what the program does not touch.
pub record Config : Type 0 where
  pub machine_images : List Image
  pub rest : String

pub record IroncoreProvider : Type 0 where
  pub registry : String
  pub repository : String
  pub image_name : String
  pub enable_capabilities : Bool

unfoldable pub reference : IroncoreProvider → SourceImage → String
reference p src = p.registry <> "/" <> p.repository <> ":" <> src.version

abbrev is_flat_entry : String → String → Version → Bool
is_flat_entry ref arch v =
    v.image == ref && elim v.architecture [ none ↦ false | some a ↦ a == arch ]

-- One round of the loop over the architectures.
unfoldable pub write_flat : String → String → List Version → String → List Version
unfolding any
write_flat version ref versions arch =
    if any (is_flat_entry ref arch) versions
    then versions
    else versions
      ++ record {
        version = version;
        image = ref;
        architecture = some arch;
        capability_flavors = [];
      }
        ∷ []

unfoldable pub write_flavor : Flavor → Version → Version
unfolding any
write_flavor flavor v =
    if any (λ f. f.image == flavor.image) v.capability_flavors
    then v
    else record v { capability_flavors = v.capability_flavors ++ flavor ∷ [] }

-- `image.Versions` with the index by version, which flat entries do not enter.
pub record Versions : Type 0 where
  pub list : List Version
  pub existing : Dict String ℕ

unfoldable pub index_versions : List Version → ℕ → Dict String ℕ → Dict String ℕ
unfolding insert
index_versions [] i existing = existing
index_versions (v ∷ vs) i existing = index_versions vs (ℕ.suc i) (insert v.version i existing)

unfoldable pub write_clean : String → Flavor → Versions → Versions
unfolding write_flavor modify lookup insert
write_clean clean_version flavor s = elim (lookup clean_version s.existing) [
  | some idx ↦ record s { list = modify s.list idx (write_flavor flavor) }
  | none ↦ record {
    list =
        s.list
        ++ record {
          version = clean_version;
          image = "";
          architecture = none;
          capability_flavors = flavor ∷ [];
        }
          ∷ [];
    existing = insert clean_version (length s.list) s.existing;
  }
]

-- One round of the loop over the source images.
unfoldable pub write_version : IroncoreProvider → Versions → SourceImage → Versions
unfolding reference write_flat write_clean
write_version p s src =
    let ref = reference p src in
    let s' : Versions = record s {
      list = foldl (write_flat src.version ref) s.list src.architectures;
    } in
    if p.enable_capabilities
      && is_some src.capabilities
      && not (src.clean_version == "")
      && not (src.clean_version == src.version)
    then write_clean src.clean_version (record { image = ref; capabilities = src.capabilities }) s'
    else s'

unfoldable pub write_versions : IroncoreProvider → List SourceImage → Image → Image
unfolding write_version index_versions
write_versions p versions image =
    let start : Versions = record {
      list = image.versions;
      existing = index_versions image.versions 0 [];
    } in
    record image { versions = (foldl (write_version p) start versions).list }

unfoldable pub update_config : IroncoreProvider → List SourceImage → Config → Config
unfolding write_versions index_func modify
update_config p versions cfg = elim (index_func (λ m. m.name == p.image_name) cfg.machine_images) [
  | some i ↦ record cfg { machine_images = modify cfg.machine_images i (write_versions p versions) }
  | none ↦ record cfg {
    machine_images =
        cfg.machine_images
        ++ write_versions p versions (record { name = p.image_name; versions = [] }) ∷ [];
  }
]

module _ (decode : RawExtension → Result Config) (encode : Config → Result RawExtension) where
  abbrev decode_or_empty : Option RawExtension → Result Config
  decode_or_empty none = ok (record { machine_images = []; rest = "" })
  decode_or_empty (some raw) = decode raw

  unfoldable pub configure :
      IroncoreProvider → Option RawExtension → List SourceImage → Result (Option RawExtension)
  unfolding update_config
  configure p provider_config versions = do
    cfg ← decode_or_empty provider_config
    raw ← encode (update_config p versions cfg)
    ok (some raw)
