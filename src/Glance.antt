-- ===== src/Glance.antt =====
-- cloudprofilesync/ossync/source/glance/os_source.go. The two functions that the source calls are
-- parameters, `authenticate` and `list_images`; Glance/Client has their defaults.
pub mod Versions
pub mod Window
pub mod Gather
pub mod Order
pub mod Names
pub mod Canonical
pub mod Written
pub mod Ordered
pub mod Entries
pub mod Kept
pub mod Same
pub mod Shown
pub mod Required
pub mod Client
use Prim.Native.Nat.{Ordering, ◌^◌}
use cloud_profile_sync.Common.{
  ℕ, zero, suc, ◌+◌, ◌-◌, min, String, Option, none, some, Bool, true, false, not, ◌&&◌, ◌||◌, List,
  [], ◌∷◌, ◌++◌, map, length, is_empty, contains, select, take, drop, modify, ltb, ◌==◌, nat_eq,
  string_eq, if◌then◌else◌,
}
use cloud_profile_sync.Common.Int.{ℤ, pos, negsuc, pos_part, ltb_ℤ}
use cloud_profile_sync.Common.Dict.{Dict, lookup, insert}
use cloud_profile_sync.Common.Order.{compare_text}
use cloud_profile_sync.Common.Text.{cut_prefix, before_last, has_text}
use cloud_profile_sync.Common.Sort.{sort_func}
use cloud_profile_sync.Common.Result.{
  Result, ok, err, Error, plain, wrap, join, wrapped, is_kind, canceled, deadline_exceeded, ◌>>=◌,
}
use cloud_profile_sync.Semver.{Semver}
use cloud_profile_sync.Gardener.{Time, supported, deprecated}
use cloud_profile_sync.Source.{SourceImage, RegionImage}
use cloud_profile_sync.Capabilities.{architecture_capability}
use cloud_profile_sync.OciSource.{is_context_error, join_errors}

abbrev pub default_name_prefix : String
default_name_prefix = "gardenlinux-openstack-gardener_prod-amd64-"

pub record GlanceParams : Type 0 where
  pub auth_url_format : String
  pub regions : List String
  pub name_prefix : String
  pub keep_latest : ℤ
  pub parallel : ℤ
  pub version_offset : ℤ
  pub excluded_suffixes : List String
  pub require_all_regions : Bool
  pub project_name : String
  pub project_domain_name : String
  pub username : String
  pub user_domain_name : String
  pub password : String

-- Without the log and the two calls, which `discover_region` takes. The offset is never negative,
-- and `parallel`, the semaphore's weight, always positive.
pub record Glance : Type 0 where
  pub params : GlanceParams
  pub name_prefix : String
  pub keep_latest : ℤ
  pub offset : ℕ
  pub parallel : ℕ

abbrev is_zero : ℤ → Bool
is_zero (pos n) = n == 0
is_zero (negsuc n) = false

unfoldable pub new_glance : GlanceParams → Result Glance
unfolding nat_eq
new_glance params =
    if params.auth_url_format == ""
    then err (plain "glance: authURLFormat is required" [])
    else if is_empty params.regions
    then err (plain "glance: at least one region is required" [])
    else ok (record {
      params = params;
      name_prefix = if params.name_prefix == "" then default_name_prefix else params.name_prefix;
      keep_latest = if is_zero params.keep_latest then pos 3 else params.keep_latest;
      offset = pos_part params.version_offset;
      parallel = if ltb_ℤ (pos 0) params.parallel then pos_part params.parallel else 8;
    })

-- The fields of `gophercloud.AuthOptions` that the program sets, its scope's among them.
pub record AuthOptions : Type 0 where
  pub identity_endpoint : String
  pub username : String
  pub password : String
  pub domain_name : String
  pub allow_reauth : Bool
  pub scope_project_name : String
  pub scope_domain_name : String

unfoldable pub auth_options : GlanceParams → AuthOptions
auth_options params = record {
  identity_endpoint = "";
  username = params.username;
  password = params.password;
  domain_name = params.user_domain_name;
  allow_reauth = true;
  scope_project_name = params.project_name;
  scope_domain_name = params.project_domain_name;
}

-- `images.Image`, with whether its status is active.
pub record GlanceImage : Type 0 where
  pub name : String
  pub is_active : Bool
  pub created_at : Time
  pub id : String

-- `bool != bool`
abbrev differ : Bool → Bool → Bool
differ true b = not b
differ false b = b

unfoldable pub prefer_image : GlanceImage → GlanceImage → Bool
unfolding compare_text
prefer_image candidate current =
    if differ candidate.is_active current.is_active
    then candidate.is_active
    else if ltb_ℤ current.created_at candidate.created_at
    then true
    else if ltb_ℤ candidate.created_at current.created_at
    then false
    else elim (compare_text candidate.id current.id) [ Ordering.gt ↦ true | _ ↦ false ]

unfoldable pub is_excluded : List String → String → Bool
unfolding has_text
is_excluded [] name = false
is_excluded (skip ∷ skips) name = if has_text name skip then true else is_excluded skips name

module _ (S : Semver) where
  unfoldable pub compare_semver_desc : String → String → Ordering
  unfolding compare_text
  compare_semver_desc a b = elim (S.parse_tolerant a) [
    | err _ ↦ elim (S.parse_tolerant b) [ err _ ↦ compare_text a b | ok _ ↦ Ordering.gt ]
    | ok av ↦ elim (S.parse_tolerant b) [ err _ ↦ Ordering.lt | ok bv ↦ S.compare bv av ]
  ]

  abbrev parse_raw : String → Option String
  parse_raw raw = elim (S.parse_tolerant raw) [ err _ ↦ none | ok parsed ↦ some (S.string parsed) ]

  -- The part before the last dash, unless that part is empty.
  abbrev parse_rest : Option String → Option String
  parse_rest none = none
  parse_rest (some String.[]) = none
  parse_rest (some (String.◌∷◌ c raw)) = parse_raw (String.◌∷◌ c raw)

  unfoldable pub parse_version : Glance → String → Option String
  unfolding is_excluded cut_prefix before_last
  parse_version g name =
      if is_excluded g.params.excluded_suffixes name
      then none
      else elim (cut_prefix name g.name_prefix) [
        | none ↦ none
        | some rest ↦ parse_rest (before_last rest b'-')
      ]

  abbrev keep_preferred : String → GlanceImage → Dict String GlanceImage → Dict String GlanceImage
  keep_preferred version img canonical = elim (lookup version canonical) [
    | none ↦ insert version img canonical
    | some cur ↦ if prefer_image img cur then insert version img canonical else canonical
  ]

  -- One canonical image for each version.
  unfoldable pub canonical_images :
      Glance → List GlanceImage → Dict String GlanceImage → Dict String GlanceImage
  unfolding parse_version prefer_image lookup insert
  canonical_images g [] canonical = canonical
  canonical_images g (img ∷ imgs) canonical =
      canonical_images g imgs (elim (parse_version g img.name) [
        | none ↦ canonical
        | some version ↦ keep_preferred version img canonical
      ])

  unfoldable pub region_image : String → String × GlanceImage → SourceImage
  region_image region (version, img) = record {
    version = version;
    clean_version = version;
    architectures = "amd64" ∷ [];
    capabilities = some ((architecture_capability, "amd64" ∷ []) ∷ []);
    support_in_place_update = false;
    regions = record { region = region; id = img.id } ∷ [];
    classification = none;
    expiration_date = none;
  }

  module _ {Client : Type 0} (sprintf : String → String → String)
      (authenticate : String → AuthOptions → Result Client)
      (list_images : Client → String → Result (List GlanceImage)) where
    unfoldable pub discover_region : Glance → String → Result (List SourceImage)
    unfolding canonical_images region_image auth_options
    discover_region g region = do
      provider ←
          wrapped "region %s: authenticate: %w" (region ∷ [])
            (authenticate (sprintf g.params.auth_url_format region) (auth_options g.params))
      imgs ← wrapped "region %s: list images: %w" (region ∷ []) (list_images provider region)
      ok (map (region_image region) (canonical_images g imgs []))
