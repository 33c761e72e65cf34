-- ===== src/OciSource.antt =====
-- cloudprofilesync/ossync/source/oci/os_source.go. The registry client is a parameter: the tags it
-- lists, and for a tag the bytes of its manifest or an error. The fetches run concurrently
-- and their results come over a channel, so `get_versions` takes them in the order of arrival.
pub mod Laws
pub mod Order
use cloud_profile_sync.Workers.{Setting, Pool, Run, started}
use cloud_profile_sync.Workers.Outcome.{IsDone, answers_of}
use cloud_profile_sync.Common.{
  ◌≡◌, ℕ, String, Option, none, some, Bool, true, false, not, ◌&&◌, ◌||◌, List, [], ◌∷◌, ◌++◌, map,
  length, is_empty, contains, ◌==◌, nat_eq, string_eq, if◌then◌else◌,
}
use cloud_profile_sync.Common.Dict.{Dict, lookup, insert}
use cloud_profile_sync.Common.Text.{split, trim_space, replace_all}
use cloud_profile_sync.Common.Result.{
  Result, ok, err, Error, plain, join, wrapped, is_kind, canceled, deadline_exceeded, ◌>>=◌, ◌>>◌,
}
use cloud_profile_sync.Gardener.{Capabilities}
use cloud_profile_sync.Source.{SourceImage}
use cloud_profile_sync.Capabilities.{architecture_capability, feature_set_annotation}
use cloud_profile_sync.Api.{ImageFilter}
use cloud_profile_sync.OciRepo.{Params}

abbrev pub usi_image_feature : String
usi_image_feature = "_usi"

abbrev pub Annotations : Type 0
Annotations = Dict String String

unfoldable pub tokens : List String → List String
unfolding trim_space
tokens [] = []
tokens (f ∷ fs) = let rest = tokens fs in if trim_space f == "" then rest else trim_space f ∷ rest

-- The set is the list of its tokens.
unfoldable pub split_annotation_raw : String → List String
unfolding split tokens
split_annotation_raw raw = tokens (split raw b',')

unfoldable pub supports_in_place_update : Annotations → Bool
unfolding lookup split_annotation_raw contains
supports_in_place_update annotations = elim (lookup feature_set_annotation annotations) [
  | none ↦ false
  | some raw ↦ contains (split_annotation_raw raw) usi_image_feature
]

pub record CollectedImage : Type 0 where
  pub image : SourceImage
  pub feature_set_raw : String

-- A missing key reads as the empty text.
abbrev pub value_or_empty : String → Annotations → String
value_or_empty k annotations = elim (lookup k annotations) [ none ↦ "" | some v ↦ v ]

-- The loop over `featureToCapabilityMap`.
unfoldable pub feature_capabilities :
    Dict String String → List String → Dict String (List String) → Dict String (List String)
unfolding contains insert
feature_capabilities [] features caps = caps
feature_capabilities ((feature_set_value, capability_name) ∷ rest) features caps =
    feature_capabilities rest features (
      insert capability_name
        ((if contains features feature_set_value then "true" else "false") ∷ []) caps)

module _ (feature_to_capability_map : Dict String String) where
  unfoldable pub image_capabilities : String → String → List String → Capabilities
  unfolding feature_capabilities
  image_capabilities arch clean_version features =
      if not (is_empty feature_to_capability_map) && not (clean_version == "")
      then some (
          feature_capabilities feature_to_capability_map features
            ((architecture_capability, arch ∷ []) ∷ []))
      else none

  unfoldable pub collect_image : String → Annotations → String → CollectedImage
  unfolding image_capabilities supports_in_place_update replace_all lookup split_annotation_raw
  collect_image tag annotations arch =
      let clean_version = value_or_empty "version" annotations in
      let raw_annotation = value_or_empty feature_set_annotation annotations in
      record {
        image = record {
          version = replace_all tag b'_' "+";
          clean_version = clean_version;
          architectures = arch ∷ [];
          capabilities =
              image_capabilities arch clean_version (split_annotation_raw raw_annotation);
          support_in_place_update = supports_in_place_update annotations;
          regions = [];
          classification = none;
          expiration_date = none;
        };
        feature_set_raw = raw_annotation;
      }

  -- The calls for one tag: `fetch_reference` gives the manifest's bytes, `decode` reads its JSON.
  unfoldable pub fetch_image :
      (String → Result String) → (String → Result Annotations) → String → Result CollectedImage
  unfolding collect_image
  fetch_image fetch_reference decode tag = do
    bytes ← wrapped "tag %s: failed to fetch manifest: %w" (tag ∷ []) (fetch_reference tag)
    annotations ← wrapped "tag %s: failed to decode manifest: %w" (tag ∷ []) (decode bytes)
    elim (lookup architecture_capability annotations) [
      | none ↦ err (plain "tag %s: architecture annotation not found" (tag ∷ []))
      | some arch ↦ ok (collect_image tag annotations arch)
    ]

abbrev pub is_context_error : Error → Bool
is_context_error e = is_kind canceled e || is_kind deadline_exceeded e

pub record Collected : Type 0 where
  pub items : List CollectedImage
  pub skipped : List Error
  pub errs : List Error

-- The loop that receives; each result goes to one of the three lists.
unfoldable pub receive : Collected → List (Result CollectedImage) → Collected
unfolding is_kind
receive c [] = c
receive c (ok item ∷ rest) = receive (record c { items = c.items ++ item ∷ [] }) rest
receive c (err e ∷ rest) =
    receive
      (if is_context_error e
        then record c { errs = c.errs ++ e ∷ [] }
        else record c { skipped = c.skipped ++ e ∷ [] })
      rest

unfoldable pub passes_image_filter : List String → List String → Bool
unfolding contains
passes_image_filter raw_feature_set [] = true
passes_image_filter raw_feature_set (req ∷ reqs) =
    if contains raw_feature_set req then passes_image_filter raw_feature_set reqs else false

abbrev is_excluded : Option ImageFilter → CollectedImage → Bool
is_excluded none item = false
is_excluded (some filter) item = not (
    passes_image_filter (split_annotation_raw item.feature_set_raw)
      filter.required_feature_set_values)

unfoldable pub apply_image_filter : Option ImageFilter → List CollectedImage → List SourceImage
unfolding passes_image_filter split_annotation_raw
apply_image_filter filter [] = []
apply_image_filter filter (item ∷ items) =
    let rest = apply_image_filter filter items in
    if is_excluded filter item then rest else item.image ∷ rest

-- `errors.Join` of the errors behind the first
unfoldable pub join_errors : Error → List Error → Error
join_errors e [] = e
join_errors e (d ∷ ds) = join e (join_errors d ds)

abbrev images_or_errors : List SourceImage → List Error → Result (List SourceImage)
images_or_errors images [] = ok images
images_or_errors images (e ∷ es) = err (join_errors e es)

-- What follows the listing of the tags: the results in the order of arrival, one for each tag. The
-- callers drop the images that come beside an error.
unfoldable pub get_versions :
    Option ImageFilter → List (Result CollectedImage) → Result (List SourceImage)
unfolding receive apply_image_filter join_errors nat_eq
get_versions filter arrivals =
    let c = receive (record { items = []; skipped = []; errs = [] }) arrivals in
    let images = apply_image_filter filter c.items in
    if is_empty c.errs && is_empty images && length c.skipped == length arrivals
    then err (plain "all %d tags were skipped; possible registry issue" [])
    else images_or_errors images c.errs

-- The calls of `remote.Repository` and of the JSON decoder.
pub record Calls : Type 0 where
  pub tags : Result (List String)
  pub fetch_reference : String → Result String
  pub decode : String → Result Annotations

-- `OCI` with what its repository answers.
pub record Oci : Type 0 where
  pub repo : Calls
  pub parallel : ℕ
  pub feature_to_capability_map : Dict String String
  pub image_filter : Option ImageFilter

-- `NewOCI`; `new_repo` is `ocirepo.New` with the calls of its result.
unfoldable pub new_oci :
    (Params → Result Calls) → Params → ℕ → Dict String String → Option ImageFilter → Result Oci
new_oci new_repo params parallel feature_to_capability_map image_filter = do
  repo ← new_repo params
  ok (record {
    repo = repo;
    parallel = parallel;
    feature_to_capability_map = feature_to_capability_map;
    image_filter = image_filter;
  })

-- The error that `Acquire` returns: that of the context.
abbrev pub IsContextEnd {ℓ} : {A : Type ℓ} → Result A → Type 0
IsContextEnd (ok a) = ⊥
IsContextEnd (err e) = is_context_error e ≡ true

-- The channel has no buffer.
unfoldable pub fetching : Oci → Setting String (Result CollectedImage)
unfolding fetch_image is_kind
fetching o = record {
  parallel = o.parallel;
  capacity = 0;
  work = fetch_image o.feature_to_capability_map o.repo.fetch_reference o.repo.decode;
  IsRefusal = IsContextEnd;
}

-- What `GetVersions` may answer.
pub data GetVersions (o : Oci) (answer : Result (List SourceImage)) : Type 0 where
  unlisted : (e : Error) → o.repo.tags ≡ err e → answer ≡ err e → GetVersions o answer
  listed :
      (tags : List String) {n : ℕ} (s : Pool String (Result CollectedImage))
      → o.repo.tags ≡ ok tags
      → Run (fetching o) n (started tags) s
      → IsDone (fetching o) s
      → answer ≡ get_versions o.image_filter (answers_of (fetching o) s.received)
      → GetVersions o answer
