-- ===== src/Glance/Versions.antt =====
-- `GetVersions` of cloudprofilesync/ossync/source/glance/os_source.go. The regions are queried
-- concurrently and answer over a channel, so `get_versions` takes their answers in the order of
-- arrival.
use Prim.Native.Nat.{◌^◌, ◌%◌}
use cloud_profile_sync.Common.{
  ℕ, zero, suc, ◌+◌, ◌-◌, min, String, Option, none, some, false, not, ◌&&◌, ◌||◌, List, [], ◌∷◌,
  ◌++◌, map, length, is_empty, contains, select, take, drop, modify, ltb, leb, ◌==◌, nat_eq,
  string_eq, if◌then◌else◌,
}
use cloud_profile_sync.Common.Int.{ℤ, pos, negsuc, ltb_ℤ}
use cloud_profile_sync.Common.Dict.{Dict, lookup, insert}
use cloud_profile_sync.Common.Sort.{sort_func}
use cloud_profile_sync.Common.Result.{Result, ok, err, Error, plain, wrap, is_kind}
use cloud_profile_sync.Semver.{Semver}
use cloud_profile_sync.Gardener.{Time, supported, deprecated}
use cloud_profile_sync.Source.{SourceImage}
use cloud_profile_sync.OciSource.{is_context_error, join_errors}
use cloud_profile_sync.Glance.{Glance, compare_semver_desc}
use cloud_profile_sync.OciSource.{IsContextEnd}
use cloud_profile_sync.Workers.{Setting}

-- What the receiving loop of `GetVersions` builds up; a set is the list of what was added.
pub record Gathered : Type 0 where
  pub images : Dict String SourceImage
  pub all_regions : List String
  pub skipped : List Error

unfoldable pub entry_for : Dict String SourceImage → SourceImage → SourceImage
unfolding lookup
entry_for images img = elim (lookup img.version images) [
  | some entry ↦ entry
  | none ↦ record img {
    support_in_place_update = false;
    regions = [];
    classification = none;
    expiration_date = none;
  }
]

unfoldable pub add_images : Gathered → List SourceImage → Gathered
unfolding entry_for insert
add_images s [] = s
add_images s (img ∷ imgs) =
    let entry = entry_for s.images img in
    add_images
      (record s {
        images =
            insert img.version (record entry { regions = entry.regions ++ img.regions }) s.images;
        all_regions = s.all_regions ++ map (λ r. r.region) img.regions;
      })
      imgs

-- A context's end stops the loop with its error.
unfoldable pub gather : Gathered → List (Result (List SourceImage)) → Result Gathered
unfolding add_images is_kind
gather s [] = ok s
gather s (ok found ∷ rest) = gather (add_images s found) rest
gather s (err e ∷ rest) =
    let next = gather (record s { skipped = s.skipped ++ e ∷ [] }) rest in
    if is_context_error e then err e else next

unfoldable pub filter_require_regions : List SourceImage → List String → List SourceImage
unfolding select contains
filter_require_regions versions [] = versions
filter_require_regions versions (b ∷ baseline) =
    select
      (λ v.
        let present = map (λ r. r.region) v.regions in
        is_empty (select (λ region. not (contains present region)) (b ∷ baseline)))
      versions

-- The bound of `int` on the platforms that the program is built for.
abbrev pub int_bound : ℕ
int_bound = 2 ^ 63

-- A sum of two numbers that are not negative, in an `int`.
abbrev pub wrap_int : ℕ → ℤ
wrap_int n = let m = n % 2 ^ 64 in if ltb m int_bound then pos m else negsuc (2 ^ 64 - 1 - m)

-- `min(a, len(versions))`
abbrev pub min_int : ℤ → ℕ → ℤ
min_int (pos a) len = pos (min a len)
min_int (negsuc a) len = negsuc a

-- `hi`
abbrev pub slice_end : ℕ → ℤ → ℕ → ℤ
slice_end lo (negsuc k) len = pos len
slice_end lo (pos zero) len = pos len
slice_end lo (pos (suc k)) len = min_int (wrap_int (lo + suc k)) len

-- `versions[lo:hi]` for a `hi` of at most the length: none is a panic.
abbrev pub slice {ℓ} : {A : Type ℓ} → ℕ → ℤ → List A → Option (List A)
slice lo (negsuc k) versions = none
slice lo (pos hi) versions = if leb lo hi then some (take (hi - lo) (drop lo versions)) else none

abbrev slice_window {ℓ} : {A : Type ℓ} → ℤ → ℕ → List A → Option (List A)
slice_window keep_latest lo versions =
    slice lo (slice_end lo keep_latest (length versions)) versions

unfoldable pub window {ℓ} : {A : Type ℓ} → ℤ → ℕ → List A → Option (List A)
unfolding take drop
window keep_latest offset versions =
    if ltb_ℤ (pos 0) keep_latest || ltb 0 offset
    then slice_window keep_latest (min offset (length versions)) versions
    else some versions

unfoldable pub classify_supported : SourceImage → SourceImage
classify_supported v = record v { classification = some supported }

unfoldable pub classify_last : Time → SourceImage → SourceImage
classify_last now v = record v {
  classification = some deprecated;
  expiration_date = elim v.expiration_date [ none ↦ some now | some t ↦ some t ];
}

unfoldable pub classify : Time → List SourceImage → List SourceImage
unfolding classify_supported classify_last modify
classify now versions =
    let all = map classify_supported versions in modify all (length all - 1) (classify_last now)

abbrev pub fold_errors : List Error → Error
fold_errors [] = plain "" []
fold_errors (e ∷ es) = join_errors e es

-- What follows the receiving loop; none is a panic.
unfoldable pub finish : Semver → Glance → Time → Gathered → Option (Result (List SourceImage))
unfolding filter_require_regions compare_semver_desc sort_func window classify nat_eq
finish S g now s =
    if is_empty s.images && length s.skipped == length g.params.regions
    then some (err (wrap "all %d regions failed: %w" [] (fold_errors s.skipped)))
    else let versions = map (λ (_, img). img) s.images in
      let kept =
        if g.params.require_all_regions
        then filter_require_regions versions s.all_regions
        else versions in
      let by_version = λ (a b : SourceImage). compare_semver_desc S a.version b.version in
      elim (window g.keep_latest g.offset (sort_func by_version kept)) [
        | none ↦ none
        | some shown ↦ some (ok (classify now shown))
      ]

unfoldable pub get_versions :
    Semver → Glance → Time → List (Result (List SourceImage)) → Option (Result (List SourceImage))
unfolding gather finish
get_versions S g now arrivals =
    elim (gather (record { images = []; all_regions = []; skipped = [] }) arrivals) [
      | err e ↦ some (err e)
      | ok s ↦ finish S g now s
    ]

-- The channel has room for all regions.
unfoldable pub querying :
    Glance → (String → Result (List SourceImage)) → Setting String (Result (List SourceImage))
unfolding is_kind
querying g discover = record {
  parallel = g.parallel;
  capacity = length g.params.regions;
  work = discover;
  IsRefusal = IsContextEnd;
}
