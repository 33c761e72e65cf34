-- ===== src/Collection/Laws.antt =====
-- What garbage collection may remove.
use cloud_profile_sync.Common.{
  ◌≡◌, ◌≢◌, ◌↔◌, ◌⊎◌, inl, inr, String, some, true, false, List, [], ◌∷◌, ◌++◌, contains,
  contains-append, Option-cases, string_eq, arith,
}
use cloud_profile_sync.Common.Int.{◌<ℤ◌}
use cloud_profile_sync.Common.Dict.{lookup}
use cloud_profile_sync.Common.Result.{Result, ok}
use cloud_profile_sync.Gardener.{Time, Shoot, Worker}
use cloud_profile_sync.Source.{SourceImage}
use cloud_profile_sync.Keppel.{normalize_tag}
use cloud_profile_sync.Api.{ManagedCloudProfile, MachineImageUpdate}
use cloud_profile_sync.Collection.{
  Filter, keep, RegistryClient, worker_version, workers_versions, referenced_versions, build_filter,
  build_gc_filter,
}

-- An image is collected exactly if neither its tag nor its clean version is protected, and its tag
-- is known to have been pushed before the cutoff.
pub keep_iff :
    (f : Filter) (img : SourceImage)
    → (keep f img ≡ false) ↔ (
        (contains f.protected img.version ≡ false)
        × ((img.clean_version ≡ "") ⊎ (contains f.protected img.clean_version ≡ false))
        × ((pushed_at : Time) × (lookup img.version f.tags ≡ some pushed_at)
            × (pushed_at <ℤ f.cutoff)))
unfolding keep
keep_iff f img = (there, back)
  where
    there :
        keep f img ≡ false
        → (contains f.protected img.version ≡ false)
          × ((img.clean_version ≡ "") ⊎ (contains f.protected img.clean_version ≡ false))
          × ((pushed_at : Time) × (lookup img.version f.tags ≡ some pushed_at)
              × (pushed_at <ℤ f.cutoff))
    there h = elim (Option-cases (lookup img.version f.tags)) [
      | inl e ↦ absurd (ground arith)
      | inr (t, e) ↦ (ground arith, ground arith, (t, e, ground arith))
    ]

    back :
        (contains f.protected img.version ≡ false)
          × ((img.clean_version ≡ "") ⊎ (contains f.protected img.clean_version ≡ false))
          × ((pushed_at : Time) × (lookup img.version f.tags ≡ some pushed_at)
              × (pushed_at <ℤ f.cutoff))
        → keep f img ≡ false
    back (p, q, (t, e, lt)) = ground arith

abbrev uses : String → String → Worker
uses image_name v = record { image = some (record { name = image_name; version = some v }) }

contains-workers :
    (image_name v : String) (before after : List Worker)
    → contains (workers_versions image_name (before ++ uses image_name v ∷ after)) (normalize_tag v)
      ≡ true
unfolding workers_versions contains
contains-workers image_name v [] after = ground arith
contains-workers image_name v (w ∷ before) after =
    rw (contains-append (worker_version image_name w) _ (normalize_tag v))
      (ground (arith, contains-workers image_name v before after))

module _ (name image_name v : String) (workers_before workers_after : List Worker) where
  -- A shoot of the profile with a worker that runs the version.
  abbrev pub Runs : Shoot → Type 0
  Runs shoot =
      (shoot.cloud_profile ≡ some name)
      × (shoot.workers ≡ workers_before ++ uses image_name v ∷ workers_after)

  contains-referenced :
      (shoot : Shoot) (before after : List Shoot)
      → Runs shoot
      → contains (referenced_versions (before ++ shoot ∷ after) name image_name) (normalize_tag v)
        ≡ true
  unfolding referenced_versions
  contains-referenced shoot [] after (p, q) =
      rw (contains-append _ (referenced_versions after name image_name) (normalize_tag v))
        (ground (arith, contains-workers image_name v workers_before workers_after))
  contains-referenced shoot (s ∷ before) after r =
      rw
        (contains-append _ (referenced_versions (before ++ shoot ∷ after) name image_name)
          (normalize_tag v))
        (ground (arith, contains-referenced shoot before after r))

module _ (registry_provider : String → Result RegistryClient) (now : Time)
    (mcp : ManagedCloudProfile) (update : MachineImageUpdate) where
  protected_of_build :
      (shoots : List Shoot) (f : Filter)
      → build_gc_filter registry_provider now mcp shoots update ≡ ok (some f)
      → f.protected ≡ referenced_versions shoots mcp.name update.image_name
  unfolding build_gc_filter build_filter
  protected_of_build shoots f h = ground arith

  -- The filter that is built for an update keeps every image whose version, or whose clean version
  -- that is not empty, is the normalised version that a worker of a Shoot of this CloudProfile
  -- runs of this image.
  pub referenced_is_kept :
      (shoot : Shoot) (before after : List Shoot) (v : String)
      (workers_before workers_after : List Worker) (f : Filter) (img : SourceImage)
      → Runs mcp.name update.image_name v workers_before workers_after shoot
      → build_gc_filter registry_provider now mcp (before ++ shoot ∷ after) update ≡ ok (some f)
      → ((img.version ≡ normalize_tag v)
          ⊎ ((img.clean_version ≢ "") × (img.clean_version ≡ normalize_tag v)))
      → keep f img ≡ true
  unfolding keep
  referenced_is_kept shoot before after v workers_before workers_after f img r h e = ground (
    arith,
    protected_of_build (before ++ shoot ∷ after) f h,
    contains-referenced mcp.name update.image_name v workers_before workers_after shoot before after
        r,
  )
