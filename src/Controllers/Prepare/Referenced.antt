-- ===== src/Controllers/Prepare/Referenced.antt =====
-- The versions that shoots run, from the source to the list of images.
use cloud_profile_sync.Common.{
  ◌≡◌, ◌≢◌, refl, sym, ap, subst, ◌∙◌, ◌⊎◌, inl, inr, String, Option, none, some, Bool, true, false,
  List, [], ◌∷◌, ◌++◌, All, any, select, is_some, keep_some, Bool-cases, Option-cases, string_eq,
  arith,
}
use cloud_profile_sync.Common.Result.{
  Result, ok, err, wrapped, ◌>>=◌, ok_inj, wrapped-eq-ok, >>=-eq-ok, >>-eq-ok,
}
use cloud_profile_sync.Common.Sort.{sort_func}
use cloud_profile_sync.Common.Sort.Sorted.{All-of_sort_func}
use cloud_profile_sync.Indexed.{find, AreDistinct}
use cloud_profile_sync.Semver.{Semver}
use cloud_profile_sync.Gardener.{Shoot, Worker, MachineImage, RawExtension}
use cloud_profile_sync.Source.{SourceImage, Source, Provider}
use cloud_profile_sync.Api.{ManagedCloudProfile, MachineImageUpdate}
use cloud_profile_sync.Keppel.{normalize_tag}
use cloud_profile_sync.Collection.{Filter, keep, filter_images, build_gc_filter}
use cloud_profile_sync.Collection.Laws.{Runs, referenced_is_kept}
use cloud_profile_sync.Updater.{
  ImageUpdater, is_ok, validate_version, validate_image_versions, compare_images, apply_filter,
}
use cloud_profile_sync.Updater as Updater
use cloud_profile_sync.Updater.Index.{version_of}
use cloud_profile_sync.Updater.Listing.{brings, versions_named, apply_lists}
use cloud_profile_sync.Controllers.Prepare.{
  Env, select_source, select_provider, validate_min_version_for_update, filter_or_none, updater_for,
  prepare_machine_image_update,
}

any-All :
    (p : SourceImage → Bool) (xs : List SourceImage) → any p xs ≡ false → All (λ x. p x ≡ false) xs
unfolding any
any-All p [] h = tt
any-All p (x ∷ xs) h = (ground arith, any-All p xs (ground arith))

All-select :
    (p q : SourceImage → Bool)
    → ((x : SourceImage) → p x ≡ true → q x ≡ true)
    → (xs : List SourceImage) → All (λ x. p x ≡ false) (select q xs)
    → All (λ x. p x ≡ false) xs
unfolding select
All-select p q kept [] h = tt
All-select p q kept (x ∷ xs) h = elim (Bool-cases (q x)) [
  | inl e ↦
      let (here, rest) = subst (All (λ x. p x ≡ false)) (select-yes e) h in
      (here, All-select p q kept xs rest)
  | inr e ↦ (
    ground (arith, e, kept x),
    All-select p q kept xs (subst (All (λ x. p x ≡ false)) (select-no e) h),
  )
]
  where
    select-yes : q x ≡ true → select q (x ∷ xs) ≡ x ∷ select q xs
    select-yes e = ground arith

    select-no : q x ≡ false → select q (x ∷ xs) ≡ select q xs
    select-no e = ground arith

All-validate :
    (S : Semver) (P : SourceImage → Type 0) (before after : List SourceImage)
    (img img' : SourceImage)
    → validate_version S img ≡ some img'
    → All P (validate_image_versions S (before ++ img ∷ after))
    → P img'
unfolding validate_image_versions keep_some
All-validate S P [] after img img' e h =
    (subst (λ o. All P (keep_some o (validate_image_versions S after))) e h).0
All-validate S P (x ∷ before) after img img' e h = elim (Option-cases (validate_version S x)) [
  | inl f ↦
      All-validate S P before after img img' e
        (subst (λ o. All P (keep_some o (validate_image_versions S (before ++ img ∷ after)))) f h)
  | inr (y, f) ↦
      All-validate S P before after img img' e
        (subst (λ o. All P (keep_some o (validate_image_versions S (before ++ img ∷ after)))) f h).1
]

-- What succeeds is an `Apply` of some updater to what it fetched.
pub prepared_applies :
    (env : Env) (mcp : ManagedCloudProfile) (shoots : List Shoot)
    (base : List MachineImage × Option RawExtension) (update : MachineImageUpdate)
    {result : List MachineImage × Option RawExtension}
    → prepare_machine_image_update env mcp shoots base update ≡ ok result
    → (iu : ImageUpdater) × (fetched : List SourceImage) × (Updater.apply env.semver iu
          mcp.spec.cloud_profile.machine_capabilities base.0 base.1 fetched
        ≡ ok result)
unfolding prepare_machine_image_update
prepared_applies env mcp shoots base update h =
    let (source, _, h2) =
      >>=-eq-ok (select_source env update.source) _
        (>>-eq-ok (validate_min_version_for_update env update.min_version_for_update) _ h) in
    let (provider, _, h3) = >>=-eq-ok (select_provider env update) _ h2 in
    let iu = updater_for env mcp shoots update source provider in
    let (fetched, _, h4) =
      >>=-eq-ok (wrapped "fetching machine images failed: %w" [] (Updater.fetch env.semver iu)) _
        h3 in
    let defs = mcp.spec.cloud_profile.machine_capabilities in
    (
      iu,
      fetched,
      wrapped-eq-ok "applying machine images failed: %w" []
          (Updater.apply env.semver iu defs base.0 base.1 fetched) h4,
    )

module _ (env : Env) (mcp : ManagedCloudProfile) (update : MachineImageUpdate) (v : String)
    (shoot : Shoot) (before after : List Shoot) (workers_before workers_after : List Worker)
    (runs : Runs mcp.name update.image_name v workers_before workers_after shoot) where
  abbrev shoots : List Shoot
  shoots = before ++ shoot ∷ after

  -- The image brings the normalised version, as its tag or as its clean version.
  abbrev pub Brings : SourceImage → Type 0
  Brings img =
      ((img.version ≡ normalize_tag v) × (is_ok (env.semver.parse img.version) ≡ true))
      ⊎ ((env.enable_capabilities ≡ true)
          × (img.clean_version ≢ "")
          × (img.clean_version ≡ normalize_tag v))

  module _ (source : Source) (provider : Provider) where
    abbrev updater : ImageUpdater
    updater = updater_for env mcp shoots update source provider

    kept_if_brought :
        (f : Filter) (img : SourceImage)
        → build_gc_filter env.registry_provider env.now mcp shoots update ≡ ok (some f)
        → brings env.semver updater (normalize_tag v) img ≡ true
        → keep f img ≡ true
    kept_if_brought f img e b =
        referenced_is_kept env.registry_provider env.now mcp update shoot before after v
          workers_before workers_after f img runs e (named img b)
      where
        named :
            (img : SourceImage)
            → brings env.semver updater (normalize_tag v) img ≡ true
            → (img.version ≡ normalize_tag v)
              ⊎ ((img.clean_version ≢ "") × (img.clean_version ≡ normalize_tag v))
        named img b = elim (string_eq.dec img.version (normalize_tag v)) [
          | yes p ↦ inl p
          | no n ↦ inr (ground arith, ground arith)
        ]

    -- What the filter does not let through does not bring the version.
    All-before_filter :
        (imgs : List SourceImage)
        → All
            (λ x. brings env.semver updater (normalize_tag v) x ≡ false)
            (apply_filter updater.filter imgs)
        → All (λ x. brings env.semver updater (normalize_tag v) x ≡ false) imgs
    unfolding filter_images
    All-before_filter imgs =
        go (build_gc_filter env.registry_provider env.now mcp shoots update) refl
      where
        go :
            (r : Result (Option Filter))
            → build_gc_filter env.registry_provider env.now mcp shoots update ≡ r
            → All
                (λ x. brings env.semver updater (normalize_tag v) x ≡ false)
                (apply_filter (filter_or_none env r) imgs)
            → All (λ x. brings env.semver updater (normalize_tag v) x ≡ false) imgs
        go (err e) p h = h
        go (ok none) p h = h
        go (ok (some f)) p h =
            All-select (brings env.semver updater (normalize_tag v)) (keep f)
              (λ x. kept_if_brought f x p) imgs h

    fetched_brings :
        (images_before images_after : List SourceImage) (img img' : SourceImage)
        (fetched : List SourceImage)
        → validate_version env.semver img ≡ some img'
        → Brings img'
        → source ≡ ok (images_before ++ img ∷ images_after)
        → Updater.fetch env.semver updater ≡ ok fetched
        → any (brings env.semver updater (normalize_tag v)) fetched ≡ true
    unfolding Updater.fetch
    fetched_brings images_before images_after img img' fetched e b s f =
        elim (Bool-cases (any (brings env.semver updater (normalize_tag v)) fetched)) [
          | inl found ↦ found
          | inr missed ↦
              let imgs = images_before ++ img ∷ images_after in
              let valid = validate_image_versions env.semver imgs in
              let same : fetched ≡ apply_filter updater.filter (sort_func compare_images valid) =
                ok_inj (
                  sym f
                  ∙ ap
                      (λ (r : Source).
                        wrapped "failed to retrieve image versions from OCI registry: %w" [] r
                        >>= λ xs. ok (
                            apply_filter updater.filter
                              (sort_func compare_images (validate_image_versions env.semver xs))))
                      s) in
              let none_of = any-All (brings env.semver updater (normalize_tag v)) fetched missed in
              let sorted = All-before_filter (sort_func compare_images valid) (
                subst (All (λ x. brings env.semver updater (normalize_tag v) x ≡ false)) same
                  none_of) in
              let all =
                All-of_sort_func compare_images
                  (λ x. brings env.semver updater (normalize_tag v) x ≡ false) valid sorted in
              let not_this =
                All-validate env.semver (λ x. brings env.semver updater (normalize_tag v) x ≡ false)
                  images_before images_after img img' e all in
              absurd (ground (arith, not_this, b))
        ]

  -- A version that a worker of a Shoot of this CloudProfile runs, and that the source has, is
  -- listed: if the preparation of an update succeeds, and an image of the source that passes
  -- validation brings the normalised version, as its tag, if that is a version, or as its clean
  -- version, if capabilities are enabled, then the image of the update's name lists it, whatever is
  -- collected. The condition is that the versions were listed once each.
  pub referenced_is_listed :
      (images_before images_after : List SourceImage) (img img' : SourceImage)
      (base : List MachineImage × Option RawExtension)
      {result : List MachineImage × Option RawExtension}
      → select_source env update.source ≡ ok (ok (images_before ++ img ∷ images_after))
      → validate_version env.semver img ≡ some img'
      → Brings img'
      → AreDistinct version_of (versions_named update.image_name base.0)
      → prepare_machine_image_update env mcp shoots base update ≡ ok result
      → is_some (find version_of (normalize_tag v) (versions_named update.image_name result.0))
        ≡ true
  unfolding prepare_machine_image_update
  referenced_is_listed images_before images_after img img' base {result} chosen e b distinct h =
      let (source, s, h2) =
        >>=-eq-ok (select_source env update.source) _
          (>>-eq-ok (validate_min_version_for_update env update.min_version_for_update) _ h) in
      let (provider, _, h3) = >>=-eq-ok (select_provider env update) _ h2 in
      let iu = updater source provider in
      let (fetched, f, h4) =
        >>=-eq-ok (wrapped "fetching machine images failed: %w" [] (Updater.fetch env.semver iu)) _
          h3 in
      let defs = mcp.spec.cloud_profile.machine_capabilities in
      let applied =
        wrapped-eq-ok "applying machine images failed: %w" []
          (Updater.apply env.semver iu defs base.0 base.1 fetched) h4 in
      let brought =
        fetched_brings source provider images_before images_after img img' fetched e b
          (ok_inj (sym s ∙ chosen)) (wrapped-eq-ok _ _ (Updater.fetch env.semver iu) f) in
      apply_lists env.semver iu defs base.0 base.1 fetched applied distinct (normalize_tag v)
      ∙ ground (arith, brought)
