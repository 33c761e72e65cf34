-- ===== src/Glance/Gather.antt =====
-- How `GetVersions` gathers what the regions answer.
use cloud_profile_sync.Permuted.{append_assoc, append-nil}
use cloud_profile_sync.Common.{
  ◌≡◌, refl, ◌↔◌, sym, ap, ◌∙◌, String, none, some, Bool, true, false, not, List, [], ◌∷◌, ◌++◌,
  map, length, is_empty, contains, select, All, Bool-cases, inl, inr, ◌==◌, string_eq, nat_eq,
  if◌then◌else◌, arith,
}
use cloud_profile_sync.Common.Dict.{Dict, lookup, insert, lookup-insert}
use cloud_profile_sync.Common.Result.{Result, ok, err, Error, wrap}
use cloud_profile_sync.Semver.{Semver}
use cloud_profile_sync.Gardener.{Time}
use cloud_profile_sync.Source.{SourceImage, RegionImage}
use cloud_profile_sync.OciSource.{is_context_error}
use cloud_profile_sync.Glance.{Glance}
use cloud_profile_sync.Glance.Versions.{
  Gathered, entry_for, add_images, gather, filter_require_regions, finish, get_versions,
  fold_errors,
}

-- The regions that a version is listed for so far.
unfoldable pub regions_of : String → Dict String SourceImage → List RegionImage
unfolding lookup
regions_of version images = elim (lookup version images) [ none ↦ [] | some img ↦ img.regions ]

-- The regions of the images of a version.
unfoldable pub offered : String → List SourceImage → List RegionImage
offered version [] = []
offered version (img ∷ imgs) =
    let rest = offered version imgs in if version == img.version then img.regions ++ rest else rest

abbrev put_regions_entry : Gathered → SourceImage → SourceImage
put_regions_entry s img =
    let entry = entry_for s.images img in record entry { regions = entry.regions ++ img.regions }

abbrev put_regions : Gathered → SourceImage → Dict String SourceImage
put_regions s img = insert img.version (put_regions_entry s img) s.images

abbrev add_image : Gathered → SourceImage → Gathered
add_image s img = record s {
  images = put_regions s img;
  all_regions = s.all_regions ++ map (λ r. r.region) img.regions;
}

regions_of-put :
    (s : Gathered) (img : SourceImage) (version : String)
    → regions_of version (put_regions s img)
      ≡ regions_of version s.images ++ (if version == img.version then img.regions else [])
unfolding regions_of entry_for
regions_of-put s img version = ground (
  arith,
  lookup-insert version img.version (put_regions_entry s img) s.images,
  append-nil (regions_of version s.images),
)

-- After a region's answer each version is listed for the regions it had, and behind them for those
-- of the answer's images of this version, in their order.
pub add_images_regions :
    (imgs : List SourceImage) (s : Gathered) (version : String)
    → regions_of version (add_images s imgs).images
      ≡ regions_of version s.images ++ offered version imgs
unfolding add_images offered
add_images_regions [] s version = sym (append-nil _)
add_images_regions (img ∷ imgs) s version =
    add_images_regions imgs (add_image s img) version
    ∙ rw (regions_of-put s img version) (elim (Bool-cases (version == img.version)) [
      | inl e ↦ rw e (append_assoc (regions_of version s.images) img.regions (offered version imgs))
      | inr e ↦ rw e (rw (append-nil (regions_of version s.images)) refl)
    ])

abbrev pub present_in : SourceImage → List String
present_in v = map (λ r. r.region) v.regions

abbrev pub HasAll : List String → SourceImage → Type 0
HasAll baseline v = All (λ b. contains (present_in v) b ≡ true) baseline

pub missing_none :
    (present baseline : List String)
    → is_empty (select (λ region. not (contains present region)) baseline) ≡ true
      ↔ All (λ b. contains present b ≡ true) baseline
unfolding select
missing_none present [] = (λ _. tt, λ _. refl)
missing_none present (b ∷ baseline) =
    let (to, from) = missing_none present baseline in
    (
      λ h. elim (Bool-cases (contains present b)) [
        | inl e ↦ (e, to (ground arith))
        | inr e ↦ absurd (ground arith)
      ],
      λ (e, h). rw e (from h),
    )

All-trivial : (versions : List SourceImage) → All (HasAll []) versions
All-trivial [] = tt
All-trivial (v ∷ versions) = (tt, All-trivial versions)

All-select :
    (p : SourceImage → Bool) (P : SourceImage → Type 0)
    → ((v : SourceImage) → p v ≡ true → P v)
    → (versions : List SourceImage) → All P (select p versions)
unfolding select
All-select p P h [] = tt
All-select p P h (v ∷ versions) = elim (Bool-cases (p v)) [
  | inl e ↦ rw e (h v e, All-select p P h versions)
  | inr e ↦ rw e (All-select p P h versions)
]

select-All :
    (p : SourceImage → Bool) (P : SourceImage → Type 0)
    → ((v : SourceImage) → P v → p v ≡ true)
    → (versions : List SourceImage) → All P versions
    → select p versions ≡ versions
unfolding select
select-All p P h [] _ = refl
select-All p P h (v ∷ versions) (q, qs) = rw (h v q) (ap (◌∷◌ v) (select-All p P h versions qs))

-- Each version that is kept is in every region of the baseline, and if all versions are, none is
-- dropped.
pub filter_require_regions-All :
    (versions : List SourceImage) (baseline : List String)
    → All (HasAll baseline) (filter_require_regions versions baseline)
      × (All (HasAll baseline) versions → filter_require_regions versions baseline ≡ versions)
unfolding filter_require_regions
filter_require_regions-All versions [] = (All-trivial versions, λ _. refl)
filter_require_regions-All versions (b ∷ baseline) = (
  All-select _ (HasAll (b ∷ baseline)) (λ v. (missing_none (present_in v) (b ∷ baseline)).0)
      versions,
  select-All _ (HasAll (b ∷ baseline)) (λ v. (missing_none (present_in v) (b ∷ baseline)).1)
      versions,
)

gather_failed :
    (errors : List Error) (s : Gathered)
    → All (λ e. is_context_error e ≡ false) errors
    → gather s (map err errors) ≡ ok (record s { skipped = s.skipped ++ errors })
unfolding gather
gather_failed [] s h = rw (append-nil s.skipped) refl
gather_failed (e ∷ errors) s (h, hs) = rw h (
    gather_failed errors (record s { skipped = s.skipped ++ e ∷ [] }) hs
    ∙ rw (append_assoc s.skipped (e ∷ []) errors) refl)

abbrev nothing : Gathered
nothing = record { images = []; all_regions = []; skipped = [] }

-- An answer that is not the end of a context.
abbrev pub GoesOn : Result (List SourceImage) → Type 0
GoesOn (ok _) = Unit {0}
GoesOn (err d) = is_context_error d ≡ false

gather-context :
    (before after : List (Result (List SourceImage))) (e : Error) (s : Gathered)
    → All GoesOn before
    → is_context_error e ≡ true
    → gather s (before ++ err e ∷ after) ≡ err e
unfolding gather
gather-context [] after e s h c = rw c refl
gather-context (ok imgs ∷ before) after e s (_, h) c =
    gather-context before after e (add_images s imgs) h c
gather-context (err d ∷ before) after e s (g, h) c =
    rw g (gather-context before after e (record s { skipped = s.skipped ++ d ∷ [] }) h c)

finish_failed :
    (S : Semver) (g : Glance) (now : Time) (errors : List Error)
    → length errors ≡ length g.params.regions
    → finish S g now (record nothing { skipped = errors })
      ≡ some (err (wrap "all %d regions failed: %w" [] (fold_errors errors)))
unfolding finish
finish_failed S g now errors e =
    let same : (length errors == length g.params.regions) ≡ true = ground (arith, e) in rw same refl

-- If the answers are errors, as many as there are regions and none of them the end of a context,
-- then the answer of the whole is an error that joins them.
pub get_versions_failed :
    (S : Semver) (g : Glance) (now : Time) (errors : List Error)
    → All (λ e. is_context_error e ≡ false) errors
    → length errors ≡ length g.params.regions
    → get_versions S g now (map err errors)
      ≡ some (err (wrap "all %d regions failed: %w" [] (fold_errors errors)))
unfolding get_versions finish
get_versions_failed S g now errors h e =
    rw (get_versions, gather_failed errors nothing h) (finish_failed S g now errors e)

-- The first answer that is the end of a context is the error of the whole, whatever comes behind
-- it.
pub context_ends :
    (S : Semver) (g : Glance) (now : Time) (before after : List (Result (List SourceImage)))
    (e : Error)
    → All GoesOn before
    → is_context_error e ≡ true
    → get_versions S g now (before ++ err e ∷ after) ≡ some (err e)
unfolding get_versions
context_ends S g now before after e h c =
    rw (get_versions, gather-context before after e nothing h c) refl
