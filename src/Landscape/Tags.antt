-- ===== src/Landscape/Tags.antt =====
-- Which tag of the landscape repository is chosen.
use Prim.Native.Nat.{Ordering}
use cloud_profile_sync.Common.{
  ◌≡◌, ◌≢◌, refl, ap, subst, String, true, false, List, [], ◌∷◌, ◌++◌, map, All, Bool-cases, ◌⊎◌,
  sym, ◌∙◌, inl, inr,
}
use cloud_profile_sync.Common.Sort.{sort_func}
use cloud_profile_sync.Common.Sort.Sorted.{
  sort_func-IsSorted, All-sort_func, All-of_sort_func, head-le-All,
}
use cloud_profile_sync.Common.Order.{IsOrder, by_key_desc-IsOrder}
use cloud_profile_sync.Common.Result.{Result, ok, err, Error, ◌>>=◌}
use cloud_profile_sync.Semver.{Semver, IsSemver}
use cloud_profile_sync.Landscape.{Repo, minor_version}
use cloud_profile_sync.Landscape.Resolution.{
  parseable, compare_tags_desc, nonempty_tags, list_semver_tags, first_tag, latest_tag,
  matches_gardener, first_match, tag_for_gardener_version,
}

module _ (repo : Repo) (S : Semver) where
  -- One of the tags matches and those before it do not, or none does.
  abbrev pub FirstOrNone : String → List String → Result String → Type 0
  FirstOrNone v tags answer =
      ((before : List String) × (t : String) × (after : List String) × (answer ≡ ok t)
        × (tags ≡ before ++ t ∷ after)
        × (matches_gardener repo S (minor_version v) t ≡ true)
        × All (λ u. matches_gardener repo S (minor_version v) u ≡ false) before)
      ⊎ (All (λ u. matches_gardener repo S (minor_version v) u ≡ false) tags
          × ((e : Error) × (answer ≡ err e)))

  first_match_cases :
      (v : String) (tags : List String) → FirstOrNone v tags (first_match repo S v tags)
  unfolding first_match
  first_match_cases v [] = inr (tt, (_, refl))
  first_match_cases v (u ∷ tags) = elim (Bool-cases (matches_gardener repo S (minor_version v) u)) [
    | inl m ↦ inl ([], u, tags, rw m refl, refl, m, tt)
    | inr m ↦ elim (first_match_cases v tags) [
      | inl (before, t, after, e, same, found, skipped) ↦
          inl (u ∷ before, t, after, rw m e, ap (◌∷◌ u) same, found, (m, skipped))
      | inr (none_of, (e, failed)) ↦ inr ((m, none_of), (e, rw m failed))
    ]
  ]

  -- Of the tags that are listed, the answer for a Gardener version is the first one that matches
  -- it, and an error if none does.
  pub tag_for_gardener_version_cases :
      (gardener_version : String) (tags : List String)
      → list_semver_tags repo S ≡ ok tags
      → FirstOrNone gardener_version tags (tag_for_gardener_version repo S gardener_version)
  unfolding tag_for_gardener_version
  tag_for_gardener_version_cases v tags h =
      subst (FirstOrNone v tags) (sym (ap (λ m. m >>= first_match repo S v) h))
        (first_match_cases v tags)

  parseable_reads :
      (tags : List String) → All (λ p. S.parse_tolerant p.0 ≡ ok p.1) (parseable repo S tags)
  unfolding parseable
  parseable_reads [] = tt
  parseable_reads (t ∷ tags) = go (S.parse_tolerant t) refl (parseable_reads tags)
    where
      go :
          (r : Result S.Version)
          → S.parse_tolerant t ≡ r
          → All (λ p. S.parse_tolerant p.0 ≡ ok p.1) (parseable repo S tags)
          → All
              (λ p. S.parse_tolerant p.0 ≡ ok p.1)
              (elim r [ err _ ↦ parseable repo S tags | ok v ↦ (t, v) ∷ parseable repo S tags ])
      go (ok v) e rest = (e, rest)
      go (err _) e rest = rest

  -- The sorted list has elements if the list has.
  sort-ne-nil :
      (ps : List (String × S.Version)) → sort_func (compare_tags_desc repo S) ps ≡ [] → ps ≡ []
  sort-ne-nil [] e = refl
  sort-ne-nil (p ∷ ps) e =
      absurd
        (All-of_sort_func (compare_tags_desc repo S) (λ _. ⊥) (p ∷ ps)
          (subst (All (λ _. ⊥)) (sym e) tt)).0

  abbrev IsTop : String → List (String × S.Version) → Type 0
  IsTop t ps =
      (v : S.Version) × (S.parse_tolerant t ≡ ok v) × All (λ p. S.compare p.1 v ≢ Ordering.gt) ps

  abbrev first_sorted : List (String × S.Version) → Result String
  first_sorted sorted = first_tag repo S (map (λ p. p.0) sorted)

  head_is_highest :
      IsSemver S
      → (ps sorted : List (String × S.Version)) → sort_func (compare_tags_desc repo S) ps ≡ sorted
      → ps ≢ []
      → All (λ p. S.parse_tolerant p.0 ≡ ok p.1) ps
      → (t : String) × (first_sorted sorted ≡ ok t) × IsTop t ps
  head_is_highest L ps [] e n reads = absurd (n (sort-ne-nil ps e))
  head_is_highest L ps ((u, v) ∷ sorted) e n reads =
      let o : IsOrder (compare_tags_desc repo S) = by_key_desc-IsOrder (λ p. p.1) L.order in
      let all =
        All-sort_func (compare_tags_desc repo S) (λ p. S.parse_tolerant p.0 ≡ ok p.1) ps reads in
      let read = subst (All (λ p. S.parse_tolerant p.0 ≡ ok p.1)) e all in
      (u, refl, (v, read.0, head-le-All _ o ps e (sort_func-IsSorted _ o ps)))

  nonempty_tags_ok :
      (ps : List (String × S.Version))
      → ps ≢ []
      → nonempty_tags repo S ps ≡ ok (map (λ p. p.0) (sort_func (compare_tags_desc repo S) ps))
  nonempty_tags_ok [] n = absurd (n refl)
  nonempty_tags_ok (p ∷ ps) n = refl

  list_semver_tags_ok :
      (tags : List String)
      → repo.tags ≡ ok tags
      → parseable repo S tags ≢ []
      → list_semver_tags repo S
        ≡ ok (map (λ p. p.0) (sort_func (compare_tags_desc repo S) (parseable repo S tags)))
  unfolding list_semver_tags parseable
  list_semver_tags_ok [] got n = absurd (n refl)
  list_semver_tags_ok (t ∷ tags) got n = rw got (nonempty_tags_ok (parseable repo S (t ∷ tags)) n)

  -- With the laws of semver, if the tags of the landscape repository can be listed and one of them
  -- can be read as a version, then there is a latest tag; it can be read, and no tag that can be
  -- read is of a higher version.
  pub latest_tag_is_highest :
      IsSemver S
      → (tags : List String) → repo.tags ≡ ok tags
      → parseable repo S tags ≢ []
      → (t : String) × (latest_tag repo S ≡ ok t)
        × ((v : S.Version) × (S.parse_tolerant t ≡ ok v)
            × All (λ p. S.compare p.1 v ≢ Ordering.gt) (parseable repo S tags))
  unfolding latest_tag
  latest_tag_is_highest L tags got n =
      let ps = parseable repo S tags in
      let (t, first, top) =
        head_is_highest L ps (sort_func (compare_tags_desc repo S) ps) refl n
          (parseable_reads tags) in
      (t, ap (λ m. m >>= first_tag repo S) (list_semver_tags_ok tags got n) ∙ first, top)
