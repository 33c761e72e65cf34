-- ===== src/Glance/Written.antt =====
-- What OpenStack's configuration gets of the regions' answers.
use cloud_profile_sync.Common.{
  ℕ, ◌+◌, ◌≤◌, ◌≡◌, refl, sym, ap, ◌∙◌, String, none, List, [], ◌∷◌, ◌++◌, map, All, Option-cases,
  Bool-cases, inl, inr, ◌⊎◌, ◌==◌, string_eq, if◌then◌else◌, arith,
}
use cloud_profile_sync.Common.Dict.{Dict, lookup, NodupKeys, insert-NodupKeys}
use cloud_profile_sync.Common.Result.{
  Error, ok_inj, >>=-eq-ok, Result-cases, Result, ok, err, wrapped,
}
use cloud_profile_sync.Semver.{Semver}
use cloud_profile_sync.Source.{SourceImage}
use cloud_profile_sync.Workers.{weigh, Pool, Run, started}
use cloud_profile_sync.Workers.Outcome.{IsDone, answers_of}
use cloud_profile_sync.Openstack.{RegionIdMapping, merge_regions}
use cloud_profile_sync.Openstack.Order.{
  AreOnce, AreGivenOnce, given, weigh-Permᴰ, merge_regions-perm,
}
use cloud_profile_sync.Glance.{
  Glance, GlanceImage, AuthOptions, parse_version, keep_preferred, prefer_image, canonical_images,
  region_image, discover_region, auth_options,
}
use cloud_profile_sync.Glance.Versions.{Gathered, gather, querying}
use cloud_profile_sync.Glance.Gather.{regions_of, offered, GoesOn}
use cloud_profile_sync.Glance.Order.{
  nothing, concurrent_regions, collect, offers, collect-Permᴰ, gather-All, arrivals-Permᴰ,
}

weigh-append {ℓ} :
    {A : Type ℓ} (f : A → ℕ) (xs ys : List A) → weigh f (xs ++ ys) ≡ weigh f xs + weigh f ys
weigh-append f [] ys = omega arith
weigh-append f (x ∷ xs) ys = omega (arith, weigh-append f xs ys)

regions_of_nothing :
    (k : String) (arrivals : List (Result (List SourceImage)))
    → regions_of k nothing.images ++ collect (offers k) arrivals ≡ collect (offers k) arrivals
unfolding regions_of
regions_of_nothing k arrivals = refl

module _ (S : Semver) (g : Glance) where
  keep_preferred-NodupKeys :
      (version : String) (img : GlanceImage) (canonical : Dict String GlanceImage)
      → NodupKeys canonical
      → NodupKeys (keep_preferred S version img canonical)
  keep_preferred-NodupKeys version img canonical h =
      elim (Option-cases (lookup version canonical)) [
        | inl e ↦ rw (keep_preferred, e) (insert-NodupKeys version img canonical h)
        | inr (cur, e) ↦ elim (Bool-cases (prefer_image img cur)) [
          | inl p ↦ rw (keep_preferred, e) (rw p (insert-NodupKeys version img canonical h))
          | inr p ↦ rw (keep_preferred, e) (rw p h)
        ]
      ]

  canonical-NodupKeys :
      (imgs : List GlanceImage) (canonical : Dict String GlanceImage)
      → NodupKeys canonical
      → NodupKeys (canonical_images S g imgs canonical)
  unfolding canonical_images
  canonical-NodupKeys [] canonical h = h
  canonical-NodupKeys (img ∷ imgs) canonical h = elim (Option-cases (parse_version S g img.name)) [
    | inl e ↦ rw e (canonical-NodupKeys imgs canonical h)
    | inr (version, e) ↦ rw e (
        canonical-NodupKeys imgs (keep_preferred S version img canonical)
          (keep_preferred-NodupKeys version img canonical h))
  ]

  abbrev same : String → String → ℕ
  same n r = if r == n then 1 else 0

  offered-none :
      (k r n : String) (images : Dict String GlanceImage)
      → lookup k images ≡ none
      → offered k (map (region_image S r) images) ≡ []
  unfolding offered lookup region_image
  offered-none k r n [] h = refl
  offered-none k r n ((j, img) ∷ images) h = ground (arith, h, offered-none k r n images)

  offered_once :
      (k r n : String) (images : Dict String GlanceImage)
      → NodupKeys images
      → weigh (given n) (offered k (map (region_image S r) images)) ≤ same n r
  unfolding offered region_image
  offered_once k r n [] h = omega arith
  offered_once k r n ((j, img) ∷ images) (fresh, h) = elim (string_eq.dec k j) [
    | yes e ↦
        let rest = offered-none k r n images (ap (λ i. lookup i images) e ∙ fresh) in
        ground (arith, e, ap (weigh (given n)) rest)
    | no d ↦ ground (arith, d, offered_once k r n images h)
  ]

  module _ {Client : Type 0} (sprintf : String → String → String)
      (authenticate : String → AuthOptions → Result Client)
      (list_images : Client → String → Result (List GlanceImage)) where
    abbrev pub discover : String → Result (List SourceImage)
    discover = discover_region S sprintf authenticate list_images g

    pub discovered :
        (r : String)
        → ((e : Error) × (discover r ≡ err e))
          ⊎ ((images : Dict String GlanceImage) × NodupKeys images
              × (discover r ≡ ok (map (region_image S r) images)))
    unfolding discover_region
    discovered r = elim (Result-cases (discover r)) [
      | inl failed ↦ inl failed
      | inr (found, p) ↦
          let (provider, _, h) =
            >>=-eq-ok
              (wrapped "region %s: authenticate: %w" (r ∷ [])
                (authenticate (sprintf g.params.auth_url_format r) (auth_options g.params)))
              _ p in
          let (imgs, _, last) =
            >>=-eq-ok (wrapped "region %s: list images: %w" (r ∷ []) (list_images provider r)) _
              h in
          inr (canonical_images S g imgs [], canonical-NodupKeys imgs [] tt, p ∙ sym last)
    ]

    region_once : (k r n : String) → weigh (given n) (offers k (discover r)) ≤ same n r
    unfolding offers
    region_once k r n = elim (discovered r) [
      | inl (e, p) ↦ rw p (omega arith)
      | inr (images, h, p) ↦ rw p (offered_once k r n images h)
    ]

    regions_once :
        (k n : String) (rs : List String)
        → weigh (given n) (collect (offers k) (map discover rs)) ≤ weigh (same n) rs
    regions_once k n [] = omega arith
    regions_once k n (r ∷ rs) = omega (
      arith,
      weigh-append (given n) (offers k (discover r)) (collect (offers k) (map discover rs)),
      region_once k r n,
      regions_once k n rs,
    )

    -- Whatever the schedule of the goroutines, if no answer is the end of a context and no region
    -- is configured twice, then the provider for OpenStack writes the same regions for each version
    -- as if one region were queried after the other, into an entry that has no region twice.
    pub concurrent_entries :
        ((n : String) → weigh (same n) g.params.regions ≤ 1)
        → {n : ℕ} (s : Pool String (Result (List SourceImage)))
        → Run (querying g discover) n (started g.params.regions) s
        → IsDone (querying g discover) s
        → All GoesOn (answers_of (querying g discover) s.received)
        → (c : Gathered) × (q : Gathered) × (gather nothing
              (answers_of (querying g discover) s.received)
            ≡ ok c)
          × (gather nothing (map discover g.params.regions) ≡ ok q)
          × ((k : String) (entry : List RegionIdMapping)
              → AreOnce entry
              → merge_regions (regions_of k c.images) entry
                ≡ merge_regions (regions_of k q.images) entry)
    concurrent_entries distinct s r d h =
        let (c, q, e, f, (regions, _, _)) = concurrent_regions g discover s r d h in
        let arrivals = answers_of (querying g discover) s.received in
        let (t, found, (of_version, _, _)) = gather-All arrivals nothing h in
        let given_once : (k : String) → AreGivenOnce (regions_of k c.images) = λ k n. omega (
          arith,
          ap (λ (u : Gathered). weigh (given n) (regions_of k u.images)) (ok_inj (sym e ∙ found)),
          ap (weigh (given n)) (of_version k ∙ regions_of_nothing k arrivals),
          weigh-Permᴰ (given n) _ _
              (collect-Permᴰ (offers k) _ _ (arrivals-Permᴰ g discover s r d h)),
          regions_once k n g.params.regions,
          distinct n,
        ) in
        (
          c,
          q,
          e,
          f,
          λ k entry once.
              merge_regions-perm (regions_of k c.images) (regions_of k q.images) entry (regions k)
                (given_once k) once,
        )
