-- ===== src/Landscape/Versions.antt =====
-- The Kubernetes versions that `FetchVersions` of landscape_source.go returns.
use cloud_profile_sync.Common.{
  ◌≡◌, refl, sym, ap, ◌∙◌, String, Option, some, Bool, false, ◌&&◌, List, [], ◌∷◌, map, select,
  contains, any, is_empty, Bool-cases, inl, inr, ◌==◌, string_eq, arith,
}
use cloud_profile_sync.Common.Result.{wrapped-eq-ok, ok, wrapped, ◌>>=◌, >>=-eq-ok, ok_inj}
use cloud_profile_sync.Semver.{Semver}
use cloud_profile_sync.Gardener.{ExpirableVersion}
use cloud_profile_sync.Indexed.{find}
use cloud_profile_sync.Landscape.{
  Repo, Resource, ComponentDescriptor, ProviderVersions, to_expirable, fetch_component_descriptor,
  fetch_supported_versions, find_versions_blob, fetch_kubernetes_versions_blob, find_provider,
  parse_provider_versions, fetch_classification, kube_api_server_resource_name,
}
use cloud_profile_sync.Landscape.Resolution.{resolve_tag, fetch_versions}

-- Whether a descriptor has the API server of a version.
abbrev pub has_api_server : ComponentDescriptor → String → Bool
has_api_server cd version =
    any (λ (res : Resource). res.name == kube_api_server_resource_name && res.version == version)
      cd.resources

contains-api_servers :
    (resources : List Resource) (version : String)
    → contains
        (map
          (λ res. res.version)
          (select (λ res. res.name == kube_api_server_resource_name) resources))
        version
      ≡ any
          (λ (res : Resource). res.name == kube_api_server_resource_name && res.version == version)
          resources
unfolding contains select any
contains-api_servers [] version = refl
contains-api_servers (res ∷ resources) version =
    ground (arith, contains-api_servers resources version)

select-ext {ℓ} :
    {A : Type ℓ} (p q : A → Bool)
    → ((x : A) → p x ≡ q x)
    → (xs : List A) → select p xs ≡ select q xs
unfolding select
select-ext p q e [] = refl
select-ext p q e (x ∷ xs) = ground (arith, e x, select-ext p q e xs)

abbrev pub provider_name : ProviderVersions → String
provider_name p = p.name

find_provider_sound :
    (provider : String) (ps : List ProviderVersions) (vs : List ExpirableVersion) (repo : Repo)
    → find_provider repo provider ps ≡ ok vs
    → (p : ProviderVersions) × (find provider_name provider ps ≡ some p)
      × (is_empty p.versions ≡ false)
      × (vs ≡ map (to_expirable repo) p.versions)
unfolding find_provider find
find_provider_sound provider [] vs repo h = absurd (ground (arith, h))
find_provider_sound provider (p ∷ ps) vs repo h = elim (string_eq.dec p.name provider) [
  | yes e ↦ elim (Bool-cases (is_empty p.versions)) [
    | inl bad ↦ absurd (ground (arith, h, e, bad))
    | inr some_version ↦ (p, ground (arith, e), some_version, ground (arith, h, e, some_version))
  ]
  | no n ↦
      let (q, f, g, same) = find_provider_sound provider ps vs repo (ground (arith, h, n)) in
      (q, ground (arith, f, n), g, same)
]

module _ (repo : Repo) (S : Semver) (provider : String) where
  -- Where the versions of a tag come from.
  abbrev pub Source : String → List ExpirableVersion → Type 0
  Source tag vs =
      (cd : ComponentDescriptor) × (raw : String) × (providers : List ProviderVersions)
      × (p : ProviderVersions) × (fetch_component_descriptor repo tag ≡ ok cd)
      × (find_versions_blob repo tag cd.resources ≡ ok raw)
      × (repo.decode_versions raw ≡ ok providers)
      × (find provider_name provider providers ≡ some p)
      × (is_empty p.versions ≡ false)
      × (vs ≡ select (λ v. has_api_server cd v.version) (map (to_expirable repo) p.versions))

  classified :
      (tag : String) (vs : List ExpirableVersion)
      → fetch_classification repo provider tag ≡ ok vs
      → (cd : ComponentDescriptor) × (raw : String) × (providers : List ProviderVersions)
        × (fetch_component_descriptor repo tag ≡ ok cd)
        × (find_versions_blob repo tag cd.resources ≡ ok raw)
        × (repo.decode_versions raw ≡ ok providers)
        × (find_provider repo provider providers ≡ ok vs)
  unfolding fetch_classification fetch_kubernetes_versions_blob parse_provider_versions
  classified tag vs h = elim (string_eq.dec provider "") [
    | yes e ↦ absurd (ground (arith, h, e))
    | no n ↦
        let body : (wrapped "fetching kubernetes versions blob: %w" []
                (fetch_kubernetes_versions_blob repo tag)
              >>= λ raw. parse_provider_versions repo raw provider)
            ≡ ok vs =
          ground (arith, h, n) in
        let (raw, e, rest) =
          >>=-eq-ok
            (wrapped "fetching kubernetes versions blob: %w" []
              (fetch_kubernetes_versions_blob repo tag))
            _ body in
        let blob = wrapped-eq-ok _ _ (fetch_kubernetes_versions_blob repo tag) e in
        let (cd, f, found) =
          >>=-eq-ok
            (wrapped "fetching component descriptor: %w" [] (fetch_component_descriptor repo tag)) _
            blob in
        let (providers, g, last) =
          >>=-eq-ok (wrapped "parsing versions file: %w" [] (repo.decode_versions raw)) _ rest in
        (
          cd,
          raw,
          providers,
          wrapped-eq-ok _ _ (fetch_component_descriptor repo tag) f,
          found,
          wrapped-eq-ok _ _ (repo.decode_versions raw) g,
          last,
        )
  ]

  -- If `FetchVersions` succeeds, then for the tag that the Gardener version resolves to, the
  -- descriptor can be had, the blob that it names has an entry of the provider that is not empty,
  -- and the answer is those of the entry's versions, in their order, for which the descriptor has
  -- an API server of just this version.
  pub fetch_versions_source :
      (gardener_version : Option String) (vs : List ExpirableVersion)
      → fetch_versions repo S provider gardener_version ≡ ok vs
      → (tag : String) × (resolve_tag repo S gardener_version ≡ ok tag) × Source tag vs
  unfolding fetch_versions fetch_supported_versions
  fetch_versions_source gardener_version vs h =
      let (tag, e, h1) = >>=-eq-ok (resolve_tag repo S gardener_version) _ h in
      let (supported, f, h2) =
        >>=-eq-ok (wrapped "fetching supported versions: %w" [] (fetch_supported_versions repo tag))
          _ h1 in
      let (all, g, last) =
        >>=-eq-ok
          (wrapped "fetching classification: %w" [] (fetch_classification repo provider tag)) _
          h2 in
      let (cd, raw, providers, c, blob, decoded, found) =
        classified tag all (wrapped-eq-ok _ _ (fetch_classification repo provider tag) g) in
      let (p, listed, some_version, same) = find_provider_sound provider providers all repo found in
      let (cd', c', s) =
        >>=-eq-ok (wrapped "tag %s: %w" (tag ∷ []) (fetch_component_descriptor repo tag)) _
          (wrapped-eq-ok _ _ (fetch_supported_versions repo tag) f) in
      let same_cd : cd' ≡ cd =
        ok_inj (sym (wrapped-eq-ok _ _ (fetch_component_descriptor repo tag) c') ∙ c) in
      let offered = λ (v : ExpirableVersion).
        ap (λ l. contains l v.version) (sym (ok_inj s))
        ∙ contains-api_servers cd'.resources v.version
        ∙ ap (λ d. has_api_server d v.version) same_cd in
      let final =
        sym (ok_inj last)
        ∙ select-ext _ _ offered all
        ∙ ap (select (λ v. has_api_server cd v.version)) same in
      (tag, e, (cd, raw, providers, p, c, blob, decoded, listed, some_version, final))
