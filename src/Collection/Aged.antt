-- ===== src/Collection/Aged.antt =====
-- Garbage collection with the Keppel registry: what is collected, in terms of its answer.
use cloud_profile_sync.Common.{
  ◌≡◌, refl, sym, ap, subst, ◌∙◌, ◌⊎◌, inl, inr, String, some, true, false, List, [], ◌∷◌, contains,
  Option-cases, Bool-cases, string_eq, ◌==◌, arith,
}
use cloud_profile_sync.Common.Int.{ℤ, pos, ltb_ℤ, ◌<ℤ◌, ◌-ℤ◌}
use cloud_profile_sync.Common.Dict.{Dict, lookup, insert, lookup-nil, lookup-insert}
use cloud_profile_sync.Common.Text.{has_text, to_lower}
use cloud_profile_sync.Common.Result.{
  Result, ok, >>=-eq-ok, wrapped, wrapped-eq-ok, ok_inj, Result-cases,
}
use cloud_profile_sync.Gardener.{Time, Shoot}
use cloud_profile_sync.Source.{SourceImage}
use cloud_profile_sync.Keppel.{
  KeppelManifest, HttpClient, http_client, Response, keppel_url, normalize_tag,
}
use cloud_profile_sync.Keppel.Pushed.{HasEntry, IsPushed, fetch_keppel_tags-IsPushed}
use cloud_profile_sync.Api.{ManagedCloudProfile, MachineImageUpdate, Oci, GarbageCollectionConfig}
use cloud_profile_sync.Collection.{
  Filter, keep, RegistryClient, referenced_versions, normalize_tags, get_registry_provider,
  build_filter, build_gc_filter,
}
use cloud_profile_sync.Collection.Laws.{keep_iff}
use cloud_profile_sync.Controllers.Defaults.{get_tags}

normalize_tags-HasEntry :
    (raw tags : Dict String Time) (k : String) (v : Time)
    → lookup k (normalize_tags raw tags) ≡ some v
    → (lookup k tags ≡ some v) ⊎ ((tag : String) × (normalize_tag tag ≡ k) × HasEntry tag v raw)
unfolding normalize_tags
normalize_tags-HasEntry [] tags k v h = inl h
normalize_tags-HasEntry ((tag, w) ∷ raw) tags k v h =
    elim (normalize_tags-HasEntry raw (insert (normalize_tag tag) w tags) k v h) [
      | inr (t, same, entry) ↦ inr (t, same, inr entry)
      | inl e ↦
          let at = sym (lookup-insert k (normalize_tag tag) w tags) ∙ e in
          elim (string_eq.dec k (normalize_tag tag)) [
            | yes p ↦ inr (tag, sym p, inl (refl, ground (arith, at)))
            | no d ↦ inl (ground (arith, at))
          ]
    ]

client_is_keppel :
    (keppel client : RegistryClient) (registry : String)
    → get_registry_provider keppel registry ≡ ok client
    → keppel ≡ client
unfolding get_registry_provider
client_is_keppel keppel client registry h = elim (Bool-cases (registry == "")) [
  | inl e ↦ absurd (ground (arith, h))
  | inr e ↦ elim (Bool-cases (has_text (to_lower registry) "keppel")) [
    | inl f ↦ ground (arith, h)
    | inr f ↦ absurd (ground (arith, h))
  ]
]

module _ (registry_provider : String → Result RegistryClient) (now : Time)
    (mcp : ManagedCloudProfile) (shoots : List Shoot) (update : MachineImageUpdate) where
  -- What a filter was built from.
  build_gc_filter_inv :
      (f : Filter)
      → build_gc_filter registry_provider now mcp shoots update ≡ ok (some f)
      → (config : GarbageCollectionConfig) × (oci : Oci) × (mcp.spec.garbage_collection
          ≡ some config)
        × (config.enabled ≡ true)
        × (mcp.spec.machine_images_paused ≡ false)
        × (update.source.oci ≡ some oci)
        × (ltb_ℤ config.max_age (pos 0) ≡ false)
        × (build_filter registry_provider now mcp shoots update config oci ≡ ok f)
  unfolding build_gc_filter
  build_gc_filter_inv f h = elim (Option-cases mcp.spec.garbage_collection) [
    | inl e ↦ absurd (ground (arith, h))
    | inr (config, e) ↦ elim (Option-cases update.source.oci) [
      | inl o ↦ absurd (ground (arith, h))
      | inr (oci, o) ↦
          elim (Result-cases (build_filter registry_provider now mcp shoots update config oci)) [
            | inl (failed, p) ↦ absurd (ground (arith, h))
            | inr (built, p) ↦ (
              config,
              oci,
              e,
              ground (arith, h),
              ground (arith, h),
              o,
              ground (arith, h),
              ground (arith, h),
            )
          ]
    ]
  ]

module _ {Request : Type 0} (unix : ℤ → Time) (url_string : String → String → String)
    (new_request : String → Result Request) (send : HttpClient → Request → Result Response)
    (now : Time) (mcp : ManagedCloudProfile) (shoots : List Shoot)
    (update : MachineImageUpdate) where
  -- Keppel answered a request for the update's repository with a tag that is, normalised, the image's
  -- version and that is older than the configuration allows, and no worker runs that version.
  abbrev pub IsAged : SourceImage → Type 0
  IsAged img =
      (config : GarbageCollectionConfig) × (oci : Oci) × (url : String) × (req : Request)
      × (resp : Response) × (manifests : List KeppelManifest) × (tag : String) × (pushed_at : Time)
      × (mcp.spec.garbage_collection ≡ some config)
      × (config.enabled ≡ true)
      × (mcp.spec.machine_images_paused ≡ false)
      × (update.source.oci ≡ some oci)
      × (contains (referenced_versions shoots mcp.name update.image_name) img.version ≡ false)
      × (keppel_url (url_string "https" oci.registry) oci.repository ≡ ok url)
      × (new_request url ≡ ok req)
      × (send http_client req ≡ ok resp)
      × (resp.status ≡ 200)
      × (resp.body ≡ ok manifests)
      × IsPushed unix tag pushed_at manifests
      × (normalize_tag tag ≡ img.version)
      × (ltb_ℤ config.max_age (pos 0) ≡ false)
      × (pushed_at <ℤ (now -ℤ config.max_age))

  -- If the filter that is built with the Keppel client collects an image, then garbage collection is
  -- enabled and images are not paused; no version that a worker of a Shoot of the CloudProfile runs
  -- of the update's image is, normalised, the image's version; and Keppel answered the request for
  -- the repository of the update with status 200 and manifests, of which one has a tag that is,
  -- normalised, the image's version and that was pushed, at a time that is known, before now less the
  -- age that the configuration allows, which is not negative.
  pub collected_is_old :
      (f : Filter) (img : SourceImage)
      → build_gc_filter
          (get_registry_provider (get_tags unix url_string new_request send))
          now
          mcp
          shoots
          update
        ≡ ok (some f)
      → keep f img ≡ false
      → IsAged img
  unfolding build_filter get_tags
  collected_is_old f img h k =
      let keppel : RegistryClient = get_tags unix url_string new_request send in
      let (config, oci, gc, enabled, resumed, from_oci, age, build) =
        build_gc_filter_inv (get_registry_provider keppel) now mcp shoots update f h in
      let provided = get_registry_provider keppel oci.registry in
      let (client, p, rest) =
        >>=-eq-ok
          (wrapped "no registry provider found for registry %q: %w" (oci.registry ∷ []) provided) _
          build in
      let is_keppel = client_is_keppel keppel client oci.registry (wrapped-eq-ok _ _ provided p) in
      let (raw, q, made) =
        >>=-eq-ok (wrapped "failed to fetch tags: %w" [] (client oci.registry oci.repository)) _
          rest in
      let fetched : keppel oci.registry oci.repository ≡ ok raw =
        ap (λ c. c oci.registry oci.repository) is_keppel
        ∙ wrapped-eq-ok _ _ (client oci.registry oci.repository) q in
      let (url, req, resp, manifests, url_e, req_e, resp_e, status, body, each) =
        fetch_keppel_tags-IsPushed unix url_string new_request send oci.registry oci.repository raw
          fetched in
      let same = sym (ok_inj made) in
      let (unprotected, _, (pushed_at, found, old)) = (keep_iff f img).0 k in
      let known : lookup img.version (normalize_tags raw []) ≡ some pushed_at =
        sym (ap (λ (g : Filter). lookup img.version g.tags) same) ∙ found in
      elim (normalize_tags-HasEntry raw [] img.version pushed_at known) [
        | inl e ↦ absurd (ground (arith, e, lookup-nil {V = Time} img.version))
        | inr (tag, normal, entry) ↦ (
          config,
          oci,
          url,
          req,
          resp,
          manifests,
          tag,
          pushed_at,
          gc,
          enabled,
          resumed,
          from_oci,
          sym (ap (λ (g : Filter). contains g.protected img.version) same) ∙ unprotected,
          url_e,
          req_e,
          resp_e,
          status,
          body,
          each tag pushed_at entry,
          normal,
          age,
          subst (λ (g : Filter). pushed_at <ℤ g.cutoff) same old,
        )
      ]
