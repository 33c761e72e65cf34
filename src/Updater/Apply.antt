-- ===== src/Updater/Apply.antt =====
-- `Apply` of os_image_updater.go: the versions of the image and the other images.
use mathlib.Core.List.{foldl}
use cloud_profile_sync.Common.{
  ℕ, ◌≡◌, refl, sym, ap, subst, ◌∙◌, Option, none, some, Bool, not, ◌&&◌, List, [], ◌∷◌, map,
  modify, select, index_func, Option-cases, Bool-cases, inl, inr, ◌==◌, string_eq, arith,
}
use cloud_profile_sync.Common.Dict.{lookup}
use cloud_profile_sync.Common.Result.{ok, >>=-eq-ok}
use cloud_profile_sync.Semver.{Semver}
use cloud_profile_sync.Gardener.{MachineImage, CapabilityDefinition, RawExtension}
use cloud_profile_sync.Source.{SourceImage, Source}
use cloud_profile_sync.Updater.{
  ImageUpdater, Versions, update_legacy, update_clean, new_legacy, new_clean, upsert_legacy_version,
  upsert_clean_version, upsert, upsert_all, ensure_at, ensure_image, restrict, apply,
  invoke_provider, is_ok,
}
use cloud_profile_sync.Indexed.{
  AreDistinct, find_absent, modify-AreDistinct, append-AreDistinct, modify-snoc, select-snoc,
  select-modify_first,
}
use cloud_profile_sync.Updater.Index.{
  version_of, IsIn, start-IsIn, upsert_legacy_found, upsert_legacy_new, upsert_legacy_skip,
  upsert_clean_found, upsert_clean_new, upsert-IsIn, upsert_legacy-IsIn,
}

module _ (S : Semver) (iu : ImageUpdater) where
  module _ (s : Versions) (src : SourceImage) (h : IsIn s) (d : AreDistinct version_of s.list) where
    abbrev Listed : Versions → Type 0
    Listed t = AreDistinct version_of t.list

    upsert_legacy-AreDistinct : AreDistinct version_of (upsert_legacy_version S iu s src).list
    unfolding update_legacy new_legacy
    upsert_legacy-AreDistinct = elim (Option-cases (lookup src.version s.existing)) [
      | inr (i, e) ↦
          subst Listed (sym (upsert_legacy_found S iu s src i e))
            (modify-AreDistinct version_of (update_legacy S iu src) (λ v. refl) s.list i d)
      | inl e ↦ elim (Bool-cases (is_ok (S.parse src.version))) [
        | inl p ↦ subst Listed (sym (upsert_legacy_new S iu s src e p)) (
            append-AreDistinct version_of s.list (new_legacy S iu src) d
              (find_absent version_of src.version s.list (sym (h src.version) ∙ e)))
        | inr p ↦ subst Listed (sym (upsert_legacy_skip S iu s src e p)) d
      ]
    ]

    upsert_clean-AreDistinct : AreDistinct version_of (upsert_clean_version S iu s src).list
    unfolding update_clean new_clean
    upsert_clean-AreDistinct = elim (Option-cases (lookup src.clean_version s.existing)) [
      | inr (i, e) ↦
          subst Listed (sym (upsert_clean_found S iu s src i e))
            (modify-AreDistinct version_of (update_clean S iu src) (λ v. refl) s.list i d)
      | inl e ↦ subst Listed (sym (upsert_clean_new S iu s src e)) (
          append-AreDistinct version_of s.list (new_clean S iu src) d
            (find_absent version_of src.clean_version s.list (sym (h src.clean_version) ∙ e)))
    ]

  upsert-AreDistinct :
      (s : Versions) (src : SourceImage)
      → IsIn s
      → AreDistinct version_of s.list
      → AreDistinct version_of (upsert S iu s src).list
  unfolding upsert
  upsert-AreDistinct s src h d =
      let d' = upsert_legacy-AreDistinct s src h d in
      elim (Bool-cases (iu.enable_capabilities && not (src.clean_version == ""))) [
        | inl t ↦ rw t (
            upsert_clean-AreDistinct (upsert_legacy_version S iu s src) src
              (upsert_legacy-IsIn S iu s src h) d')
        | inr t ↦ rw t d'
      ]

  foldl-AreDistinct :
      (imgs : List SourceImage) (s : Versions)
      → IsIn s
      → AreDistinct version_of s.list
      → AreDistinct version_of (foldl (upsert S iu) s imgs).list
  foldl-AreDistinct [] s h d = d
  foldl-AreDistinct (src ∷ imgs) s h d =
      foldl-AreDistinct imgs (upsert S iu s src) (upsert-IsIn S iu s src h)
        (upsert-AreDistinct s src h d)

  -- Versions that are listed once each stay so.
  pub upsert_all-AreDistinct :
      (imgs : List SourceImage) (image : MachineImage)
      → AreDistinct version_of image.versions
      → AreDistinct version_of (upsert_all S iu imgs image).versions
  unfolding upsert_all
  upsert_all-AreDistinct imgs image d = foldl-AreDistinct imgs _ (start-IsIn image.versions d) d

  abbrev pub is_other : MachineImage → Bool
  is_other img = not (img.name == iu.image_name)

  module _ (f : MachineImage → MachineImage) (same : (img : MachineImage) → (f img).name ≡ img.name)
      (base : List MachineImage) where
    others_at :
        (o : Option ℕ)
        → index_func (λ img. img.name == iu.image_name) base ≡ o
        → select is_other (modify (ensure_at S iu base o).0 (ensure_at S iu base o).1 f)
          ≡ select is_other base
    others_at (some i) e =
        select-modify_first (λ img. img.name == iu.image_name) f
          (λ img. ap (λ n. n == iu.image_name) (same img)) base i e
    others_at none e =
        let new : MachineImage = record { name = iu.image_name; versions = [] } in
        rw (modify-snoc base new f) (select-snoc is_other base (f new) (ground (arith, same new)))

    images_of_apply :
        select is_other (modify (ensure_image S iu base).0 (ensure_image S iu base).1 f)
        ≡ select is_other base
    unfolding ensure_image
    images_of_apply = others_at _ refl

  -- A successful `Apply` leaves the images of every other name as they were and in their order, and
  -- returns the base's provider configuration if there is no provider.
  pub apply_others :
      (defs : List CapabilityDefinition) (base : List MachineImage) (config : Option RawExtension)
      (imgs : List SourceImage) {result : List MachineImage × Option RawExtension}
      → apply S iu defs base config imgs ≡ ok result
      → (select is_other result.0 ≡ select is_other base) × (iu.provider ≡ none → result.1 ≡ config)
  unfolding apply upsert_all
  apply_others defs base config imgs {result} h =
      let restricted = map (restrict S iu defs) imgs in
      let (config', e, final) =
        >>=-eq-ok (invoke_provider S iu iu.provider config restricted) _ h in
      (
        ground (arith, images_of_apply (upsert_all S iu restricted) (λ img. refl) base),
        λ no_provider. ground arith,
      )

-- `Apply` does not look at the source.
pub apply_unsourced :
    (S : Semver) (iu : ImageUpdater) (a b : Source) (defs : List CapabilityDefinition)
    (base : List MachineImage) (config : Option RawExtension) (imgs : List SourceImage)
    → apply S (record iu { source = a }) defs base config imgs
      ≡ apply S (record iu { source = b }) defs base config imgs
unfolding apply restrict ensure_image upsert_all upsert upsert_legacy_version new_legacy
    update_legacy upsert_clean_version new_clean update_clean
apply_unsourced S iu a b defs base config imgs = refl
