-- ===== src/Updater/Kept.antt =====
-- What `Apply` leaves of the versions that were listed before, under every name.
use cloud_profile_sync.Common.{
  ℕ, ◌≡◌, ◌≢◌, refl, sym, ap, subst, ◌∙◌, String, Option, none, some, true, List, [], ◌∷◌, ◌++◌,
  modify, index_func, is_some, ◌==◌, string_eq, arith,
}
use cloud_profile_sync.Common.Result.{ok}
use cloud_profile_sync.Semver.{Semver}
use cloud_profile_sync.Gardener.{MachineImage, CapabilityDefinition, RawExtension}
use cloud_profile_sync.Source.{SourceImage}
use cloud_profile_sync.Indexed.{find, AreDistinct, modify-snoc, find-append, find-modify_ne}
use cloud_profile_sync.Updater.{ImageUpdater, apply, ensure_at, ensure_image, upsert_all}
use cloud_profile_sync.Updater.Index.{version_of}
use cloud_profile_sync.Updater.Apply.{upsert_all-AreDistinct}
use cloud_profile_sync.Updater.Listing.{
  name_of, versions_of, versions_named, apply_images, apply_versions, apply_lists, restricted,
}

-- Under each name the versions are listed once each.
abbrev pub AreAllDistinct : List MachineImage → Type 0
AreAllDistinct images = (name : String) → AreDistinct version_of (versions_named name images)

-- Each version that is listed under a name still is.
abbrev pub KeepsListed : List MachineImage → List MachineImage → Type 0
KeepsListed images images' =
    (name k : String)
    → is_some (find version_of k (versions_named name images)) ≡ true
    → is_some (find version_of k (versions_named name images')) ≡ true

module _ (S : Semver) (iu : ImageUpdater) where
  module _ (f : MachineImage → MachineImage) (same : (img : MachineImage) → (f img).name ≡ img.name)
      (base : List MachineImage) (name : String) (other : name ≢ iu.image_name) where
    named_others :
        (o : Option ℕ)
        → index_func (λ img. img.name == iu.image_name) base ≡ o
        → versions_named name (modify (ensure_at S iu base o).0 (ensure_at S iu base o).1 f)
          ≡ versions_named name base
    named_others (some i) e =
        ap versions_of (find-modify_ne name_of f same name iu.image_name base i e (ground arith))
    named_others none e =
        let new : MachineImage = record { name = iu.image_name; versions = [] } in
        let passed : find name_of name (base ++ f new ∷ []) ≡ find name_of name base =
          ground (arith, find-append name_of name base (f new), same new) in
        ap (λ images. versions_of (find name_of name images)) (modify-snoc base new f)
        ∙ ap versions_of passed

  module _ (defs : List CapabilityDefinition) (base : List MachineImage)
      (config : Option RawExtension) (imgs : List SourceImage)
      {result : List MachineImage × Option RawExtension}
      (h : apply S iu defs base config imgs ≡ ok result) where
    apply_named_others :
        (name : String)
        → name ≢ iu.image_name
        → versions_named name result.0 ≡ versions_named name base
    unfolding ensure_image upsert_all
    apply_named_others name other =
        ap (versions_named name) (apply_images S iu defs base config imgs h)
        ∙ named_others (upsert_all S iu (restricted S iu defs base config imgs h)) (λ img. refl)
            base name other (index_func (λ img. img.name == iu.image_name) base) refl

    pub apply-AreAllDistinct : AreAllDistinct base → AreAllDistinct result.0
    apply-AreAllDistinct d name = elim (string_eq.dec name iu.image_name) [
      | no n ↦ subst (AreDistinct version_of) (sym (apply_named_others name n)) (d name)
      | yes e ↦
          subst (λ m. AreDistinct version_of (versions_named m result.0)) (sym e)
            (subst (AreDistinct version_of) (sym (apply_versions S iu defs base config imgs h))
              (upsert_all-AreDistinct S iu _ _ (d iu.image_name)))
    ]

    pub apply-KeepsListed : AreAllDistinct base → KeepsListed base result.0
    apply-KeepsListed d name k l = elim (string_eq.dec name iu.image_name) [
      | no n ↦ ap (λ vs. is_some (find version_of k vs)) (apply_named_others name n) ∙ l
      | yes e ↦
          let here = subst (λ m. is_some (find version_of k (versions_named m base)) ≡ true) e l in
          subst (λ m. is_some (find version_of k (versions_named m result.0)) ≡ true) (sym e)
            (apply_lists S iu defs base config imgs h (d iu.image_name) k ∙ ground (arith, here))
    ]
