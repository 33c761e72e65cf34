-- ===== src/Ironcore/Laws.antt =====
-- What `Configure` does to the configuration's images.
use mathlib.Core.List.{foldl}
use cloud_profile_sync.Common.{
  ◌≡◌, refl, String, some, Bool, true, not, ◌||◌, List, [], ◌∷◌, ◌++◌, select, any, All, index_func,
  Option-cases, Bool-cases, inl, inr, ◌⊎◌, ◌==◌, string_eq, arith,
}
use cloud_profile_sync.Indexed.{select-snoc, select-modify_first}
use cloud_profile_sync.Source.{SourceImage}
use cloud_profile_sync.Ironcore.{
  Version, Image, Config, IroncoreProvider, write_flat, is_flat_entry, write_versions,
  update_config,
}

any-append :
    (p : Version → Bool) (vs : List Version) (v : Version) → any p (vs ++ v ∷ []) ≡ any p vs || p v
unfolding any
any-append p [] v = ground arith
any-append p (w ∷ vs) v = ground (arith, any-append p vs v)

-- An entry of an image reference and an architecture.
abbrev pub HasFlat : String → List Version → String → Type 0
HasFlat ref vs arch = any (is_flat_entry ref arch) vs ≡ true

module _ (version ref : String) where
  abbrev flat_entry : String → Version
  flat_entry arch = record {
    version = version;
    image = ref;
    architecture = some arch;
    capability_flavors = [];
  }

  write_flat_cases :
      (vs : List Version) (arch : String)
      → (HasFlat ref vs arch × (write_flat version ref vs arch ≡ vs))
        ⊎ (write_flat version ref vs arch ≡ vs ++ flat_entry arch ∷ [])
  unfolding write_flat
  write_flat_cases vs arch = elim (Bool-cases (any (is_flat_entry ref arch) vs)) [
    | inl e ↦ inl (e, ground arith)
    | inr e ↦ inr (ground arith)
  ]

  write_flat-has :
      (vs : List Version) (arch : String) → HasFlat ref (write_flat version ref vs arch) arch
  write_flat-has vs arch = elim (write_flat_cases vs arch) [
    | inl (e, p) ↦ rw p e
    | inr p ↦ rw p (ground (arith, any-append (is_flat_entry ref arch) vs (flat_entry arch)))
  ]

  write_flat-keeps :
      (vs : List Version) (arch other : String)
      → HasFlat ref vs other
      → HasFlat ref (write_flat version ref vs arch) other
  write_flat-keeps vs arch other h = elim (write_flat_cases vs arch) [
    | inl (_, p) ↦ rw p h
    | inr p ↦ rw p (ground (arith, any-append (is_flat_entry ref other) vs (flat_entry arch)))
  ]

  foldl-keeps :
      (archs : List String) (vs : List Version) (other : String)
      → HasFlat ref vs other
      → HasFlat ref (foldl (write_flat version ref) vs archs) other
  foldl-keeps [] vs other h = h
  foldl-keeps (a ∷ archs) vs other h =
      foldl-keeps archs (write_flat version ref vs a) other (write_flat-keeps vs a other h)

  foldl-has :
      (archs : List String) (vs : List Version)
      → All (HasFlat ref (foldl (write_flat version ref) vs archs)) archs
  foldl-has [] vs = tt
  foldl-has (a ∷ archs) vs = (
    foldl-keeps archs (write_flat version ref vs a) a (write_flat-has vs a),
    foldl-has archs (write_flat version ref vs a),
  )

  foldl-same :
      (archs : List String) (vs : List Version)
      → All (HasFlat ref vs) archs
      → foldl (write_flat version ref) vs archs ≡ vs
  unfolding write_flat
  foldl-same [] vs h = refl
  foldl-same (a ∷ archs) vs (h, hs) = rw h (foldl-same archs vs hs)

  -- The loop over the architectures leaves an entry of the reference for each of them, and a second
  -- run adds none.
  pub flat_entries :
      (archs : List String) (vs : List Version)
      → let once = foldl (write_flat version ref) vs archs in
        All (HasFlat ref once) archs × (foldl (write_flat version ref) once archs ≡ once)
  flat_entries archs vs = (
    foldl-has archs vs,
    foldl-same archs (foldl (write_flat version ref) vs archs) (foldl-has archs vs),
  )

module _ (p : IroncoreProvider) where
  abbrev pub is_named : Image → Bool
  is_named m = m.name == p.image_name

  -- `Configure` leaves the images of every other name, their order, and the rest of the
  -- configuration as they were.
  pub configure_others :
      (imgs : List SourceImage) (cfg : Config)
      → let cfg' = update_config p imgs cfg in
        (select (λ m. not (is_named m)) cfg'.machine_images
          ≡ select (λ m. not (is_named m)) cfg.machine_images)
        × (cfg'.rest ≡ cfg.rest)
  unfolding update_config write_versions
  configure_others imgs cfg = elim (Option-cases (index_func is_named cfg.machine_images)) [
    | inr (i, e) ↦
        rw (update_config, e)
          (
            select-modify_first is_named (write_versions p imgs) (λ m. refl) cfg.machine_images i e,
            refl,
          )
    | inl e ↦
        rw (update_config, e)
          (
            select-snoc (λ m. not (is_named m)) cfg.machine_images
                (write_versions p imgs (record { name = p.image_name; versions = [] }))
                (ground arith),
            refl,
          )
  ]
