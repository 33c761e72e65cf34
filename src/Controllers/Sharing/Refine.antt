-- ===== src/Controllers/Sharing/Refine.antt =====
-- The writes in the store give what `mutate` computes on values.
use mathlib.Core.Path.{ap₂}
use cloud_profile_sync.Common.{
  Bool, if◌then◌else◌, ℕ, ◌≤◌, ◌<◌, ◌≡◌, ◌≢◌, refl, ap, ◌∙◌, Option, true, false, List, [], ◌∷◌,
  All, is_empty, arith,
}
use cloud_profile_sync.Gardener.{MachineImage, RawExtension}
use cloud_profile_sync.Api.{ManagedCloudProfile}
use cloud_profile_sync.Controllers.Expiration.{carry_expiration_dates, store_images}
use cloud_profile_sync.Controllers.Prepare.{Env}
use cloud_profile_sync.Controllers.Reconcile.{CloudProfile, Server, chosen_images}
use cloud_profile_sync.Controllers.Sharing.{
  Store, Copier, ImageRef, read, addresses, deep_copy_machine_images, carry_expiration_dates_at,
  mutate_images_at,
}
use cloud_profile_sync.Controllers.Sharing.Carried.{
  IsApart, AreUnshared, Agree, All-map, read-Agree, images_at-Agree, read-carry_expiration_dates_at,
}
use cloud_profile_sync.Controllers.Sharing.Copied.{AreIn, IsCopier, deep_copy-AreCopied}

at-Agree :
    (existing next : List ImageRef) (s : Store) (a : ℕ)
    → IsApart (addresses next) a
    → Agree s (carry_expiration_dates_at existing next s) a
unfolding carry_expiration_dates_at
at-Agree existing next s = images_at-Agree (store_images (read s existing) []) next s

-- A copy carries the dates that its original would, and leaves every version that there was.
copied_and_carried :
    (copy : Copier) (copies_all : IsCopier copy) (stored imgs : List ImageRef) (s : Store)
    → AreIn s (addresses stored)
    → AreIn s (addresses imgs)
    → let (copies, s1) = deep_copy_machine_images copy imgs s in
      let s' = carry_expiration_dates_at stored copies s1 in
      (read s' copies ≡ carry_expiration_dates (read s stored) (read s imgs))
      × ((a : ℕ) → a < s.next → s'.cell a ≡ s.cell a)
copied_and_carried copy copies_all stored imgs s old h =
    let (copies, s1) = deep_copy_machine_images copy imgs s in
    let copied = deep_copy-AreCopied copy copies_all imgs s h in
    let kept : All (Agree s s1) (addresses stored) =
      All-map (λ a. a < s.next) (Agree s s1) copied.extends.keeps (addresses stored) old in
    (
      read-carry_expiration_dates_at stored copies s1 copied.unshared
          ∙ ap (λ e. carry_expiration_dates e (read s1 copies)) (read-Agree s s1 stored kept)
          ∙ ap (carry_expiration_dates (read s stored)) copied.same,
      λ a b.
          at-Agree stored copies s1 a (
            All-map (λ c. (s.next ≤ c) × (c < s1.next)) (λ c. a ≢ c)
              (λ c k e. absurd (omega (arith, b, k.0, e))) (addresses copies) copied.fresh)
          ∙ copied.extends.keeps a b,
    )

module _ (env : Env) (server : Server) (mcp : ManagedCloudProfile) (profile : CloudProfile)
    (copy : Copier) (copies_all : IsCopier copy) where
  abbrev chosen_at : Bool → (base stored imgs : List ImageRef) → Store → List MachineImage
  chosen_at paused base stored imgs s =
      if paused then if is_empty stored then read s base else read s stored else read s imgs

  chosen_at-eq :
      (paused : Bool) (base stored imgs : List ImageRef) (config : Option RawExtension) (s : Store)
      → mcp.spec.machine_images_paused ≡ paused
      → read s base ≡ mcp.spec.cloud_profile.machine_images
      → read s stored ≡ profile.spec.machine_images
      → chosen_at paused base stored imgs s
        ≡ (chosen_images env server mcp (read s imgs, config) profile).0
  unfolding chosen_images
  chosen_at-eq false base stored imgs config s e p q = ground (arith, e)
  chosen_at-eq true base [] imgs config s e p q = ground (arith, e, p, q)
  chosen_at-eq true base (img ∷ stored) imgs config s e p q = ground (arith, e, p, q)

  abbrev Outcome : Bool → (base stored imgs : List ImageRef) → Store → Type 0
  Outcome paused base stored imgs s =
      let (refs, s') = mutate_images_at copy paused base stored imgs s in
      (read s' refs ≡ carry_expiration_dates (read s stored) (chosen_at paused base stored imgs s))
      × (paused ≡ true → (a : ℕ) → a < s.next → s'.cell a ≡ s.cell a)
      × (paused ≡ false → (a : ℕ) → IsApart (addresses imgs) a → s'.cell a ≡ s.cell a)

  outcome :
      (paused : Bool) (base stored imgs : List ImageRef) (s : Store)
      → AreIn s (addresses base)
      → AreIn s (addresses stored)
      → AreUnshared imgs
      → Outcome paused base stored imgs s
  unfolding mutate_images_at
  outcome false base stored imgs s in_base in_stored apart = (
    read-carry_expiration_dates_at stored imgs s apart,
    λ e. absurd (ground arith),
    λ e a n. at-Agree stored imgs s a n,
  )
  outcome true base [] imgs s in_base in_stored apart =
      let (same, kept) = copied_and_carried copy copies_all [] base s in_stored in_base in
      (same, λ e. kept, λ e. absurd (ground arith))
  outcome true base (img ∷ stored) imgs s in_base in_stored apart =
      let (same, kept) =
        copied_and_carried copy copies_all (img ∷ stored) (img ∷ stored) s in_stored in_stored in
      (same, λ e. kept, λ e. absurd (ground arith))

  -- The images that the function of `CreateOrPatch` leaves in the store are those that `mutate`
  -- computes: the chosen ones with the dates carried over. If the images are paused, every version
  -- that was in the store is as it was, so neither the specification nor the stored CloudProfile is
  -- written to; if they are not, only the versions of the images that were prepared are written. The
  -- conditions are that the store has all these images, that no two of the prepared images' versions
  -- share an address, and that `DeepCopyInto` copies to new addresses.
  pub mutate_images_at-refines :
      (base stored imgs : List ImageRef) (config : Option RawExtension) (s : Store)
      → read s base ≡ mcp.spec.cloud_profile.machine_images
      → read s stored ≡ profile.spec.machine_images
      → AreIn s (addresses base)
      → AreIn s (addresses stored)
      → AreUnshared imgs
      → let paused = mcp.spec.machine_images_paused in
        let (refs, s') = mutate_images_at copy paused base stored imgs s in
        (read s' refs
          ≡ carry_expiration_dates profile.spec.machine_images
              (chosen_images env server mcp (read s imgs, config) profile).0)
        × (paused ≡ true → (a : ℕ) → a < s.next → s'.cell a ≡ s.cell a)
        × (paused ≡ false → (a : ℕ) → IsApart (addresses imgs) a → s'.cell a ≡ s.cell a)
  mutate_images_at-refines base stored imgs config s base_eq stored_eq in_base in_stored apart =
      let paused = mcp.spec.machine_images_paused in
      let (same, kept, others) = outcome paused base stored imgs s in_base in_stored apart in
      (
        same
            ∙ ap₂ carry_expiration_dates stored_eq
                (chosen_at-eq paused base stored imgs config s refl base_eq stored_eq),
        kept,
        others,
      )
