-- ===== src/Tests/Sharing.antt =====
-- The store in which the images of the specification and of the CloudProfile are read.
use cloud_profile_sync.Common.{
  ℕ, zero, suc, ◌<◌, ◌≡◌, refl, none, some, true, false, List, [], ◌∷◌, nat_eq, string_eq, arith,
}
use cloud_profile_sync.Common.Int.{pos}
use cloud_profile_sync.Common.Dict.{lookup, insert}
use cloud_profile_sync.Gardener.{MachineImageVersion, deprecated}
use cloud_profile_sync.Api.{ManagedCloudProfile}
use cloud_profile_sync.Controllers.Expiration.{
  carry_expiration_dates, expiration_date_key, store_versions, store_images, carry_version,
}
use cloud_profile_sync.Controllers.Reconcile.{CloudProfile, chosen_images}
use cloud_profile_sync.Controllers.Sharing.{
  Store, ImageRef, read, addresses, mutate_images_at, carry_expiration_dates_at, carry_images_at,
  carry_versions_at,
}
use mathlib.Core.Path.{ap₂}
use cloud_profile_sync.Common.{◌+◌, ◌∙◌}
use cloud_profile_sync.Controllers.Sharing.{Copier, write}
use cloud_profile_sync.Controllers.Sharing.Copied.{
  IsCopier, Extends, Extends-trans, AreIn-Agree, AreIn-Extends, below-IsApart, widen,
}
use cloud_profile_sync.Controllers.Sharing.Carried.{IsApart, read_versions-Agree}
use cloud_profile_sync.Controllers.Sharing.Refine.{mutate_images_at-refines}
use cloud_profile_sync.Tests.Data.{entry, profile_spec, managed}
use cloud_profile_sync.Tests.Profiles.{env, server}

-- A copy at the first free addresses.
unfoldable copy_versions : Copier
copy_versions [] s = ([], s)
copy_versions (a ∷ vs) s =
    let (bs, s') = copy_versions vs (record (write s.next (s.cell a) s) { next = s.next + 1 }) in
    (s.next ∷ bs, s')

abbrev new_cell : Store → ℕ → Store
new_cell s a = record (write s.next (s.cell a) s) { next = s.next + 1 }

new_cell-Extends : (s : Store) (a : ℕ) → Extends s (new_cell s a)
new_cell-Extends s a = record { grows = omega arith; keeps = λ b h. ground (arith, h) }

copy_versions-IsCopier : IsCopier copy_versions
unfolding copy_versions
copy_versions-IsCopier [] s h = record {
  extends = record { grows = omega arith; keeps = λ a _. refl };
  fresh = tt;
  apart = tt;
  same = refl;
}
copy_versions-IsCopier (a ∷ vs) s (p, h) =
    let s1 = new_cell s a in
    let first = new_cell-Extends s a in
    let (copies, s') = copy_versions vs s1 in
    let rest = copy_versions-IsCopier vs s1 (AreIn-Extends s s1 vs first h) in
    let at : s.next < s1.next = omega arith in
    record {
      extends = Extends-trans s s1 s' first rest.extends;
      fresh = (
        (omega arith, omega (arith, rest.extends.grows)),
        widen s.next s1.next s'.next s'.next copies (omega arith) (omega arith) rest.fresh,
      );
      apart = (below-IsApart s.next s1.next s'.next copies at rest.fresh, rest.apart);
      same =
          ap₂ ◌∷◌ (rest.extends.keeps s.next at ∙ ground arith)
            (rest.same ∙ read_versions-Agree s s1 vs (AreIn-Agree s s1 vs first h));
    }

-- The version is deprecated, and the CloudProfile has a date for it.
abbrev outdated : MachineImageVersion
outdated = record (entry "1") { classification = some deprecated }

abbrev dated : MachineImageVersion
dated = record outdated { expiration_date = some (pos 4) }

abbrev cells : ℕ → MachineImageVersion
cells zero = outdated
cells (suc zero) = dated
cells (suc (suc n)) = entry "2"

abbrev store : Store
store = record { next = 2; cell = cells }

abbrev in_spec : List ImageRef
in_spec = record { name = "linux"; versions = 0 ∷ [] } ∷ []

abbrev in_profile : List ImageRef
in_profile = record { name = "linux"; versions = 1 ∷ [] } ∷ []

abbrev paused_profile : ManagedCloudProfile
paused_profile = record managed {
  spec = record managed.spec {
    machine_images_paused = true;
    cloud_profile = record profile_spec {
      machine_images = record { name = "linux"; versions = outdated ∷ [] } ∷ [];
    };
  };
}

abbrev profile : CloudProfile
profile = record {
  name = "profile";
  owner = none;
  spec = record profile_spec {
    machine_images = record { name = "linux"; versions = dated ∷ [] } ∷ [];
  };
}

mutate_images_at-refines_example :
    let (refs, s') = mutate_images_at copy_versions true in_spec in_profile in_spec store in
    (read s' refs
      ≡ carry_expiration_dates profile.spec.machine_images
          (chosen_images env server paused_profile (read store in_spec, none) profile).0)
    × (true ≡ true → (a : ℕ) → a < 2 → s'.cell a ≡ cells a)
    × (true ≡ false → (a : ℕ) → IsApart (addresses in_spec) a → s'.cell a ≡ cells a)
mutate_images_at-refines_example =
    mutate_images_at-refines env server paused_profile profile copy_versions copy_versions-IsCopier
      in_spec in_profile in_spec none store refl refl (omega arith, tt) (omega arith, tt)
      ((tt, tt), (tt, tt), tt)

-- Without updates and with images that are not paused, the specification's own version gets the
-- date of the CloudProfile.
spec_is_written :
    ((mutate_images_at copy_versions false in_spec in_profile in_spec store).1.cell
      0).expiration_date
    ≡ some (pos 4)
unfolding mutate_images_at nat_eq carry_expiration_dates_at carry_images_at carry_versions_at
    carry_version lookup insert store_images store_versions string_eq expiration_date_key
spec_is_written = refl
