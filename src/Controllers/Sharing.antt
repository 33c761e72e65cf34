-- ===== src/Controllers/Sharing.antt =====
-- `deepCopyMachineImages` and the writes of `carryExpirationDates`, on a store: which images share
-- the versions that are written in place.
pub mod Carried
pub mod Copied
pub mod Refine
use cloud_profile_sync.Common.{
  ℕ, ◌+◌, ◌≡◌, ◌≢◌, String, Bool, List, [], ◌∷◌, ◌++◌, All, map, is_empty, ◌==◌, nat_eq,
  if◌then◌else◌,
}
use cloud_profile_sync.Gardener.{MachineImage, MachineImageVersion}
use cloud_profile_sync.Controllers.Expiration.{Stored, store_images, carry_version}

-- The versions by address; the addresses from `next` on are free.
pub record Store : Type 0 where
  pub next : ℕ
  pub cell : ℕ → MachineImageVersion

-- A slice of versions is the list of its elements' addresses.
pub record ImageRef : Type 0 where
  pub name : String
  pub versions : List ℕ

abbrev pub write : ℕ → MachineImageVersion → Store → Store
write a v s = record s { cell = λ b. if b == a then v else s.cell b }

abbrev pub read_image : Store → ImageRef → MachineImage
read_image s img = record { name = img.name; versions = map s.cell img.versions }

abbrev pub read : Store → List ImageRef → List MachineImage
read s refs = map (read_image s) refs

abbrev pub addresses : List ImageRef → List ℕ
addresses [] = []
addresses (img ∷ imgs) = img.versions ++ addresses imgs

-- `DeepCopyInto` of Gardener's MachineImage, as it copies the versions: the copy's addresses.
abbrev pub Copier : Type 0
Copier = List ℕ → Store → List ℕ × Store

unfoldable pub deep_copy_machine_images : Copier → List ImageRef → Store → List ImageRef × Store
deep_copy_machine_images copy [] s = ([], s)
deep_copy_machine_images copy (img ∷ imgs) s =
    let (versions, s1) = copy img.versions s in
    let (copies, s') = deep_copy_machine_images copy imgs s1 in
    (record { name = img.name; versions = versions } ∷ copies, s')

-- The second loop of `carryExpirationDates`, with `v := &img.Versions[j]`
unfoldable pub carry_versions_at : Stored → String → List ℕ → Store → Store
unfolding carry_version
carry_versions_at stored name [] s = s
carry_versions_at stored name (a ∷ vs) s =
    carry_versions_at stored name vs (write a (carry_version stored name (s.cell a)) s)

unfoldable pub carry_images_at : Stored → List ImageRef → Store → Store
unfolding carry_versions_at
carry_images_at stored [] s = s
carry_images_at stored (img ∷ imgs) s =
    carry_images_at stored imgs (carry_versions_at stored img.name img.versions s)

unfoldable pub carry_expiration_dates_at : List ImageRef → List ImageRef → Store → Store
unfolding store_images carry_images_at
carry_expiration_dates_at existing next s =
    carry_images_at (store_images (read s existing) []) next s

-- What the function that is handed to `CreateOrPatch` does to the images: which ones it takes, of
-- the specification, of the CloudProfile or of the updates, and the dates that it writes there.
unfoldable pub mutate_images_at :
    Copier → Bool → (base stored imgs : List ImageRef) → Store → List ImageRef × Store
unfolding deep_copy_machine_images carry_expiration_dates_at
mutate_images_at copy paused base stored imgs s =
    let (next, s') =
      if paused
      then if is_empty stored
        then deep_copy_machine_images copy base s
        else deep_copy_machine_images copy stored s
      else (imgs, s) in
    (next, carry_expiration_dates_at stored next s')
