-- ===== src/Controllers/Sharing/Carried.antt =====
-- The dates that are written in the store are those that `carry_expiration_dates` gives.
use mathlib.Core.Path.{ap₂}
use cloud_profile_sync.Common.{
  ℕ, ◌≡◌, ◌≢◌, refl, sym, ap, ◌∙◌, String, List, [], ◌∷◌, ◌++◌, All, map, nat_eq, arith,
}
use cloud_profile_sync.Gardener.{MachineImageVersion}
use cloud_profile_sync.Controllers.Expiration.{
  Stored, store_images, carry_version, carry_image, carry_expiration_dates,
}
use cloud_profile_sync.Controllers.Sharing.{
  Store, ImageRef, write, read, addresses, carry_versions_at, carry_images_at,
  carry_expiration_dates_at,
}

abbrev pub IsApart : List ℕ → ℕ → Type 0
IsApart vs a = All (λ b. a ≢ b) vs

-- No address comes twice.
abbrev pub AreApart : List ℕ → Type 0
AreApart [] = Unit
AreApart (a ∷ vs) = IsApart vs a × AreApart vs

-- No two versions of the images share an address.
abbrev pub AreUnshared : List ImageRef → Type 0
AreUnshared [] = Unit
AreUnshared (img ∷ imgs) =
    AreApart img.versions × All (IsApart (addresses imgs)) img.versions × AreUnshared imgs

abbrev pub Agree : Store → Store → ℕ → Type 0
Agree s s' a = s'.cell a ≡ s.cell a

pub All-split {ℓ} : (P : ℕ → Type ℓ) (vs bs : List ℕ) → All P (vs ++ bs) → All P vs × All P bs
All-split P [] bs h = (tt, h)
All-split P (a ∷ vs) bs (p, h) = let (x, y) = All-split P vs bs h in ((p, x), y)

pub All-map {ℓ κ} :
    (P : ℕ → Type ℓ) (Q : ℕ → Type κ) → ((a : ℕ) → P a → Q a) → (vs : List ℕ) → All P vs → All Q vs
All-map P Q f [] h = tt
All-map P Q f (a ∷ vs) (p, h) = (f a p, All-map P Q f vs h)

pub read_versions-Agree :
    (s s' : Store) (vs : List ℕ) → All (Agree s s') vs → map s'.cell vs ≡ map s.cell vs
read_versions-Agree s s' [] h = refl
read_versions-Agree s s' (a ∷ vs) (p, h) = ap₂ ◌∷◌ p (read_versions-Agree s s' vs h)

pub read-Agree :
    (s s' : Store) (imgs : List ImageRef)
    → All (Agree s s') (addresses imgs)
    → read s' imgs ≡ read s imgs
read-Agree s s' [] h = refl
read-Agree s s' (img ∷ imgs) h =
    let (here, rest) = All-split (Agree s s') img.versions (addresses imgs) h in
    ap₂ ◌∷◌
      (ap (λ vs. record { name = img.name; versions = vs })
        (read_versions-Agree s s' img.versions here))
      (read-Agree s s' imgs rest)

pub IsApart-nil : (xs : List ℕ) → All (IsApart []) xs
IsApart-nil [] = tt
IsApart-nil (x ∷ xs) = (tt, IsApart-nil xs)

pub IsApart-cons :
    (y : ℕ) (xs ys : List ℕ) → All (λ x. y ≢ x) xs → All (IsApart ys) xs → All (IsApart (y ∷ ys)) xs
IsApart-cons y [] ys h k = tt
IsApart-cons y (x ∷ xs) ys (n, h) (p, k) = ((λ e. n (sym e), p), IsApart-cons y xs ys h k)

pub IsApart-swap : (xs ys : List ℕ) → All (IsApart ys) xs → All (IsApart xs) ys
IsApart-swap [] ys h = IsApart-nil ys
IsApart-swap (x ∷ xs) ys (n, h) = IsApart-cons x ys xs n (IsApart-swap xs ys h)

module _ (stored : Stored) where
  versions_at-Agree :
      (name : String) (vs : List ℕ) (s : Store) (a : ℕ)
      → IsApart vs a
      → Agree s (carry_versions_at stored name vs s) a
  unfolding carry_versions_at
  versions_at-Agree name [] s a h = refl
  versions_at-Agree name (b ∷ vs) s a (n, h) =
      versions_at-Agree name vs (write b (carry_version stored name (s.cell b)) s) a h
      ∙ ground (arith, n)

  -- Only the versions of the images are written.
  pub images_at-Agree :
      (imgs : List ImageRef) (s : Store) (a : ℕ)
      → IsApart (addresses imgs) a
      → Agree s (carry_images_at stored imgs s) a
  unfolding carry_images_at
  images_at-Agree [] s a h = refl
  images_at-Agree (img ∷ imgs) s a h =
      let (here, rest) = All-split (λ b. a ≢ b) img.versions (addresses imgs) h in
      images_at-Agree imgs (carry_versions_at stored img.name img.versions s) a rest
      ∙ versions_at-Agree img.name img.versions s a here

  apart_sym : (a : ℕ) (vs : List ℕ) → IsApart vs a → All (λ b. b ≢ a) vs
  apart_sym a = All-map (λ b. a ≢ b) (λ b. b ≢ a) (λ b n e. n (sym e))

  written-Agree :
      (a : ℕ) (v : MachineImageVersion) (s : Store) (vs : List ℕ)
      → IsApart vs a
      → All (Agree s (write a v s)) vs
  written-Agree a v s = All-map (λ b. a ≢ b) (Agree s (write a v s)) (λ b n. ground (arith, n))

  read-versions_at :
      (name : String) (vs : List ℕ) (s : Store)
      → AreApart vs
      → map (carry_versions_at stored name vs s).cell vs
        ≡ map (carry_version stored name) (map s.cell vs)
  unfolding carry_versions_at
  read-versions_at name [] s h = refl
  read-versions_at name (a ∷ vs) s (n, h) =
      let s1 = write a (carry_version stored name (s.cell a)) s in
      ap₂ ◌∷◌ (versions_at-Agree name vs s1 a n ∙ ground arith) (
        read-versions_at name vs s1 h
        ∙ ap (map (carry_version stored name)) (
            read_versions-Agree s s1 vs
              (written-Agree a (carry_version stored name (s.cell a)) s vs n)))

  read-images_at :
      (imgs : List ImageRef) (s : Store)
      → AreUnshared imgs
      → read (carry_images_at stored imgs s) imgs ≡ map (carry_image stored) (read s imgs)
  unfolding carry_images_at carry_image
  read-images_at [] s h = refl
  read-images_at (img ∷ imgs) s (apart, others, h) =
      let s1 = carry_versions_at stored img.name img.versions s in
      let here =
        All-map (IsApart (addresses imgs)) (Agree s1 (carry_images_at stored imgs s1))
          (images_at-Agree imgs s1) img.versions others in
      let there =
        All-map (IsApart img.versions) (Agree s s1) (versions_at-Agree img.name img.versions s)
          (addresses imgs) (IsApart-swap img.versions (addresses imgs) others) in
      ap₂ ◌∷◌
        (ap (λ vs. record { name = img.name; versions = vs })
          (read_versions-Agree s1 (carry_images_at stored imgs s1) img.versions here
            ∙ read-versions_at img.name img.versions s apart))
        (read-images_at imgs s1 h ∙ ap (map (carry_image stored)) (read-Agree s s1 imgs there))

pub read-carry_expiration_dates_at :
    (existing next : List ImageRef) (s : Store)
    → AreUnshared next
    → read (carry_expiration_dates_at existing next s) next
      ≡ carry_expiration_dates (read s existing) (read s next)
unfolding carry_expiration_dates_at carry_expiration_dates
read-carry_expiration_dates_at existing next s =
    read-images_at (store_images (read s existing) []) next s
