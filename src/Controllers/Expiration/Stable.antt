-- ===== src/Controllers/Expiration/Stable.antt =====
-- The dates of deprecated versions from one reconciliation to the next.
use mathlib.Core.Path.{ap₂}
use mathlib.Core.List.{foldl}
use cloud_profile_sync.Common.{
  ◌≡◌, refl, sym, ap, subst, ◌∙◌, String, Option, none, some, false, List, [], ◌∷◌, ◌++◌, map, All,
  Option-cases, inl, inr, contains, string_eq, if◌then◌else◌, arith,
}
use cloud_profile_sync.Common.Dict.{lookup, insert, lookup-insert, lookup-nil}
use cloud_profile_sync.Gardener.{Time, MachineImage, MachineImageVersion}
use cloud_profile_sync.Controllers.Expiration.{
  Stored, store_versions, store_images, is_deprecated, carry_version, carry_image,
  carry_expiration_dates, expiration_date_key,
}

-- What one version adds to the dates.
abbrev pub Dated : Type 0
Dated = String × Option Time

abbrev pub dated : String → MachineImageVersion → Dated
dated name v = (expiration_date_key name v.version, v.expiration_date)

abbrev put : Stored → Dated → Stored
put stored (k, none) = stored
put stored (k, some date) = insert k date stored

abbrev pub keys_of : List MachineImage → List String
keys_of [] = []
keys_of (img ∷ imgs) =
    map (λ v. expiration_date_key img.name v.version) img.versions ++ keys_of imgs

abbrev pub dates_of : List MachineImage → List Dated
dates_of [] = []
dates_of (img ∷ imgs) = map (dated img.name) img.versions ++ dates_of imgs

store_versions-foldl :
    (name : String) (vs : List MachineImageVersion) (stored : Stored)
    → store_versions name vs stored ≡ foldl put stored (map (dated name) vs)
unfolding store_versions
store_versions-foldl name [] stored = refl
store_versions-foldl name (v ∷ vs) stored = elim (Option-cases v.expiration_date) [
  | inl e ↦ rw e (store_versions-foldl name vs stored)
  | inr (date, e) ↦ rw e (store_versions-foldl name vs _)
]

foldl-append {ℓ κ} :
    {A : Type ℓ} {B : Type κ} (f : A → B → A) (a : A) (xs ys : List B)
    → foldl f a (xs ++ ys) ≡ foldl f (foldl f a xs) ys
foldl-append f a [] ys = refl
foldl-append f a (x ∷ xs) ys = foldl-append f (f a x) xs ys

store_images-foldl :
    (imgs : List MachineImage) (stored : Stored)
    → store_images imgs stored ≡ foldl put stored (dates_of imgs)
unfolding store_images
store_images-foldl [] stored = refl
store_images-foldl (img ∷ imgs) stored =
    store_images-foldl imgs _
    ∙ ap (λ s. foldl put s (dates_of imgs)) (store_versions-foldl img.name img.versions stored)
    ∙ sym (foldl-append put stored (map (dated img.name) img.versions) (dates_of imgs))

-- Each key comes once.
abbrev pub AreOnce : List String → Type 0
AreOnce [] = Unit
AreOnce (k ∷ ks) = (contains ks k ≡ false) × AreOnce ks

abbrev key_of : Dated → String
key_of (k, _) = k

lookup-unseen :
    (k : String) (ps : List Dated) (stored : Stored)
    → contains (map key_of ps) k ≡ false
    → lookup k (foldl put stored ps) ≡ lookup k stored
unfolding contains
lookup-unseen k [] stored h = refl
lookup-unseen k ((j, none) ∷ ps) stored h = lookup-unseen k ps stored (ground arith)
lookup-unseen k ((j, some date) ∷ ps) stored h =
    lookup-unseen k ps (insert j date stored) (ground arith)
    ∙ ground (arith, lookup-insert k j date stored)

abbrev IsFresh : Stored → Dated → Type 0
IsFresh stored (k, _) = lookup k stored ≡ none

put-IsFresh :
    (k : String) (o : Option Time) (ps : List Dated) (stored : Stored)
    → contains (map key_of ps) k ≡ false
    → All (IsFresh stored) ps
    → All (IsFresh (put stored (k, o))) ps
unfolding contains
put-IsFresh k none ps stored h fresh = fresh
put-IsFresh k (some date) [] stored h fresh = tt
put-IsFresh k (some date) ((j, o) ∷ ps) stored h (f, fresh) = (
  ground (arith, lookup-insert j k date stored),
  put-IsFresh k (some date) ps stored (ground arith) fresh,
)

abbrev IsStored : Stored → Dated → Type 0
IsStored stored (k, o) = lookup k stored ≡ o

lookup-put :
    (k : String) (o : Option Time) (stored : Stored)
    → lookup k stored ≡ none
    → lookup k (put stored (k, o)) ≡ o
lookup-put k none stored h = h
lookup-put k (some date) stored h = ground (arith, lookup-insert k k date stored)

-- Where each key comes once, its date is the one that is stored.
All-stored :
    (ps : List Dated) (stored : Stored)
    → AreOnce (map key_of ps)
    → All (IsFresh stored) ps
    → All (IsStored (foldl put stored ps)) ps
All-stored [] stored _ _ = tt
All-stored ((k, o) ∷ ps) stored (once, rest) (f, fresh) = (
  lookup-unseen k ps (put stored (k, o)) once ∙ lookup-put k o stored f,
  All-stored ps (put stored (k, o)) rest (put-IsFresh k o ps stored once fresh),
)

All-IsFresh : (ps : List Dated) → All (IsFresh []) ps
All-IsFresh [] = tt
All-IsFresh ((k, o) ∷ ps) = (lookup-nil k, All-IsFresh ps)

All-append {ℓ κ} :
    {A : Type ℓ} (P : A → Type κ) (xs ys : List A) → All P (xs ++ ys) → All P xs × All P ys
All-append P [] ys h = (tt, h)
All-append P (x ∷ xs) ys (p, h) = let (a, b) = All-append P xs ys h in ((p, a), b)

map-append {ℓ κ} :
    {A : Type ℓ} {B : Type κ} (f : A → B) (xs ys : List A) → map f (xs ++ ys) ≡ map f xs ++ map f ys
map-append f [] ys = refl
map-append f (x ∷ xs) ys = ap (◌∷◌ (f x)) (map-append f xs ys)

module _ (stored : Stored) where
  carried-key :
      (name : String) (v : MachineImageVersion) → (carry_version stored name v).version ≡ v.version
  unfolding carry_version
  carried-key name v = ground arith

  keys-carried_versions :
      (name : String) (vs : List MachineImageVersion)
      → map key_of (map (dated name) (map (carry_version stored name) vs))
        ≡ map (λ v. expiration_date_key name v.version) vs
  keys-carried_versions name [] = refl
  keys-carried_versions name (v ∷ vs) =
      ap₂ ◌∷◌ (ap (expiration_date_key name) (carried-key name v)) (keys-carried_versions name vs)

  keys-carried :
      (imgs : List MachineImage)
      → map key_of (dates_of (map (carry_image stored) imgs)) ≡ keys_of imgs
  unfolding carry_image
  keys-carried [] = refl
  keys-carried (img ∷ imgs) =
      map-append key_of (map (dated img.name) (map (carry_version stored img.name) img.versions)) _
      ∙ ap₂ ◌++◌ (keys-carried_versions img.name img.versions) (keys-carried imgs)

module _ (date : String → MachineImageVersion → Option Time) where
  -- What a source may list later: for a deprecated version that it dates, any date or none.
  unfoldable pub redate_version : String → MachineImageVersion → MachineImageVersion
  redate_version name v =
      if is_deprecated v.classification
      then elim v.expiration_date [ none ↦ v | some _ ↦ record v { expiration_date = date name v } ]
      else v

  unfoldable pub redate : List MachineImage → List MachineImage
  redate [] = []
  redate (img ∷ imgs) =
      record img { versions = map (redate_version img.name) img.versions } ∷ redate imgs

  module _ (stored later : Stored) where
    redated_version :
        (name : String) (v : MachineImageVersion)
        → IsStored later (dated name (carry_version stored name v))
        → carry_version later name (redate_version name v) ≡ carry_version stored name v
    unfolding carry_version redate_version
    redated_version name v h = ground arith

    redated_versions :
        (name : String) (vs : List MachineImageVersion)
        → All (IsStored later) (map (dated name) (map (carry_version stored name) vs))
        → map (carry_version later name) (map (redate_version name) vs)
          ≡ map (carry_version stored name) vs
    redated_versions name [] h = refl
    redated_versions name (v ∷ vs) (p, h) =
        ap₂ ◌∷◌ (redated_version name v p) (redated_versions name vs h)

    redated :
        (imgs : List MachineImage)
        → All (IsStored later) (dates_of (map (carry_image stored) imgs))
        → map (carry_image later) (redate imgs) ≡ map (carry_image stored) imgs
    unfolding carry_image redate
    redated [] h = refl
    redated (img ∷ imgs) h =
        let (here, rest) =
          All-append (IsStored later)
            (map (dated img.name) (map (carry_version stored img.name) img.versions)) _ h in
        ap₂ ◌∷◌
          (ap (λ vs. record img { versions = vs }) (redated_versions img.name img.versions here))
          (redated imgs rest)

  -- The dates of deprecated versions do not move: if the CloudProfile has what an earlier
  -- reconciliation left there, and the source lists the same versions with whatever dates for those
  -- deprecated ones that it dates, then the images are the same as before. The condition is that no
  -- two of the versions have one key.
  pub carry_stable :
      (existing next : List MachineImage)
      → AreOnce (keys_of next)
      → carry_expiration_dates (carry_expiration_dates existing next) (redate next)
        ≡ carry_expiration_dates existing next
  unfolding carry_expiration_dates
  carry_stable existing next once =
      let stored = store_images existing [] in
      let before = map (carry_image stored) next in
      let ps = dates_of before in
      let all =
        All-stored ps [] (subst AreOnce (sym (keys-carried stored next)) once) (All-IsFresh ps) in
      redated stored (store_images before []) next
        (subst (λ later. All (IsStored later) ps) (sym (store_images-foldl before [])) all)

  -- The same, for a CloudProfile that has the keys and the dates of what was left there.
  pub carry_settled :
      (existing next now : List MachineImage)
      → AreOnce (keys_of next)
      → dates_of now ≡ dates_of (carry_expiration_dates existing next)
      → carry_expiration_dates now (redate next) ≡ carry_expiration_dates existing next
  unfolding carry_expiration_dates
  carry_settled existing next now once same =
      let before = carry_expiration_dates existing next in
      let stored : store_images now [] ≡ store_images before [] =
        store_images-foldl now [] ∙ ap (foldl put []) same ∙ sym (store_images-foldl before []) in
      ap (λ s. map (carry_image s) (redate next)) stored ∙ carry_stable existing next once
