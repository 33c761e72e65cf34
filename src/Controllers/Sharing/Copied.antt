-- ===== src/Controllers/Sharing/Copied.antt =====
-- A deep copy reads the same, has addresses of its own, and leaves what there was.
use mathlib.Core.Path.{ap₂}
use cloud_profile_sync.Common.{
  ℕ, ◌≤◌, ◌<◌, ◌≡◌, ◌≢◌, refl, ap, ◌∙◌, List, [], ◌∷◌, ◌++◌, All, map, nat_eq, arith,
}
use cloud_profile_sync.Controllers.Sharing.{
  Store, ImageRef, read, addresses, Copier, deep_copy_machine_images,
}
use cloud_profile_sync.Controllers.Sharing.Carried.{
  IsApart, AreApart, AreUnshared, Agree, All-split, All-map, read_versions-Agree, read-Agree,
}

-- The store has these addresses.
abbrev pub AreIn : Store → List ℕ → Type 0
AreIn s vs = All (λ a. a < s.next) vs

abbrev pub AreBetween : ℕ → ℕ → List ℕ → Type 0
AreBetween lo hi vs = All (λ a. (lo ≤ a) × (a < hi)) vs

-- The new store only adds to the old one.
pub record Extends (s s' : Store) : Type 0 where
  pub grows : s.next ≤ s'.next
  pub keeps : (a : ℕ) → a < s.next → Agree s s' a

pub record IsCopied (s s' : Store) (vs copies : List ℕ) : Type 0 where
  pub extends : Extends s s'
  pub fresh : AreBetween s.next s'.next copies
  pub apart : AreApart copies
  pub same : map s'.cell copies ≡ map s.cell vs

pub Extends-trans : (s t u : Store) → Extends s t → Extends t u → Extends s u
Extends-trans s t u p q = record {
  grows = omega (arith, p.grows, q.grows);
  keeps = λ a h. q.keeps a (omega (arith, h, p.grows)) ∙ p.keeps a h;
}

pub below-IsApart : (a : ℕ) (lo hi : ℕ) (vs : List ℕ) → a < lo → AreBetween lo hi vs → IsApart vs a
below-IsApart a lo hi vs h =
    All-map (λ b. (lo ≤ b) × (b < hi)) (λ b. a ≢ b) (λ b k e. absurd (omega (arith, h, k.0, e))) vs

pub AreIn-Agree : (s s' : Store) (vs : List ℕ) → Extends s s' → AreIn s vs → All (Agree s s') vs
AreIn-Agree s s' vs p = All-map (λ a. a < s.next) (Agree s s') p.keeps vs

pub AreIn-Extends : (s s' : Store) (vs : List ℕ) → Extends s s' → AreIn s vs → AreIn s' vs
AreIn-Extends s s' vs p =
    All-map (λ a. a < s.next) (λ a. a < s'.next) (λ a h. omega (arith, h, p.grows)) vs

pub widen :
    (lo lo' hi hi' : ℕ) (vs : List ℕ)
    → lo ≤ lo'
    → hi' ≤ hi
    → AreBetween lo' hi' vs
    → AreBetween lo hi vs
widen lo lo' hi hi' vs h k =
    All-map (λ a. (lo' ≤ a) × (a < hi')) (λ a. (lo ≤ a) × (a < hi))
      (λ a b. (omega (arith, h, b.0), omega (arith, k, b.1))) vs

-- What `DeepCopyInto` promises.
abbrev pub IsCopier : Copier → Type 0
IsCopier copy = (vs : List ℕ) (s : Store) → AreIn s vs → IsCopied s (copy vs s).1 vs (copy vs s).0

pub record AreCopied (s s' : Store) (imgs copies : List ImageRef) : Type 0 where
  pub extends : Extends s s'
  pub fresh : All (λ a. (s.next ≤ a) × (a < s'.next)) (addresses copies)
  pub unshared : AreUnshared copies
  pub same : read s' copies ≡ read s imgs

All-join {ℓ} : (P : ℕ → Type ℓ) (vs ws : List ℕ) → All P vs → All P ws → All P (vs ++ ws)
All-join P [] ws h k = k
All-join P (v ∷ vs) ws (p, h) k = (p, All-join P vs ws h k)

pub deep_copy-AreCopied :
    (copy : Copier) (copies_all : IsCopier copy) (imgs : List ImageRef) (s : Store)
    → AreIn s (addresses imgs)
    → AreCopied s
        (deep_copy_machine_images copy imgs s).1
        imgs
        (deep_copy_machine_images copy imgs s).0
unfolding deep_copy_machine_images
deep_copy-AreCopied copy copies_all [] s h = record {
  extends = record { grows = omega arith; keeps = λ a _. refl };
  fresh = tt;
  unshared = tt;
  same = refl;
}
deep_copy-AreCopied copy copies_all (img ∷ imgs) s h =
    let (here, there) = All-split (λ a. a < s.next) img.versions (addresses imgs) h in
    let (versions, s1) = copy img.versions s in
    let first = copies_all img.versions s here in
    let (copies, s') = deep_copy_machine_images copy imgs s1 in
    let rest =
      deep_copy-AreCopied copy copies_all imgs s1
        (AreIn-Extends s s1 (addresses imgs) first.extends there) in
    let apart : All (IsApart (addresses copies)) versions =
      All-map (λ a. (s.next ≤ a) × (a < s1.next)) (IsApart (addresses copies))
        (λ a b. below-IsApart a s1.next s'.next (addresses copies) b.1 rest.fresh) versions
        first.fresh in
    let kept : All (Agree s1 s') versions =
      All-map (λ a. (s.next ≤ a) × (a < s1.next)) (Agree s1 s') (λ a b. rest.extends.keeps a b.1)
        versions first.fresh in
    record {
      extends = Extends-trans s s1 s' first.extends rest.extends;
      fresh =
          All-join (λ a. (s.next ≤ a) × (a < s'.next)) versions (addresses copies)
            (widen s.next s.next s'.next s1.next versions (omega arith) rest.extends.grows
              first.fresh)
            (widen s.next s1.next s'.next s'.next (addresses copies) first.extends.grows
              (omega arith) rest.fresh);
      unshared = (first.apart, apart, rest.unshared);
      same =
          ap₂ ◌∷◌
            (ap (λ vs. record { name = img.name; versions = vs })
              (read_versions-Agree s1 s' versions kept ∙ first.same))
            (rest.same
              ∙ read-Agree s s1 imgs (AreIn-Agree s s1 (addresses imgs) first.extends there));
    }
