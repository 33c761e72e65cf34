-- ===== src/Capabilities/Equal.antt =====
-- `CapabilitiesEqual` and `mergeCapabilityFlavor` of capabilities.go
use cloud_profile_sync.Common.{
  ◌≡◌, refl, ◌↔◌, String, some, Bool, true, false, List, [], ◌∷◌, ◌++◌, is_empty, any, equal_sound,
  equal_refl, Option-cases, Bool-cases, inl, inr, ◌||◌, nat_eq, string_eq, arith, All,
}
use cloud_profile_sync.Common.Dict.{
  Dict, lookup, lookup-cons, NodupKeys, SubDict, SubDict-lookup, same_length,
}
use cloud_profile_sync.Gardener.{Capabilities, MachineImageFlavor}
use cloud_profile_sync.Capabilities.{
  entries, all_equal_in, capabilities_equal, merge_capability_flavor,
}

all_equal_in-cons :
    (j : String) (vals : List String) (a b : Dict String (List String))
    → all_equal_in ((j, vals) ∷ a) b ≡ true
    → (lookup j b ≡ some vals) × (all_equal_in a b ≡ true)
unfolding all_equal_in
all_equal_in-cons j vals a b h = elim (Option-cases (lookup j b)) [
  | inl e ↦ absurd (ground arith)
  | inr (w, e) ↦ (ground (arith, equal_sound vals w), ground arith)
]

all_equal_in→SubDict : (a b : Dict String (List String)) → all_equal_in a b ≡ true → SubDict a b
unfolding lookup
all_equal_in→SubDict [] b h k v e = ground arith
all_equal_in→SubDict ((j, vals) ∷ a) b h k v e =
    let (here, there) = all_equal_in-cons j vals a b h in
    ground (arith, here, all_equal_in→SubDict a b there k v)

SubDict→all_equal_in :
    (a b : Dict String (List String)) → NodupKeys a → SubDict a b → all_equal_in a b ≡ true
unfolding all_equal_in
SubDict→all_equal_in [] b u h = refl
SubDict→all_equal_in ((j, vals) ∷ a) b (fresh, u) h = ground (
  arith,
  h j vals,
  lookup-cons j j vals a,
  equal_refl vals,
  SubDict→all_equal_in a b u (λ k v e. ground (arith, h k v, lookup-cons k j vals a)),
)

-- For maps that have each key once, `CapabilitiesEqual` answers true exactly if every key has the
-- same values in both.
pub capabilities_equal_iff :
    (a b : Capabilities)
    → NodupKeys (entries a)
    → NodupKeys (entries b)
    → (capabilities_equal a b ≡ true) ↔ ((k : String) → lookup k (entries a) ≡ lookup k (entries b))
unfolding capabilities_equal
capabilities_equal_iff a b u v = (
  λ h.
      SubDict-lookup (entries a) (entries b) u (ground arith)
        (all_equal_in→SubDict (entries a) (entries b) (ground arith)),
  λ h. ground (
    arith,
    same_length (entries a) (entries b) u v h,
    SubDict→all_equal_in (entries a) (entries b) u (λ k x e. rw (← h k) e),
  ),
)

-- The flavors of a list differ pairwise, by the program's own comparison.
abbrev pub AreDistinct : List MachineImageFlavor → Type 0
AreDistinct [] = Unit
AreDistinct (f ∷ fs) =
    All (λ g. capabilities_equal f.capabilities g.capabilities ≡ false) fs × AreDistinct fs

any-append :
    (p : MachineImageFlavor → Bool) (fs : List MachineImageFlavor) (g : MachineImageFlavor)
    → any p (fs ++ g ∷ []) ≡ any p fs || p g
unfolding any
any-append p [] g = ground arith
any-append p (f ∷ fs) g = ground (arith, any-append p fs g)

module _ (caps : Capabilities) where
  abbrev flavor : MachineImageFlavor
  flavor = record { capabilities = caps }

  All-append_flavor :
      (f : MachineImageFlavor) (fs : List MachineImageFlavor)
      → capabilities_equal f.capabilities caps ≡ false
      → All (λ g. capabilities_equal f.capabilities g.capabilities ≡ false) fs
      → All (λ g. capabilities_equal f.capabilities g.capabilities ≡ false) (fs ++ flavor ∷ [])
  All-append_flavor f [] h _ = (h, tt)
  All-append_flavor f (g ∷ fs) h (k, ks) = (k, All-append_flavor f fs h ks)

  AreDistinct-append :
      (fs : List MachineImageFlavor)
      → any (λ f. capabilities_equal f.capabilities caps) fs ≡ false
      → AreDistinct fs
      → AreDistinct (fs ++ flavor ∷ [])
  unfolding any
  AreDistinct-append [] h _ = (tt, tt)
  AreDistinct-append (f ∷ fs) h (d, ds) =
      (All-append_flavor f fs (ground arith) d, AreDistinct-append fs (ground arith) ds)

  -- Merging keeps the flavors pairwise distinct.
  pub merge-AreDistinct :
      (fs : List MachineImageFlavor)
      → AreDistinct fs
      → AreDistinct (merge_capability_flavor fs caps)
  unfolding merge_capability_flavor
  merge-AreDistinct fs d = elim (Bool-cases (is_empty (entries caps))) [
    | inl e ↦ rw e d
    | inr e ↦ elim (Bool-cases (any (λ f. capabilities_equal f.capabilities caps) fs)) [
      | inl m ↦ rw (e, m) d
      | inr m ↦ rw (e, m) (AreDistinct-append fs m d)
    ]
  ]

  capabilities_equal_refl : NodupKeys (entries caps) → capabilities_equal caps caps ≡ true
  capabilities_equal_refl u = (capabilities_equal_iff caps caps u u).1 (λ k. refl)

  -- Merging the same capabilities, a map that has each key once, once more changes nothing.
  pub merge_idempotent :
      (fs : List MachineImageFlavor)
      → NodupKeys (entries caps)
      → merge_capability_flavor (merge_capability_flavor fs caps) caps
        ≡ merge_capability_flavor fs caps
  unfolding merge_capability_flavor
  merge_idempotent fs u = elim (Bool-cases (is_empty (entries caps))) [
    | inl e ↦ rw e
    | inr e ↦ elim (Bool-cases (any (λ f. capabilities_equal f.capabilities caps) fs)) [
      | inl m ↦ rw (e, m) (rw m)
      | inr m ↦
          rw (e, m)
            (rw (any-append (λ f. capabilities_equal f.capabilities caps) fs flavor)
              (rw (m, capabilities_equal_refl u)))
    ]
  ]
