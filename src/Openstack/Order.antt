-- ===== src/Openstack/Order.antt =====
-- The order of a source image's regions does not show in the configuration.
use Prim.Native.Nat.{Ordering}
use mathlib.Core.List.{Permᴰ}
use mathlib.Core.List.Permᴰ
use cloud_profile_sync.Common.{
  ℕ, ◌≤◌, ◌≡◌, ◌≢◌, refl, sym, ap, subst, ◌∙◌, String, List, [], ◌∷◌, ◌==◌, string_eq,
  if◌then◌else◌, arith,
}
use cloud_profile_sync.Common.Order.{
  compare_text_eq, compare_text-IsOrder, IsOrder, or_then-IsOrder, by_key-IsOrder,
}
use cloud_profile_sync.Common.Sort.Unique.{sort_func-Permᴰ}
use cloud_profile_sync.Workers.{weigh}
use cloud_profile_sync.Source.{RegionImage}
use cloud_profile_sync.Openstack.{
  RegionIdMapping, upsert_region, upsert_regions, compare_regions, sort_regions, merge_regions,
}

pub weigh-Permᴰ {ℓ} : {A : Type ℓ} (f : A → ℕ) (l m : List A) → Permᴰ l m → weigh f l ≡ weigh f m
weigh-Permᴰ f _ _ Permᴰ.nil = refl
weigh-Permᴰ f _ _ (Permᴰ.cons {l₁ = l} {l₂ = m} e p) = omega (arith, ap f e, weigh-Permᴰ f l m p)
weigh-Permᴰ f _ _ (Permᴰ.swap e d) = omega (arith, ap f e, ap f d)
weigh-Permᴰ f l m (Permᴰ.trans {l₂ = k} p q) = weigh-Permᴰ f l k p ∙ weigh-Permᴰ f k m q

abbrev named : String → RegionIdMapping → ℕ
named n r = if r.name == n then 1 else 0

-- No region is listed twice.
abbrev pub AreOnce : List RegionIdMapping → Type 0
AreOnce l = (n : String) → weigh (named n) l ≤ 1

abbrev pub given : String → RegionImage → ℕ
given n r = if r.region == n then 1 else 0

abbrev pub AreGivenOnce : List RegionImage → Type 0
AreGivenOnce l = (n : String) → weigh (given n) l ≤ 1

upsert_region-others :
    (l : List RegionIdMapping) (n m id : String)
    → n ≢ m
    → weigh (named n) (upsert_region l m id) ≡ weigh (named n) l
unfolding upsert_region
upsert_region-others [] n m id h = ground arith
upsert_region-others (r ∷ l) n m id h = ground (arith, upsert_region-others l n m id h)

upsert_region-one :
    (l : List RegionIdMapping) (m id : String)
    → weigh (named m) l ≤ 1
    → weigh (named m) (upsert_region l m id) ≡ 1
unfolding upsert_region
upsert_region-one [] m id h = ground arith
upsert_region-one (r ∷ l) m id h = ground (arith, upsert_region-one l m id)

upsert_region-AreOnce :
    (l : List RegionIdMapping) (m id : String) → AreOnce l → AreOnce (upsert_region l m id)
upsert_region-AreOnce l m id h n = elim (string_eq.dec n m) [
  | yes e ↦ rw e (omega (arith, upsert_region-one l m id (h m)))
  | no d ↦ omega (arith, upsert_region-others l n m id d, h n)
]

tail-AreOnce : (r : RegionIdMapping) (l : List RegionIdMapping) → AreOnce (r ∷ l) → AreOnce l
tail-AreOnce r l h n = omega (arith, h n)

module _ (m id : String) where
  abbrev with_id : RegionIdMapping → RegionIdMapping
  with_id r = record r { id = id }

  hit :
      (r : RegionIdMapping) (l : List RegionIdMapping)
      → r.name ≡ m
      → upsert_region (r ∷ l) m id ≡ with_id r ∷ l
  unfolding upsert_region
  hit r l e = ground arith

  miss :
      (r : RegionIdMapping) (l : List RegionIdMapping)
      → r.name ≢ m
      → upsert_region (r ∷ l) m id ≡ r ∷ upsert_region l m id
  unfolding upsert_region
  miss r l n = ground arith

  swap_two :
      (x y : RegionIdMapping) (l : List RegionIdMapping)
      → AreOnce (x ∷ y ∷ l)
      → Permᴰ (upsert_region (x ∷ y ∷ l) m id) (upsert_region (y ∷ x ∷ l) m id)
  swap_two x y l h = elim (string_eq.dec x.name m) [
    | yes p ↦ elim (string_eq.dec y.name m) [
      | yes q ↦ absurd (ground (arith, h m, p, q))
      | no n ↦ rw (hit x (y ∷ l) p, miss y (x ∷ l) n, hit x l p) (Permᴰ.swap refl refl)
    ]
    | no n ↦ elim (string_eq.dec y.name m) [
      | yes q ↦ rw (miss x (y ∷ l) n, hit y l q, hit y (x ∷ l) q) (Permᴰ.swap refl refl)
      | no d ↦
          rw (miss x (y ∷ l) n, miss y l d, miss y (x ∷ l) d, miss x l n) (Permᴰ.swap refl refl)
    ]
  ]

  upsert_region-Permᴰ :
      (l k : List RegionIdMapping)
      → Permᴰ l k
      → AreOnce l
      → Permᴰ (upsert_region l m id) (upsert_region k m id)
  upsert_region-Permᴰ _ _ Permᴰ.nil h = Permᴰ.refl _
  upsert_region-Permᴰ _ _ (Permᴰ.cons {a = a} {b = b} {l₁ = l} {l₂ = k} e p) h =
      rw e (elim (string_eq.dec b.name m) [
        | yes q ↦ rw (hit b l q, hit b k q) (Permᴰ.cons refl p)
        | no n ↦
            rw (miss b l n, miss b k n)
              (Permᴰ.cons refl (upsert_region-Permᴰ l k p (tail-AreOnce a l h)))
      ])
  upsert_region-Permᴰ _ _ (Permᴰ.swap {a = a} {b = b} {a' = a'} {b' = b'} {l = l} e f) h =
      rw (e, f)
        (swap_two b' a' l
          (subst (λ x. AreOnce (x ∷ a' ∷ l)) e (subst (λ y. AreOnce (a ∷ y ∷ l)) f h)))
  upsert_region-Permᴰ l k (Permᴰ.trans {l₂ = j} p q) h =
      Permᴰ.trans (upsert_region-Permᴰ l j p h)
        (upsert_region-Permᴰ j k q (λ n. omega (arith, weigh-Permᴰ (named n) l j p, h n)))

-- Two regions that differ change places.
two_regions :
    (l : List RegionIdMapping) (n m id jd : String)
    → n ≢ m
    → Permᴰ (upsert_region (upsert_region l n id) m jd) (upsert_region (upsert_region l m jd) n id)
unfolding upsert_region
two_regions [] n m id jd h =
    rw
      (
        miss m jd (record { name = n; id = id }) [] h,
        miss n id (record { name = m; id = jd }) [] (λ e. h (sym e)),
      )
      (Permᴰ.swap refl refl)
two_regions (r ∷ l) n m id jd h = elim (string_eq.dec r.name n) [
  | yes p ↦
      let d : r.name ≢ m = λ q. h (sym p ∙ q) in
      rw
        (
          hit n id r l p,
          miss m jd r l d,
          miss m jd (record r { id = id }) l d,
          hit n id r (upsert_region l m jd) p,
        )
        (Permᴰ.refl _)
  | no d ↦ elim (string_eq.dec r.name m) [
    | yes q ↦
        rw
          (
            miss n id r l d,
            hit m jd r l q,
            hit m jd r (upsert_region l n id) q,
            miss n id (record r { id = jd }) l d,
          )
          (Permᴰ.refl _)
    | no c ↦
        rw
          (
            miss n id r l d,
            miss m jd r l c,
            miss m jd r (upsert_region l n id) c,
            miss n id r (upsert_region l m jd) d,
          )
          (Permᴰ.cons refl (two_regions l n m id jd h))
  ]
]

upsert_regions-start :
    (imgs : List RegionImage) (l k : List RegionIdMapping)
    → Permᴰ l k
    → AreOnce l
    → Permᴰ (upsert_regions l imgs) (upsert_regions k imgs)
unfolding upsert_regions
upsert_regions-start [] l k p h = p
upsert_regions-start (r ∷ imgs) l k p h =
    upsert_regions-start imgs _ _ (upsert_region-Permᴰ r.region r.id l k p h)
      (upsert_region-AreOnce l r.region r.id h)

upsert_regions-Permᴰ :
    (l : List RegionIdMapping) (imgs others : List RegionImage)
    → Permᴰ imgs others
    → AreOnce l
    → AreGivenOnce imgs
    → Permᴰ (upsert_regions l imgs) (upsert_regions l others)
unfolding upsert_regions
upsert_regions-Permᴰ l _ _ Permᴰ.nil h g = Permᴰ.refl _
upsert_regions-Permᴰ l _ _ (Permᴰ.cons {a = a} {b = b} {l₁ = imgs} {l₂ = others} e p) h g = rw e (
    upsert_regions-Permᴰ (upsert_region l b.region b.id) imgs others p
      (upsert_region-AreOnce l b.region b.id h) (λ n. omega (arith, g n)))
upsert_regions-Permᴰ l _ _ (Permᴰ.swap {a = a} {b = b} {a' = a'} {b' = b'} {l = imgs} e f) h g =
    let differ : b'.region ≢ a'.region = λ q. ground (arith, g b'.region, e, f, q) in
    rw (e, f)
      (upsert_regions-start imgs _ _ (two_regions l b'.region a'.region b'.id a'.id differ)
        (upsert_region-AreOnce _ a'.region a'.id (upsert_region-AreOnce l b'.region b'.id h)))
upsert_regions-Permᴰ l imgs others (Permᴰ.trans {l₂ = j} p q) h g =
    Permᴰ.trans (upsert_regions-Permᴰ l imgs j p h g) (
      upsert_regions-Permᴰ l j others q h (λ n. omega (arith, weigh-Permᴰ (given n) imgs j p, g n)))

compare_regions-IsOrder : IsOrder compare_regions
unfolding compare_regions
compare_regions-IsOrder =
    or_then-IsOrder (by_key-IsOrder (λ (r : RegionIdMapping). r.name) compare_text-IsOrder)
      (by_key-IsOrder (λ (r : RegionIdMapping). r.id) compare_text-IsOrder)

compare_regions_eq : (a b : RegionIdMapping) → compare_regions a b ≡ Ordering.eq → a ≡ b
unfolding compare_regions
compare_regions_eq a b h = ground (arith, compare_text_eq a.name b.name, compare_text_eq a.id b.id)

-- The regions of an entry do not depend on the order in which a source image has its regions, if it
-- has each only once and the entry did so before.
pub merge_regions-perm :
    (imgs others : List RegionImage) (regions : List RegionIdMapping)
    → Permᴰ imgs others
    → AreGivenOnce imgs
    → AreOnce regions
    → merge_regions imgs regions ≡ merge_regions others regions
unfolding sort_regions
merge_regions-perm imgs others regions p g h =
    sort_func-Permᴰ compare_regions compare_regions-IsOrder
      (upsert_regions-Permᴰ regions imgs others p h g) (λ a b _ _ e. compare_regions_eq a b e)
