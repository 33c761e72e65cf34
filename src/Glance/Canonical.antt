-- ===== src/Glance/Canonical.antt =====
-- The image that `discoverRegion` takes for a version.
use mathlib.Core.List.{Mem, mem-cons_self, mem-cons_of_mem}
use cloud_profile_sync.Common.{
  ◌≡◌, ◌≢◌, refl, sym, ap, subst, ◌∙◌, ◌⊎◌, inl, inr, String, Option, none, some, true, false, List,
  [], ◌∷◌, string_eq, Option-cases, Bool-cases, if◌then◌else◌, All, arith,
}
use cloud_profile_sync.Common.Dict.{Dict, lookup, lookup-insert, lookup-nil}
use cloud_profile_sync.Common.Order.{compare_text-IsOrder}
use cloud_profile_sync.Semver.{Semver}
use cloud_profile_sync.Glance.{
  Glance, GlanceImage, prefer_image, parse_version, keep_preferred, canonical_images,
}

prefer_trans :
    (a b c : GlanceImage)
    → prefer_image b a ≡ false
    → prefer_image c b ≡ false
    → prefer_image c a ≡ false
unfolding prefer_image
prefer_trans a b c h k = ground (
  arith,
  compare_text-IsOrder.turn a.id b.id,
  compare_text-IsOrder.turn b.id c.id,
  compare_text-IsOrder.turn a.id c.id,
  compare_text-IsOrder.le_trans a.id b.id c.id,
  compare_text-IsOrder.le_trans c.id b.id a.id,
)

prefer_turn : (a b : GlanceImage) → prefer_image a b ≡ true → prefer_image b a ≡ false
unfolding prefer_image
prefer_turn a b h = ground (arith, compare_text-IsOrder.turn a.id b.id)

prefer_irrefl : (a : GlanceImage) → prefer_image a a ≡ false
unfolding prefer_image
prefer_irrefl a = ground (arith, compare_text-IsOrder.turn a.id a.id)

module _ (S : Semver) (g : Glance) (k : String) where
  abbrev IsOf : GlanceImage → Type 0
  IsOf img = parse_version S g img.name ≡ some k

  -- What the version's image is after a list, from what it is before it.
  abbrev Picks : List GlanceImage → Option GlanceImage → Option GlanceImage → Type 0
  Picks imgs before none = (before ≡ none) × All (λ img. ¬ IsOf img) imgs
  Picks imgs before (some best) =
      ((before ≡ some best) ⊎ (Mem best imgs × IsOf best))
      × All (λ img. IsOf img → prefer_image img best ≡ false) imgs
      × ((c : GlanceImage) → before ≡ some c → prefer_image c best ≡ false)

  abbrev add : GlanceImage → Option GlanceImage → Option GlanceImage
  add img none = some img
  add img (some cur) = if prefer_image img cur then some img else some cur

  abbrev next : GlanceImage → Dict String GlanceImage → Dict String GlanceImage
  next img canonical = elim (parse_version S g img.name) [
    | none ↦ canonical
    | some version ↦ keep_preferred S version img canonical
  ]

  next-other :
      (img : GlanceImage) (canonical : Dict String GlanceImage)
      → ¬ IsOf img
      → lookup k (next img canonical) ≡ lookup k canonical
  next-other img canonical n = elim (Option-cases (parse_version S g img.name)) [
    | inl e ↦ rw (next, e) refl
    | inr (version, e) ↦
        let other : k ≢ version = λ p. n (e ∙ ap some (sym p)) in
        rw (next, e) (ground (arith, other, lookup-insert k version img canonical))
  ]

  next-own :
      (img : GlanceImage) (canonical : Dict String GlanceImage)
      → IsOf img
      → lookup k (next img canonical) ≡ add img (lookup k canonical)
  next-own img canonical e = rw (next, e) (ground (arith, lookup-insert k k img canonical))

  step-other :
      (img : GlanceImage) (imgs : List GlanceImage) (before o : Option GlanceImage)
      → ¬ IsOf img
      → Picks imgs before o
      → Picks (img ∷ imgs) before o
  step-other img imgs before none n (b, h) = (b, (n, h))
  step-other img imgs before (some best) n (inl b, h, c) = (inl b, (λ p. absurd (n p), h), c)
  step-other img imgs before (some best) n (inr (m, p), h, c) =
      (inr (mem-cons_of_mem img m, p), (λ q. absurd (n q), h), c)

  -- The better of the new image and the one that was there.
  better :
      (img : GlanceImage) (before : Option GlanceImage)
      → (cur : GlanceImage) × (add img before ≡ some cur)
        × (prefer_image img cur ≡ false)
        × ((before ≡ some cur) ⊎ (cur ≡ img))
        × ((c : GlanceImage) → before ≡ some c → prefer_image c cur ≡ false)
  better img none = (img, refl, prefer_irrefl img, inr refl, λ c e. absurd (ground arith))
  better img (some old) = elim (Bool-cases (prefer_image img old)) [
    | inl p ↦ (
      img,
      rw p refl,
      prefer_irrefl img,
      inr refl,
      λ c e. ground (arith, prefer_turn img old p, e),
    )
    | inr p ↦ (old, rw p refl, p, inl refl, λ c e. ground (arith, prefer_irrefl old, e))
  ]

  step-own :
      (img : GlanceImage) (imgs : List GlanceImage) (before o : Option GlanceImage)
      → IsOf img
      → Picks imgs (add img before) o
      → Picks (img ∷ imgs) before o
  step-own img imgs before none p (b, h) =
      let (cur, e, _, _, _) = better img before in absurd (ground (arith, b, e))
  step-own img imgs before (some best) p (from, h, c) =
      let (cur, e, beaten, source, olds) = better img before in
      let above = c cur e in
      (
        elim from [
          | inr (m, q) ↦ inr (mem-cons_of_mem img m, q)
          | inl b ↦
              let same : cur ≡ best = ground (arith, b, e) in
              elim source [
                | inl s ↦ inl (s ∙ ap some same)
                | inr s ↦
                    let img_best : img ≡ best = sym s ∙ same in
                    inr (
                      subst (λ x. Mem x (img ∷ imgs)) img_best mem-cons_self,
                      subst IsOf img_best p,
                    )
              ]
        ],
        (λ _. prefer_trans best cur img above beaten, h),
        λ d q. prefer_trans best cur d above (olds d q),
      )

  own_or_not : (img : GlanceImage) → IsOf img ⊎ ¬ IsOf img
  own_or_not img = elim (Option-cases (parse_version S g img.name)) [
    | inl e ↦ inr (λ p. ground (arith, e, p))
    | inr (version, e) ↦ elim (string_eq.dec version k) [
      | yes p ↦ inl (e ∙ ap some p)
      | no n ↦ inr (λ p. ground (arith, e, p, n))
    ]
  ]

  Picks-nil : (o : Option GlanceImage) → Picks [] o o
  Picks-nil none = (refl, tt)
  Picks-nil (some best) = (inl refl, tt, λ c e. ground (arith, prefer_irrefl best, e))

  canonical-Picks :
      (imgs : List GlanceImage) (canonical : Dict String GlanceImage)
      → Picks imgs (lookup k canonical) (lookup k (canonical_images S g imgs canonical))
  unfolding canonical_images
  canonical-Picks [] canonical = Picks-nil (lookup k canonical)
  canonical-Picks (img ∷ imgs) canonical =
      let after = lookup k (canonical_images S g imgs (next img canonical)) in
      let rest = canonical-Picks imgs (next img canonical) in
      elim (own_or_not img) [
        | inl p ↦
            step-own img imgs (lookup k canonical) after p
              (subst (λ b. Picks imgs b after) (next-own img canonical p) rest)
        | inr n ↦
            step-other img imgs (lookup k canonical) after n
              (subst (λ b. Picks imgs b after) (next-other img canonical n) rest)
      ]

  -- What is right for a version: an image of it to which none of its images is preferred, or
  -- nothing if there is none.
  abbrev pub IsBest : List GlanceImage → Option GlanceImage → Type 0
  IsBest imgs none = All (λ img. ¬ IsOf img) imgs
  IsBest imgs (some best) =
      Mem best imgs × IsOf best × All (λ img. IsOf img → prefer_image img best ≡ false) imgs

  IsBest-of_Picks :
      (imgs : List GlanceImage) (o : Option GlanceImage) → Picks imgs none o → IsBest imgs o
  IsBest-of_Picks imgs none (_, h) = h
  IsBest-of_Picks imgs (some best) (inl e, h, _) = absurd (ground arith)
  IsBest-of_Picks imgs (some best) (inr (m, p), h, _) = (m, p, h)

  -- For each version that a name of a region's images has, `discoverRegion` takes one of its images
  -- to which no other image of the version is preferred, and for any other text none.
  pub canonical-IsBest :
      (imgs : List GlanceImage) → IsBest imgs (lookup k (canonical_images S g imgs []))
  canonical-IsBest imgs = IsBest-of_Picks imgs (lookup k (canonical_images S g imgs [])) (
      subst (λ b. Picks imgs b (lookup k (canonical_images S g imgs []))) (lookup-nil k)
        (canonical-Picks imgs []))
