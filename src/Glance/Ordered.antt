-- ===== src/Glance/Ordered.antt =====
-- `compareSemverDesc` is a comparison as `slices.SortFunc` wants it.
use Prim.Native.Nat.{Ordering}
use cloud_profile_sync.Common.{◌≡◌, ◌≢◌, String, inl, inr, arith}
use cloud_profile_sync.Common.Order.{IsOrder, compare_text-IsOrder, flip}
use cloud_profile_sync.Common.Result.{Result-cases}
use cloud_profile_sync.Semver.{Semver, IsSemver}
use cloud_profile_sync.Glance.{compare_semver_desc}

module _ (S : Semver) (laws : IsSemver S) where
  desc-turn : (a b : String) → compare_semver_desc S b a ≡ flip (compare_semver_desc S a b)
  unfolding compare_semver_desc
  desc-turn a b = elim (Result-cases (S.parse_tolerant a)) [
    | inl (_, p) ↦ elim (Result-cases (S.parse_tolerant b)) [
      | inl (_, q) ↦ ground (arith, p, q, compare_text-IsOrder.turn a b)
      | inr (_, q) ↦ ground (arith, p, q)
    ]
    | inr (v, p) ↦ elim (Result-cases (S.parse_tolerant b)) [
      | inl (_, q) ↦ ground (arith, p, q)
      | inr (w, q) ↦ ground (arith, p, q, laws.order.turn w v)
    ]
  ]

  desc-le_trans :
      (a b c : String)
      → compare_semver_desc S a b ≢ Ordering.gt
      → compare_semver_desc S b c ≢ Ordering.gt
      → compare_semver_desc S a c ≢ Ordering.gt
  unfolding compare_semver_desc
  desc-le_trans a b c = elim (Result-cases (S.parse_tolerant a)) [
    | inl (_, p) ↦ elim (Result-cases (S.parse_tolerant b)) [
      | inl (_, q) ↦ elim (Result-cases (S.parse_tolerant c)) [
        | inl (_, r) ↦ ground (arith, p, q, r, compare_text-IsOrder.le_trans a b c)
        | inr (_, r) ↦ ground (arith, p, q, r)
      ]
      | inr (w, q) ↦ ground (arith, p, q)
    ]
    | inr (v, p) ↦ elim (Result-cases (S.parse_tolerant c)) [
      | inl (_, r) ↦ ground (arith, p, r)
      | inr (u, r) ↦ elim (Result-cases (S.parse_tolerant b)) [
        | inl (_, q) ↦ ground (arith, p, q, r)
        | inr (w, q) ↦ ground (arith, p, q, r, laws.order.le_trans u w v)
      ]
    ]
  ]

  pub compare_semver_desc-IsOrder : IsOrder (compare_semver_desc S)
  compare_semver_desc-IsOrder = record { turn = desc-turn; le_trans = desc-le_trans }
