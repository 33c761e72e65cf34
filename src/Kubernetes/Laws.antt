-- ===== src/Kubernetes/Laws.antt =====
-- Which Kubernetes versions `Apply` returns, and when it refuses.
use cloud_profile_sync.Common.{
  ◌≡◌, ◌≢◌, refl, ◌↔◌, ◌⊎◌, ap, subst, ◌∙◌, Bool, true, false, not, List, [], ◌∷◌, ◌++◌, All,
  select, inl, inr, arith,
}
use cloud_profile_sync.Common.Int.{◌-ℤ◌}
use cloud_profile_sync.Common.Result.{Error, ok, err}
use cloud_profile_sync.Gardener.{Time, ExpirableVersion}
use cloud_profile_sync.Kubernetes.{KubernetesVersionUpdater, is_expired, apply, refuse_empty}

module _ (now : Time) (ku : KubernetesVersionUpdater) where
  abbrev pub is_past : ExpirableVersion → Bool
  is_past = is_expired (now -ℤ ku.expiration_threshold)

  abbrev pub live : List ExpirableVersion → List ExpirableVersion
  live = select (λ v. not (is_past v))

  All-live : (vs : List ExpirableVersion) → All (λ v. is_past v ≡ false) (live vs)
  unfolding select
  All-live [] = tt
  All-live (v ∷ vs) = ground (arith, All-live vs)

  live_none : (vs : List ExpirableVersion) → (live vs ≡ []) ↔ All (λ v. is_past v ≡ true) vs
  unfolding select
  live_none [] = (λ _. tt, λ _. refl)
  live_none (v ∷ vs) = ground (arith, live_none vs)

  live-append : (vs ws : List ExpirableVersion) → live (vs ++ ws) ≡ live vs ++ live ws
  unfolding select
  live-append [] ws = refl
  live-append (v ∷ vs) ws = ground (arith, live-append vs ws)

  live-cons :
      (v : ExpirableVersion) (vs : List ExpirableVersion)
      → is_past v ≡ false
      → live (v ∷ vs) ≡ v ∷ live vs
  unfolding select
  live-cons v vs h = ground arith

  not_refused :
      (ws : List ExpirableVersion) (v : ExpirableVersion) (us : List ExpirableVersion)
      → refuse_empty (ws ++ v ∷ us) ≡ ok (ws ++ v ∷ us)
  not_refused [] v us = refl
  not_refused (w ∷ ws) v us = refl

  -- Either every version is past its threshold, and the answer is an error; or the answer is a list
  -- that is not empty and holds no version past its threshold.
  pub apply_cases :
      (vs : List ExpirableVersion)
      → (All (λ v. is_past v ≡ true) vs × ((e : Error) × (apply now ku vs ≡ err e)))
        ⊎ ((ws : List ExpirableVersion) × (apply now ku vs ≡ ok ws)
            × (ws ≢ [])
            × All (λ v. is_past v ≡ false) ws)
  unfolding apply
  apply_cases vs = go (live vs) refl
    where
      go :
          (ws : List ExpirableVersion)
          → live vs ≡ ws
          → (All (λ v. is_past v ≡ true) vs × ((e : Error) × (apply now ku vs ≡ err e)))
            ⊎ ((ws : List ExpirableVersion) × (apply now ku vs ≡ ok ws)
                × (ws ≢ [])
                × All (λ v. is_past v ≡ false) ws)
      go [] e = inl ((live_none vs).0 e, (_, ap refuse_empty e))
      go (w ∷ ws) e = inr (
        w ∷ ws,
        ap refuse_empty e,
        (λ h. ground arith),
        subst (All (λ v. is_past v ≡ false)) e (All-live vs),
      )

  -- Versions that are not past their threshold stay, in their order: one that stands between two
  -- lists of versions stands between what is left of these.
  pub apply_keeps :
      (before after : List ExpirableVersion) (v : ExpirableVersion)
      → is_past v ≡ false
      → apply now ku (before ++ v ∷ after) ≡ ok (live before ++ v ∷ live after)
  unfolding apply
  apply_keeps [] after v h = ap refuse_empty (live-cons v after h)
  apply_keeps (b ∷ before) after v h =
      ap refuse_empty
        (live-append (b ∷ before) (v ∷ after) ∙ ap (◌++◌ (live (b ∷ before))) (live-cons v after h))
      ∙ not_refused (live (b ∷ before)) v (live after)
