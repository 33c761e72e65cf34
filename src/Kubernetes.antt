-- ===== src/Kubernetes.antt =====
-- cloudprofilesync/k8ssync/k8s_image_updater.go. The clock is a parameter.
pub mod Laws
use cloud_profile_sync.Common.{
  Option, none, some, String, Bool, true, false, not, List, [], ◌∷◌, select, if◌then◌else◌,
}
use cloud_profile_sync.Common.Int.{ltb_ℤ, ◌-ℤ◌}
use cloud_profile_sync.Common.Result.{Result, ok, err, plain, wrapped}
use cloud_profile_sync.Gardener.{Time, Duration, ExpirableVersion}

-- `FetchVersions`
abbrev pub KubernetesVersionSource : Type 0
KubernetesVersionSource = Option String → Result (List ExpirableVersion)

pub record KubernetesVersionUpdater : Type 0 where
  pub source : KubernetesVersionSource
  pub expiration_threshold : Duration

unfoldable pub fetch : KubernetesVersionUpdater → Option String → Result (List ExpirableVersion)
fetch ku gardener_version =
    wrapped "fetching kubernetes versions: %w" [] (ku.source gardener_version)

unfoldable pub is_expired : Time → ExpirableVersion → Bool
is_expired cutoff v = elim v.expiration_date [ none ↦ false | some date ↦ ltb_ℤ date cutoff ]

abbrev refuse_empty : List ExpirableVersion → Result (List ExpirableVersion)
refuse_empty [] = err (
    plain
      "source returned no kubernetes versions after expiration filtering, refusing to wipe CloudProfile"
      [])
refuse_empty (v ∷ vs) = ok (v ∷ vs)

unfoldable pub apply :
    Time → KubernetesVersionUpdater → List ExpirableVersion → Result (List ExpirableVersion)
unfolding select is_expired
apply now ku versions =
    refuse_empty (select (λ v. not (is_expired (now -ℤ ku.expiration_threshold) v)) versions)
