-- ===== src/Tests/Start.antt =====
-- Runs of `main`.
use cloud_profile_sync.Common.{
  ◌≡◌, refl, inl, String, string_eq, List, [], ◌∷◌, true, ◌==◌, if◌then◌else◌,
}
use cloud_profile_sync.Common.Result.{ok, err}
use cloud_profile_sync.Start.{System, main}
use cloud_profile_sync.Tests.Data.{broken}

-- Only the context of the environment has a configuration; the scheme holds the kinds.
abbrev system : System
system = record {
  Scheme = List String;
  Config = String;
  Manager = String;
  new_scheme = [];
  add_client_go = λ s. ok ("Pod" ∷ s);
  add_gardener = λ s. ok ("CloudProfile" ∷ s);
  add_known_types = λ _ kinds s. kinds;
  add_to_group_version = λ _ s. s;
  parse_flags = λ args. elim args [
    | [] ↦ inl (record { kubecontext = ""; enable_machine_image_capabilities = true })
    | arg ∷ _ ↦ inl (record { kubecontext = arg; enable_machine_image_capabilities = true })
  ];
  getenv = λ _. "garden";
  get_config_with_context = λ name. if name == "garden" then ok name else err broken;
  new_manager = λ config _. ok config;
  complete = λ _ _. ok tt;
  start = λ _ _. ok tt;
  default_create = λ _ _ _ _. err broken;
  get_registry_provider = λ _. err broken;
}

from_environment : main system [] [] ≡ 0
unfolding main string_eq
from_environment = refl

from_flag : main system [] ("other" ∷ []) ≡ 1
unfolding main string_eq
from_flag = refl
