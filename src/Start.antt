-- ===== src/Start.antt =====
-- main.go, and the registration of the types in api/v1alpha1/groupversion_info.go. Flags, the
-- environment, the kubeconfig, schemes and the manager are parameters, in the record `System`.
use cloud_profile_sync.Common.{
  ℕ, ◌≡◌, refl, ◌⊎◌, inl, inr, ◌≢◌, String, none, some, arith, Bool, List, [], ◌∷◌, ◌==◌, string_eq,
  if◌then◌else◌,
}
use cloud_profile_sync.Common.Result.{Result, ok, err, ◌>>=◌, >>=-eq-ok, Result-cases}
use cloud_profile_sync.Collection.{RegistryClient}
use cloud_profile_sync.Controllers.Defaults.{Create, Reconciler, setup_with_manager}

pub record GroupVersion : Type 0 where
  pub group : String
  pub version : String

pub record Flags : Type 0 where
  pub kubecontext : String
  pub enable_machine_image_capabilities : Bool

pub record System : Type 1 where
  pub Scheme : Type 0
  pub Config : Type 0
  pub Manager : Type 0
  -- `runtime.NewScheme`, the `AddToScheme` of the two libraries, and the methods of a scheme
  pub new_scheme : Scheme
  pub add_client_go : Scheme → Result Scheme
  pub add_gardener : Scheme → Result Scheme
  pub add_known_types : GroupVersion → List String → Scheme → Scheme
  pub add_to_group_version : GroupVersion → Scheme → Scheme
  -- `flag.Parse`: the flags, or the code with which it ends the program
  pub parse_flags : List String → Flags ⊎ ℕ
  pub getenv : String → String
  pub get_config_with_context : String → Result Config
  pub new_manager : Config → Scheme → Result Manager
  -- the builder's `Complete`
  pub complete : Manager → Reconciler → Result (Unit {0})
  -- `Start`, with the reconciler that was set up
  pub start : Manager → Reconciler → Result (Unit {0})
  -- the defaults of `SetupWithManager`
  pub default_create : Create
  pub get_registry_provider : String → Result RegistryClient

abbrev pub group_version : GroupVersion
group_version = record { group = "cloudprofilesync.cobaltcore.dev"; version = "v1alpha1" }

module _ (sys : System) where
  -- `addKnownTypes`, which is what `AddToScheme` of the package calls
  unfoldable pub add_to_scheme : sys.Scheme → Result sys.Scheme
  add_to_scheme s = ok (
      sys.add_to_group_version group_version (
        sys.add_known_types group_version ("ManagedCloudProfile" ∷ "ManagedCloudProfileList" ∷ [])
          s))

  -- `init`; an error is a panic.
  unfoldable pub init : Result sys.Scheme
  unfolding add_to_scheme
  init = do s ← sys.add_client_go sys.new_scheme; s ← sys.add_gardener s; add_to_scheme s

  unfoldable pub context_name : String → String
  context_name kubecontext = if kubecontext == "" then sys.getenv "KUBECONTEXT" else kubecontext

  -- `getKubeconfigOrDie`; an error ends the program with code 1.
  unfoldable pub get_kubeconfig_or_die : String → Result sys.Config
  unfolding context_name
  get_kubeconfig_or_die kubecontext = sys.get_config_with_context (context_name kubecontext)

  -- What follows the flags.
  unfoldable pub run : sys.Scheme → Flags → Result (Unit {0})
  unfolding get_kubeconfig_or_die setup_with_manager
  run scheme flags = do
    config ← get_kubeconfig_or_die flags.kubecontext
    mgr ← sys.new_manager config scheme
    reconciler ←
        setup_with_manager sys.default_create sys.get_registry_provider (sys.complete mgr) (record {
          oci_source_factory = none;
          registry_provider_func = none;
          enable_capabilities = flags.enable_machine_image_capabilities;
        })
    sys.start mgr reconciler

  -- The code with which `main` ends.
  unfoldable pub main : sys.Scheme → List String → ℕ
  unfolding run
  main scheme args = elim (sys.parse_flags args) [
    | inr code ↦ code
    | inl flags ↦ elim (run scheme flags) [ ok _ ↦ 0 | err _ ↦ 1 ]
  ]

  -- The reconciler of `main`, as `SetupWithManager` leaves it.
  abbrev ready : Flags → Reconciler
  ready flags = record {
    oci_source_factory = some sys.default_create;
    registry_provider_func = some sys.get_registry_provider;
    enable_capabilities = flags.enable_machine_image_capabilities;
  }

  -- What a run with these flags has done when the manager has stopped without an error.
  abbrev pub HasRun : sys.Scheme → Flags → Type 0
  HasRun scheme flags =
      (config : sys.Config) × (mgr : sys.Manager) × (sys.get_config_with_context
          (context_name flags.kubecontext)
        ≡ ok config)
      × (sys.new_manager config scheme ≡ ok mgr)
      × (sys.complete mgr (ready flags) ≡ ok tt)
      × (sys.start mgr (ready flags) ≡ ok tt)

  run-HasRun :
      (scheme : sys.Scheme) (flags : Flags) → run scheme flags ≡ ok tt → HasRun scheme flags
  unfolding run get_kubeconfig_or_die setup_with_manager
  run-HasRun scheme flags h =
      let (config, e, h1) = >>=-eq-ok (get_kubeconfig_or_die flags.kubecontext) _ h in
      let (mgr, p, h2) = >>=-eq-ok (sys.new_manager config scheme) _ h1 in
      elim (Result-cases (sys.complete mgr (ready flags))) [
        | inl (d, q) ↦ absurd (ground (arith, q, h2))
        | inr (_, q) ↦ (config, mgr, e, p, q, ground (arith, q, h2))
      ]

  HasRun-run :
      (scheme : sys.Scheme) (flags : Flags) → HasRun scheme flags → run scheme flags ≡ ok tt
  unfolding run get_kubeconfig_or_die setup_with_manager
  HasRun-run scheme flags (config, mgr, e, p, q, r) = rw e (rw p (rw q r))

  -- With flags that can be read, `main` ends with code 0 exactly if the configuration of the chosen
  -- context can be had, a manager can be made, and it has run a reconciler with the default factories
  -- and with the capabilities of the flag; otherwise it ends with code 1.
  pub main_iff :
      (scheme : sys.Scheme) (args : List String) (flags : Flags)
      → sys.parse_flags args ≡ inl flags
      → (main scheme args ≡ 0 → HasRun scheme flags)
        × (HasRun scheme flags → main scheme args ≡ 0)
        × (main scheme args ≢ 0 → main scheme args ≡ 1)
  unfolding main
  main_iff scheme args flags e = elim (Result-cases (run scheme flags)) [
    | inl (d, p) ↦
        let code : main scheme args ≡ 1 = rw (main, e) (rw p refl) in
        (
          λ h. absurd (ground (arith, h, code)),
          λ k. let done = HasRun-run scheme flags k in absurd (ground (arith, p, done)),
          λ _. code,
        )
    | inr (_, p) ↦
        let code : main scheme args ≡ 0 = rw (main, e) (rw p refl) in
        (λ _. run-HasRun scheme flags p, λ _. code, λ n. absurd (n code))
  ]
