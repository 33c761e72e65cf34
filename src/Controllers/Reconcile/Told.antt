-- ===== src/Controllers/Reconcile/Told.antt =====
-- What the stored status tells after a reconciliation that is answered without an error.
use cloud_profile_sync.Common.{
  ◌≡◌, refl, sym, ap, ◌∙◌, subst, ◌⊎◌, inl, inr, String, Option, some, Bool, true, List, [],
  Bool-cases, string_eq, if◌then◌else◌, arith,
}
use cloud_profile_sync.Common.Result.{
  Result, ok, err, Error, is_kind, invalid, Result-cases, >>-eq-ok, ◌>>◌, wrapped, wrapped-eq-ok,
}
use cloud_profile_sync.Gardener.{MachineImage, RawExtension, ExpirableVersion}
use cloud_profile_sync.Api.{
  ManagedCloudProfile, ManagedCloudProfileStatus, Condition, ConditionStatus, condition_true,
  condition_false, ReconcileStatus, succeeded, failed,
}
use cloud_profile_sync.Controllers.Prepare.{Env}
use cloud_profile_sync.Controllers.Status.{next_status, failed_condition, applied_condition}
use cloud_profile_sync.Controllers.Status.Laws.{find, put_condition, put_condition-given}
use cloud_profile_sync.Controllers.Reconcile.History.{next_status-find}
use cloud_profile_sync.Controllers.Reconcile.{
  World, Server, CloudProfile, mutate, patch_status_and_condition, mark_failed, write_profile,
  reconcile_cloud_profile, answer_to_apply_error, reconcile, Requeue,
}
use cloud_profile_sync.Controllers.Reconcile.Patch.{PatchesStatus}
use cloud_profile_sync.Controllers.Reconcile.Laws.{prepare_all, prepared_write, patch-profile}
use cloud_profile_sync.Controllers.Reconcile.Answers.{
  invalid_of_ok, reconcile_cloud_profile_ok_iff, both_ok,
}

both_ok_requeue :
    (check : Result (Unit {0})) {requeue : Requeue}
    → (check >> ok (some 300)) ≡ ok requeue
    → check ≡ ok tt
both_ok_requeue (ok _) h = refl
both_ok_requeue (err e) h = absurd (ground (arith, h))

module _ (env : Env) (server : Server) (laws : PatchesStatus server) (mcp : ManagedCloudProfile)
    (w : World) (fresh : mcp.status ≡ w.status) where
  -- The status tells this, with a condition for the generation that was reconciled.
  abbrev pub Tells : ReconcileStatus → ConditionStatus → String → ManagedCloudProfileStatus → Type 0
  Tells status b reason st =
      (st.status ≡ status)
      × (c : Condition) × (find "CloudProfileApplied" st.conditions ≡ some c)
      × (c.status ≡ b)
      × (c.reason ≡ reason)
      × (c.observed_generation ≡ mcp.generation)

  stored_status :
      (status : ReconcileStatus) (cond : Condition) (profile : Option CloudProfile)
      → (patch_status_and_condition env server mcp status cond (record w { profile = profile })).0
        ≡ ok tt
      → (patch_status_and_condition env server mcp status cond
          (record w { profile = profile })).1.status
        ≡ next_status env.now status cond mcp.status
  unfolding patch_status_and_condition
  stored_status status cond profile h =
      let next = next_status env.now status cond mcp.status in
      let patched : ManagedCloudProfileStatus → Result (Unit {0}) × ManagedCloudProfileStatus =
        server.patch_status mcp.status next in
      let failure : String = "failed to patch ManagedCloudProfile status: %w" in
      let outcome : Bool → Result (Unit {0}) × World = λ b.
        if b then (ok tt, record w { profile = profile }) else (
          wrapped failure [] (patched w.status).0,
          record w { profile = profile; status = (patched w.status).1 },
        ) in
      elim (Bool-cases (server.status_eq mcp.status next)) [
        | inl equal ↦ rw equal (sym fresh ∙ laws.equal mcp.status next equal)
        | inr other ↦
            let taken : (patched w.status).0 ≡ ok tt =
              wrapped-eq-ok failure [] (patched w.status).0
                (subst (λ b. (outcome b).0 ≡ ok tt) other h) in
            rw other (elim (laws.patches mcp.status next) [
              | inl p ↦ ap (λ st. (patched st).1) (sym fresh) ∙ p
              | inr (_, e, p) ↦
                  absurd (ground (arith, taken, ap (λ st. (patched st).0) (sym fresh) ∙ p))
            ])
      ]

  next_status-Tells :
      (status : ReconcileStatus) (cond : Condition)
      → cond.type ≡ "CloudProfileApplied"
      → cond.observed_generation ≡ mcp.generation
      → Tells status cond.status cond.reason (next_status env.now status cond mcp.status)
  unfolding next_status
  next_status-Tells status cond named generation =
      let put = put_condition env.now cond (find cond.type mcp.status.conditions) in
      let given = put_condition-given env.now cond (find cond.type mcp.status.conditions) in
      (
        refl,
        put,
        next_status-find env.now status cond mcp.status named,
        ap (λ (c : Condition). c.status) given,
        ap (λ (c : Condition). c.reason) given,
        ap (λ (c : Condition). c.observed_generation) given ∙ generation,
      )

  module _ (prepared : List MachineImage × Option RawExtension)
      (versions : List ExpirableVersion) where
    abbrev f : CloudProfile → Result CloudProfile
    f = mutate env server mcp prepared versions

    -- The server took the CloudProfile and the status tells a success, or it called it invalid and
    -- the status tells a failure.
    abbrev pub IsReported : World → Type 0
    IsReported v =
        ((server.create_or_patch mcp.name f w.profile ≡ ok v.profile)
          × Tells succeeded condition_true "Applied" v.status)
        ⊎ ((e : Error) × (server.create_or_patch mcp.name f w.profile ≡ err e)
            × (is_kind invalid e ≡ true)
            × Tells failed condition_false "ApplyFailed" v.status)

    accepted-IsReported :
        (profile : Option CloudProfile)
        → server.create_or_patch mcp.name f w.profile ≡ ok profile
        → let v : World = record w { profile = profile } in
          let r = patch_status_and_condition env server mcp succeeded (applied_condition mcp) v in
          r.0 ≡ ok tt → IsReported r.1
    unfolding applied_condition
    accepted-IsReported profile taken h =
        let v : World = record w { profile = profile } in
        let cond = applied_condition mcp in
        inl (
          taken ∙ ap ok (sym (patch-profile env server mcp succeeded cond v)),
          subst (Tells succeeded condition_true "Applied")
              (sym (stored_status succeeded cond profile h))
              (next_status-Tells succeeded cond refl refl),
        )

    refused-IsReported :
        (e : Error) (profile : Option CloudProfile)
        → server.create_or_patch mcp.name f w.profile ≡ err e
        → let v : World = record w { profile = profile } in
          let r = mark_failed env server mcp e (answer_to_apply_error env server mcp e) v in
          r.0 ≡ ok tt → IsReported r.1
    unfolding mark_failed failed_condition
    refused-IsReported e profile refused h =
        let v : World = record w { profile = profile } in
        let cond = failed_condition mcp (server.text e) in
        let r = (patch_status_and_condition env server mcp failed cond v).0 in
        let answer = answer_to_apply_error env server mcp e in
        inr (
          e,
          refused,
          invalid_of_ok env server mcp e (>>-eq-ok r answer h),
          subst (Tells failed condition_false "ApplyFailed")
              (sym (stored_status failed cond profile (both_ok r answer h)))
              (next_status-Tells failed cond refl refl),
        )

    write_profile-IsReported :
        (write_profile env server mcp prepared versions w).0 ≡ ok tt
        → IsReported (write_profile env server mcp prepared versions w).1
    unfolding write_profile
    write_profile-IsReported h =
        let reported : Result (Unit {0}) × World → Type 0 = λ r. r.0 ≡ ok tt → IsReported r.1 in
        elim (Result-cases (server.create_or_patch mcp.name f w.profile)) [
          | inl (e, refused) ↦
              let v : World = record w { profile = server.left_by_error mcp.name f w.profile } in
              let same : write_profile env server mcp prepared versions w
                  ≡ mark_failed env server mcp e (answer_to_apply_error env server mcp e) v =
                rw (write_profile, refused) refl in
              subst reported (sym same) (refused-IsReported e v.profile refused) h
          | inr (profile, taken) ↦
              let v : World = record w { profile = profile } in
              let same : write_profile env server mcp prepared versions w
                  ≡ patch_status_and_condition env server mcp succeeded (applied_condition mcp) v =
                rw (write_profile, taken) refl in
              subst reported (sym same) (accepted-IsReported profile taken) h
        ]

  -- If a reconciliation that read the status as it is stored is answered without an error, then the
  -- images and the versions could be had; and either the server took the change of the CloudProfile,
  -- and is left with the CloudProfile that it answered and a status of a success, whose condition is
  -- true with the reason `Applied`, or it called the change invalid, and is left with a status of a
  -- failure, whose condition is false with the reason `ApplyFailed`. In both the condition is for
  -- the generation that was reconciled. The condition is the documented behaviour of status patches.
  pub reconcile_tells :
      (requeue : Requeue)
      → (reconcile env server (ok mcp) w).0 ≡ ok requeue
      → (prepared : List MachineImage × Option RawExtension) × (versions : List ExpirableVersion)
        × (prepare_all env server mcp ≡ ok (prepared, versions))
        × IsReported prepared versions (reconcile env server (ok mcp) w).1
  unfolding reconcile
  reconcile_tells requeue h =
      let r = reconcile_cloud_profile env server mcp w in
      let done = both_ok_requeue r.0 h in
      let (prepared, versions, p, _) = (reconcile_cloud_profile_ok_iff env server mcp w).0 done in
      let runs = prepared_write env server mcp prepared versions w p in
      let reported : Result (Unit {0}) × World → Type 0 = λ s. IsReported prepared versions s.1 in
      (
        prepared,
        versions,
        p,
        subst reported (sym runs) (
            write_profile-IsReported prepared versions
              (sym (ap (λ (s : Result (Unit {0}) × World). s.0) runs) ∙ done)),
      )
