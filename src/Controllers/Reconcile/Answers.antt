-- ===== src/Controllers/Reconcile/Answers.antt =====
-- What `reconcileCloudProfile` answers, and what the status then tells.
use cloud_profile_sync.Common.{
  Bool, String, [], none, if◌then◌else◌, ◌≡◌, refl, sym, ap, ◌∙◌, subst, ◌↔◌, ◌⊎◌, inl, inr, Option,
  true, false, List, ◌++◌, Bool-cases, ◌==◌, string_eq, arith,
}
use cloud_profile_sync.Common.Text.{ascii}
use cloud_profile_sync.Common.Result.{
  Result, ok, err, Error, is_kind, invalid, Result-cases, >>-eq-ok, ◌>>◌, wrapped, wrapped-eq-ok,
}
use cloud_profile_sync.Gardener.{MachineImage, RawExtension, ExpirableVersion}
use cloud_profile_sync.Api.{
  ManagedCloudProfile, ManagedCloudProfileStatus, Condition, condition_true, condition_false,
  ReconcileStatus, succeeded, failed,
}
use cloud_profile_sync.Controllers.Prepare.{Env}
use cloud_profile_sync.Controllers.Status.{
  next_status, apply_condition, failed_condition, applied_condition, truncate_condition_message,
}
use cloud_profile_sync.Controllers.Reconcile.{
  World, Server, CloudProfile, mutate, patch_status_and_condition, mark_failed, write_profile,
  reconcile_cloud_profile, answer_to_apply_error,
}
use cloud_profile_sync.Controllers.Reconcile.Laws.{
  prepare_all, prepared_write, unprepared_keeps_profile,
}

pub both_ok : (check answer : Result (Unit {0})) → (check >> answer) ≡ ok tt → check ≡ ok tt
both_ok (ok _) answer h = refl
both_ok (err e) answer h = absurd (ground (arith, h))

module _ (env : Env) (server : Server) (mcp : ManagedCloudProfile) where
  -- The status that is read already tells this, or the server takes the patch that makes it.
  abbrev pub IsTold : ReconcileStatus → Condition → World → Type 0
  IsTold status cond w =
      let next : ManagedCloudProfileStatus = record {
        status = status;
        conditions = apply_condition env.now mcp.status.conditions cond;
      } in
      (server.status_eq mcp.status next ≡ true)
      ⊎ ((server.patch_status mcp.status next w.status).0 ≡ ok tt)

  next_status_named :
      (status : ReconcileStatus) (cond : Condition)
      → (cond.type == "") ≡ false
      → next_status env.now status cond mcp.status ≡ record {
        status = status;
        conditions = apply_condition env.now mcp.status.conditions cond;
      }
  unfolding next_status
  next_status_named status cond named = rw named refl

  pub invalid_of_ok :
      (e : Error) → answer_to_apply_error env server mcp e ≡ ok tt → is_kind invalid e ≡ true
  invalid_of_ok e h = elim (Bool-cases (is_kind invalid e)) [
    | inl is_so ↦ is_so
    | inr other ↦ absurd (ground (arith, h))
  ]

  pub patch_ok_iff :
      (status : ReconcileStatus) (cond : Condition) (w : World)
      → (cond.type == "") ≡ false
      → ((patch_status_and_condition env server mcp status cond w).0 ≡ ok tt) ↔ IsTold status cond w
  unfolding patch_status_and_condition
  patch_ok_iff status cond w named =
      let same = next_status_named status cond named in
      let next = next_status env.now status cond mcp.status in
      let patched =
        λ (n : ManagedCloudProfileStatus). (server.patch_status mcp.status n w.status).0 in
      let failure : String = "failed to patch ManagedCloudProfile status: %w" in
      let outcome : Bool → Result (Unit {0}) × World = λ b. if b then (ok tt, w) else (
        wrapped failure [] (patched next),
        record w { status = (server.patch_status mcp.status next w.status).1 },
      ) in
      elim (Bool-cases (server.status_eq mcp.status next)) [
        | inl equal ↦ (
          λ _. inl (ap (λ n. server.status_eq mcp.status n) (sym same) ∙ equal),
          λ _. rw equal refl,
        )
        | inr other ↦ (
          λ h. inr (
              ap patched (sym same)
              ∙ wrapped-eq-ok failure [] (patched next)
                  (subst (λ b. (outcome b).0 ≡ ok tt) other h)),
          λ told. elim told [
            | inl equal ↦
                absurd (ground (arith, ap (λ n. server.status_eq mcp.status n) same ∙ equal, other))
            | inr taken ↦ rw other (ap (wrapped failure []) (ap patched same ∙ taken))
          ],
        )
      ]

  -- The conditions that the two outcomes are told by.
  abbrev pub applied : Condition
  applied = record {
    type = "CloudProfileApplied";
    status = condition_true;
    observed_generation = mcp.generation;
    last_transition_time = none;
    reason = "Applied";
    message = ascii "Generated CloudProfile applied successfully";
  }

  abbrev pub not_applied : Error → Condition
  not_applied e = record {
    type = "CloudProfileApplied";
    status = condition_false;
    observed_generation = mcp.generation;
    last_transition_time = none;
    reason = "ApplyFailed";
    message = truncate_condition_message (ascii "Failed to apply CloudProfile: " ++ server.text e);
  }

  mark_failed_ok_iff :
      (e : Error) (v : World)
      → ((mark_failed env server mcp e (answer_to_apply_error env server mcp e) v).0 ≡ ok tt)
        ↔ ((is_kind invalid e ≡ true) × IsTold failed (not_applied e) v)
  unfolding mark_failed failed_condition string_eq
  mark_failed_ok_iff e v =
      let told = patch_ok_iff failed (failed_condition mcp (server.text e)) v refl in
      let r =
        (patch_status_and_condition env server mcp failed (failed_condition mcp (server.text e))
          v).0 in
      let answer = answer_to_apply_error env server mcp e in
      (
        λ h. (invalid_of_ok e (>>-eq-ok r answer h), told.0 (both_ok r answer h)),
        λ (is_so, h). rw (told.1 h) (rw is_so refl),
      )

  module _ (prepared : List MachineImage × Option RawExtension) (versions : List ExpirableVersion)
      (w : World) where
    -- The server takes the CloudProfile, and a success is told; or it calls it invalid, and that
    -- is told.
    abbrev pub IsAnswered : Type 0
    IsAnswered =
        ((profile : Option CloudProfile) × (server.create_or_patch mcp.name
              (mutate env server mcp prepared versions) w.profile
            ≡ ok profile)
          × IsTold succeeded applied w)
        ⊎ ((e : Error) × (server.create_or_patch mcp.name (mutate env server mcp prepared versions)
                w.profile
              ≡ err e)
            × (is_kind invalid e ≡ true)
            × IsTold failed (not_applied e) w)

    write_profile_ok_iff :
        ((write_profile env server mcp prepared versions w).0 ≡ ok tt) ↔ IsAnswered
    unfolding write_profile applied_condition string_eq
    write_profile_ok_iff =
        let f = mutate env server mcp prepared versions in
        elim (Result-cases (server.create_or_patch mcp.name f w.profile)) [
          | inl (e, refused) ↦
              let v : World = record w { profile = server.left_by_error mcp.name f w.profile } in
              let (there, back) = mark_failed_ok_iff e v in
              rw (write_profile, refused)
                (
                  λ h. let (is_so, told) = there h in inr (e, refl, is_so, told),
                  λ answered. elim answered [
                    | inl (profile, taken, _) ↦ absurd (ground (arith, taken))
                    | inr (d, also, is_so, told) ↦
                        let same : d ≡ e = ground (arith, also) in
                        back (
                          subst (λ x. (is_kind invalid x ≡ true) × IsTold failed (not_applied x) v)
                            same (is_so, told))
                  ],
                )
          | inr (profile, taken) ↦
              let (there, back) =
                patch_ok_iff succeeded (applied_condition mcp) (record w { profile = profile })
                  refl in
              rw (write_profile, taken)
                (
                  λ h. inl (profile, refl, there h),
                  λ answered. elim answered [
                    | inl (_, _, told) ↦ back told
                    | inr (_, refused, _, _) ↦ absurd (ground (arith, refused))
                  ],
                )
        ]

  -- `reconcileCloudProfile` answers without an error exactly if the shoots, the images and the
  -- versions can be had, and either the server takes the change of the CloudProfile and the status is
  -- made to tell a success, or the server calls the change invalid and the status is made to tell a
  -- failure with the error's text; the conditions have the type, status, generation, reason and
  -- message that are documented for them. The status needs no patch if the one that was read is equal,
  -- and otherwise the server takes the patch.
  pub reconcile_cloud_profile_ok_iff :
      (w : World)
      → ((reconcile_cloud_profile env server mcp w).0 ≡ ok tt) ↔ (
          (prepared : List MachineImage × Option RawExtension) × (versions : List ExpirableVersion)
          × (prepare_all env server mcp ≡ ok (prepared, versions))
          × IsAnswered prepared versions w)
  reconcile_cloud_profile_ok_iff w = (
    λ h. elim (Result-cases (prepare_all env server mcp)) [
      | inl (e, p) ↦ absurd ((unprepared_keeps_profile env server mcp w e p).1 h)
      | inr ((prepared, versions), p) ↦
          let runs = prepared_write env server mcp prepared versions w p in
          (
            prepared,
            versions,
            p,
            (write_profile_ok_iff prepared versions w).0
                (sym (ap (λ (r : Result (Unit {0}) × World). r.0) runs) ∙ h),
          )
    ],
    λ (prepared, versions, p, answered).
        ap (λ (r : Result (Unit {0}) × World). r.0)
          (prepared_write env server mcp prepared versions w p)
        ∙ (write_profile_ok_iff prepared versions w).1 answered,
  )
