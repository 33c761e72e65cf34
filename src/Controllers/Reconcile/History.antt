-- ===== src/Controllers/Reconcile/History.antt =====
-- Reconciliations one after another, with changes of the CloudProfile by others between them.
use cloud_profile_sync.Common.{
  ◌≤◌, ◌≡◌, refl, sym, ap, ◌∙◌, subst, ◌⊎◌, inl, inr, Option, none, some, false, List, ◌++◌, length,
  Bool-cases, ◌==◌, string_eq, arith,
}
use cloud_profile_sync.Common.Result.{Result, ok, err, Error, Result-cases}
use cloud_profile_sync.Common.Text.{ascii}
use cloud_profile_sync.Gardener.{Time, MachineImage, RawExtension, ExpirableVersion}
use cloud_profile_sync.Api.{
  ManagedCloudProfile, ManagedCloudProfileStatus, Condition, ConditionStatus, condition_true,
  condition_false, ReconcileStatus, succeeded, failed,
}
use cloud_profile_sync.Controllers.Prepare.{Env}
use cloud_profile_sync.Controllers.Status.{
  next_status, applied_condition, failed_condition, applied_condition_type, replace_condition,
}
use cloud_profile_sync.Controllers.Status.Laws.{
  find, put_condition, find-put_condition, truncated_le,
}
use cloud_profile_sync.Controllers.Reconcile.Patch.{PatchesStatus}
use cloud_profile_sync.Controllers.Reconcile.{
  World, Server, CloudProfile, list_needed_shoots, prepare_all_images, prepare_versions, mutate,
  patch_status_and_condition, mark_failed, write_profile, reconcile_cloud_profile, reconcile,
  answer_to_apply_error,
}

-- The condition that a status shows for the applied profile; its message fits the API.
abbrev pub Shows : ConditionStatus → ManagedCloudProfileStatus → Type 0
Shows b st =
    (c : Condition) × (find applied_condition_type st.conditions ≡ some c)
    × (c.status ≡ b)
    × (length c.message ≤ 32768)

-- Status and condition tell the same.
abbrev pub IsCoherent : ManagedCloudProfileStatus → Type 0
IsCoherent st =
    (st.status ≡ succeeded → Shows condition_true st)
    × (st.status ≡ failed → Shows condition_false st)

put_condition-fields :
    (now : Time) (cond : Condition) (old : Option Condition)
    → ((put_condition now cond old).status ≡ cond.status)
      × ((put_condition now cond old).message ≡ cond.message)
unfolding replace_condition
put_condition-fields now cond none = (refl, refl)
put_condition-fields now cond (some old) = (refl, refl)

named : applied_condition_type == "" ≡ false
unfolding string_eq
named = refl

pub next_status-find :
    (now : Time) (status : ReconcileStatus) (cond : Condition) (old : ManagedCloudProfileStatus)
    → cond.type ≡ applied_condition_type
    → find applied_condition_type (next_status now status cond old).conditions
      ≡ some (put_condition now cond (find cond.type old.conditions))
unfolding next_status
next_status-find now status cond old e =
    let there : (cond.type == "") ≡ false = ap (λ t. t == "") e ∙ named in
    rw there (find-put_condition now old.conditions cond applied_condition_type ∙ ground (arith, e))

next_status-Shows :
    (now : Time) (status : ReconcileStatus) (cond : Condition) (old : ManagedCloudProfileStatus)
    → cond.type ≡ applied_condition_type
    → length cond.message ≤ 32768
    → Shows cond.status (next_status now status cond old)
unfolding next_status string_eq
next_status-Shows now status cond old e h =
    let put = put_condition now cond (find cond.type old.conditions) in
    let (same_status, same_message) =
      put_condition-fields now cond (find cond.type old.conditions) in
    (put, next_status-find now status cond old e, same_status, rw same_message h)

module _ (env : Env) (server : Server) (laws : PatchesStatus server)
    (mcp : ManagedCloudProfile) where
  -- What a reconciliation may make of the stored status.
  abbrev IsNext : ManagedCloudProfileStatus → ManagedCloudProfileStatus → Type 0
  IsNext old new =
      (new ≡ old)
      ⊎ ((new ≡ next_status env.now succeeded (applied_condition mcp) old)
          ⊎ ((e : Error) × (new
                ≡ next_status env.now failed (failed_condition mcp (server.text e)) old)))

  patch-status :
      (status : ReconcileStatus) (cond : Condition) (w : World)
      → mcp.status ≡ w.status
      → let new = (patch_status_and_condition env server mcp status cond w).1.status in
        (new ≡ mcp.status) ⊎ (new ≡ next_status env.now status cond mcp.status)
  unfolding patch_status_and_condition
  patch-status status cond w fresh =
      let next = next_status env.now status cond mcp.status in
      let stored = λ (st : ManagedCloudProfileStatus). (server.patch_status mcp.status next st).1 in
      elim (Bool-cases (server.status_eq mcp.status next)) [
        | inl same ↦ rw same (inl (sym fresh))
        | inr other ↦ rw other (elim (laws.patches mcp.status next) [
          | inl p ↦ inr (ap stored (sym fresh) ∙ p)
          | inr (p, _, _) ↦ inl (ap stored (sym fresh) ∙ p)
        ])
      ]

  mark_failed-IsNext :
      (e : Error) (answer : Result (Unit {0})) (w : World)
      → mcp.status ≡ w.status
      → IsNext mcp.status (mark_failed env server mcp e answer w).1.status
  unfolding mark_failed
  mark_failed-IsNext e answer w fresh =
      elim (patch-status failed (failed_condition mcp (server.text e)) w fresh) [
        | inl same ↦ inl same
        | inr next ↦ inr (inr (e, next))
      ]

  write_profile-IsNext :
      (prepared : List MachineImage × Option RawExtension) (versions : List ExpirableVersion)
      (w : World)
      → mcp.status ≡ w.status
      → IsNext mcp.status (write_profile env server mcp prepared versions w).1.status
  unfolding write_profile
  write_profile-IsNext prepared versions w fresh =
      let f = mutate env server mcp prepared versions in
      elim (Result-cases (server.create_or_patch mcp.name f w.profile)) [
        | inl (e, p) ↦
            rw (write_profile, p)
              (mark_failed-IsNext e (answer_to_apply_error env server mcp e)
                (record w { profile = server.left_by_error mcp.name f w.profile }) fresh)
        | inr (profile, p) ↦
            rw (write_profile, p)
              (elim (patch-status succeeded (applied_condition mcp) (record w { profile = profile })
                fresh) [ inl same ↦ inl same | inr next ↦ inr (inl next) ])
      ]

  reconcile_cloud_profile-IsNext :
      (w : World)
      → mcp.status ≡ w.status
      → IsNext mcp.status (reconcile_cloud_profile env server mcp w).1.status
  unfolding reconcile_cloud_profile
  reconcile_cloud_profile-IsNext w fresh = elim (Result-cases (list_needed_shoots env server mcp)) [
    | inl (e, p) ↦ rw p (inl (sym fresh))
    | inr (shoots, p) ↦ elim (Result-cases (prepare_all_images env server mcp shoots)) [
      | inl (e, q) ↦ rw p (rw q (mark_failed-IsNext e (err e) w fresh))
      | inr (prepared, q) ↦ elim (Result-cases (prepare_versions env server mcp shoots)) [
        | inl (e, r) ↦ rw p (rw q (rw r (mark_failed-IsNext e (err e) w fresh)))
        | inr (versions, r) ↦ rw p (rw q (rw r (write_profile-IsNext prepared versions w fresh)))
      ]
    ]
  ]

  IsNext-IsCoherent :
      (old new : ManagedCloudProfileStatus) → IsNext old new → IsCoherent old → IsCoherent new
  unfolding next_status applied_condition failed_condition
  IsNext-IsCoherent old new (inl same) c = subst IsCoherent (sym same) c
  IsNext-IsCoherent old new (inr (inl e)) c = subst IsCoherent (sym e) (
    λ _. next_status-Shows env.now succeeded (applied_condition mcp) old refl (omega arith),
    λ h. absurd (ground (arith, h)),
  )
  IsNext-IsCoherent old new (inr (inr (d, e))) c = subst IsCoherent (sym e) (
    λ h. absurd (ground (arith, h)),
    λ _.
        next_status-Shows env.now failed (failed_condition mcp (server.text d)) old refl
          (truncated_le (ascii "Failed to apply CloudProfile: " ++ server.text d)),
  )

-- What can come of a world: reconciliations that read the status as it is stored, or do not find
-- the object, and changes of the CloudProfile by others.
pub data History (w : World) : World → Type 1 where
  begin : History w w
  reconciled :
      (env : Env) (server : Server) (found : Result ManagedCloudProfile) {v : World}
      → PatchesStatus server
      → ((mcp : ManagedCloudProfile) → found ≡ ok mcp → mcp.status ≡ v.status)
      → History w v
      → History w (reconcile env server found v).1
  edited :
      (profile : Option CloudProfile) {v : World}
      → History w v
      → History w (record v { profile = profile })

reconcile-IsCoherent :
    (env : Env) (server : Server) (found : Result ManagedCloudProfile) (v : World)
    → PatchesStatus server
    → ((mcp : ManagedCloudProfile) → found ≡ ok mcp → mcp.status ≡ v.status)
    → IsCoherent v.status
    → IsCoherent (reconcile env server found v).1.status
unfolding reconcile
reconcile-IsCoherent env server (err e) v laws fresh c = c
reconcile-IsCoherent env server (ok mcp) v laws fresh c =
    IsNext-IsCoherent env server laws mcp _ _
      (reconcile_cloud_profile-IsNext env server laws mcp v (fresh mcp refl))
      (subst IsCoherent (sym (fresh mcp refl)) c)

-- However often a ManagedCloudProfile is reconciled, with whatever specifications, sources, answers
-- of the server and changes of the CloudProfile by others, its status stays coherent: with the
-- status of a success the condition for the applied profile is true, with that of a failure it is
-- false, and the condition's message has at most 32768 bytes. The conditions are that each
-- reconciliation reads the status as it is stored, that nobody else writes it, and the documented
-- behaviour of status patches.
pub History-IsCoherent : (w v : World) → History w v → IsCoherent w.status → IsCoherent v.status
History-IsCoherent w _ begin c = c
History-IsCoherent w _ (reconciled env server found {v} laws fresh h) c =
    reconcile-IsCoherent env server found v laws fresh (History-IsCoherent w v h c)
History-IsCoherent w _ (edited profile {v} h) c = History-IsCoherent w v h c
