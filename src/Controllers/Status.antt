-- ===== src/Controllers/Status.antt =====
-- The status of a ManagedCloudProfile: `applyCondition`, `patchStatusAndCondition`,
-- `markReconcileFailed` and `truncateConditionMessage`. A message is cut by bytes, so it is a list
-- of bytes. The clock is a parameter.
pub mod Laws
use cloud_profile_sync.Common.{
  ℕ, ◌-◌, String, Option, none, some, Bool, List, [], ◌∷◌, ◌++◌, length, take, modify, index_func,
  leb, ◌==◌, string_eq, if◌then◌else◌,
}
use cloud_profile_sync.Common.Int.{ℤ, pos}
use cloud_profile_sync.Common.Text.{Bytes, ascii}
use cloud_profile_sync.Gardener.{Time}
use cloud_profile_sync.Api.{
  Condition, ConditionStatus, unset, condition_true, condition_false, condition_status_eq,
  ReconcileStatus, ManagedCloudProfile, ManagedCloudProfileStatus, succeeded, failed,
}

abbrev pub applied_condition_type : String
applied_condition_type = "CloudProfileApplied"

abbrev zero_condition : Condition
zero_condition = record {
  type = "";
  status = ConditionStatus.unset;
  observed_generation = pos 0;
  last_transition_time = none;
  reason = "";
  message = [];
}

-- The new element, from the old one.
unfoldable pub replace_condition : Time → Condition → Condition → Condition
replace_condition now cond old = record {
  type = cond.type;
  status = cond.status;
  observed_generation = cond.observed_generation;
  last_transition_time = if old.status == cond.status then old.last_transition_time else some now;
  reason = cond.reason;
  message = cond.message;
}

unfoldable pub apply_condition : Time → List Condition → Condition → List Condition
unfolding replace_condition index_func modify
apply_condition now conditions cond = elim (index_func (λ c. c.type == cond.type) conditions) [
  | some idx ↦ modify conditions idx (replace_condition now cond)
  | none ↦
      modify (conditions ++ zero_condition ∷ []) (length conditions) (replace_condition now cond)
]

-- The status that `patchStatusAndCondition` asks the API server to store.
unfoldable pub next_status :
    Time → ReconcileStatus → Condition → ManagedCloudProfileStatus → ManagedCloudProfileStatus
unfolding apply_condition
next_status now status cond old = record {
  status = status;
  conditions = if cond.type == "" then old.conditions else apply_condition now old.conditions cond;
}

abbrev pub max_condition_message_len : ℕ
max_condition_message_len = 32768

abbrev pub suffix : Bytes
suffix = ascii "...[truncated]"

unfoldable pub truncate_condition_message : Bytes → Bytes
unfolding take
truncate_condition_message msg =
    if leb (length msg) max_condition_message_len
    then msg
    else take (max_condition_message_len - length suffix) msg ++ suffix

-- The condition of a failed reconciliation; `text` is the error's text.
unfoldable pub failed_condition : ManagedCloudProfile → Bytes → Condition
unfolding truncate_condition_message
failed_condition mcp text = record {
  type = applied_condition_type;
  status = condition_false;
  observed_generation = mcp.generation;
  last_transition_time = none;
  reason = "ApplyFailed";
  message = truncate_condition_message (ascii "Failed to apply CloudProfile: " ++ text);
}

unfoldable pub applied_condition : ManagedCloudProfile → Condition
applied_condition mcp = record {
  type = applied_condition_type;
  status = condition_true;
  observed_generation = mcp.generation;
  last_transition_time = none;
  reason = "Applied";
  message = ascii "Generated CloudProfile applied successfully";
}
