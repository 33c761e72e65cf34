-- ===== src/Controllers/Status/Laws.antt =====
-- Conditions and messages.
use cloud_profile_sync.Common.{
  ap, ◌∙◌, Bool-cases, ℕ, zero, suc, ◌≤◌, ◌<◌, ◌≡◌, refl, String, Option, none, some, Bool, false,
  List, [], ◌∷◌, ◌++◌, length, length-append, take, modify, index_func, leb, Option-cases, inl, inr,
  ◌==◌, string_eq, if◌then◌else◌, arith,
}
use cloud_profile_sync.Common.Text.{Bytes}
use cloud_profile_sync.Gardener.{Time}
use cloud_profile_sync.Api.{Condition, ConditionStatus, condition_status_eq}
use cloud_profile_sync.Controllers.Status.{
  replace_condition, apply_condition, zero_condition, truncate_condition_message, suffix,
}

length-take_le : (n : ℕ) (xs : Bytes) → n ≤ length xs → length (take n xs) ≡ n
unfolding take
length-take_le zero xs h = refl
length-take_le (suc n) [] h = omega arith
length-take_le (suc n) (x ∷ xs) h = omega (arith, length-take_le n xs)

-- A message of at most 32768 bytes is kept; of a longer one the first 32754 bytes are kept, the
-- suffix behind them, and the result has 32768 bytes.
pub truncate_cases :
    (msg : Bytes)
    → (length msg ≤ 32768 → truncate_condition_message msg ≡ msg)
      × (32768 < length msg
          → (truncate_condition_message msg ≡ take 32754 msg ++ suffix)
            × (length (truncate_condition_message msg) ≡ 32768))
unfolding truncate_condition_message
truncate_cases msg = (
  λ h. ground arith,
  λ h.
      let long : leb (length msg) 32768 ≡ false = ground arith in
      (
        rw long,
        rw long (omega (arith, length-append (take 32754 msg) suffix, length-take_le 32754 msg)),
      ),
)

pub truncated_le : (msg : Bytes) → length (truncate_condition_message msg) ≤ 32768
truncated_le msg =
    let (short, long) = truncate_cases msg in
    elim (Bool-cases (leb (length msg) 32768)) [
      | inl h ↦ let fits : length msg ≤ 32768 = ground arith in rw (short fits) fits
      | inr h ↦ omega (arith, (long (ground arith)).1)
    ]

-- The first condition of a type.
unfoldable pub find : String → List Condition → Option Condition
find type [] = none
find type (c ∷ cs) = if c.type == type then some c else find type cs

abbrev at_type : String → Condition → Bool
at_type type c = c.type == type

find_absent :
    (type : String) (cs : List Condition)
    → index_func (at_type type) cs ≡ none
    → find type cs ≡ none
unfolding find index_func
find_absent type [] h = refl
find_absent type (c ∷ cs) h = ground (arith, find_absent type cs)

find_present :
    (type : String) (cs : List Condition) (i : ℕ)
    → index_func (at_type type) cs ≡ some i
    → (c : Condition) × (find type cs ≡ some c)
unfolding find index_func
find_present type [] i h = absurd (ground arith)
find_present type (c ∷ cs) i h = elim (string_eq.dec c.type type) [
  | yes e ↦ (c, ground arith)
  | no n ↦ elim (Option-cases (index_func (at_type type) cs)) [
    | inl e ↦ absurd (ground arith)
    | inr (j, e) ↦ let (d, p) = find_present type cs j e in (d, ground arith)
  ]
]

find-modify :
    (now : Time) (cond : Condition) (cs : List Condition) (i : ℕ) (type : String)
    → index_func (at_type cond.type) cs ≡ some i
    → find type (modify cs i (replace_condition now cond)) ≡ (
        if type == cond.type
        then elim (find cond.type cs) [
          | none ↦ none
          | some old ↦ some (replace_condition now cond old)
        ]
        else find type cs)
unfolding find index_func modify replace_condition
find-modify now cond [] i type h = ground arith
find-modify now cond (c ∷ cs) zero type h = ground arith
find-modify now cond (c ∷ cs) (suc i) type h = ground (arith, find-modify now cond cs i type)

find-new :
    (now : Time) (cond : Condition) (cs : List Condition) (type : String)
    → index_func (at_type cond.type) cs ≡ none
    → find type (modify (cs ++ zero_condition ∷ []) (length cs) (replace_condition now cond)) ≡ (
        if type == cond.type
        then some (replace_condition now cond zero_condition)
        else find type cs)
unfolding find index_func modify replace_condition
find-new now cond [] type h = ground arith
find-new now cond (c ∷ cs) type h = ground (arith, find-new now cond cs type)

-- The condition that is stored, from the first one of its type.
abbrev pub put_condition : Time → Condition → Option Condition → Condition
put_condition now cond none = replace_condition now cond zero_condition
put_condition now cond (some old) = replace_condition now cond old

-- When the status of the condition last changed, if the given status follows the given condition.
abbrev pub changed_at : Time → ConditionStatus → Option Condition → Option Time
changed_at now status none = if status == ConditionStatus.unset then none else some now
changed_at now status (some old) =
    if status == old.status then old.last_transition_time else some now

pub put_condition-given :
    (now : Time) (cond : Condition) (old : Option Condition)
    → put_condition now cond old
      ≡ record cond { last_transition_time = changed_at now cond.status old }
unfolding replace_condition
put_condition-given now cond none =
    ap (λ t. record cond { last_transition_time = t }) (ground arith)
put_condition-given now cond (some old) =
    ap (λ t. record cond { last_transition_time = t }) (ground arith)

-- The first condition of the type is replaced, and no other.
pub find-put_condition :
    (now : Time) (cs : List Condition) (cond : Condition) (type : String)
    → find type (apply_condition now cs cond) ≡ (
        if type == cond.type
        then some (put_condition now cond (find cond.type cs))
        else find type cs)
unfolding apply_condition
find-put_condition now cs cond type = elim (Option-cases (index_func (at_type cond.type) cs)) [
  | inr (i, e) ↦
      let (old, p) = find_present cond.type cs i e in
      ground (arith, find-modify now cond cs i type e)
  | inl e ↦ ground (arith, find-new now cond cs type e, find_absent cond.type cs e)
]

-- After `applyCondition` the first condition of the given type has the type, status, generation,
-- reason and message of the given one. Its transition time is that of the first condition of the
-- type before, if that had the same status, and otherwise now; if there was none, it is now, unless
-- the given status is unset. What is found under every other type stays as it was.
pub find-apply_condition :
    (now : Time) (cs : List Condition) (cond : Condition) (type : String)
    → find type (apply_condition now cs cond) ≡ (
        if type == cond.type
        then some (record {
          type = cond.type;
          status = cond.status;
          observed_generation = cond.observed_generation;
          last_transition_time = changed_at now cond.status (find cond.type cs);
          reason = cond.reason;
          message = cond.message;
        })
        else find type cs)
find-apply_condition now cs cond type =
    find-put_condition now cs cond type
    ∙ ap (λ c. if type == cond.type then some c else find type cs)
        (put_condition-given now cond (find cond.type cs))
