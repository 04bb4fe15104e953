-- ===== src/Orchestrator.antt =====
-- helpdesktool/orchestrator.py: the state machine of an action, from its submission over its approval to
-- its execution and rollback, with the SQL store of persistence.py. Mutations that were made before an
-- exception stay made. `shared` says whether the record at hand is the one in `_actions`, or a copy
-- that was read from the store. The audit log is kept newest first.
pub mod Outcomes
pub mod Approval
pub mod Storing
pub mod Submission
pub mod Examples
use helpdesktool.Prelude.{
  ℕ, String, Bool, true, false, ◌&&◌, Option, none, some, List, [], ◌∷◌, ◌==◌, is_some, not,
  if◌then◌else◌,
}
use helpdesktool.Prelude.Dict.{Dict, get, put}
use helpdesktool.Prelude.Exec.{Result, ok, err, Exec, pure, raise, ◌>>=◌, ◌>>◌}
use helpdesktool.Models.{
  RiskLevel, ActionStatus, pending_approval, approved, queued, running, succeeded, failed,
  rolled_back, rollback_failed, denied, Value, Mapping, ActionRequest, SkillDefinition,
  ExecutionResult, ActionRecord, risk_text, level_text, optional_text,
}
use helpdesktool.Audit.{Entry}
use helpdesktool.Policy.{PolicyEngine, PolicyDecision, evaluate}

-- what an executor's method gives: a value, or an exception
pub data Outcome (A : Type 0) : Type 0 where
  returned : A → Outcome A
  raised : Outcome A

-- `SkillExecutor`; its answers may depend on all that happened before.
pub record SkillExecutor : Type 0 where
  pub execute : List Entry → SkillDefinition → ActionRequest → Outcome ExecutionResult
  pub verify : List Entry → SkillDefinition → ActionRequest → ExecutionResult → Outcome Bool
  pub rollback :
      List Entry → SkillDefinition → ActionRequest → ExecutionResult → Outcome ExecutionResult

pub data Refusal : Type 0 where
  duplicate_id not_pending own_action not_found no_skill store_error executor_error : Refusal

pub record Orchestrator : Type 0 where
  pub actions : Dict ActionRecord
  pub store : Option (Dict ActionRecord)
  pub audit : List Entry

-- a method at work on one record
pub record Work : Type 0 where
  pub orchestrator : Orchestrator
  pub open orchestrator use *
  pub action : ActionRecord
  pub shared : Bool

abbrev pub Step : Type 0
Step = Exec Refusal Work (Unit {0})

-- an assignment to fields of the record
abbrev pub assign : (ActionRecord → ActionRecord) → Step
assign change w =
    let r = change w.action in
    (
      ok tt,
      record w {
        action = r;
        orchestrator = record w.orchestrator {
          actions = if w.shared then put r.request.correlation_id r w.actions else w.actions;
        };
      },
    )

abbrev pub set_status : ActionStatus → Step
set_status s = assign (λ r. record r { status = s })

-- `_event`
abbrev pub event : String → String → Mapping → Step
event event_type actor_id details w = (
  ok tt,
  record w {
    orchestrator = record w.orchestrator {
      audit =
          record {
            tenant_id = w.action.request.tenant_id;
            correlation_id = w.action.request.correlation_id;
            event_type = event_type;
            actor_id = actor_id;
            details = details;
          }
          ∷ w.audit;
    };
  },
)

-- `SqlActionStore.add`: a row of that id is an IntegrityError.
abbrev pub add_row : ActionRecord → Dict ActionRecord → Result Refusal (Dict ActionRecord)
add_row r rows =
    let id = r.request.correlation_id in
    if is_some (get id rows)
    then err store_error
    else ok (put id (record r { approved_by = none; result = none }) rows)

-- the first result that is written is kept
abbrev pub first_result : Option ExecutionResult → Option ExecutionResult → Option ExecutionResult
first_result none new = new
first_result (some old) new = some old

abbrev pub update_found :
    ActionRecord → Dict ActionRecord → Option ActionRecord → Result Refusal (Dict ActionRecord)
update_found r rows none = err store_error
update_found r rows (some row) =
    if row.request.tenant_id == r.request.tenant_id
    then ok (
        put r.request.correlation_id
          (record row {
            status = r.status;
            approved_by = r.approved_by;
            result = first_result row.result r.result;
          })
          rows)
    else err store_error

-- `SqlActionStore.update`: a row that is missing or another tenant's is a KeyError.
abbrev pub update_row : ActionRecord → Dict ActionRecord → Result Refusal (Dict ActionRecord)
update_row r rows = update_found r rows (get r.request.correlation_id rows)

-- `SqlActionStore.get`
abbrev pub own_row : String → Option ActionRecord → Option ActionRecord
own_row tenant_id none = none
own_row tenant_id (some r) = if r.request.tenant_id == tenant_id then some r else none

abbrev pub stored : Result Refusal (Dict ActionRecord) → Step
stored (ok rows) w =
    (ok tt, record w { orchestrator = record w.orchestrator { store = some rows } })
stored (err e) w = (err e, w)

abbrev pub with_store :
    (ActionRecord → Dict ActionRecord → Result Refusal (Dict ActionRecord)) → Step
with_store f w = elim w.store [ none ↦ (ok tt, w) | some rows ↦ stored (f w.action rows) w ]

-- `_persist`
unfoldable pub persist : Step
persist = with_store update_row

unfoldable pub queue : Step
queue = do
  set_status queued
  λ w.
      event "execution.queued" "system"
        (("skill_id", Value.text w.action.request.skill_id)
          ∷ ("previous_status", Value.text "approved")
          ∷ ("new_status", Value.text "queued")
          ∷ [])
        w

abbrev pub try_call : {A : Type 0} → Outcome A → Exec Refusal Work A
try_call (returned a) = pure a
try_call raised = raise executor_error

module _ (executor : SkillExecutor) where
  -- `result.success and self._executor.verify(...)`
  abbrev pub verified : SkillDefinition → ExecutionResult → Exec Refusal Work Bool
  verified skill result w =
      if result.success
      then try_call (executor.verify w.audit skill w.action.request result) w
      else (ok false, w)

  abbrev pub roll_back : SkillDefinition → ExecutionResult → Step
  roll_back skill result = do
    undone ← λ w. try_call (executor.rollback w.audit skill w.action.request result) w
    set_status (if undone.success then rolled_back else rollback_failed)
    event "rollback.completed" "system"
        (("success", Value.boolean undone.success) ∷ ("error", optional_text undone.error) ∷ [])

  -- `_run` after the executor's answer and its verification
  abbrev pub conclude : SkillDefinition → ExecutionResult → Bool → Step
  conclude skill result true = do
    set_status succeeded
    event "execution.verified" "system" (("success", Value.boolean true) ∷ [])
  conclude skill result false = do
    set_status failed
    event "execution.failed" "system" (
        ("executor_success", Value.boolean result.success)
        ∷ ("error", optional_text result.error)
        ∷ [])
    if skill.reversible && is_some skill.rollback_skill_id then roll_back skill result else pure tt

  -- `_run`
  unfoldable pub run : Option SkillDefinition → Step
  run none = raise no_skill
  run (some skill) = do
    set_status running
    event "execution.started" "system" (("skill_id", Value.text skill.skill_id) ∷ [])
    result ← λ w. try_call (executor.execute w.audit skill w.action.request) w
    assign (λ r. record r { result = some result })
    success ← verified skill result
    conclude skill result success

  -- `_execute_or_queue`, with `execute_immediately`
  unfoldable pub execute_or_queue : Bool → Option SkillDefinition → Step
  execute_or_queue true skill = run skill
  execute_or_queue false skill = queue

abbrev pub initial_status : PolicyDecision → ActionStatus
initial_status d =
    if d.approval_required then pending_approval else if d.allowed then approved else denied

abbrev pub risk_of : Option SkillDefinition → RiskLevel
risk_of none = RiskLevel.prohibited
risk_of (some s) = s.risk

abbrev pub is_approved : ActionStatus → Bool
is_approved approved = true
is_approved _ = false

abbrev pub is_pending : ActionStatus → Bool
is_pending pending_approval = true
is_pending _ = false

-- the result of a method is the record that it worked on
abbrev pub finish : Result Refusal (Unit {0}) × Work → Result Refusal ActionRecord × Orchestrator
finish (ok _, w) = (ok w.action, w.orchestrator)
finish (err e, w) = (err e, w.orchestrator)

module _ (lower : String → String) (executor : SkillExecutor) (policy : PolicyEngine)
    (immediately : Bool) where
  -- the event of a submission
  abbrev pub record_decision : PolicyDecision → ActionRequest → Step
  record_decision decision request = event "policy.evaluated" request.requested_by (
      ("allowed", Value.boolean decision.allowed)
      ∷ ("approval_required", Value.boolean decision.approval_required)
      ∷ ("reason", Value.text decision.reason)
      ∷ ("risk", Value.text (risk_text (risk_of decision.skill)))
      ∷ ("automation_level", Value.text (level_text decision.automation_level))
      ∷ [])

  abbrev pub advance : PolicyDecision → Step
  advance decision =
      if is_approved (initial_status decision)
      then execute_or_queue executor immediately decision.skill
      else pure tt

  abbrev pub submit_steps : PolicyDecision → ActionRequest → Step
  submit_steps decision request = do
    assign (λ r. r)
    with_store add_row
    record_decision decision request
    advance decision
    persist

  -- `submit`
  unfoldable pub submit :
      ActionRequest → String → Orchestrator → Result Refusal ActionRecord × Orchestrator
  submit request device_os o =
      let decision = evaluate lower policy request device_os in
      if is_some (get request.correlation_id o.actions)
      then (err duplicate_id, o)
      else finish (
          submit_steps decision request (record {
            orchestrator = o;
            action = record {
              request = request;
              device_os = device_os;
              risk = risk_of decision.skill;
              status = initial_status decision;
              approved_by = none;
              result = none;
            };
            shared = true;
          }))

  abbrev pub own_action_of : String → Option ActionRecord → Bool → Option (ActionRecord × Bool)
  own_action_of tenant_id none shared = none
  own_action_of tenant_id (some r) shared =
      if r.request.tenant_id == tenant_id then some (r, shared) else none

  abbrev pub from_store : String → String → Option (Dict ActionRecord) → Option ActionRecord
  from_store tenant_id correlation_id none = none
  from_store tenant_id correlation_id (some rows) = own_row tenant_id (get correlation_id rows)

  -- `_get_for_tenant`, and whether the record is the one in `_actions`; `none` is the KeyError.
  unfoldable pub get_for_tenant : String → String → Orchestrator → Option (ActionRecord × Bool)
  get_for_tenant tenant_id correlation_id o = elim (get correlation_id o.actions) [
    | some r ↦ own_action_of tenant_id (some r) true
    | none ↦ own_action_of tenant_id (from_store tenant_id correlation_id o.store) false
  ]

  abbrev pub record_approval : String → Step
  record_approval approver_id = do
    assign (λ r. record r { approved_by = some approver_id; status = approved })
    event "action.approved" approver_id (
        ("previous_status", Value.text "pending_approval")
        ∷ ("new_status", Value.text "approved")
        ∷ [])

  abbrev pub record_invalidation : PolicyDecision → String → Step
  record_invalidation decision approver_id = do
    set_status denied
    event "approval.invalidated" approver_id (("reason", Value.text decision.reason) ∷ [])

  -- the end of `approve`, by whether the policy still allows the action
  abbrev pub approve_by : Bool → PolicyDecision → String → Step
  approve_by true decision approver_id = do
    record_approval approver_id
    execute_or_queue executor immediately decision.skill
    persist
  approve_by false decision approver_id = do record_invalidation decision approver_id; persist

  abbrev pub approve_steps : PolicyDecision → String → Step
  approve_steps decision approver_id =
      approve_by (decision.allowed && is_some decision.skill) decision approver_id

  abbrev pub approve_found :
      String
      → Orchestrator
      → Option (ActionRecord × Bool)
      → Result Refusal ActionRecord × Orchestrator
  approve_found approver_id o none = (err not_found, o)
  approve_found approver_id o (some (r, shared)) =
      if not (is_pending r.status)
      then (err not_pending, o)
      else if approver_id == r.request.requested_by
      then (err own_action, o)
      else finish (
          approve_steps (evaluate lower policy r.request r.device_os) approver_id
            (record { orchestrator = o; action = r; shared = shared }))

  -- `approve`
  unfoldable pub approve :
      String → String → String → Orchestrator → Result Refusal ActionRecord × Orchestrator
  approve tenant_id correlation_id approver_id o =
      approve_found approver_id o (get_for_tenant tenant_id correlation_id o)

  abbrev pub deny_steps : String → String → Step
  deny_steps actor_id reason = do
    set_status denied
    event "action.denied" actor_id (
        ("reason", Value.text reason)
        ∷ ("previous_status", Value.text "pending_approval")
        ∷ ("new_status", Value.text "denied")
        ∷ [])
    persist

  abbrev pub deny_found :
      String
      → String
      → Orchestrator
      → Option (ActionRecord × Bool)
      → Result Refusal ActionRecord × Orchestrator
  deny_found actor_id reason o none = (err not_found, o)
  deny_found actor_id reason o (some (r, shared)) =
      if not (is_pending r.status)
      then (err not_pending, o)
      else finish
          (deny_steps actor_id reason (record { orchestrator = o; action = r; shared = shared }))

  -- `deny`
  unfoldable pub deny :
      String → String → String → String → Orchestrator → Result Refusal ActionRecord × Orchestrator
  deny tenant_id correlation_id actor_id reason o =
      deny_found actor_id reason o (get_for_tenant tenant_id correlation_id o)
