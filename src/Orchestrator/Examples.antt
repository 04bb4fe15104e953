-- ===== src/Orchestrator/Examples.antt =====
-- Runs of orchestrator.py: a request that needs an approval, and one that does not.
use helpdesktool.Prelude.{◌≡◌, ◌≢◌, refl, String, true, false, some, none, [], ◌∷◌}
use helpdesktool.Prelude.Dict.{get, put}
use helpdesktool.Prelude.Exec.{ok}
use helpdesktool.Models.{
  ActionRequest, ActionRecord, RiskLevel, queued, pending_approval, ExecutionResult,
}
use helpdesktool.Policy.{evaluate}
use helpdesktool.Policy.Examples.{reset, engine}
use helpdesktool.Orchestrator.{
  SkillExecutor, Orchestrator, returned, Work, submit, approve, run, persist, queue,
  execute_or_queue, get_for_tenant,
}
use helpdesktool.Orchestrator.Approval.{approve-separate}
use helpdesktool.Orchestrator.Storing.{IsStored}
use helpdesktool.Orchestrator.Submission.{Follows, submit-Follows}
use helpdesktool.Orchestrator.Outcomes.{IsAccounted, run-IsAccounted}

abbrev lower : String → String
lower s = s

abbrev good : ExecutionResult
good = record { success = true; output = []; error = none }

abbrev executor : SkillExecutor
executor = record {
  execute = λ log s r. returned good;
  verify = λ log s r x. returned true;
  rollback = λ log s r x. returned good;
}

abbrev request : ActionRequest
request = record {
  tenant_id = "t";
  device_id = "d";
  skill_id = "user.reset";
  requested_by = "ann";
  parameters = [];
  correlation_id = "c";
}

abbrev pending_action : ActionRecord
pending_action = record {
  request = request;
  device_os = "windows";
  risk = RiskLevel.high;
  status = pending_approval;
  approved_by = none;
  result = none;
}

abbrev start : Orchestrator
start = record { actions = []; store = none; audit = [] }

abbrev waiting : Orchestrator
waiting = record { actions = ("c", pending_action) ∷ []; store = none; audit = [] }

abbrev approved_action : ActionRecord
approved_action = record pending_action { status = queued; approved_by = some "bob" }

approved_ok :
    approve lower executor engine false "t" "c" "bob" waiting
    ≡ (ok approved_action, (approve lower executor engine false "t" "c" "bob" waiting).1)
unfolding approve get_for_tenant evaluate get put queue persist execute_or_queue
approved_ok = refl

approve-separate_example :
    (approved_action.approved_by ≡ some "bob")
    × (◌≢◌ {A = String} "bob" "ann")
    × ((evaluate lower engine request "windows").allowed ≡ true)
approve-separate_example =
    approve-separate lower executor engine false "t" "c" "bob" waiting
      ((approve lower executor engine false "t" "c" "bob" waiting).1) approved_action approved_ok
      (λ e. cc)

submitted_ok :
    submit lower executor engine false request "windows" start
    ≡ (ok pending_action, (submit lower executor engine false request "windows" start).1)
unfolding submit evaluate get put queue persist execute_or_queue
submitted_ok = refl

submit-Follows_example :
    Follows false (evaluate lower engine request "windows") pending_action
    × (pending_action.request ≡ request)
    × IsStored pending_action start (submit lower executor engine false request "windows" start).1
submit-Follows_example =
    submit-Follows lower executor engine false request "windows" start
      ((submit lower executor engine false request "windows" start).1) pending_action submitted_ok

abbrev work : Work
work = record { orchestrator = waiting; action = pending_action; shared = true }

run-IsAccounted_example :
    IsAccounted executor reset request
      (run executor (some reset) work).0
      (run executor (some reset) work).1
run-IsAccounted_example = run-IsAccounted executor reset work
