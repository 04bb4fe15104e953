-- ===== src/Policy/Examples.antt =====
-- Runs of policy.py on a small registry.
use helpdesktool.Prelude.{
  ◌≡◌, refl, ◌↔◌, String, true, false, some, none, List, [], ◌∷◌, ◌==◌, if◌then◌else◌,
}
use helpdesktool.Prelude.Dict.{get, put}
use helpdesktool.Models.{SkillDefinition, ActionRequest, RiskLevel, CommandType}
use helpdesktool.Policy.{PolicyEngine, evaluate, make_engine, by_id, put}
use helpdesktool.Policy.Registry.{find_skill}
use helpdesktool.Policy.Decisions.{
  AsksApproval, IsPermitted, evaluate-allowed_iff, evaluate-approval_iff,
}

abbrev lower : String → String
lower s = if s == "Linux" then "linux" else s

abbrev pub restart : SkillDefinition
restart = record {
  skill_id = "service.restart";
  risk = RiskLevel.low;
  supported_os = "Linux" ∷ [];
  timeout_seconds = 60;
  rollback_skill_id = none;
  command_type = CommandType.low_risk_change;
  requires_user_approval = false;
  requires_admin_approval = false;
  security_sensitive = false;
  reversible = false;
}

abbrev pub reset : SkillDefinition
reset = record {
  skill_id = "user.reset";
  risk = RiskLevel.high;
  supported_os = "linux" ∷ "windows" ∷ [];
  timeout_seconds = 60;
  rollback_skill_id = none;
  command_type = CommandType.privileged_change;
  requires_user_approval = false;
  requires_admin_approval = true;
  security_sensitive = false;
  reversible = false;
}

abbrev pub skills : List SkillDefinition
skills = restart ∷ reset ∷ []

abbrev pub engine : PolicyEngine
engine = ("service.restart", restart) ∷ ("user.reset", reset) ∷ []

pub engine_made : make_engine skills ≡ some engine
unfolding make_engine by_id put
engine_made = refl

abbrev request_for : String → ActionRequest
request_for skill_id = record {
  tenant_id = "t";
  device_id = "d";
  skill_id = skill_id;
  requested_by = "ann";
  parameters = [];
  correlation_id = "c";
}

restart_allowed : (evaluate lower engine (request_for "service.restart") "linux").allowed ≡ true
unfolding evaluate get
restart_allowed = refl

evaluate-allowed_iff_example :
    ((evaluate lower engine (request_for "service.restart") "linux").allowed ≡ true) ↔ (
      (skill : SkillDefinition) × (find_skill "service.restart" skills ≡ some skill)
      × IsPermitted lower skill "linux")
evaluate-allowed_iff_example =
    evaluate-allowed_iff lower skills engine engine_made (request_for "service.restart") "linux"

evaluate-approval_iff_example :
    ((evaluate lower engine (request_for "user.reset") "windows").approval_required ≡ true) ↔ (
      (skill : SkillDefinition) × (find_skill "user.reset" skills ≡ some skill)
      × IsPermitted lower skill "windows"
      × AsksApproval skill)
evaluate-approval_iff_example =
    evaluate-approval_iff lower skills engine engine_made (request_for "user.reset") "windows"

found_restart : (evaluate lower engine (request_for "service.restart") "linux").skill ≡ some restart
unfolding evaluate get
found_restart = refl
