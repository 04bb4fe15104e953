-- ===== src/Policy.antt =====
-- helpdesktool/policy.py: default-deny evaluation of the registered skills. `str.lower` is an argument,
-- since the code relies on nothing that it does but the comparison of its results.
pub mod Registry
pub mod Decisions
pub mod Levels
pub mod Examples
use helpdesktool.Prelude.{
  String, Bool, true, false, ◌&&◌, ◌||◌, not, Option, none, some, List, [], ◌∷◌, ◌==◌, any, truthy,
  length, eqb, if◌then◌else◌,
}
use helpdesktool.Prelude.Dict.{Dict, get, put}
use helpdesktool.Models.{
  RiskLevel, CommandType, AutomationLevel, l0_observe_only, l1_safe_automatic,
  l2_automatic_verify_rollback, l3_user_approval, l4_admin_approval, l5_security_incident,
  ActionRequest, SkillDefinition,
}

pub record PolicyDecision : Type 0 where
  pub allowed : Bool
  pub approval_required : Bool
  pub reason : String
  pub skill : Option SkillDefinition
  pub automation_level : AutomationLevel

abbrev pub is_prohibited : RiskLevel → Bool
is_prohibited RiskLevel.prohibited = true
is_prohibited _ = false

abbrev pub is_medium_or_high : RiskLevel → Bool
is_medium_or_high RiskLevel.medium = true
is_medium_or_high RiskLevel.high = true
is_medium_or_high _ = false

abbrev pub is_read_only : RiskLevel → CommandType → Bool
is_read_only RiskLevel.read_only CommandType.read_only = true
is_read_only _ _ = false

abbrev pub is_destructive : CommandType → Bool
is_destructive CommandType.destructive = true
is_destructive _ = false

abbrev pub is_containment : CommandType → Bool
is_containment CommandType.security_containment = true
is_containment _ = false

unfoldable pub automation_level_for : SkillDefinition → Bool → AutomationLevel
automation_level_for skill approval_required =
    if is_read_only skill.risk skill.command_type
    then l0_observe_only
    else if skill.security_sensitive || is_containment skill.command_type
    then l5_security_incident
    else if skill.requires_admin_approval
    then l4_admin_approval
    else if approval_required || skill.requires_user_approval
    then l3_user_approval
    else if skill.reversible && truthy skill.rollback_skill_id
    then l2_automatic_verify_rollback
    else l1_safe_automatic

-- `PolicyEngine._skills`
abbrev pub PolicyEngine : Type 0
PolicyEngine = Dict SkillDefinition

-- the dictionary comprehension of `__init__`: a later skill replaces an earlier one of its id
unfoldable pub by_id : PolicyEngine → List SkillDefinition → PolicyEngine
by_id d [] = d
by_id d (s ∷ ss) = by_id (put s.skill_id s d) ss

-- `PolicyEngine.__init__`; `none` is the ValueError of a duplicate id.
unfoldable pub make_engine : List SkillDefinition → Option PolicyEngine
make_engine skills =
    let d = by_id [] skills in if eqb (length d) (length skills) then some d else none

abbrev pub refuse : String → Option SkillDefinition → PolicyDecision
refuse reason skill = record {
  allowed = false;
  approval_required = false;
  reason = reason;
  skill = skill;
  automation_level = l0_observe_only;
}

abbrev pub needs_approval : SkillDefinition → Bool
needs_approval skill =
    is_medium_or_high skill.risk
    || skill.requires_user_approval
    || skill.requires_admin_approval
    || skill.security_sensitive

module _ (lower : String → String) where
  -- `device_os.lower() in {item.lower() for item in skill.supported_os}`
  abbrev pub supports_os : SkillDefinition → String → Bool
  supports_os skill device_os = any (λ item. lower item == lower device_os) skill.supported_os

  -- The tests of `evaluate` on a skill that is registered.
  abbrev pub judge : SkillDefinition → String → PolicyDecision
  judge skill device_os =
      if is_prohibited skill.risk
      then refuse "skill is prohibited by policy" (some skill)
      else if is_destructive skill.command_type
      then refuse "destructive skills can never execute autonomously" (some skill)
      else if not (supports_os skill device_os)
      then refuse "skill does not support device OS" (some skill)
      else record {
        allowed = true;
        approval_required = needs_approval skill;
        reason = "allowed by registered skill policy";
        skill = some skill;
        automation_level = automation_level_for skill (needs_approval skill);
      }

  -- `self._skills.get(...)` is `None`, or the skill
  abbrev pub judge_found : Option SkillDefinition → String → PolicyDecision
  judge_found none device_os = refuse "skill is not allowlisted" none
  judge_found (some skill) device_os = judge skill device_os

  unfoldable pub evaluate : PolicyEngine → ActionRequest → String → PolicyDecision
  evaluate engine request device_os = judge_found (get request.skill_id engine) device_os
