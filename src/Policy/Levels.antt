-- ===== src/Policy/Levels.antt =====
-- How much human involvement policy.py's `automation_level_for` asks for.
use helpdesktool.Prelude.{◌≡◌, String, true, false, Bool, ◌&&◌, arith, some, not}
use helpdesktool.Models.{
  AutomationLevel, l0_observe_only, l1_safe_automatic, l2_automatic_verify_rollback, ActionRequest,
  SkillDefinition,
}
use helpdesktool.Policy.{PolicyEngine, automation_level_for, evaluate, is_read_only, is_containment}

-- levels at which nobody is asked before the run
abbrev pub is_unattended : AutomationLevel → Bool
is_unattended l0_observe_only = true
is_unattended l1_safe_automatic = true
is_unattended l2_automatic_verify_rollback = true
is_unattended _ = false

-- For an allowed request whose skill is not read-only in both senses, the recorded level is below L3
-- exactly when no approval is asked for and the skill is no security containment.
pub evaluate-level :
    (lower : String → String) (engine : PolicyEngine) (r : ActionRequest) (device_os : String)
    (skill : SkillDefinition)
    → (evaluate lower engine r device_os).allowed ≡ true
    → (evaluate lower engine r device_os).skill ≡ some skill
    → is_read_only skill.risk skill.command_type ≡ false
    → is_unattended (evaluate lower engine r device_os).automation_level ≡ (
        not (evaluate lower engine r device_os).approval_required
        && not (is_containment skill.command_type))
unfolding evaluate automation_level_for
evaluate-level lower engine r device_os skill a s n = ground arith
