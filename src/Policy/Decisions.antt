-- ===== src/Policy/Decisions.antt =====
-- When policy.py's `PolicyEngine.evaluate` allows a request, and when it asks for an approval.
use mathlib.Core.Path.{subst}
use mathlib.Core.Option.{some-injective}
use helpdesktool.Prelude.{
  String, ◌≡◌, refl, sym, ◌≢◌, ◌↔◌, ◌⊎◌, true, Option, none, some, List, arith,
}
use helpdesktool.Models.{RiskLevel, CommandType, ActionRequest, SkillDefinition}
use helpdesktool.Policy.{
  PolicyEngine, make_engine, evaluate, supports_os, needs_approval, judge, judge_found,
}
use helpdesktool.Policy.Registry.{find_skill, get-make_engine}

-- what a skill must be for a request on a device to be allowed
pub record IsPermitted (lower : String → String) (skill : SkillDefinition) (device_os : String)
    : Type 0 where
  pub not_prohibited : skill.risk ≢ RiskLevel.prohibited
  pub not_destructive : skill.command_type ≢ CommandType.destructive
  pub os_supported : supports_os lower skill device_os ≡ true

-- why a skill takes an approval
abbrev pub AsksApproval : SkillDefinition → Type 0
AsksApproval skill =
    (skill.risk ≡ RiskLevel.medium)
    ⊎ (skill.risk ≡ RiskLevel.high)
    ⊎ (skill.requires_user_approval ≡ true)
    ⊎ (skill.requires_admin_approval ≡ true)
    ⊎ (skill.security_sensitive ≡ true)

needs_approval_iff : (skill : SkillDefinition) → (needs_approval skill ≡ true) ↔ AsksApproval skill
needs_approval_iff skill = (λ h. ground arith, λ h. ground arith)

module _ (lower : String → String) (device_os : String) where
  judge_allowed :
      (skill : SkillDefinition)
      → (judge lower skill device_os).allowed ≡ true
      → IsPermitted lower skill device_os
  judge_allowed skill h = record {
    not_prohibited = λ e. ground arith;
    not_destructive = λ e. ground arith;
    os_supported = ground arith;
  }

  judge-IsPermitted :
      (skill : SkillDefinition)
      → IsPermitted lower skill device_os
      → (judge lower skill device_os).allowed ≡ true
  judge-IsPermitted skill p = ground (arith, p.os_supported, p.not_prohibited, p.not_destructive)

  found_allowed :
      (o : Option SkillDefinition)
      → ((judge_found lower o device_os).allowed ≡ true)
        ↔ ((skill : SkillDefinition) × (o ≡ some skill) × IsPermitted lower skill device_os)
  found_allowed none = (λ h. cc, λ (s, e, p). cc)
  found_allowed (some skill) = (
    λ h. (skill, refl, judge_allowed skill h),
    λ (s, e, p).
        judge-IsPermitted skill
          (subst (λ t. IsPermitted lower t device_os) (sym (some-injective _ _ e)) p),
  )

  found_approval :
      (o : Option SkillDefinition)
      → ((judge_found lower o device_os).approval_required ≡ true) ↔ (
          (skill : SkillDefinition) × (o ≡ some skill)
          × IsPermitted lower skill device_os
          × AsksApproval skill)
  found_approval none = (λ h. cc, λ (s, e, p, n). cc)
  found_approval (some skill) = (
    λ h. (
      skill,
      refl,
      judge_allowed skill (ground arith),
      (needs_approval_iff skill).0 (ground arith),
    ),
    λ (s, e, p, n). ground (
      arith,
      judge-IsPermitted skill
          (subst (λ t. IsPermitted lower t device_os) (sym (some-injective _ _ e)) p),
      (needs_approval_iff skill).1 (subst AsksApproval (sym (some-injective _ _ e)) n),
    ),
  )

module _ (lower : String → String) (skills : List SkillDefinition) (engine : PolicyEngine)
    (made : make_engine skills ≡ some engine) (r : ActionRequest) (device_os : String) where
  -- A request is allowed exactly when the skills hold one with the requested id, the first of the list
  -- with that id is neither prohibited nor destructive, and it supports the device's OS.
  pub evaluate-allowed_iff : ((evaluate lower engine r device_os).allowed ≡ true) ↔ (
      (skill : SkillDefinition) × (find_skill r.skill_id skills ≡ some skill)
      × IsPermitted lower skill device_os)
  unfolding evaluate
  evaluate-allowed_iff =
      rw (get-make_engine r.skill_id skills engine made)
        (found_allowed lower device_os (find_skill r.skill_id skills))

  -- An approval is asked for exactly when such a skill is found and permitted, and it has a medium or
  -- high risk, requires a user's or an admin's approval, or is security sensitive.
  pub evaluate-approval_iff : ((evaluate lower engine r device_os).approval_required ≡ true) ↔ (
      (skill : SkillDefinition) × (find_skill r.skill_id skills ≡ some skill)
      × IsPermitted lower skill device_os
      × AsksApproval skill)
  unfolding evaluate
  evaluate-approval_iff =
      rw (get-make_engine r.skill_id skills engine made)
        (found_approval lower device_os (find_skill r.skill_id skills))
