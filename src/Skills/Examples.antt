-- ===== src/Skills/Examples.antt =====
-- The shape of a service restart.
use helpdesktool.Prelude.{◌≡◌, ◌↔◌, true, false, none, [], ◌∷◌, All}
use helpdesktool.Models.{Value, Mapping, SkillDefinition, low, low_risk_change}
use helpdesktool.Skills.{string, SkillManifest, validate_parameters}
use helpdesktool.Skills.Shape.{is_declared, is_given, validate_parameters_iff}

abbrev restart : SkillDefinition
restart = record {
  skill_id = "service.restart";
  risk = low;
  supported_os = "linux" ∷ [];
  timeout_seconds = 30;
  rollback_skill_id = none;
  command_type = low_risk_change;
  requires_user_approval = false;
  requires_admin_approval = false;
  security_sensitive = false;
  reversible = true;
}

abbrev manifest : SkillManifest
manifest = record {
  definition = restart;
  parameters = ("service", record { type_of = string; required = true }) ∷ [];
}

abbrev parameters : Mapping
parameters = ("service", Value.text "nginx") ∷ []

validate_parameters_iff_example : (validate_parameters manifest parameters ≡ none) ↔ (
    All (λ p. is_declared manifest.parameters p ≡ true) parameters
    × All (λ s. is_given parameters s ≡ true) manifest.parameters)
validate_parameters_iff_example = validate_parameters_iff manifest parameters
