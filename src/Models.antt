-- ===== src/Models.antt =====
-- helpdesktool/models.py: the domain contracts that the control plane and the agents share. A request
-- or a skill is made by `make`, which is the dataclass's constructor with its `__post_init__`.
pub mod Space
use helpdesktool.Models.Space.{is_blank}
use helpdesktool.Prelude.{
  ℕ, String, Bool, true, false, ◌||◌, not, Option, none, some, List, [], ◌∷◌, ◌==◌, leb,
  if◌then◌else◌,
}
use helpdesktool.Prelude.Dict.{Dict}

pub data RiskLevel : Type 0 where
  read_only low medium high prohibited : RiskLevel

pub data CommandType : Type 0 where
  read_only low_risk_change privileged_change security_containment destructive : CommandType

pub data AutomationLevel : Type 0 where
  l0_observe_only l1_safe_automatic l2_automatic_verify_rollback : AutomationLevel
  l3_user_approval l4_admin_approval l5_security_incident : AutomationLevel

pub data SecurityClassification : Type 0 where
  normal unknown misconfiguration policy_violation : SecurityClassification
  suspicious likely_compromised confirmed_compromise : SecurityClassification

pub data BaselineScope : Type 0 where
  generic_best_practice organizational_policy device_baseline : BaselineScope
  user_baseline current_state : BaselineScope

pub data ActionStatus : Type 0 where
  requested pending_approval approved queued claimed running : ActionStatus
  succeeded failed rolled_back rollback_failed denied : ActionStatus

-- The values of JSON objects. What the code never looks into is kept as its printed form: an array, and
-- a number that is no natural one.
mutual
  pub data Value : Type 0 where
    null : Value
    boolean : Bool → Value
    number : ℕ → Value
    real : String → Value
    text : String → Value
    array : String → Value
    object : Fields → Value

  pub data Fields : Type 0 where
    end : Fields
    field : String → Value → Fields → Fields

-- a `dict[str, Any]`
abbrev pub Mapping : Type 0
Mapping = Dict Value

abbrev pub mapping : Fields → Mapping
mapping end = []
mapping (field k v fs) = (k, v) ∷ mapping fs

pub record ActionRequest : Type 0 where
  pub tenant_id : String
  pub device_id : String
  pub skill_id : String
  pub requested_by : String
  pub parameters : Mapping
  pub correlation_id : String

-- `none` is the ValueError of an empty or blank name.
unfoldable pub make_request : ActionRequest → Option ActionRequest
unfolding is_blank
make_request r =
    if is_blank r.tenant_id
      || is_blank r.device_id
      || is_blank r.skill_id
      || is_blank r.requested_by
    then none
    else some r

pub record SkillDefinition : Type 0 where
  pub skill_id : String
  pub risk : RiskLevel
  pub supported_os : List String
  pub timeout_seconds : ℕ
  pub rollback_skill_id : Option String
  pub command_type : CommandType
  pub requires_user_approval : Bool
  pub requires_admin_approval : Bool
  pub security_sensitive : Bool
  pub reversible : Bool

abbrev is_nil : List String → Bool
is_nil [] = true
is_nil (x ∷ xs) = false

-- `none` is the ValueError.
unfoldable pub make_skill : SkillDefinition → Option SkillDefinition
make_skill s =
    if s.skill_id == "" || is_nil s.supported_os
    then none
    else if not (leb 1 s.timeout_seconds) || not (leb s.timeout_seconds 300)
    then none
    else some s

pub record ExecutionResult : Type 0 where
  pub success : Bool
  pub output : Mapping
  pub error : Option String

pub record ActionRecord : Type 0 where
  pub request : ActionRequest
  pub device_os : String
  pub risk : RiskLevel
  pub status : ActionStatus
  pub approved_by : Option String
  pub result : Option ExecutionResult

-- the texts of the enumerations' members
abbrev pub risk_text : RiskLevel → String
risk_text RiskLevel.read_only = "read_only"
risk_text RiskLevel.low = "low"
risk_text RiskLevel.medium = "medium"
risk_text RiskLevel.high = "high"
risk_text RiskLevel.prohibited = "prohibited"

abbrev pub level_text : AutomationLevel → String
level_text l0_observe_only = "l0_observe_only"
level_text l1_safe_automatic = "l1_safe_automatic"
level_text l2_automatic_verify_rollback = "l2_automatic_verify_rollback"
level_text l3_user_approval = "l3_user_approval"
level_text l4_admin_approval = "l4_admin_approval"
level_text l5_security_incident = "l5_security_incident"

abbrev pub optional_text : Option String → Value
optional_text none = Value.null
optional_text (some s) = Value.text s
