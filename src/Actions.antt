-- ===== src/Actions.antt =====
-- The endpoints of helpdesktool/api.py that submit an action and decide on it: who asks, the parameters, the
-- device, then the orchestrator with the skills of the registry, and the idempotency record. An exception
-- changes nothing. The answer is the row of the action.
pub mod Created
pub mod Examples
use helpdesktool.Prelude.{
  String, Bool, true, false, ◌&&◌, not, Option, none, some, List, [], ◌∷◌, ◌==◌, any, truthy,
  if◌then◌else◌,
}
use helpdesktool.Prelude.Dict.{Dict, get}
use helpdesktool.Prelude.Exec.{Result, ok, err, Exec, lift, ◌>>=◌, ◌>>◌}
use helpdesktool.Models.{Value, Mapping, ActionRequest, ActionRecord, make_request}
use helpdesktool.Audit.{Entry}
use helpdesktool.Auth.{Principal, require_roles}
use helpdesktool.Idempotency.{
  HttpError, forbidden, not_found, conflict, internal_error, unprocessable, IdempotencyRecord,
  idempotency_lookup, remember,
}
use helpdesktool.Policy.{PolicyEngine}
use helpdesktool.Orchestrator.{
  returned, raised, SkillExecutor, Refusal, not_pending, own_action, Orchestrator, submit, approve,
  deny,
}
use helpdesktool.Devices.{Device, own_device, administrators}
use helpdesktool.Skills.{SkillManifest, validate_parameters}
use helpdesktool.Skills.Registry.{SkillManifestRow, get_active_manifest, load_policy}

pub data Choice : Type 0 where
  approve_it deny_it : Choice

pub record Approval : Type 0 where
  pub tenant_id : String
  pub action_id : String
  pub decided_by : String
  pub decision : Choice
  pub reason : String

pub record ApiDb : Type 0 where
  pub actions : Dict ActionRecord
  pub audit : List Entry
  pub devices : Dict Device
  pub tickets : Dict String
  pub skills : List SkillManifestRow
  pub idempotency : List (IdempotencyRecord ActionRecord)
  pub approvals : List Approval

pub record ActionCreate : Type 0 where
  pub device_id : String
  pub skill_id : String
  pub parameters : Mapping
  pub ticket_id : Option String

abbrev pub Endpoint : Type 0
Endpoint = Exec HttpError ApiDb ActionRecord

-- `NoLocalExecutor`
abbrev pub no_local_executor : SkillExecutor
no_local_executor = record {
  execute = λ log skill request. raised;
  verify = λ log skill request result. returned false;
  rollback = λ log skill request result. raised;
}

abbrev pub operators : List String
operators = "owner" ∷ "admin" ∷ "operator" ∷ []

abbrev pub check_shape : Option SkillManifest → Mapping → Result HttpError (Unit {0})
check_shape none parameters = ok tt
check_shape (some m) parameters = elim (validate_parameters m parameters) [
  | none ↦ ok tt
  | some e ↦ err unprocessable
]

-- `parameters.get("service") in allowed_services`; a list or a dict cannot be looked for in a set
abbrev pub check_name : List String → Option Value → Result HttpError (Unit {0})
check_name allowed (some (Value.text s)) =
    if any (λ a. a == s) allowed then ok tt else err forbidden
check_name allowed (some (Value.array s)) = err internal_error
check_name allowed (some (Value.object fields)) = err internal_error
check_name allowed _ = err forbidden

abbrev pub check_service : List String → ActionCreate → Result HttpError (Unit {0})
check_service allowed body =
    if body.skill_id == "service.restart"
    then check_name allowed (get "service" body.parameters)
    else ok tt

-- `tenant_row` on a ticket, where one is named
abbrev pub check_ticket : String → Option String → Dict String → Result HttpError (Unit {0})
check_ticket tenant_id none tickets = ok tt
check_ticket tenant_id (some id) tickets = if id == "" then ok tt else elim (get id tickets) [
  | none ↦ err not_found
  | some t ↦ if t == tenant_id then ok tt else err not_found
]

abbrev pub request_of : Principal → ActionCreate → Device → String → ActionRequest
request_of p body device id = record {
  tenant_id = p.tenant_id;
  device_id = device.id;
  skill_id = body.skill_id;
  requested_by = p.actor_id;
  parameters = body.parameters;
  correlation_id = id;
}

-- the checks of the constructor of a request
abbrev pub checked_request : ActionRequest → Result HttpError ActionRequest
checked_request r = elim (make_request r) [ none ↦ err internal_error | some q ↦ ok q ]

-- `orchestrator(session)`, which has no actions in memory
abbrev pub orchestrator_of : ApiDb → Orchestrator
orchestrator_of db = record { actions = []; store = some db.actions; audit = db.audit }

abbrev pub rows_of : Option (Dict ActionRecord) → Dict ActionRecord
rows_of none = []
rows_of (some rows) = rows

-- what the orchestrator has written
abbrev pub written : Orchestrator → ApiDb → ApiDb
written o db = record db { actions = rows_of o.store; audit = o.audit }

-- the row that is answered, under its key
abbrev pub answered : Principal → String → String → Orchestrator → Option ActionRecord → Endpoint
answered p key payload o none db = (err internal_error, db)
answered p key payload o (some row) db = (
  ok row,
  record (written o db) {
    idempotency = remember p.tenant_id "action" key payload row db.idempotency;
  },
)

abbrev pub submitted :
    Principal → String → String → Result Refusal ActionRecord × Orchestrator → Endpoint
submitted p key payload (err e, o) db = (err internal_error, db)
submitted p key payload (ok r, o) db =
    answered p key payload o (get r.request.correlation_id (rows_of o.store)) db

module _ (lower : String → String) (digest : SkillManifest → String) where
  -- a new action, once the key is known to be new
  unfoldable pub create_new :
      List String → Principal → ActionCreate → String → String → String → Endpoint
  create_new allowed p body key payload id db =
      (do
        manifest ← lift (get_active_manifest digest body.skill_id db.skills)
        lift (check_shape manifest body.parameters)
        lift (check_service allowed body)
        device ← lift (own_device p.tenant_id (get body.device_id db.devices))
        lift (check_ticket p.tenant_id body.ticket_id db.tickets)
        request ← lift (checked_request (request_of p body device id))
        policy ← lift (load_policy digest db.skills)
        submitted p key payload
            (submit lower no_local_executor policy false request device.os (orchestrator_of db)))
        db

  abbrev pub create_looked_up :
      List String
      → Principal
      → ActionCreate
      → String
      → String
      → String
      → Result HttpError (Option ActionRecord)
      → Endpoint
  create_looked_up allowed p body key payload id (err e) db = (err e, db)
  create_looked_up allowed p body key payload id (ok (some cached)) db = (ok cached, db)
  create_looked_up allowed p body key payload id (ok none) db =
      create_new allowed p body key payload id db

  -- `create_action`, given the digest of the payload and the new action's id
  unfoldable pub create_action :
      List String → Principal → ActionCreate → String → String → String → Endpoint
  unfolding create_new
  create_action allowed principal body key payload id = do
    p ← lift (require_roles operators principal)
    λ db.
        create_looked_up allowed p body key payload id
          (idempotency_lookup p.tenant_id "action" key payload db.idempotency) db

  abbrev pub refusal_error : Refusal → HttpError
  refusal_error not_pending = conflict
  refusal_error own_action = forbidden
  refusal_error _ = internal_error

  abbrev pub own_action_row : String → Option ActionRecord → Result HttpError ActionRecord
  own_action_row tenant_id none = err not_found
  own_action_row tenant_id (some r) =
      if r.request.tenant_id == tenant_id then ok r else err not_found

  abbrev pub with_approval : Approval → Orchestrator → ApiDb → ApiDb
  with_approval a o db = record (written o db) { approvals = a ∷ db.approvals }

  abbrev pub row_answer : Option ActionRecord → Result HttpError ActionRecord
  row_answer none = err internal_error
  row_answer (some row) = ok row

  -- the decision is committed, and then the row is read for the answer
  abbrev pub concluded : Approval → Result Refusal ActionRecord × Orchestrator → Endpoint
  concluded a (err e, o) db = (err (refusal_error e), db)
  concluded a (ok r, o) db =
      (row_answer (get r.request.correlation_id (rows_of o.store)), with_approval a o db)

  abbrev pub approval_of : Principal → String → Choice → String → Approval
  approval_of p id choice reason = record {
    tenant_id = p.tenant_id;
    action_id = id;
    decided_by = p.actor_id;
    decision = choice;
    reason = reason;
  }

  abbrev pub decide_by :
      Choice
      → PolicyEngine
      → Principal
      → String
      → String
      → ApiDb
      → Result Refusal ActionRecord × Orchestrator
  decide_by approve_it policy p id reason db =
      approve lower no_local_executor policy false p.tenant_id id p.actor_id (orchestrator_of db)
  decide_by deny_it policy p id reason db =
      deny lower no_local_executor policy false p.tenant_id id p.actor_id reason
        (orchestrator_of db)

  -- `decide_action`
  unfoldable pub decide_action : Principal → String → Choice → String → Endpoint
  decide_action principal id choice reason db =
      (do
        p ← lift (require_roles administrators principal)
        lift (own_action_row p.tenant_id (get id db.actions))
        policy ← lift (load_policy digest db.skills)
        concluded (approval_of p id choice reason) (decide_by choice policy p id reason db))
        db
