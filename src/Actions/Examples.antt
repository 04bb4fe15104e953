-- ===== src/Actions/Examples.antt =====
-- An operator who restarts a service of a device.
use helpdesktool.Prelude.{◌≡◌, ◌⊎◌, refl, String, true, false, none, some, [], ◌∷◌}
use helpdesktool.Prelude.Dict.{get, put}
use helpdesktool.Prelude.Exec.{Result, ok}
use helpdesktool.Models.{
  Value, ActionRecord, low, low_risk_change, queued, make_request, make_skill,
}
use helpdesktool.Auth.{Principal, require_roles}
use helpdesktool.Idempotency.{HttpError, idempotency_lookup, find_record, remember}
use helpdesktool.Policy.{make_engine, by_id, evaluate, automation_level_for}
use helpdesktool.Orchestrator.{submit, execute_or_queue, queue, event, persist}
use helpdesktool.Models.Space.{is_blank}
use helpdesktool.Devices.{Device}
use helpdesktool.Skills.{SkillManifest, validate_parameters, check_types, make_spec}
use helpdesktool.Skills.Registry.{
  SkillManifestRow, get_active_manifest, load_policy, load_active_skill_manifests, trusted,
  manifest_from_row,
}
use helpdesktool.Actions.{ApiDb, ActionCreate, operators, create_action, create_new}
use helpdesktool.Actions.Created.{IsCreated, create_action-IsCreated}

abbrev row : SkillManifestRow
row = record {
  definition = record {
    skill_id = "service.restart";
    risk = low;
    supported_os = "linux" ∷ [];
    timeout_seconds = 30;
    rollback_skill_id = none;
    command_type = low_risk_change;
    requires_user_approval = false;
    requires_admin_approval = false;
    security_sensitive = false;
    reversible = true;
  };
  parameters = ("service", ("string", true)) ∷ [];
  content_hash = "hash";
  active = true;
}

abbrev host : Device
host = record {
  id = "d1";
  tenant_id = "t1";
  external_id = "asset-7";
  hostname = "host";
  os = "linux";
  agent_key_hash = "#";
  active = true;
  revoked_at = none;
  revoked_reason = none;
  credential_rotated_at = none;
}

abbrev start : ApiDb
start = record {
  actions = [];
  audit = [];
  devices = ("d1", host) ∷ [];
  tickets = [];
  skills = row ∷ [];
  idempotency = [];
  approvals = [];
}

abbrev operator_of : Principal
operator_of = record { tenant_id = "t1"; actor_id = "u1"; role = "operator" }

abbrev body : ActionCreate
body = record {
  device_id = "d1";
  skill_id = "service.restart";
  parameters = ("service", Value.text "nginx") ∷ [];
  ticket_id = none;
}

abbrev lower : String → String
lower s = s

abbrev digest : SkillManifest → String
digest m = "hash"

abbrev outcome : Result HttpError ActionRecord × ApiDb
outcome = create_action lower digest ("nginx" ∷ []) operator_of body "key" "payload" "a1" start

abbrev created : ActionRecord
created = record {
  request = record {
    tenant_id = "t1";
    device_id = "d1";
    skill_id = "service.restart";
    requested_by = "u1";
    parameters = ("service", Value.text "nginx") ∷ [];
    correlation_id = "a1";
  };
  device_os = "linux";
  risk = low;
  status = queued;
  approved_by = none;
  result = none;
}

computed : outcome ≡ (ok created, outcome.1)
unfolding create_action require_roles idempotency_lookup find_record remember get_active_manifest
    validate_parameters check_types get put make_request is_blank load_policy
    load_active_skill_manifests trusted manifest_from_row make_spec make_skill make_engine by_id
    submit evaluate execute_or_queue queue event persist create_new automation_level_for
computed = refl

create_action-IsCreated_example :
    (p : Principal) × (require_roles operators operator_of ≡ ok p)
    × (((idempotency_lookup p.tenant_id "action" "key" "payload" start.idempotency
            ≡ ok (some created))
          × (outcome.1 ≡ start))
        ⊎ ((idempotency_lookup p.tenant_id "action" "key" "payload" start.idempotency ≡ ok none)
            × IsCreated lower digest
                ("nginx" ∷ [])
                p
                body
                "key"
                "payload"
                "a1"
                start
                outcome.1
                created))
create_action-IsCreated_example =
    create_action-IsCreated lower digest ("nginx" ∷ []) operator_of body "key" "payload" "a1" start
      outcome.1 created computed
