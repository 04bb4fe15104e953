-- ===== src/Connectors.antt =====
-- Requests for operations on the accounts of applications: the contract and the registry of
-- helpdesktool/connectors/__init__.py, the step-up codes and the decision on a request of
-- helpdesktool/api.py, and helpdesktool/connector_request_reaper.py.
-- A connector acts on a world `W`, the state of the applications, which no rollback undoes; a method that
-- raises answers `none`. SHA-256, `str`, the time and a fresh code are arguments. Times are in minutes.
pub mod Decide
pub mod Expiry
pub mod Mock
pub mod Verified
pub mod Requests
pub mod Execution
pub mod Life
pub mod Runs
pub mod Trace
pub mod Examples
use helpdesktool.Prelude.{
  ℕ, ◌+◌, ◌*◌, String, Bool, true, false, ◌&&◌, ◌||◌, not, Option, none, some, List, [], ◌∷◌, ◌==◌,
  keep, ltb, leb, take, map, length, if◌then◌else◌,
}
use helpdesktool.Prelude.Dict.{Dict, get, put, values}
use helpdesktool.Prelude.Text.{◌++◌, decimal}
use helpdesktool.Prelude.Exec.{Result, ok, err}
use helpdesktool.Models.{Value, Mapping}
use helpdesktool.Audit.{Entry}
use helpdesktool.Auth.{Principal, require_roles}
use helpdesktool.Idempotency.{
  HttpError, bad_request, forbidden, not_found, conflict, internal_error,
}
use helpdesktool.Leases.{entry}
use helpdesktool.Devices.{administrators}
use helpdesktool.Reaper.{clamp_limit}

pub record ConnectorResult : Type 0 where
  pub success : Bool
  pub detail : String
  pub data_of : Mapping

-- a call of a connector's method
abbrev pub Call : Type 0 → Type 0
Call W = W → Option ConnectorResult × W

-- `ApplicationConnector`; `operation` is `getattr`, with no method for a name that is none
pub record ApplicationConnector (W : Type 0) : Type 0 where
  pub resolve_user : String → Call W
  pub operation : String → Option (String → Call W)
  pub verify_result : String → String → Call W

abbrev pub high_risk_operations : List String
high_risk_operations = "reset_password" ∷ "unlock_account" ∷ "reset_mfa" ∷ []

pub data RequestStatus : Type 0 where
  pending_approval denied succeeded failed expired : RequestStatus

abbrev pub is_pending : RequestStatus → Bool
is_pending pending_approval = true
is_pending _ = false

pub record ConnectorRequest : Type 0 where
  pub id : String
  pub tenant_id : String
  pub conversation_id : Option String
  pub connector_id : String
  pub operation : String
  pub target_email : String
  pub requested_by : String
  pub risk : String
  pub status : RequestStatus
  pub decided_by : Option String
  pub decision_reason : Option String
  pub decided_at : Option ℕ
  pub result_success : Option Bool
  pub result_detail : Option String
  pub verified : Bool
  pub step_up_code_hash : Option String
  pub step_up_code_expires_at : Option ℕ
  pub created_at : ℕ

pub record ApplicationConnectorConfig : Type 0 where
  pub id : String
  pub tenant_id : String
  pub application_id : String
  pub display_name : String
  pub connector_type : String
  pub active : Bool

pub record Db : Type 0 where
  pub requests : Dict ConnectorRequest
  pub configs : Dict ApplicationConnectorConfig
  pub audit : List Entry

pub data Decision : Type 0 where
  approve deny : Decision

pub record ConnectorRequestDecision : Type 0 where
  pub decision : Decision
  pub reason : String
  pub step_up_code : Option String

-- `tenant_row` on requests
abbrev pub own_request : String → Option ConnectorRequest → Result HttpError ConnectorRequest
own_request tenant_id none = err not_found
own_request tenant_id (some r) = if r.tenant_id == tenant_id then ok r else err not_found

-- `tenant_row` on configurations
abbrev pub own_config :
    String → Option ApplicationConnectorConfig → Result HttpError ApplicationConnectorConfig
own_config tenant_id none = err not_found
own_config tenant_id (some c) = if c.tenant_id == tenant_id then ok c else err not_found

-- a code without a time, or past it
abbrev pub has_run_out : ℕ → Option ℕ → Bool
has_run_out now none = true
has_run_out now (some expires) = ltb expires now

abbrev pub step_up_code_ttl_minutes : ℕ
step_up_code_ttl_minutes = 10

-- the row's changes and an event
abbrev pub write_request : String → ConnectorRequest → Entry → Db → Db
write_request id r e db = record db { requests = put id r db.requests; audit = e ∷ db.audit }

module _ (sha256 : String → String) where
  -- the code, where one was given that is not empty
  abbrev pub is_code : String → Option String → Bool
  is_code hash none = false
  is_code hash (some code) = not (code == "") && sha256 code == hash

  -- the checks, given the row's code, its time and what was shown
  abbrev pub check_code :
      ConnectorRequest
      → Option String
      → Option ℕ
      → Option String
      → ℕ
      → Result HttpError ConnectorRequest
  check_code row none expires supplied now = err forbidden
  check_code row (some hash) expires supplied now =
      if has_run_out now expires
      then err forbidden
      else if not (is_code hash supplied)
      then err forbidden
      else ok (record row { step_up_code_hash = none; step_up_code_expires_at = none })

  -- `_verify_connector_request_step_up_code`, with the row that it changes
  unfoldable pub verify_step_up_code :
      ConnectorRequest → Option String → ℕ → Result HttpError ConnectorRequest
  verify_step_up_code row supplied now =
      check_code row row.step_up_code_hash row.step_up_code_expires_at supplied now

  abbrev pub minted : ConnectorRequest → String → ℕ → ConnectorRequest
  minted row code now = record row {
    step_up_code_hash = some (sha256 code);
    step_up_code_expires_at = some (now + step_up_code_ttl_minutes);
  }

  abbrev pub generate_found :
      String
      → Principal
      → String
      → ℕ
      → Result HttpError ConnectorRequest
      → Db
      → Result HttpError String × Db
  generate_found request_id p code now (err e) db = (err e, db)
  generate_found request_id p code now (ok row) db =
      if not (row.requested_by == p.actor_id)
      then (err forbidden, db)
      else if not (row.risk == "high")
      then (err bad_request, db)
      else if not (is_pending row.status)
      then (err conflict, db)
      else (
        ok code,
        write_request request_id (minted row code now)
            (entry p.tenant_id row.id "connector_request.step_up_code_generated" p.actor_id
              (("expires_at", Value.number (now + step_up_code_ttl_minutes)) ∷ []))
            db,
      )

  -- `generate_connector_request_step_up_code`, given the code
  unfoldable pub generate_step_up_code :
      String → Principal → String → ℕ → Db → Result HttpError String × Db
  generate_step_up_code request_id p code now db =
      generate_found request_id p code now (own_request p.tenant_id (get request_id db.requests)) db

  -- the check that a decision needs, with the row that it changes
  abbrev pub cleared :
      ConnectorRequestDecision → ℕ → ConnectorRequest → Result HttpError ConnectorRequest
  cleared body now row = elim body.decision [
    | deny ↦ ok row
    | approve ↦ if row.risk == "high" then verify_step_up_code row body.step_up_code now else ok row
  ]

  abbrev pub decided : Principal → String → ℕ → ConnectorRequest → ConnectorRequest
  decided p reason now row = record row {
    decided_by = some p.actor_id;
    decision_reason = some reason;
    decided_at = some now;
  }
