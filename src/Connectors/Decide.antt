-- ===== src/Connectors/Decide.antt =====
-- `decide_connector_request` of helpdesktool/api.py, with the calls of the connector that an approval brings
-- about. An exception rolls the database back, and not the world.
use helpdesktool.Prelude.{
  ℕ, String, Bool, false, not, Option, none, some, [], ◌∷◌, ◌==◌, if◌then◌else◌,
}
use helpdesktool.Prelude.Dict.{Dict, get}
use helpdesktool.Prelude.Exec.{Result, ok, err}
use helpdesktool.Models.{Value}
use helpdesktool.Audit.{Entry}
use helpdesktool.Auth.{Principal, require_roles}
use helpdesktool.Idempotency.{HttpError, forbidden, conflict, internal_error}
use helpdesktool.Leases.{entry}
use helpdesktool.Devices.{administrators}
use helpdesktool.Connectors.{
  ConnectorResult, Call, ApplicationConnector, RequestStatus, denied, succeeded, failed, is_pending,
  ConnectorRequest, ApplicationConnectorConfig, Db, Decision, approve, deny,
  ConnectorRequestDecision, own_request, own_config, write_request, verify_step_up_code, cleared,
  decided,
}

module _ (sha256 : String → String) where
  module _ {W : Type 0} (show : Value → String) (registry : Dict (ApplicationConnector W))
      (request_id : String) where
    -- what a handler leaves: its answer, the database and the world
    abbrev pub Outcome : Type 0
    Outcome = Result HttpError ConnectorRequest × Db × W

    -- an exception: the database is rolled back, and the world is not
    abbrev pub raised : HttpError → Db → W → Outcome
    raised e db w = (err e, db, w)

    abbrev pub closed : ConnectorRequest → Entry → Db → W → Outcome
    closed row e db w = (ok row, write_request request_id row e db, w)

    abbrev pub unresolved : Principal → ConnectorRequest → String → Db → W → Outcome
    unresolved p row detail db w =
        closed
          (record row { status = failed; result_success = some false; result_detail = some detail })
          (entry p.tenant_id row.id "connector_request.failed" p.actor_id
            (("reason", Value.text detail) ∷ ("stage", Value.text "resolve_user") ∷ []))
          db w

    abbrev pub status_of : Bool → RequestStatus
    status_of success = if success then succeeded else failed

    abbrev pub event_of : Bool → String
    event_of success = if success then "connector_request.executed" else "connector_request.failed"

    -- after the operation: its result is checked and written
    abbrev pub verified_as :
        Principal → ConnectorRequest → ConnectorResult → Option ConnectorResult × W → Db → Outcome
    verified_as p row execution (none, w) db = raised internal_error db w
    verified_as p row execution (some verification, w) db =
        closed
          (record row {
            status = status_of execution.success;
            result_success = some execution.success;
            result_detail = some execution.detail;
            verified = verification.success;
          })
          (entry p.tenant_id row.id (event_of execution.success) p.actor_id (
            ("operation", Value.text row.operation)
            ∷ ("success", Value.boolean execution.success)
            ∷ ("verified", Value.boolean verification.success)
            ∷ []))
          db w

    abbrev pub executed_as :
        Principal
        → ConnectorRequest
        → ApplicationConnector W
        → String
        → Option ConnectorResult × W
        → Db
        → Outcome
    executed_as p row connector user_id (none, w) db = raised internal_error db w
    executed_as p row connector user_id (some execution, w) db =
        verified_as p row execution (connector.verify_result user_id row.operation w) db

    -- the call of the method that `getattr` gives, where there is one
    abbrev pub operate :
        Principal
        → ConnectorRequest
        → ApplicationConnector W
        → String
        → Option (String → Call W)
        → Db
        → W
        → Outcome
    operate p row connector user_id none db w = raised internal_error db w
    operate p row connector user_id (some method) db w =
        executed_as p row connector user_id (method user_id w) db

    abbrev pub identified_as :
        Principal → ConnectorRequest → ApplicationConnector W → Option Value → Db → W → Outcome
    identified_as p row connector none db w = raised internal_error db w
    identified_as p row connector (some user_id) db w =
        operate p row connector (show user_id) (connector.operation row.operation) db w

    abbrev pub resolved_as :
        Principal
        → ConnectorRequest
        → ApplicationConnector W
        → Option ConnectorResult × W
        → Db
        → Outcome
    resolved_as p row connector (none, w) db = raised internal_error db w
    resolved_as p row connector (some resolved, w) db =
        if not resolved.success
        then unresolved p row resolved.detail db w
        else identified_as p row connector (get "external_user_id" resolved.data_of) db w

    abbrev pub created_as :
        Principal → ConnectorRequest → Option (ApplicationConnector W) → Db → W → Outcome
    created_as p row none db w = raised internal_error db w
    created_as p row (some connector) db w =
        resolved_as p row connector (connector.resolve_user row.target_email w) db

    -- `CONNECTOR_REGISTRY.create`, and the calls of the connector
    abbrev pub execute :
        Principal
        → ConnectorRequest
        → Result HttpError ApplicationConnectorConfig
        → Db
        → W
        → Outcome
    execute p row (err e) db w = raised e db w
    execute p row (ok config) db w = created_as p row (get config.connector_type registry) db w

    abbrev pub decide_as : Decision → Principal → String → ℕ → ConnectorRequest → Db → W → Outcome
    decide_as deny p reason now row db w =
        closed (record (decided sha256 p reason now row) { status = denied })
          (entry p.tenant_id row.id "connector_request.denied" p.actor_id
            (("reason", Value.text reason) ∷ []))
          db w
    decide_as approve p reason now row db w =
        execute p (decided sha256 p reason now row)
          (own_config p.tenant_id (get row.connector_id db.configs)) db w

    abbrev pub decide_cleared :
        Principal
        → ConnectorRequestDecision
        → ℕ
        → Result HttpError ConnectorRequest
        → Db
        → W
        → Outcome
    decide_cleared p body now (err e) db w = raised e db w
    decide_cleared p body now (ok row) db w = decide_as body.decision p body.reason now row db w

    abbrev pub decide_found :
        Principal
        → ConnectorRequestDecision
        → ℕ
        → Result HttpError ConnectorRequest
        → Db
        → W
        → Outcome
    decide_found p body now (err e) db w = raised e db w
    decide_found p body now (ok row) db w =
        if not (is_pending row.status)
        then raised conflict db w
        else if row.requested_by == p.actor_id
        then raised forbidden db w
        else decide_cleared p body now (cleared sha256 body now row) db w

    abbrev pub decide_admitted :
        ConnectorRequestDecision → ℕ → Result HttpError Principal → Db → W → Outcome
    decide_admitted body now (err e) db w = raised e db w
    decide_admitted body now (ok p) db w =
        decide_found p body now (own_request p.tenant_id (get request_id db.requests)) db w

    -- `decide_connector_request`
    unfoldable pub decide_connector_request :
        ConnectorRequestDecision → Principal → ℕ → Db → W → Outcome
    unfolding verify_step_up_code
    decide_connector_request body principal now db w =
        decide_admitted body now (require_roles administrators principal) db w
