-- ===== src/Connectors/Examples.antt =====
-- A request to reset a password, its code, its approval, and the end of another that nobody decided.
use helpdesktool.Prelude.{◌≡◌, refl, String, true, false, some, none, List, [], ◌∷◌, any}
use helpdesktool.Prelude.Dict.{Dict, get}
use helpdesktool.Prelude.Text.{◌++◌}
use helpdesktool.Models.{Value}
use helpdesktool.Auth.{Principal}
use helpdesktool.Connectors.{
  ApplicationConnector, ConnectorRequest, ConnectorRequestDecision, ApplicationConnectorConfig, Db,
  pending_approval, succeeded, approve,
}
use helpdesktool.Connectors.Mock.{
  Accounts, demo_accounts, by_id, change, reset_password, verify_result, mock_connector,
}
use helpdesktool.Connectors.Verified.{succeeds, operation-verified}
use helpdesktool.Connectors.Requests.{
  Event, generate, decide, reap_batch, stage_of, IsSame, IsNext, serve, serve_all,
}
use helpdesktool.Connectors.Runs.{serve-IsNext}
use helpdesktool.Connectors.Trace.{asks_code, Warranted, serve_all-Warranted, serve_all-final}

abbrev sha256 : String → String
sha256 s = "#" ++ s

abbrev show : Value → String
show (Value.text s) = s
show _ = ""

abbrev registry : Dict (ApplicationConnector Accounts)
registry = ("mock", mock_connector "token") ∷ []

abbrev request : ConnectorRequest
request = record {
  id = "r1";
  tenant_id = "t1";
  conversation_id = none;
  connector_id = "c1";
  operation = "reset_password";
  target_email = "owner@example.com";
  requested_by = "u1";
  risk = "high";
  status = pending_approval;
  decided_by = none;
  decision_reason = none;
  decided_at = none;
  result_success = none;
  result_detail = none;
  verified = false;
  step_up_code_hash = none;
  step_up_code_expires_at = none;
  created_at = 0;
}

abbrev config : ApplicationConnectorConfig
config = record {
  id = "c1";
  tenant_id = "t1";
  application_id = "crm";
  display_name = "CRM";
  connector_type = "mock";
  active = true;
}

abbrev start : Db
start = record { requests = ("r1", request) ∷ []; configs = ("c1", config) ∷ []; audit = [] }

abbrev user : Principal
user = record { tenant_id = "t1"; actor_id = "u1"; role = "viewer" }

abbrev admin : Principal
admin = record { tenant_id = "t1"; actor_id = "u2"; role = "admin" }

abbrev approval : ConnectorRequestDecision
approval = record { decision = approve; reason = "known"; step_up_code = some "123456789" }

abbrev events : List Event
events =
    generate "r1" user "123456789" 1
    ∷ decide "r1" approval admin 5
    ∷ decide "r1" approval admin 6
    ∷ reap_batch 50 24 9000
    ∷ []

asked : get "r1" start.requests ≡ some request
unfolding get
asked = refl

serve-IsNext_example :
    (r : ConnectorRequest) × (get "r1"
        (serve sha256 show registry
          (generate "r1" user "123456789" 1)
          (start, demo_accounts)).0.requests
      ≡ some r)
    × IsNext sha256 "r1" (generate "r1" user "123456789" 1) request r
serve-IsNext_example =
    serve-IsNext sha256 show registry (generate "r1" user "123456789" 1) "r1" start demo_accounts
      request asked

serve_all-Warranted_example :
    (r : ConnectorRequest) × (get "r1"
        (serve_all sha256 show registry events (start, demo_accounts)).0.requests
      ≡ some r)
    × IsSame request r
    × Warranted "u1" true (any (asks_code "r1" "u1") events) (stage_of r)
serve_all-Warranted_example =
    serve_all-Warranted sha256 show registry events "r1" start demo_accounts request asked refl

abbrev done : ConnectorRequest
done = record request { status = succeeded; decided_by = some "u2" }

abbrev later : Db
later = record start { requests = ("r1", done) ∷ [] }

found_done : get "r1" later.requests ≡ some done
unfolding get
found_done = refl

serve_all-final_example :
    (r : ConnectorRequest) × (get "r1"
        (serve_all sha256 show registry events (later, demo_accounts)).0.requests
      ≡ some r)
    × (stage_of r ≡ stage_of done)
serve_all-final_example =
    serve_all-final sha256 show registry events "r1" later demo_accounts done found_done refl

reset : succeeds (reset_password "token" "mock-ext-001" demo_accounts) ≡ true
unfolding reset_password by_id change
reset = refl

operation-verified_example :
    succeeds (
      verify_result "mock-ext-001" "reset_password"
        (reset_password "token" "mock-ext-001" demo_accounts).1)
    ≡ true
operation-verified_example =
    operation-verified "token" "mock-ext-001" demo_accounts "reset_password"
      (reset_password "token") refl refl reset
