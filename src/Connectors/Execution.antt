-- ===== src/Connectors/Execution.antt =====
-- What the calls of a connector leave of the database: nothing, or the request with its result.
use helpdesktool.Prelude.{
  arith, String, Bool, false, Option, none, some, ◌≡◌, ◌⊎◌, inl, inr, refl, Bool-cases,
}
use helpdesktool.Prelude.Dict.{Dict, get}
use helpdesktool.Prelude.Exec.{Result, ok, err}
use helpdesktool.Models.{Value}
use helpdesktool.Audit.{Entry}
use helpdesktool.Auth.{Principal}
use helpdesktool.Idempotency.{HttpError}
use helpdesktool.Connectors.{
  ConnectorResult, Call, ApplicationConnector, ConnectorRequest, ApplicationConnectorConfig, Db,
  write_request,
}
use helpdesktool.Connectors.Decide.{
  unresolved, verified_as, executed_as, operate, identified_as, resolved_as, created_as, execute,
}
use helpdesktool.Connectors.Requests.{ran, stage_of, IsSame}

-- the row `r` is the row `row` with a result
pub record IsRan (row r : ConnectorRequest) : Type 0 where
  pub same : IsSame row r
  pub success : Bool
  pub stage : stage_of r ≡ ran row.decided_by success

module _ (sha256 : String → String) {W : Type 0} (show : Value → String)
    (registry : Dict (ApplicationConnector W)) (request_id : String) (p : Principal)
    (row : ConnectorRequest) (db : Db) where
  abbrev pub Ran : Db → Type 0
  Ran db' =
      (db' ≡ db)
      ⊎ ((r : ConnectorRequest) × (x : Entry) × (db' ≡ write_request request_id r x db)
          × IsRan row r)

  unresolved-Ran :
      (detail : String) (w : W)
      → Ran (unresolved sha256 show registry request_id p row detail db w).1
  unresolved-Ran detail w = inr (_, _, refl, record { same = refl; success = false; stage = refl })

  verified_as-Ran :
      (execution : ConnectorResult) (o : Option ConnectorResult × W)
      → Ran (verified_as sha256 show registry request_id p row execution o db).1
  verified_as-Ran execution (none, w) = inl refl
  verified_as-Ran execution (some verification, w) =
      inr (_, _, refl, record { same = refl; success = execution.success; stage = ground arith })

  executed_as-Ran :
      (c : ApplicationConnector W) (user_id : String) (o : Option ConnectorResult × W)
      → Ran (executed_as sha256 show registry request_id p row c user_id o db).1
  executed_as-Ran c user_id (none, w) = inl refl
  executed_as-Ran c user_id (some execution, w) =
      verified_as-Ran execution (c.verify_result user_id row.operation w)

  operate-Ran :
      (c : ApplicationConnector W) (user_id : String) (o : Option (String → Call W)) (w : W)
      → Ran (operate sha256 show registry request_id p row c user_id o db w).1
  operate-Ran c user_id none w = inl refl
  operate-Ran c user_id (some method) w = executed_as-Ran c user_id (method user_id w)

  identified_as-Ran :
      (c : ApplicationConnector W) (o : Option Value) (w : W)
      → Ran (identified_as sha256 show registry request_id p row c o db w).1
  identified_as-Ran c none w = inl refl
  identified_as-Ran c (some user_id) w = operate-Ran c (show user_id) (c.operation row.operation) w

  resolved_as-Ran :
      (c : ApplicationConnector W) (o : Option ConnectorResult × W)
      → Ran (resolved_as sha256 show registry request_id p row c o db).1
  resolved_as-Ran c (none, w) = inl refl
  resolved_as-Ran c (some resolved, w) = elim (Bool-cases resolved.success) [
    | inr bad ↦ rw bad (unresolved-Ran resolved.detail w)
    | inl good ↦ rw good (identified_as-Ran c (get "external_user_id" resolved.data_of) w)
  ]

  pub execute-Ran :
      (o : Result HttpError ApplicationConnectorConfig) (w : W)
      → Ran (execute sha256 show registry request_id p row o db w).1
  execute-Ran (err e) w = inl refl
  execute-Ran (ok config) w = go (get config.connector_type registry)
    where
      go :
          (o : Option (ApplicationConnector W))
          → Ran (created_as sha256 show registry request_id p row o db w).1
      go none = inl refl
      go (some c) = resolved_as-Ran c (c.resolve_user row.target_email w)
