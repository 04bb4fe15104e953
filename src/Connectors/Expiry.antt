-- ===== src/Connectors/Expiry.antt =====
-- helpdesktool/connector_request_reaper.py: requests that nobody decides expire.
use helpdesktool.Prelude.{
  ℕ, ◌+◌, ◌*◌, String, Bool, ◌&&◌, Option, none, some, List, [], ◌∷◌, keep, ltb, leb, take, map,
  length, if◌then◌else◌,
}
use helpdesktool.Prelude.Dict.{get, values}
use helpdesktool.Prelude.Text.{◌++◌, decimal}
use helpdesktool.Models.{Value}
use helpdesktool.Leases.{entry}
use helpdesktool.Reaper.{clamp_limit}
use helpdesktool.Connectors.{expired, is_pending, ConnectorRequest, Db, write_request}

abbrev pub is_stale : ℕ → ℕ → ConnectorRequest → Bool
is_stale stale_after_hours now r =
    is_pending r.status && ltb (r.created_at + 60 * stale_after_hours) now

unfoldable pub insert_by_creation : ConnectorRequest → List ConnectorRequest → List ConnectorRequest
insert_by_creation r [] = r ∷ []
insert_by_creation r (s ∷ rows) =
    let rest = insert_by_creation r rows in
    if leb r.created_at s.created_at then r ∷ s ∷ rows else s ∷ rest

unfoldable pub sort_by_creation : List ConnectorRequest → List ConnectorRequest
unfolding insert_by_creation
sort_by_creation [] = []
sort_by_creation (r ∷ rows) = insert_by_creation r (sort_by_creation rows)

module _ (stale_after_hours now : ℕ) where
  abbrev pub expire : ConnectorRequest → ConnectorRequest
  expire r = record r {
    status = expired;
    decided_at = some now;
    decision_reason =
        some
          ("auto-expired: no approval decision within " ++ decimal stale_after_hours ++ " hours");
  }

  -- `_reap`
  abbrev pub reap : String → ConnectorRequest → Db → Db
  reap id r db =
      write_request id (expire r)
        (entry r.tenant_id r.id "connector_request.escalation_required"
          "system:connector_request_reaper"
          (("status", Value.text "expired")
            ∷ (
              "error",
              Value.text "connector request stayed pending_approval past the stale window",
            )
            ∷ ("operation", Value.text r.operation)
            ∷ ("stale_after_hours", Value.number stale_after_hours)
            ∷ []))
        db

  -- the row of an id that was selected; it is locked since, so that it is as it was then
  abbrev pub reap_found : String → Option ConnectorRequest → Db → Db
  reap_found id none db = db
  reap_found id (some r) db = if is_stale stale_after_hours now r then reap id r db else db

  unfoldable pub reap_all : List String → Db → Db
  reap_all [] db = db
  reap_all (id ∷ ids) db = reap_all ids (reap_found id (get id db.requests) db)

  abbrev pub id_of : ConnectorRequest → String
  id_of r = r.id

  -- the rows of the SELECT
  unfoldable pub stale_rows : ℕ → Db → List ConnectorRequest
  unfolding sort_by_creation
  stale_rows limit db =
      take (clamp_limit limit)
        (sort_by_creation (keep (is_stale stale_after_hours now) (values db.requests)))

  -- `process_batch`, with the number of rows that it expires
  unfoldable pub process_batch : ℕ → Db → ℕ × Db
  unfolding reap_all stale_rows
  process_batch limit db =
      let stale = stale_rows limit db in (length stale, reap_all (map id_of stale) db)
