-- ===== src/Incidents.antt =====
-- helpdesktool/incidents.py: the correlation of what a detector has observed with the incidents of a device,
-- and the end of an incident. New ids and the time are arguments; an id that is taken is an IntegrityError.
-- Times are in minutes. Where two rows were observed at the same time, the first of the table is taken.
pub mod Latest
pub mod Correlation
pub mod Examples
use helpdesktool.Prelude.{
  ℕ, suc, ◌+◌, ◌*◌, String, Bool, true, false, ◌&&◌, ◌||◌, not, Option, none, some, List, [], ◌∷◌,
  ◌==◌, keep, leb, is_some, if◌then◌else◌,
}
use helpdesktool.Prelude.Dict.{Dict, get, put, values}
use helpdesktool.Prelude.Exec.{Result, ok, err}
use helpdesktool.Models.{Value, Mapping, Fields}
use helpdesktool.Audit.{Entry}
use helpdesktool.Auth.{User, first}
use helpdesktool.Leases.{entry}

pub data IncidentStatus : Type 0 where
  opened investigating resolved closed : IncidentStatus

abbrev pub status_text : IncidentStatus → String
status_text opened = "open"
status_text investigating = "investigating"
status_text resolved = "resolved"
status_text closed = "closed"

-- `status in {"resolved", "closed"}`
abbrev pub is_over : IncidentStatus → Bool
is_over resolved = true
is_over closed = true
is_over _ = false

pub record Incident : Type 0 where
  pub id : String
  pub tenant_id : String
  pub device_id : String
  pub ticket_id : Option String
  pub incident_type : String
  pub severity : String
  pub status : IncidentStatus
  pub summary : String
  pub evidence : Fields
  pub correlation_key : String
  pub occurrence_count : ℕ
  pub first_observed_at : ℕ
  pub last_observed_at : ℕ
  pub resolved_at : Option ℕ

pub record Ticket : Type 0 where
  pub id : String
  pub tenant_id : String
  pub device_id : Option String
  pub title : String
  pub description : String
  pub status : String
  pub priority : String
  pub created_by : String

pub record Db : Type 0 where
  pub incidents : Dict Incident
  pub tickets : Dict Ticket
  pub users : List User
  pub audit : List Entry

-- what a detector has observed
pub record Observation : Type 0 where
  pub tenant_id : String
  pub device_id : String
  pub incident_type : String
  pub severity : String
  pub summary : String
  pub correlation_key : String
  pub evidence : Fields
  pub observed_at : ℕ

-- the RuntimeError, and the database's
pub data IncidentError : Type 0 where
  no_active_user integrity_error : IncidentError

abbrev pub detector : String
detector = "system:detector"

abbrev pub later : Incident → Option Incident → Option Incident
later x none = some x
later x (some y) = if leb y.last_observed_at x.last_observed_at then some x else some y

-- the first row in the order of `last_observed_at.desc()`
unfoldable pub latest : List Incident → Option Incident
latest [] = none
latest (x ∷ xs) = later x (latest xs)

abbrev pub is_recent : Observation → ℕ → Incident → Bool
is_recent o correlation_hours r =
    r.tenant_id == o.tenant_id
    && (r.device_id == o.device_id
        && (r.incident_type == o.incident_type
            && (r.correlation_key == o.correlation_key
                && leb o.observed_at (r.last_observed_at + 60 * correlation_hours))))

-- the incident with one more occurrence; it opens again if it was over
abbrev pub seen_again : Observation → Incident → Incident
seen_again o r = record r {
  last_observed_at = o.observed_at;
  occurrence_count = suc r.occurrence_count;
  evidence = o.evidence;
  severity = o.severity;
  status = if is_over r.status then opened else r.status;
  resolved_at = if is_over r.status then none else r.resolved_at;
}

abbrev pub event_of : Incident → String
event_of r = if is_over r.status then "incident.reopened" else "incident.updated"

abbrev pub continue_incident : Observation → Incident → Db → Result IncidentError Incident × Db
continue_incident o r db =
    let r' = seen_again o r in
    (
      ok r',
      record db {
        incidents = put r.id r' db.incidents;
        audit =
            entry o.tenant_id r.id (event_of r) detector (
              ("device_id", Value.text o.device_id)
              ∷ ("previous_status", Value.text (status_text r.status))
              ∷ ("new_status", Value.text (status_text r'.status))
              ∷ ("occurrence_count", Value.number r'.occurrence_count)
              ∷ ("severity", Value.text o.severity)
              ∷ ("evidence", Value.object o.evidence)
              ∷ [])
            ∷ db.audit;
      },
    )

abbrev pub is_active_of : String → User → Bool
is_active_of tenant_id u = u.tenant_id == tenant_id && u.active

abbrev pub is_owner : User → Bool
is_owner u = u.role == "owner"

abbrev pub or_else : Option User → Option User → Option User
or_else none o = o
or_else (some u) o = some u

-- an active user of the tenant, an owner if there is one
abbrev pub owner_of : String → List User → Option User
owner_of tenant_id users =
    let active = keep (is_active_of tenant_id) users in
    or_else (first (keep is_owner active)) (first active)

abbrev pub new_ticket : Observation → String → User → Ticket
new_ticket o id owner = record {
  id = id;
  tenant_id = o.tenant_id;
  device_id = some o.device_id;
  title = o.summary;
  description = "Automatically created from deterministic endpoint telemetry.";
  status = "open";
  priority = if o.severity == "critical" then "critical" else "high";
  created_by = owner.id;
}

abbrev pub new_incident : Observation → String → String → Incident
new_incident o id ticket_id = record {
  id = id;
  tenant_id = o.tenant_id;
  device_id = o.device_id;
  ticket_id = some ticket_id;
  incident_type = o.incident_type;
  severity = o.severity;
  status = opened;
  summary = o.summary;
  evidence = o.evidence;
  correlation_key = o.correlation_key;
  occurrence_count = 1;
  first_observed_at = o.observed_at;
  last_observed_at = o.observed_at;
  resolved_at = none;
}

abbrev pub open_incident :
    Observation → String → String → Option User → Db → Result IncidentError Incident × Db
open_incident o ticket_id incident_id none db = (err no_active_user, db)
open_incident o ticket_id incident_id (some owner) db =
    let t = new_ticket o ticket_id owner in
    let r = new_incident o incident_id ticket_id in
    if is_some (get ticket_id db.tickets) || is_some (get incident_id db.incidents)
    then (err integrity_error, db)
    else (
      ok r,
      record db {
        tickets = put ticket_id t db.tickets;
        incidents = put incident_id r db.incidents;
        audit =
            entry o.tenant_id incident_id "incident.created" detector (
              ("device_id", Value.text o.device_id)
              ∷ ("ticket_id", Value.text ticket_id)
              ∷ ("severity", Value.text o.severity)
              ∷ ("evidence", Value.object o.evidence)
              ∷ [])
            ∷ entry o.tenant_id ticket_id "ticket.created" detector (
                ("device_id", Value.text o.device_id)
                ∷ ("title", Value.text o.summary)
                ∷ ("priority", Value.text t.priority)
                ∷ [])
            ∷ db.audit;
      },
    )

abbrev pub correlate_found :
    Observation → String → String → Option Incident → Db → Result IncidentError Incident × Db
correlate_found o ticket_id incident_id (some r) db = continue_incident o r db
correlate_found o ticket_id incident_id none db =
    open_incident o ticket_id incident_id (owner_of o.tenant_id db.users) db

-- `correlate_incident`
unfoldable pub correlate_incident :
    Observation → ℕ → String → String → Db → Result IncidentError Incident × Db
unfolding latest
correlate_incident o correlation_hours ticket_id incident_id db =
    correlate_found o ticket_id incident_id
      (latest (keep (is_recent o correlation_hours) (values db.incidents))) db

abbrev pub is_ongoing : Observation → Incident → Bool
is_ongoing o r =
    r.tenant_id == o.tenant_id
    && (r.device_id == o.device_id
        && (r.correlation_key == o.correlation_key && not (is_over r.status)))

abbrev resolve_ticket_found : Observation → Incident → Option Ticket → Db → Db
resolve_ticket_found o r none db = db
resolve_ticket_found o r (some t) db =
    if t.tenant_id == o.tenant_id
    then record db {
      tickets = put t.id (record t { status = "resolved" }) db.tickets;
      audit =
          entry o.tenant_id t.id "ticket.resolved" detector (
            ("device_id", Value.text o.device_id)
            ∷ ("incident_id", Value.text r.id)
            ∷ ("reason", Value.text "linked incident recovered")
            ∷ [])
          ∷ db.audit;
    }
    else db

-- the ticket of the incident, if it has one
abbrev pub resolve_ticket : Observation → Incident → Option String → Db → Db
resolve_ticket o r none db = db
resolve_ticket o r (some ticket_id) db =
    if ticket_id == "" then db else resolve_ticket_found o r (get ticket_id db.tickets) db

abbrev text_or_null : Option String → Value
text_or_null none = Value.null
text_or_null (some s) = Value.text s

abbrev recovered : Observation → Incident → Incident
recovered o r = record r {
  status = resolved;
  resolved_at = some o.observed_at;
  last_observed_at = o.observed_at;
  evidence = o.evidence;
}

abbrev pub resolve_found : Observation → Option Incident → Db → Option Incident × Db
resolve_found o none db = (none, db)
resolve_found o (some r) db =
    let r' = recovered o r in
    let db' =
      resolve_ticket o r' r.ticket_id (record db { incidents = put r.id r' db.incidents }) in
    (
      some r',
      record db' {
        audit =
            entry o.tenant_id r.id "incident.resolved" detector (
              ("device_id", Value.text o.device_id)
              ∷ ("ticket_id", text_or_null r.ticket_id)
              ∷ ("reason", Value.text "filesystem utilization recovered below threshold")
              ∷ ("evidence", Value.object o.evidence)
              ∷ [])
            ∷ db'.audit;
      },
    )

-- `resolve_recovered_incident`, of whose observation the type, the severity and the summary are not read
unfoldable pub resolve_recovered_incident : Observation → Db → Option Incident × Db
unfolding latest
resolve_recovered_incident o db =
    resolve_found o (latest (keep (is_ongoing o) (values db.incidents))) db
