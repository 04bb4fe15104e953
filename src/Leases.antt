-- ===== src/Leases.antt =====
-- The lease of a job: claim_job and report_job_result of helpdesktool/api.py, and lease_reaper.py.
-- A handler that raises an HTTPException commits nothing. Arguments stand for SHA-256, for the HMAC of
-- `_claim_token` and for the registry's active version of a skill; times are in seconds. Of a claim's
-- answer the fields that are kept are those that the database decides.
pub mod Tokens
pub mod Reports
pub mod Examples
use helpdesktool.Prelude.{
  ℕ, zero, suc, ◌+◌, String, Bool, true, false, ◌&&◌, ◌||◌, not, Option, none, some, List, [], ◌∷◌,
  ◌==◌, leb, ltb, length, take, keep, if◌then◌else◌,
}
use helpdesktool.Prelude.Text.{◌++◌, decimal}
use helpdesktool.Prelude.Dict.{Dict, get, put, values}
use helpdesktool.Prelude.Exec.{Result, ok, err}
use helpdesktool.Models.{
  ActionStatus, queued, claimed, succeeded, failed, rolled_back, rollback_failed, Value, Mapping,
  optional_text,
}
use helpdesktool.Audit.{Entry}
use helpdesktool.Journal.{JobResult}
use helpdesktool.Idempotency.{
  IdempotencyRecord, HttpError, unauthorized, not_found, conflict, idempotency_lookup, remember,
}

-- the columns of `actions` that the lease reads and writes
pub record Action : Type 0 where
  pub id : String
  pub tenant_id : String
  pub device_id : String
  pub skill_id : String
  pub status : ActionStatus
  pub attempt : ℕ
  pub claim_token_hash : Option String
  pub claimed_at : Option ℕ
  pub lease_expires_at : Option ℕ

pub record Claim : Type 0 where
  pub action_id : String
  pub device_id : String
  pub tenant_id : String
  pub skill_id : String
  pub skill_version : ℕ
  pub attempt : ℕ
  pub lease_expires_at : ℕ

-- what a handler remembers: the answer of a claim, without its token, or of a report
pub data Answer : Type 0 where
  claim_answer : Claim → Answer
  report_answer : String → ActionStatus → Answer

pub record Db : Type 0 where
  pub actions : Dict Action
  pub results : List (String × JobResult)
  pub records : List (IdempotencyRecord Answer)
  pub audit : List Entry

abbrev pub is_queued : ActionStatus → Bool
is_queued queued = true
is_queued _ = false

abbrev pub is_claimed : ActionStatus → Bool
is_claimed claimed = true
is_claimed _ = false

abbrev pub status_text : ActionStatus → String
status_text queued = "queued"
status_text claimed = "claimed"
status_text succeeded = "succeeded"
status_text failed = "failed"
status_text rolled_back = "rolled_back"
status_text rollback_failed = "rollback_failed"
status_text ActionStatus.requested = "requested"
status_text ActionStatus.pending_approval = "pending_approval"
status_text ActionStatus.approved = "approved"
status_text ActionStatus.running = "running"
status_text ActionStatus.denied = "denied"

abbrev pub entry : String → String → String → String → Mapping → Entry
entry tenant_id correlation_id event_type actor_id details = record {
  tenant_id = tenant_id;
  correlation_id = correlation_id;
  event_type = event_type;
  actor_id = actor_id;
  details = details;
}

-- the `values` of the claim's UPDATE
abbrev pub claim_row : String → ℕ → Action → Action
claim_row token_hash now row = record row {
  status = claimed;
  claim_token_hash = some token_hash;
  claimed_at = some now;
  lease_expires_at = some (now + 60);
  attempt = row.attempt + 1;
}

-- the `where` of the claim's UPDATE, on the row with the id
abbrev pub claimable : String → String → Action → Bool
claimable tenant_id device_id row =
    row.tenant_id == tenant_id && (row.device_id == device_id && is_queued row.status)

-- `body.rollback_succeeded` as a condition
abbrev pub undone : Option Bool → Bool
undone (some true) = true
undone _ = false

-- the status that a report gives to a claimed job
abbrev pub reported_status : JobResult → ActionStatus
reported_status body =
    if body.success && body.verified
    then succeeded
    else if body.rollback_attempted && undone body.rollback_succeeded
    then rolled_back
    else if body.rollback_attempted && not (undone body.rollback_succeeded)
    then rollback_failed
    else failed

abbrev pub optional_bool : Option Bool → Value
optional_bool none = Value.null
optional_bool (some b) = Value.boolean b

abbrev pub is_settled : ActionStatus → Bool
is_settled succeeded = true
is_settled rolled_back = true
is_settled _ = false

abbrev pub cons_if : Bool → Entry → List Entry → List Entry
cons_if b e es = if b then e ∷ es else es

-- the events of a report, newest first
abbrev pub report_events : String → String → String → JobResult → List Entry → List Entry
report_events tenant_id device_id action_id body audit =
    let s = reported_status body in
    cons_if (not (is_settled s))
      (entry tenant_id action_id "action.escalation_required" "system"
        (("status", Value.text (status_text s)) ∷ ("error", optional_text body.error) ∷ []))
      (cons_if body.rollback_attempted
        (entry tenant_id action_id "rollback.completed" device_id
          (("success", optional_bool body.rollback_succeeded) ∷ []))
        (cons_if body.verified
          (entry tenant_id action_id "execution.verified" device_id
            (("success", Value.boolean body.success) ∷ []))
          (entry tenant_id action_id "execution.reported" device_id (
              ("status", Value.text (status_text s))
              ∷ ("success", Value.boolean body.success)
              ∷ ("verified", Value.boolean body.verified)
              ∷ ("rollback_attempted", Value.boolean body.rollback_attempted)
              ∷ ("rollback_succeeded", optional_bool body.rollback_succeeded)
              ∷ ("previous_status", Value.text "claimed")
              ∷ ("new_status", Value.text (status_text s))
              ∷ [])
            ∷ audit)))

-- `expires_at and expires_at < now`
abbrev pub lapsed : Option ℕ → ℕ → Bool
lapsed none now = false
lapsed (some t) now = ltb t now

-- `row.claim_token_hash` is there and no empty text, and it is the hash of the supplied token
abbrev pub matches_token : Option String → String → Bool
matches_token none supplied = false
matches_token (some h) supplied = h == supplied

abbrev pub has_token : Option String → Bool
has_token none = false
has_token (some h) = if h == "" then false else true

module _ (sha256 : String → String) (claim_token : String → ℕ → String → String)
    (active_version : String → Option ℕ) where
  -- the manifest's version, or the 409 of a skill that is no longer registered; a job that is not the
  -- tenant's is left to the UPDATE
  abbrev pub version_for : String → Option Action → Result HttpError ℕ
  version_for tenant_id none = ok 0
  version_for tenant_id (some row) =
      if row.tenant_id == tenant_id
      then elim (active_version row.skill_id) [ none ↦ err conflict | some v ↦ ok v ]
      else ok 0

  abbrev pub claim_of : Action → ℕ → ℕ → Claim
  claim_of row version now = record {
    action_id = row.id;
    device_id = row.device_id;
    tenant_id = row.tenant_id;
    skill_id = row.skill_id;
    skill_version = version;
    attempt = row.attempt + 1;
    lease_expires_at = now + 60;
  }

  -- the UPDATE, which changes one row or none, and what follows it
  abbrev pub claim_row_found :
      String
      → String
      → String
      → String
      → String
      → ℕ
      → ℕ
      → Option Action
      → Db
      → Result HttpError (Claim × String) × Db
  claim_row_found tenant_id device_id action_id key digest now version none db = (err conflict, db)
  claim_row_found tenant_id device_id action_id key digest now version (some row) db =
      let token = claim_token action_id (row.attempt + 1) key in
      let c = claim_of row version now in
      if claimable tenant_id device_id row
      then (
        ok (c, token),
        record db {
          actions = put action_id (claim_row (sha256 token) now row) db.actions;
          audit =
              entry tenant_id action_id "execution.claimed" device_id (
                ("job_id", Value.text (row.id ++ ":" ++ decimal (row.attempt + 1)))
                ∷ ("attempt", Value.number (row.attempt + 1))
                ∷ ("lease_expires_at", Value.number (now + 60))
                ∷ ("previous_status", Value.text "queued")
                ∷ ("new_status", Value.text "claimed")
                ∷ [])
              ∷ db.audit;
          records = remember tenant_id "job-claim" key digest (claim_answer c) db.records;
        },
      )
      else (err conflict, db)

  abbrev pub claim_versioned :
      String
      → String
      → String
      → String
      → String
      → ℕ
      → Result HttpError ℕ
      → Db
      → Result HttpError (Claim × String) × Db
  claim_versioned tenant_id device_id action_id key digest now (err e) db = (err e, db)
  claim_versioned tenant_id device_id action_id key digest now (ok version) db =
      claim_row_found tenant_id device_id action_id key digest now version
        (get action_id db.actions) db

  -- by the idempotency record, if there is one
  abbrev pub claim_looked_up :
      String
      → String
      → String
      → String
      → String
      → ℕ
      → Result HttpError (Option Answer)
      → Db
      → Result HttpError (Claim × String) × Db
  claim_looked_up tenant_id device_id action_id key digest now (err e) db = (err e, db)
  claim_looked_up tenant_id device_id action_id key digest now (ok (some (claim_answer c))) db =
      (ok (c, claim_token action_id c.attempt key), db)
  claim_looked_up tenant_id device_id action_id key digest now (ok (some (report_answer i s))) db =
      (err HttpError.internal_error, db)
  claim_looked_up tenant_id device_id action_id key digest now (ok none) db =
      claim_versioned tenant_id device_id action_id key digest now
        (version_for tenant_id (get action_id db.actions)) db

  -- `claim_job`; `digest` is that of the request's payload
  unfoldable pub claim_job :
      String → String → String → String → String → ℕ → Db → Result HttpError (Claim × String) × Db
  claim_job tenant_id device_id action_id key digest now db =
      claim_looked_up tenant_id device_id action_id key digest now
        (idempotency_lookup tenant_id "job-claim" key digest db.records) db

  -- what an accepted report writes
  abbrev pub written_report :
      String → String → String → String → String → JobResult → Action → Db → Db
  written_report tenant_id action_id key digest device_id body row db = record db {
    actions = put action_id (record row { status = reported_status body }) db.actions;
    results = (action_id, body) ∷ db.results;
    audit = report_events tenant_id device_id action_id body db.audit;
    records =
        remember tenant_id "job-result" key digest (report_answer action_id (reported_status body))
          db.records;
  }

  -- the checks of `report_job_result` on the row, in their order
  abbrev pub report_row :
      String
      → String
      → String
      → String
      → String
      → String
      → JobResult
      → ℕ
      → Action
      → Db
      → Result HttpError ActionStatus × Db
  report_row tenant_id device_id action_id token key digest body now row db =
      if not (row.device_id == device_id)
        || not (is_claimed row.status)
        || not (has_token row.claim_token_hash)
      then (err conflict, db)
      else if not (matches_token row.claim_token_hash (sha256 token))
      then (err unauthorized, db)
      else if lapsed row.lease_expires_at now
      then (err conflict, db)
      else (
        ok (reported_status body),
        written_report tenant_id action_id key digest device_id body row db,
      )

  abbrev pub report_found :
      String
      → String
      → String
      → String
      → String
      → String
      → JobResult
      → ℕ
      → Option Action
      → Db
      → Result HttpError ActionStatus × Db
  report_found tenant_id device_id action_id token key digest body now none db = (err not_found, db)
  report_found tenant_id device_id action_id token key digest body now (some row) db =
      if row.tenant_id == tenant_id
      then report_row tenant_id device_id action_id token key digest body now row db
      else (err not_found, db)

  abbrev pub report_looked_up :
      String
      → String
      → String
      → String
      → String
      → String
      → JobResult
      → ℕ
      → Result HttpError (Option Answer)
      → Db
      → Result HttpError ActionStatus × Db
  report_looked_up tenant_id device_id action_id token key digest body now (err e) db = (err e, db)
  report_looked_up tenant_id device_id action_id token key digest body now
        (ok (some (report_answer i s))) db =
      (ok s, db)
  report_looked_up tenant_id device_id action_id token key digest body now
        (ok (some (claim_answer c))) db =
      (err HttpError.internal_error, db)
  report_looked_up tenant_id device_id action_id token key digest body now (ok none) db =
      report_found tenant_id device_id action_id token key digest body now
        (get action_id db.actions) db

  -- `report_job_result`
  unfoldable pub report_job_result :
      String
      → String
      → String
      → String
      → String
      → String
      → JobResult
      → ℕ
      → Db
      → Result HttpError ActionStatus × Db
  report_job_result tenant_id device_id action_id token key digest body now db =
      report_looked_up tenant_id device_id action_id token key digest body now
        (idempotency_lookup tenant_id "job-result" key digest db.records) db
