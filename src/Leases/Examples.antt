-- ===== src/Leases/Examples.antt =====
-- Runs of the lease on one job.
use helpdesktool.Prelude.{◌≡◌, refl, ℕ, String, true, false, Option, some, none, [], ◌∷◌}
use helpdesktool.Prelude.Dict.{get, put}
use helpdesktool.Prelude.Text.{◌++◌}
use helpdesktool.Prelude.Exec.{ok, err}
use helpdesktool.Models.{queued, succeeded}
use helpdesktool.Journal.{JobResult}
use helpdesktool.Idempotency.{conflict, find_record, idempotency_lookup, remember}
use helpdesktool.Leases.{Action, Claim, Db, claim_job, report_job_result}
use helpdesktool.Leases.Tokens.{
  HoldsLease, claim_job-HoldsLease, claim_job-replay, claim_job_exclusive,
}
use helpdesktool.Leases.Reports.{
  HoldsToken, IsReported, report_job_result-HoldsToken, report_job_result-replay,
}

abbrev pub sha256 : String → String
sha256 s = "#" ++ s

abbrev pub claim_token : String → ℕ → String → String
claim_token i n key = i ++ key

abbrev pub active_version : String → Option ℕ
active_version s = some 1

abbrev pub job : Action
job = record {
  id = "a";
  tenant_id = "t";
  device_id = "d";
  skill_id = "service.restart";
  status = queued;
  attempt = 0;
  claim_token_hash = none;
  claimed_at = none;
  lease_expires_at = none;
}

abbrev pub db : Db
db = record { actions = ("a", job) ∷ []; results = []; records = []; audit = [] }

abbrev claimed_db : Db
claimed_db = (claim_job sha256 claim_token active_version "t" "d" "a" "k" "x" 100 db).1

abbrev claim : Claim
claim = record {
  action_id = "a";
  device_id = "d";
  tenant_id = "t";
  skill_id = "service.restart";
  skill_version = 1;
  attempt = 1;
  lease_expires_at = 160;
}

claim_ok :
    claim_job sha256 claim_token active_version "t" "d" "a" "k" "x" 100 db
    ≡ (ok (claim, "ak"), claimed_db)
unfolding claim_job idempotency_lookup find_record get put remember
claim_ok = refl

new_claim : find_record "t" "job-claim" "k" db.records ≡ none
unfolding find_record
new_claim = refl

other_claim : find_record "t" "job-claim" "k2" claimed_db.records ≡ none
unfolding claim_job idempotency_lookup find_record get put remember
other_claim = refl

claim_job-HoldsLease_example :
    HoldsLease sha256 claim_token active_version "a" "ak" 100 claim claimed_db
claim_job-HoldsLease_example =
    claim_job-HoldsLease sha256 claim_token active_version "t" "d" "a" "k" "x" 100 claim "ak" db
      claimed_db new_claim claim_ok

claim_job_exclusive_example :
    claim_job sha256 claim_token active_version "t" "d" "a" "k2" "x" 500 claimed_db
    ≡ (err conflict, claimed_db)
claim_job_exclusive_example =
    claim_job_exclusive sha256 claim_token active_version "t" "d" "a" "k" "x" "t" "d" "k2" "x" 100
      500 claim "ak" db claimed_db new_claim claim_ok other_claim

abbrev pub body : JobResult
body = record {
  success = true;
  verified = true;
  output = [];
  error = none;
  rollback_attempted = false;
  rollback_succeeded = none;
}

abbrev reported_db : Db
reported_db =
    (report_job_result sha256 claim_token active_version "t" "d" "a" "ak" "r" "x" body 130
      claimed_db).1

new_report : find_record "t" "job-result" "r" claimed_db.records ≡ none
unfolding claim_job idempotency_lookup find_record get put remember
new_report = refl

report_ok :
    report_job_result sha256 claim_token active_version "t" "d" "a" "ak" "r" "x" body 130 claimed_db
    ≡ (ok succeeded, reported_db)
unfolding claim_job report_job_result idempotency_lookup find_record get put remember
report_ok = refl

report_job_result-HoldsToken_example :
    HoldsToken sha256 claim_token active_version "t" "d" "a" "ak" 130 claimed_db
    × IsReported "a" body succeeded claimed_db reported_db
report_job_result-HoldsToken_example =
    report_job_result-HoldsToken sha256 claim_token active_version "t" "d" "a" "ak" "r" "x" body 130
      succeeded claimed_db reported_db new_report report_ok

report_job_result-replay_example :
    report_job_result sha256 claim_token active_version "t" "d" "a" "late" "r" "x" body 999
      reported_db
    ≡ (ok succeeded, reported_db)
report_job_result-replay_example =
    report_job_result-replay sha256 claim_token active_version "t" "d" "a" "ak" "late" "r" "x" body
      130 999 succeeded claimed_db reported_db new_report report_ok

-- the job is back in the queue
abbrev requeued_db : Db
requeued_db = record claimed_db { actions = ("a", record job { attempt = 1 }) ∷ [] }

claim_job-replay_example :
    claim_job sha256 claim_token active_version "t" "d" "a" "k" "x" 900 requeued_db
    ≡ (ok (claim, claim_token "a" 1 "k"), requeued_db)
claim_job-replay_example =
    claim_job-replay sha256 claim_token active_version "t" "d" "a" "k" "x" 100 900 claim "ak" db
      claimed_db requeued_db new_claim claim_ok refl
