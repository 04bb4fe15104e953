-- ===== src/Agent.antt =====
-- linux_agent/agent.py (windows_agent/agent.py has the same methods): one cycle over the jobs of a
-- device, with the recovery of jobs that an interruption left unfinished. The control plane, the
-- executors and the clock are the environment's: their answers may depend on all that happened before.
pub mod Once
pub mod Cycle
pub mod Job
pub mod Life
pub mod Examples
pub mod Progress
use helpdesktool.Prelude.{
  truthy, ◌&&◌, ℕ, String, Bool, true, false, Option, none, some, List, [], ◌∷◌, ◌==◌,
  if◌then◌else◌,
}
use helpdesktool.Prelude.Text.{◌++◌, join}
use helpdesktool.Prelude.Dict.{Dict, get}
use helpdesktool.Prelude.Exec.{Result, ok, err, Exec, pure, raise, ◌>>=◌, ◌>>◌}
use helpdesktool.Models.{Value, Mapping, mapping}
use helpdesktool.Signing.{
  EnvelopeError, missing, invalid_signature, different_device, different_tenant,
  malformed_expiration, expired, unsupported_skill, unhashable, ParsedTime, Keys, Expected,
  verify_envelope,
}
use helpdesktool.Journal.{
  State, executed, JobResult, JournalEntry, Effect, ran, sent, Machine, Failure, api_error,
  not_enrolled, type_error, executor_error, tick, note, read_clock, seen, record_claimed,
  mark_executing, mark_executed, mark_reported, pending, prune_reported,
}

-- `run` of an executor: its result, a PermissionError or ValueError, or any other exception
pub data Outcome : Type 0 where
  finished : JobResult → Outcome
  rejected : String → Outcome
  raised : Outcome

pub record Environment : Type 0 where
  pub show : Value → String
  pub parse_time : String → ParsedTime
  pub check : String → String → Mapping → Bool
  pub now : ℕ → ℕ
  -- the answers to `GET .../jobs` and `POST .../claim`; `none` is an ApiError
  pub jobs : List Effect → Option (List Mapping)
  pub claim : List Effect → String → Option Mapping
  -- whether `POST .../result` is answered, with no ApiError
  pub acknowledged : List Effect → Bool
  pub run : List Effect → String → Mapping → Outcome
  pub verify_only : List Effect → String → JobResult

pub record AgentConfig : Type 0 where
  pub tenant_id : String
  pub device_id : Option String
  pub agent_token : Option String
  pub allowed_services : List String
  pub signing_public_keys : Keys

abbrev pub supported_skill_versions : Dict (List ℕ)
supported_skill_versions = ("service.restart", 1 ∷ []) ∷ ("dns.flush_cache", 1 ∷ []) ∷ []

-- `_invalid`
abbrev pub invalid_result : String → JobResult
invalid_result error = record {
  success = false;
  verified = false;
  output = [];
  error = some error;
  rollback_attempted = false;
  rollback_succeeded = none;
}

abbrev pub is_executed : State → Bool
is_executed executed = true
is_executed _ = false

-- `envelope.get(key)` where it is a `str`
abbrev pub get_text : String → Mapping → Option String
get_text key m = elim (get key m) [ some (Value.text s) ↦ some s | _ ↦ none ]

-- `envelope.get("parameters")` where it is a `dict`
abbrev pub get_object : String → Mapping → Option Mapping
get_object key m = elim (get key m) [ some (Value.object fs) ↦ some (mapping fs) | _ ↦ none ]

abbrev pub or_empty : Option Mapping → Mapping
or_empty none = []
or_empty (some m) = m

abbrev pub when_some :
    Option String → (String → Exec Failure Machine (Unit {0})) → Exec Failure Machine (Unit {0})
when_some none f = pure tt
when_some (some s) f = f s

-- `if job_id:`, which an empty id does not pass
abbrev pub when_true :
    Option String → (String → Exec Failure Machine (Unit {0})) → Exec Failure Machine (Unit {0})
when_true none f = pure tt
when_true (some s) f = if s == "" then pure tt else f s

-- `int(attempt) if isinstance(attempt, int) else 0`
abbrev pub attempt_of : Mapping → ℕ
attempt_of m = elim (get "attempt" m) [
  | some (Value.number n) ↦ n
  | some (Value.boolean true) ↦ 1
  | _ ↦ 0
]

module _ (env : Environment) (config : AgentConfig) where
  -- `str(envelope.get(key, ""))`
  abbrev pub shown : String → Mapping → String
  shown key m = elim (get key m) [ none ↦ "" | some v ↦ env.show v ]

  -- `str(envelope.get(key))`, inside a text
  abbrev pub shown_or_null : String → Mapping → String
  shown_or_null key m = elim (get key m) [ none ↦ env.show Value.null | some v ↦ env.show v ]

  unfoldable pub message : EnvelopeError → String
  message (missing names) = "malformed job envelope: missing ['" ++ join "', '" names ++ "']"
  message invalid_signature = "invalid job envelope signature"
  message different_device = "job envelope is addressed to a different device"
  message different_tenant = "job envelope is addressed to a different tenant"
  message malformed_expiration = "malformed job envelope expiration"
  message expired = "job envelope has expired"
  message (unsupported_skill id version) =
      "unsupported skill version: " ++ id ++ " v" ++ env.show version
  message unhashable = ""

  abbrev pub identity_of : Option String → Bool → Exec Failure Machine String
  identity_of (some device_id) true m = (ok device_id, m)
  identity_of _ _ m = (err not_enrolled, m)

  -- `_identity`, whose token goes into headers alone
  unfoldable pub identity : Exec Failure Machine String
  identity = identity_of config.device_id (truthy config.device_id && truthy config.agent_token)

  -- `_report_result`: the request is sent, and then answered or not.
  unfoldable pub report_result : String → String → JobResult → Exec Failure Machine (Unit {0})
  unfolding tick
  report_result idempotency_key claim_token result = do
    tick
    note (sent idempotency_key claim_token result)
    λ m. ((if env.acknowledged m.log then ok tt else err api_error), m)

  -- `_executor_for`, as the name of the executor that is there
  unfoldable pub executor_for : String → Option String
  executor_for skill_id =
      if skill_id == "service.restart"
      then elim config.allowed_services [ [] ↦ none | _ ∷ _ ↦ some skill_id ]
      else if skill_id == "dns.flush_cache"
      then some skill_id
      else none

  abbrev pub settle : Outcome → Exec Failure Machine JobResult
  settle (finished r) = pure r
  settle (rejected error) = pure (invalid_result error)
  settle raised = raise executor_error

  -- `executor.execute(parameters)` inside its `try`: the run begins, and may be interrupted.
  unfoldable pub run_executor : Option String → String → Mapping → Exec Failure Machine JobResult
  unfolding tick
  run_executor job_id skill_id parameters = do
    tick
    note (ran job_id)
    tick
    λ m. settle (env.run m.log skill_id parameters) m

  abbrev pub finish_run : Option String → String → Mapping → Exec Failure Machine JobResult
  finish_run job_id skill_id parameters = do
    result ← run_executor job_id skill_id parameters
    when_true job_id (λ j. mark_executed env.now j result)
    pure result

  -- the rest of `execute_job` once the executor and the parameters are there
  unfoldable pub run_job : Option String → String → Mapping → Exec Failure Machine JobResult
  run_job job_id skill_id parameters = do
    when_true job_id (mark_executing env.now)
    finish_run job_id skill_id parameters

  abbrev pub run_parameters :
      Option String → String → Option Mapping → Exec Failure Machine JobResult
  run_parameters job_id skill_id none = pure (invalid_result "invalid parameters")
  run_parameters job_id skill_id (some parameters) = run_job job_id skill_id parameters

  abbrev pub run_skill : Option String → Option String → Mapping → Exec Failure Machine JobResult
  run_skill job_id none envelope =
      pure
        (invalid_result "no executor available for this skill (allowlist empty or unknown skill)")
  run_skill job_id (some skill_id) envelope =
      run_parameters job_id skill_id (get_object "parameters" envelope)

  abbrev pub run_verified :
      Option String → Mapping → Result EnvelopeError (Unit {0}) → Exec Failure Machine JobResult
  run_verified job_id envelope (err unhashable) = raise type_error
  run_verified job_id envelope (err e) = pure (invalid_result (message e))
  run_verified job_id envelope (ok _) =
      run_skill job_id (executor_for (shown "skill_id" envelope)) envelope

  abbrev pub expected : String → Expected
  expected device_id = record {
    public_keys = config.signing_public_keys;
    device_id = device_id;
    tenant_id = config.tenant_id;
    skill_versions = supported_skill_versions;
  }

  -- `execute_job` with the identity and the pinned keys at hand
  abbrev pub run_pinned : Option String → Mapping → String → Keys → Exec Failure Machine JobResult
  run_pinned job_id envelope device_id [] =
      pure (invalid_result "no pinned job-signing key available")
  run_pinned job_id envelope device_id (_ ∷ _) = do
    now ← read_clock env.now
    run_verified job_id envelope
        (verify_envelope env.show env.parse_time env.check envelope (expected device_id) now)

  -- `execute_job`
  unfoldable pub execute_job : Option String → Mapping → Exec Failure Machine JobResult
  execute_job job_id envelope = do
    device_id ← identity
    run_pinned job_id envelope device_id config.signing_public_keys

  -- the key under which a job's result is reported, also after an interruption
  abbrev pub result_idem : String → Mapping → String
  result_idem action_id envelope = "result-" ++ action_id ++ "-" ++ shown_or_null "attempt" envelope

  -- the entry that `record_claimed` is given
  abbrev pub entry_of : String → String → Mapping → JournalEntry
  entry_of job_id action_id envelope = record {
    job_id = job_id;
    action_id = action_id;
    attempt = attempt_of envelope;
    nonce = shown "nonce" envelope;
    claim_token = shown "claim_token" envelope;
    idempotency_key = result_idem action_id envelope;
    skill_id = shown "skill_id" envelope;
    parameters = or_empty (get_object "parameters" envelope);
    state = State.claimed;
    result = none;
    updated_at = 0;
  }

  -- the end of `_handle_claimed_job`: the report, and the marks that follow it
  abbrev pub finish_job :
      String → Mapping → Option String → JobResult → Exec Failure Machine (Unit {0})
  finish_job action_id envelope job_id result = do
    report_result (result_idem action_id envelope) (shown "claim_token" envelope) result
    when_some job_id (mark_reported env.now)
    prune_reported 500

  abbrev pub perform_job : String → Mapping → Option String → Exec Failure Machine (Unit {0})
  perform_job action_id envelope job_id = do
    result ← execute_job job_id envelope
    finish_job action_id envelope job_id result

  -- `_handle_claimed_job`
  unfoldable pub handle_claimed_job :
      String → Mapping → Option String → Exec Failure Machine (Unit {0})
  handle_claimed_job action_id envelope job_id = do
    when_some job_id (λ j. record_claimed env.now (entry_of j action_id envelope))
    perform_job action_id envelope job_id

  abbrev pub verify_service : Option String → Exec Failure Machine JobResult
  verify_service none m =
      (ok (invalid_result "interrupted before completion; unable to safely verify outcome"), m)
  verify_service (some service) m = (ok (env.verify_only m.log service), m)

  -- `_verify_only_result`
  unfoldable pub verify_only_result : String → Mapping → Exec Failure Machine JobResult
  verify_only_result skill_id parameters =
      if skill_id == "service.restart"
      then elim config.allowed_services [
        | [] ↦ verify_service none
        | _ ∷ _ ↦ verify_service (get_text "service" parameters)
      ]
      else verify_service none

  abbrev pub known_result : JournalEntry → Option JobResult
  known_result e = if is_executed e.state then e.result else none

  abbrev pub recovered_result : JournalEntry → Option JobResult → Exec Failure Machine JobResult
  recovered_result e none = verify_only_result e.skill_id e.parameters
  recovered_result e (some r) = pure r

  -- the `except` of the recovery: an ApiError leaves the entry for the next cycle
  abbrev pub after_report :
      JournalEntry → Result Failure (Unit {0}) → Exec Failure Machine (Unit {0})
  after_report e (ok _) = mark_reported env.now e.job_id
  after_report e (err api_error) = pure tt
  after_report e (err f) = raise f

  abbrev pub finish_recovery : JournalEntry → JobResult → Exec Failure Machine (Unit {0})
  finish_recovery e result m =
      let (r, m') = report_result e.idempotency_key e.claim_token result m in after_report e r m'

  unfoldable pub recover_all : List JournalEntry → Exec Failure Machine (Unit {0})
  recover_all [] = pure tt
  recover_all (e ∷ es) = do
    result ← recovered_result e (known_result e)
    finish_recovery e result
    recover_all es

  abbrev pub recover_pending : List JournalEntry → Exec Failure Machine (Unit {0})
  recover_pending [] = pure tt
  recover_pending (e ∷ es) = do identity; recover_all (e ∷ es); prune_reported 500

  -- `recover_interrupted_jobs`
  unfoldable pub recover_interrupted_jobs : Exec Failure Machine (Unit {0})
  recover_interrupted_jobs m = recover_pending (pending m) m

  -- an answer of the control plane, or the ApiError of there being none
  abbrev pub answer : {A : Type 0} → Option A → Exec Failure Machine A
  answer none = raise api_error
  answer (some a) = pure a

  abbrev pub is_seen : Option String → Machine → Bool
  is_seen none m = false
  is_seen (some j) m = seen j m

  -- the guard against a claim that was answered before
  abbrev pub handle_unseen :
      String → Mapping → Option String → Bool → Exec Failure Machine (Unit {0})
  handle_unseen action_id envelope job_id true = pure tt
  handle_unseen action_id envelope job_id false = handle_claimed_job action_id envelope job_id

  abbrev pub handle_envelope : String → Mapping → Exec Failure Machine (Unit {0})
  handle_envelope action_id envelope m =
      handle_unseen action_id envelope (get_text "job_id" envelope)
        (is_seen (get_text "job_id" envelope) m) m

  -- the claim of a job and what follows, one round of the loop
  unfoldable pub process_job : String → Exec Failure Machine (Unit {0})
  process_job action_id = do
    tick
    envelope ← λ m. answer (env.claim m.log action_id) m
    handle_envelope action_id envelope

  unfoldable pub process_all : List Mapping → Exec Failure Machine (Unit {0})
  process_all [] = pure tt
  process_all (summary ∷ summaries) = do
    when_some (get_text "id" summary) process_job
    process_all summaries

  -- `process_jobs`
  unfoldable pub process_jobs : Exec Failure Machine (Unit {0})
  process_jobs = do
    recover_interrupted_jobs
    identity
    summaries ← λ m. answer (env.jobs m.log) m
    process_all summaries

  -- What the main loop does after a cycle: it goes on after an ApiError, and any other end is one of the
  -- process, which starts again from the journal's file. It goes on after an OSError too, which only an
  -- executor raises here, at a time at which the memory is what the file has.
  abbrev pub restart : Result Failure (Unit {0}) → Machine → Machine
  restart (ok _) m = m
  restart (err api_error) m = m
  restart (err _) m = record m { entries = m.disk }

  -- a cycle that is given `n` effects before the power goes
  unfoldable pub cycle : ℕ → Machine → Machine
  cycle n m = let (r, m') = process_jobs (record m { steps = n }) in restart r m'

  unfoldable pub life : List ℕ → Machine → Machine
  unfolding cycle
  life [] m = m
  life (n ∷ ns) m = life ns (cycle n m)
