-- ===== src/Agent/Life.antt =====
-- A device's whole life: cycles of the agent, each with the number of effects before the power goes.
use helpdesktool.Prelude.{
  ℕ, ◌+◌, ◌≤◌, String, ◌≡◌, refl, ◌≢◌, Bool, true, false, Option, none, some, List, [], ◌∷◌, arith,
  ap, eq_refl,
}
use helpdesktool.Prelude.Dict.{get, put, get-put}
use helpdesktool.Prelude.Exec.{Result, ok, err, Exec, ◌>>=◌}
use helpdesktool.Models.{Mapping}
use helpdesktool.Journal.{
  JournalEntry, JobResult, Machine, Failure, claimed, tick, read_clock, record_claimed,
  mark_reported, seen, pending, prune_reported,
}
use helpdesktool.Agent.{
  restart, cycle, life, result_idem, shown, Environment, AgentConfig, when_some, execute_job,
  finish_job, perform_job, handle_claimed_job, handle_unseen, handle_envelope, process_job,
  process_all, process_jobs, entry_of, report_result, recover_all, recovered_result, known_result,
  after_report, finish_recovery, verify_only_result, recover_pending, recover_interrupted_jobs,
  identity, is_seen, answer, get_text, api_error,
}
use helpdesktool.Agent.Once.{
  runs, forgets, Good, After, crashed, put-After, runs-lost, forgets-lost_le, save_ok, begun_le,
}
use helpdesktool.Agent.Cycle.{
  Keeps, continue-After, bind-Keeps, pure-Keeps, raise-Keeps, prune_reported-Keeps,
  report_result-Keeps,
}
use helpdesktool.Agent.Job.{Fresh, mark_reported-Keeps, identity-Keeps, execute_job-After}

-- no entry of the job is in the memory
abbrev Unseen : Option String → Machine → Type 0
Unseen none m = Unit
Unseen (some j) m = get j m.entries ≡ none

module _ (now : ℕ → ℕ) (k : String) (e : JournalEntry) (m : Machine) (g : Good k m)
    (unseen : get e.job_id m.entries ≡ none) where
  record_claimed-After : After k (record_claimed now e m)
  unfolding record_claimed read_clock
  record_claimed-After =
      put-After k e.job_id
        (record e { state = claimed; result = none; updated_at = now m.readings }) m
        (m.readings + 1) g
        (λ p. ground (arith, ap (get k) g.saved, ap (λ (i : String). get i m.entries) p))

  record_claimed-Fresh :
      crashed (record_claimed now e m).0 ≡ false
      → Fresh k (some e.job_id) (record_claimed now e m).1
  unfolding record_claimed read_clock
  record_claimed-Fresh c =
      let e' : JournalEntry = record e {
        state = claimed;
        result = none;
        updated_at = now m.readings;
      } in
      let entries = put e.job_id e' m.entries in
      let (es, log) = save_ok (record m { entries = entries; readings = m.readings + 1 }) c in
      (
        e',
        rw es (rw (get-put e.job_id e.job_id e' m.entries, eq_refl e.job_id)),
        λ p. rw log (
            ground (
              arith,
              runs-lost k entries m.disk m.log,
              forgets-lost_le k entries m.disk m.log,
              ap (get k) g.saved,
              ap (λ (i : String). get i m.entries) p,
            )),
      )

unseen_of : (j : String) (m : Machine) → seen j m ≡ false → get j m.entries ≡ none
unfolding seen
unseen_of j m e = ground arith

tick-Keeps : (k : String) → Keeps k tick
unfolding tick
tick-Keeps k m g = ground arith

module _ (env : Environment) (config : AgentConfig) (k : String) (named : k ≢ "") where
  when_some-Keeps :
      (o : Option String) (f : String → Exec Failure Machine (Unit {0}))
      → ((j : String) → Keeps k (f j))
      → Keeps k (when_some o f)
  when_some-Keeps none f h m g = pure-Keeps k tt m g
  when_some-Keeps (some j) f h m g = h j m g

  finish_job-Keeps :
      (action_id : String) (envelope : Mapping) (job_id : Option String) (r : JobResult)
      → Keeps k (finish_job env config action_id envelope job_id r)
  finish_job-Keeps action_id envelope job_id r =
      bind-Keeps k
        (report_result env config (result_idem env config action_id envelope)
          (shown env config "claim_token" envelope) r)
        (λ _. when_some job_id (mark_reported env.now) >>= λ _. prune_reported 500)
        (report_result-Keeps env config k (result_idem env config action_id envelope)
          (shown env config "claim_token" envelope) r)
        (λ _.
          bind-Keeps k (when_some job_id (mark_reported env.now)) (λ _. prune_reported 500)
            (when_some-Keeps job_id (mark_reported env.now)
              (mark_reported-Keeps env config k named))
            (λ _. prune_reported-Keeps k 500))

  perform_job-After :
      (action_id : String) (envelope : Mapping) (job_id : Option String) (m : Machine)
      → Good k m
      → Fresh k job_id m
      → After k (perform_job env config action_id envelope job_id m)
  perform_job-After action_id envelope job_id m g f =
      continue-After k (execute_job env config job_id envelope m)
        (finish_job env config action_id envelope job_id)
        (execute_job-After env config k named job_id envelope m g f)
        (λ r _ g'.
          finish_job-Keeps action_id envelope job_id r (execute_job env config job_id envelope m).1
            g')

  handle_claimed_job-After :
      (action_id : String) (envelope : Mapping) (job_id : Option String) (m : Machine)
      → Good k m
      → Unseen job_id m
      → After k (handle_claimed_job env config action_id envelope job_id m)
  unfolding handle_claimed_job
  handle_claimed_job-After action_id envelope none m g u =
      perform_job-After action_id envelope none m g tt
  handle_claimed_job-After action_id envelope (some j) m g u =
      let e = entry_of env config j action_id envelope in
      continue-After k (record_claimed env.now e m)
        (λ _. perform_job env config action_id envelope (some j))
        (record_claimed-After env.now k e m g u)
        (λ a p g'.
          perform_job-After action_id envelope (some j) (record_claimed env.now e m).1 g'
            (record_claimed-Fresh env.now k e m g u (ap crashed p)))

  answer-After :
      {A : Type 0} (o : Option A) (m : Machine) → Good k m → After k (answer env config o m)
  answer-After none m g = raise-Keeps k api_error m g
  answer-After (some a) m g = pure-Keeps k a m g

  handle_envelope-Keeps :
      (action_id : String) (envelope : Mapping)
      → Keeps k (handle_envelope env config action_id envelope)
  handle_envelope-Keeps action_id envelope m g =
      go (get_text "job_id" envelope) (is_seen env config (get_text "job_id" envelope) m) refl
    where
      go :
          (o : Option String) (b : Bool)
          → is_seen env config o m ≡ b
          → After k (handle_unseen env config action_id envelope o b m)
      go o true e = pure-Keeps k tt m g
      go none false e = handle_claimed_job-After action_id envelope none m g tt
      go (some j) false e =
          handle_claimed_job-After action_id envelope (some j) m g (unseen_of j m e)

  process_job-Keeps : (action_id : String) → Keeps k (process_job env config action_id)
  unfolding process_job
  process_job-Keeps action_id =
      bind-Keeps k tick
        (λ _.
          (λ m. answer env config (env.claim m.log action_id) m)
          >>= handle_envelope env config action_id)
        (tick-Keeps k)
        (λ _.
          bind-Keeps k (λ m. answer env config (env.claim m.log action_id) m)
            (handle_envelope env config action_id)
            (λ m g. answer-After (env.claim m.log action_id) m g) (handle_envelope-Keeps action_id))

  process_all-Keeps : (jobs : List Mapping) → Keeps k (process_all env config jobs)
  unfolding process_all
  process_all-Keeps [] = pure-Keeps k tt
  process_all-Keeps (x ∷ xs) =
      bind-Keeps k (when_some (get_text "id" x) (process_job env config))
        (λ _. process_all env config xs)
        (when_some-Keeps (get_text "id" x) (process_job env config) process_job-Keeps)
        (λ _. process_all-Keeps xs)

  verify_only_result-Keeps :
      (skill : String) (ps : Mapping) → Keeps k (verify_only_result env config skill ps)
  unfolding verify_only_result
  verify_only_result-Keeps skill ps m g = ground arith

  recovered_result-Keeps :
      (e : JournalEntry) (o : Option JobResult) → Keeps k (recovered_result env config e o)
  recovered_result-Keeps e none = verify_only_result-Keeps e.skill_id e.parameters
  recovered_result-Keeps e (some r) = pure-Keeps k r

  after_report-After :
      (e : JournalEntry) (r : Result Failure (Unit {0})) (m : Machine)
      → After {A = Unit {0}} k (r, m)
      → After k (after_report env config e r m)
  after_report-After e (ok _) m h =
      mark_reported-Keeps env config k named e.job_id m
        (record { durable = h.durable; saved = h.saved refl })
  after_report-After e (err api_error) m h = record { durable = h.durable; saved = h.saved }
  after_report-After e (err _) m h = record { durable = h.durable; saved = h.saved }

  recover_all-Keeps : (es : List JournalEntry) → Keeps k (recover_all env config es)
  unfolding recover_all
  recover_all-Keeps [] = pure-Keeps k tt
  recover_all-Keeps (e ∷ es) =
      bind-Keeps k (recovered_result env config e (known_result env config e))
        (λ r. finish_recovery env config e r >>= λ _. recover_all env config es)
        (recovered_result-Keeps e (known_result env config e))
        (λ r.
          bind-Keeps k (finish_recovery env config e r) (λ _. recover_all env config es)
            (λ m g.
              let p = report_result env config e.idempotency_key e.claim_token r m in
              after_report-After e p.0 p.1
                (report_result-Keeps env config k e.idempotency_key e.claim_token r m g))
            (λ _. recover_all-Keeps es))

  recover_pending-Keeps : (es : List JournalEntry) → Keeps k (recover_pending env config es)
  recover_pending-Keeps [] = pure-Keeps k tt
  recover_pending-Keeps (e ∷ es) =
      bind-Keeps k (identity env config)
        (λ _. recover_all env config (e ∷ es) >>= λ _. prune_reported 500)
        (identity-Keeps env config k named)
        (λ _.
          bind-Keeps k (recover_all env config (e ∷ es)) (λ _. prune_reported 500)
            (recover_all-Keeps (e ∷ es)) (λ _. prune_reported-Keeps k 500))

  process_jobs-Keeps : Keeps k (process_jobs env config)
  unfolding process_jobs recover_interrupted_jobs
  process_jobs-Keeps =
      bind-Keeps k (recover_interrupted_jobs env config)
        (λ _. identity env config >>= λ _.
          (λ m. answer env config (env.jobs m.log) m) >>= process_all env config)
        (λ m g. recover_pending-Keeps (pending m) m g)
        (λ _.
          bind-Keeps k (identity env config)
            (λ _. (λ m. answer env config (env.jobs m.log) m) >>= process_all env config)
            (identity-Keeps env config k named)
            (λ _.
              bind-Keeps k (λ m. answer env config (env.jobs m.log) m) (process_all env config)
                (λ m g. answer-After (env.jobs m.log) m g) process_all-Keeps))

  restart-Good :
      (r : Result Failure (Unit {0})) (m : Machine)
      → After {A = Unit {0}} k (r, m)
      → Good k (restart env config r m)
  restart-Good (ok _) m h = record { durable = h.durable; saved = h.saved refl }
  restart-Good (err api_error) m h = record { durable = h.durable; saved = h.saved refl }
  restart-Good (err _) m h = record { durable = h.durable; saved = refl }

  cycle-Good : (n : ℕ) (m : Machine) → Good k m → Good k (cycle env config n m)
  unfolding cycle
  cycle-Good n m g =
      let p = process_jobs env config (record m { steps = n }) in
      restart-Good p.0 p.1 (
        process_jobs-Keeps (record m { steps = n })
          (record { durable = g.durable; saved = g.saved }))

  life-Good : (ns : List ℕ) (m : Machine) → Good k m → Good k (life env config ns m)
  unfolding life
  life-Good [] m g = g
  life-Good (n ∷ ns) m g = life-Good ns (cycle env config n m) (cycle-Good n m g)

-- a machine on which the agent was never run
abbrev pub blank : Machine
blank = record { entries = []; disk = []; log = []; steps = 0; readings = 0 }

-- However the control plane, the executors and the clock behave, and wherever the power goes, an executor
-- is run for a job with a nonempty id at most once more than the journal's file lost the job's entry.
pub life-runs_le :
    (env : Environment) (config : AgentConfig) (k : String) (ns : List ℕ)
    → k ≢ ""
    → runs k (life env config ns blank).log ≤ 1 + forgets k (life env config ns blank).log
life-runs_le env config k ns named =
    let g =
      life-Good env config k named ns blank
        (unfold get in record { durable = omega arith; saved = refl }) in
    omega (arith, g.durable, begun_le (get k (life env config ns blank).disk))
