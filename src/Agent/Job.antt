-- ===== src/Agent/Job.antt =====
-- `execute_job` of the agents keeps the invariant of Agent/Once.
use helpdesktool.Prelude.{
  truthy, ◌&&◌, ◌⊎◌, ◌==◌, ap, ℕ, ◌+◌, ◌≤◌, String, ◌≡◌, refl, ◌≢◌, Bool, true, false, Option, none,
  some, [], ◌∷◌, arith, eq_iff, Bool-cases, inl, inr,
}
use helpdesktool.Prelude.Dict.{get}
use helpdesktool.Prelude.Exec.{◌>>=◌, pure, Result, ok, err, Exec}
use helpdesktool.Models.{Mapping}
use helpdesktool.Signing.{EnvelopeError, unhashable, Keys, verify_envelope}
use helpdesktool.Journal.{
  not_enrolled, read_clock, mark_executed, mark_executing, mark_reported, executing, executed,
  reported, JournalEntry, JobResult, Machine, Failure,
}
use helpdesktool.Agent.{
  identity_of, identity, run_pinned, expected, executor_for, shown, get_object, invalid_result,
  when_true, run_executor, finish_run, Environment, AgentConfig, run_job, execute_job,
  run_parameters, run_skill, run_verified, mark_executed, mark_executing, mark_reported, when_true,
}
use helpdesktool.Agent.Once.{crashed, mark_found-After, runs, forgets, Good, After}
use helpdesktool.Agent.Cycle.{
  Keeps, Room, continue-After, bind-Keeps, pure-Keeps, raise-Keeps, run_executor-After,
  mark_found-Room,
}

-- the job has an entry, and was not run since its entry was last deleted
abbrev pub Fresh : String → Option String → Machine → Type 0
Fresh k none m = Unit
Fresh k (some j) m =
    (e : JournalEntry) × (get j m.entries ≡ some e) × (k ≡ j → runs k m.log ≤ forgets k m.log)

module _ (env : Environment) (config : AgentConfig) (k : String) (named : k ≢ "") where
  pub when_true-Keeps :
      (o : Option String) (f : String → Exec Failure Machine (Unit {0}))
      → ((j : String) → Keeps k (f j))
      → Keeps k (when_true o f)
  when_true-Keeps none f h m g = pure-Keeps k tt m g
  when_true-Keeps (some j) f h m g = elim (Bool-cases (j == "")) [
    | inl e ↦ rw e (pure-Keeps k tt m g)
    | inr e ↦ rw e (h j m g)
  ]

  mark_executed-Keeps : (r : JobResult) (j : String) → Keeps k (mark_executed env.now j r)
  unfolding mark_executed
  mark_executed-Keeps r j m g =
      mark_found-After env.now k j (λ x. record x { state = executed; result = some r }) m
        (get j m.entries) (λ e t. refl) g

  pub mark_reported-Keeps : (j : String) → Keeps k (mark_reported env.now j)
  unfolding mark_reported
  mark_reported-Keeps j m g =
      mark_found-After env.now k j (λ x. record x { state = reported }) m (get j m.entries)
        (λ e t. refl) g

  finish_run-After :
      (job_id : Option String) (skill : String) (ps : Mapping) (m : Machine)
      → Good k m
      → Room k job_id m
      → After k (finish_run env config job_id skill ps m)
  finish_run-After job_id skill ps m g room =
      continue-After k (run_executor env config job_id skill ps m)
        (λ r. when_true job_id (λ j. mark_executed env.now j r) >>= λ _. pure r)
        (run_executor-After env config k job_id skill ps m g room)
        (λ r _ g'.
          bind-Keeps k (when_true job_id (λ j. mark_executed env.now j r)) (λ _. pure r)
            (when_true-Keeps job_id (λ j. mark_executed env.now j r) (mark_executed-Keeps r))
            (λ _. pure-Keeps k r) (run_executor env config job_id skill ps m).1 g')

  mark-Room :
      (j : String) (m : Machine)
      → Good k m
      → Fresh k (some j) m
      → After k (when_true (some j) (mark_executing env.now) m)
        × (crashed (when_true (some j) (mark_executing env.now) m).0 ≡ false
            → Room k (some j) (when_true (some j) (mark_executing env.now) m).1)
  unfolding mark_executing
  mark-Room j m g (e, h, f) = elim (Bool-cases (j == "")) [
    | inl empty ↦
        rw empty (pure-Keeps k tt m g, λ c. ground (arith, eq_iff j "", eq_iff j k, g.durable))
    | inr some_id ↦
        rw (some_id, h)
          (
            mark_found-After env.now k j (λ x. record x { state = executing }) m (some e)
                (λ e t. refl) g,
            mark_found-Room env config k j e m g f,
          )
  ]

  run_job-After :
      (job_id : Option String) (skill : String) (ps : Mapping) (m : Machine)
      → Good k m
      → Fresh k job_id m
      → After k (run_job env config job_id skill ps m)
  unfolding run_job
  run_job-After none skill ps m g f = finish_run-After none skill ps m g g.durable
  run_job-After (some j) skill ps m g f =
      continue-After k (when_true (some j) (mark_executing env.now) m)
        (λ _. finish_run env config (some j) skill ps) (mark-Room j m g f).0
        (λ a e g'.
          finish_run-After (some j) skill ps (when_true (some j) (mark_executing env.now) m).1 g'
            ((mark-Room j m g f).1 (ap crashed e)))

  run_parameters-After :
      (job_id : Option String) (skill : String) (o : Option Mapping) (m : Machine)
      → Good k m
      → Fresh k job_id m
      → After k (run_parameters env config job_id skill o m)
  run_parameters-After job_id skill none m g f =
      pure-Keeps k (invalid_result "invalid parameters") m g
  run_parameters-After job_id skill (some ps) m g f = run_job-After job_id skill ps m g f

  run_skill-After :
      (job_id o : Option String) (envelope : Mapping) (m : Machine)
      → Good k m
      → Fresh k job_id m
      → After k (run_skill env config job_id o envelope m)
  run_skill-After job_id none envelope m g f = record { durable = g.durable; saved = λ _. g.saved }
  run_skill-After job_id (some skill) envelope m g f =
      run_parameters-After job_id skill (get_object "parameters" envelope) m g f

  run_verified-After :
      (job_id : Option String) (envelope : Mapping) (r : Result EnvelopeError (Unit {0}))
      (m : Machine)
      → Good k m
      → Fresh k job_id m
      → After k (run_verified env config job_id envelope r m)
  run_verified-After job_id envelope (ok _) m g f =
      run_skill-After job_id (executor_for env config (shown env config "skill_id" envelope))
        envelope m g f
  run_verified-After job_id envelope (err unhashable) m g f = record {
    durable = g.durable;
    saved = λ _. g.saved;
  }
  run_verified-After job_id envelope (err _) m g f = record {
    durable = g.durable;
    saved = λ _. g.saved;
  }

  pub Fresh-readings :
      (o : Option String) (m : Machine) (n : ℕ)
      → Fresh k o m
      → Fresh k o (record m { readings = n })
  Fresh-readings none m n f = tt
  Fresh-readings (some j) m n f = f

  run_pinned-After :
      (job_id : Option String) (envelope : Mapping) (d : String) (keys : Keys) (m : Machine)
      → Good k m
      → Fresh k job_id m
      → After k (run_pinned env config job_id envelope d keys m)
  unfolding read_clock
  run_pinned-After job_id envelope d [] m g f = record { durable = g.durable; saved = λ _. g.saved }
  run_pinned-After job_id envelope d (x ∷ xs) m g f =
      run_verified-After job_id envelope
        (verify_envelope env.show env.parse_time env.check envelope (expected env config d)
          (env.now m.readings))
        (record m { readings = m.readings + 1 }) (record { durable = g.durable; saved = g.saved })
        (Fresh-readings job_id m (m.readings + 1) f)

  pub identity_cases :
      (m : Machine)
      → ((d : String) × (identity env config m ≡ (ok d, m)))
        ⊎ (identity env config m ≡ (err not_enrolled, m))
  unfolding identity
  identity_cases m = cases config.device_id (truthy config.device_id && truthy config.agent_token)
    where
      cases :
          (o : Option String) (b : Bool)
          → ((d : String) × (identity_of env config o b m ≡ (ok d, m)))
            ⊎ (identity_of env config o b m ≡ (err not_enrolled, m))
      cases none b = inr refl
      cases (some d) true = inl (d, refl)
      cases (some d) false = inr refl

  pub identity-Keeps : Keeps k (identity env config)
  identity-Keeps m g = elim (identity_cases m) [
    | inl (d, e) ↦ rw e (pure-Keeps k d m g)
    | inr e ↦ rw e (raise-Keeps k not_enrolled m g)
  ]

  pub execute_job-After :
      (job_id : Option String) (envelope : Mapping) (m : Machine)
      → Good k m
      → Fresh k job_id m
      → After k (execute_job env config job_id envelope m)
  unfolding execute_job
  execute_job-After job_id envelope m g f = elim (identity_cases m) [
    | inl (d, e) ↦ rw e (run_pinned-After job_id envelope d config.signing_public_keys m g f)
    | inr e ↦ rw e (raise-Keeps k not_enrolled m g)
  ]
