-- ===== src/Agent/Progress.antt =====
-- A job that nothing stops is run: the end of linux_agent/agent.py's `execute_job`.
use helpdesktool.Prelude.{
  ℕ, suc, ◌+◌, String, ◌≡◌, refl, true, false, some, List, [], ◌∷◌, ◌==◌, arith, eq_refl,
}
use helpdesktool.Prelude.Dict.{Dict, get, put, get-put}
use helpdesktool.Prelude.Exec.{Result, ok}
use helpdesktool.Models.{Mapping}
use helpdesktool.Signing.{EnvelopeError, Keys, has_keys, verify_envelope}
use helpdesktool.Journal.{
  executing, executed, JobResult, JournalEntry, Effect, Machine, Failure, save, tick, read_clock,
  mark_executing, mark_executed,
}
use helpdesktool.Agent.{
  execute_job, identity, expected, executor_for, shown, get_object, run_pinned, run_verified,
  Environment, AgentConfig, finished, run_job, run_executor,
}
use helpdesktool.Agent.Once.{runs, runs-lost}

put_found : (j : String) (e : JournalEntry) (d : Dict JournalEntry) → get j (put j e d) ≡ some e
put_found j e d = rw (get-put j j e d, eq_refl j) refl

module _ (env : Environment) (config : AgentConfig) (j : String) (named : j == "" ≡ false)
    (skill_id : String) (parameters : Mapping) (r : JobResult)
    (runs_well : (log : List Effect) → env.run log skill_id parameters ≡ finished r) where
  -- the entry after both marks
  abbrev pub done : JournalEntry → ℕ → JournalEntry
  done e n = record e { state = executed; result = some r; updated_at = env.now (n + 1) }

  pub run_job-runs :
      (m : Machine) (e : JournalEntry) (n : ℕ)
      → get j m.entries ≡ some e
      → let p =
          run_job env config
            (some j)
            skill_id
            parameters
            (record m { steps = suc (suc (suc (suc n))) }) in
        (p.0 ≡ ok r)
        × (get j p.1.disk ≡ some (done e m.readings))
        × (runs j p.1.log ≡ 1 + runs j m.log)
  unfolding run_job run_executor save tick read_clock mark_executing mark_executed
  run_job-runs m e n found =
      let e1 : JournalEntry = record e { state = executing; updated_at = env.now m.readings } in
      let d1 = put j e1 m.entries in
      let marked : get j d1 ≡ some e1 = put_found j e1 m.entries in
      let stored = put_found j (done e m.readings) d1 in
      rw (named, found, runs_well, marked)
        (
          refl,
          stored,
          rw (runs-lost j (put j (done e m.readings) d1) d1, eq_refl j, runs-lost j d1 m.disk)
              (omega arith),
        )

  -- what a call on a machine with power for four effects gives
  abbrev pub Runs : JournalEntry → Machine → Result Failure JobResult × Machine → Type 0
  Runs e m p =
      (p.0 ≡ ok r)
      × (get j p.1.disk ≡ some (done e m.readings))
      × (runs j p.1.log ≡ 1 + runs j m.log)

  abbrev pub powered : Machine → ℕ → Machine
  powered m n = record m { steps = suc (suc (suc (suc n))) }

  module _ (m : Machine) (e : JournalEntry) (n : ℕ) (envelope : Mapping)
      (found : get j m.entries ≡ some e)
      (there : executor_for env config (shown env config "skill_id" envelope) ≡ some skill_id)
      (given : get_object "parameters" envelope ≡ some parameters) where
    run_verified-Runs :
        (v : Result EnvelopeError (Unit {0}))
        → v ≡ ok tt
        → Runs e m (run_verified env config (some j) envelope v (powered m n))
    run_verified-Runs v good = rw (good, there, given) (run_job-runs m e n found)

  -- On an agent that is enrolled and has a pinned key, a job with a nonempty id, whose entry is in the
  -- journal, whose envelope is accepted and holds parameters, and whose executor is there and returns, is
  -- run once more, if there is the power for four effects. Its result is returned, and is on the file as
  -- that of an executed job.
  pub execute_job-Runs :
      (m : Machine) (e : JournalEntry) (n : ℕ) (envelope : Mapping) (d : String)
      → get j m.entries ≡ some e
      → executor_for env config (shown env config "skill_id" envelope) ≡ some skill_id
      → get_object "parameters" envelope ≡ some parameters
      → identity env config (powered m n) ≡ (ok d, powered m n)
      → has_keys config.signing_public_keys ≡ true
      → verify_envelope env.show env.parse_time env.check envelope
          (expected env config d)
          (env.now m.readings)
        ≡ ok tt
      → Runs e
          (record m { readings = m.readings + 1 })
          (execute_job env config (some j) envelope (powered m n))
  unfolding execute_job read_clock
  execute_job-Runs m e n envelope d found there given enrolled pinned accepted =
      rw enrolled (go config.signing_public_keys pinned)
    where
      go :
          (keys : Keys)
          → has_keys keys ≡ true
          → Runs e
              (record m { readings = m.readings + 1 })
              (run_pinned env config (some j) envelope d keys (powered m n))
      go [] h = cc
      go (x ∷ keys) h =
          run_verified-Runs (record m { readings = m.readings + 1 }) e n envelope found there given
            (verify_envelope env.show env.parse_time env.check envelope (expected env config d)
              (env.now m.readings))
            accepted
