-- ===== src/Agent/Examples.antt =====
-- A device whose power goes in the middle of a job.
use helpdesktool.Prelude.{◌≢◌, ◌≡◌, refl, ◌≤◌, ◌+◌, String, true, false, some, none, [], ◌∷◌}
use helpdesktool.Models.{Value}
use helpdesktool.Prelude.Dict.{get}
use helpdesktool.Prelude.Exec.{ok}
use helpdesktool.Journal.{JobResult, JournalEntry, Machine}
use helpdesktool.Signing.{
  moment, verify_envelope, verify_present, verify_address, verify_time, verify_skill,
  verify_signature, find_key, canonical_payload, pick,
}
use helpdesktool.Signing.Examples.{envelope}
use helpdesktool.Agent.{
  Environment, AgentConfig, finished, life, entry_of, get_object, executor_for, shown, identity,
  expected, execute_job,
}
use helpdesktool.Agent.Once.{runs, forgets}
use helpdesktool.Agent.Progress.{Runs, powered, execute_job-Runs}
use helpdesktool.Agent.Life.{blank, life-runs_le}

abbrev show : Value → String
show (Value.text s) = s
show _ = "other"

abbrev done : JobResult
done = record {
  success = true;
  verified = true;
  output = [];
  error = none;
  rollback_attempted = false;
  rollback_succeeded = none;
}

abbrev env : Environment
env = record {
  show = show;
  parse_time = λ s. moment 12;
  check = λ key signature body. true;
  now = λ n. n;
  jobs = λ log. some ((("id", Value.text "a") ∷ []) ∷ []);
  claim = λ log action_id. some envelope;
  acknowledged = λ log. true;
  run = λ log skill ps. finished done;
  verify_only = λ log service. done;
}

abbrev config : AgentConfig
config = record {
  tenant_id = "t";
  device_id = some "d";
  agent_token = some "secret";
  allowed_services = "nginx" ∷ [];
  signing_public_keys = (1, "pem") ∷ [];
}

named : ◌≢◌ {A = String} "j" ""
named e = cc

life-runs_le_example :
    runs "j" (life env config (4 ∷ 20 ∷ 20 ∷ []) blank).log
    ≤ 1 + forgets "j" (life env config (4 ∷ 20 ∷ 20 ∷ []) blank).log
life-runs_le_example = life-runs_le env config "j" (4 ∷ 20 ∷ 20 ∷ []) named

abbrev claimed_entry : JournalEntry
claimed_entry = entry_of env config "j" "a" envelope

abbrev claimed_machine : Machine
claimed_machine = record blank {
  entries = ("j", claimed_entry) ∷ [];
  disk = ("j", claimed_entry) ∷ [];
}

parameters_of : get_object "parameters" envelope ≡ some (("service", Value.text "nginx") ∷ [])
unfolding get
parameters_of = refl

entry_there : get "j" claimed_machine.entries ≡ some claimed_entry
unfolding get
entry_there = refl

executor_there :
    executor_for env config (shown env config "skill_id" envelope) ≡ some "service.restart"
unfolding get executor_for
executor_there = refl

enrolled :
    identity env config (
      powered env config "j" refl "service.restart"
        (("service", Value.text "nginx") ∷ [])
        done
        (λ log. refl)
        claimed_machine
        0)
    ≡ (
      ok "d",
      powered env config "j" refl "service.restart"
          (("service", Value.text "nginx") ∷ [])
          done
          (λ log. refl)
          claimed_machine
          0,
    )
unfolding identity
enrolled = refl

accepted :
    verify_envelope show
      (λ s. moment 12)
      (λ key signature body. true)
      envelope
      (expected env config "d")
      0
    ≡ ok tt
unfolding verify_envelope verify_present verify_address verify_time verify_skill verify_signature
    find_key canonical_payload pick get
accepted = refl

execute_job-Runs_example :
    Runs env config "j" refl "service.restart"
      (("service", Value.text "nginx") ∷ [])
      done
      (λ log. refl)
      claimed_entry
      (record claimed_machine { readings = 1 })
      (execute_job env config (some "j") envelope (record claimed_machine { steps = 4 }))
execute_job-Runs_example =
    execute_job-Runs env config "j" refl "service.restart" (("service", Value.text "nginx") ∷ [])
      done (λ log. refl) claimed_machine claimed_entry 0 envelope "d" entry_there executor_there
      parameters_of enrolled refl accepted
