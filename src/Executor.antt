-- ===== src/Executor.antt =====
-- linux_agent/executor.py: the executors that restart a service and flush the DNS cache. The commands of
-- the operating system are the runner's: its replies may depend on all commands before. A command's output
-- is given as its lines, each split at its first "=" if it has one. A command's log is kept newest first.
pub mod Commands
pub mod Examples
use helpdesktool.Prelude.{
  ℕ, String, Bool, true, false, ◌&&◌, not, Option, none, some, List, [], ◌∷◌, ◌==◌, any,
  if◌then◌else◌,
}
use helpdesktool.Prelude.Dict.{Dict, get, put}
use helpdesktool.Models.{Value, Fields, field, Mapping}
use helpdesktool.Journal.{JobResult}

pub data Command : Type 0 where
  show restart stop : String → Command
  flush_caches : Command

-- the end of a command, with whether its return code is 0, a TimeoutExpired, or an OSError
pub data Reply : Type 0 where
  exited : Bool → List (Option (String × String)) → Reply
  timed_out os_error : Reply

abbrev pub Runner : Type 0
Runner = List Command → Command → Reply

-- the exceptions that `execute` lets through
pub data Exception : Type 0 where
  value_error permission_error unhandled : Exception

-- what a call returns or raises
pub data Call : Type 0 where
  returned : JobResult → Call
  raised : Exception → Call

pub record ServiceState : Type 0 where
  pub load : String
  pub active : String
  pub sub : String

abbrev pub unknown_state : ServiceState
unknown_state = record { load = "unknown"; active = "unknown"; sub = "unknown" }

-- the dictionary of the lines with a "="
unfoldable pub values_of : List (Option (String × String)) → Dict String → Dict String
values_of [] d = d
values_of (none ∷ lines) d = values_of lines d
values_of (some (k, v) ∷ lines) d = values_of lines (put k v d)

abbrev pub value_or_unknown : String → Dict String → String
value_or_unknown k d = elim (get k d) [ none ↦ "unknown" | some v ↦ v ]

-- what `state` makes of the reply; `none` is an exception
unfoldable pub state_of : Reply → Option ServiceState
unfolding values_of
state_of (exited ok lines) =
    let values = values_of lines [] in
    some (record {
      load = value_or_unknown "LoadState" values;
      active = value_or_unknown "ActiveState" values;
      sub = value_or_unknown "SubState" values;
    })
state_of _ = none

-- `asdict`
abbrev pub as_object : ServiceState → Value
as_object s = Value.object (
    field "load" (Value.text s.load)
      (field "active" (Value.text s.active) (field "sub" (Value.text s.sub) Fields.end)))

abbrev pub is_running : ServiceState → Bool
is_running s = s.active == "active" && s.sub == "running"

-- `_failure`, with the output of the executor
abbrev pub failure : Mapping → String → JobResult
failure output error = record {
  success = false;
  verified = false;
  output = output;
  error = some error;
  rollback_attempted = false;
  rollback_succeeded = none;
}

abbrev pub success : Mapping → JobResult
success output = record {
  success = true;
  verified = true;
  output = output;
  error = none;
  rollback_attempted = false;
  rollback_succeeded = none;
}

abbrev pub is_zero : Reply → Bool
is_zero (exited b lines) = b
is_zero _ = false

-- the text of a mapping with "service" as its only key
abbrev pub only_service : Mapping → Option String
only_service ((k, Value.text s) ∷ []) = if k == "service" then some s else none
only_service _ = none

module _ (runner : Runner) where
  -- the command that undoes a restart
  abbrev pub undo : String → ServiceState → Command
  undo service before = if before.active == "active" then restart service else stop service

  abbrev pub restored : Reply → Option ServiceState → ServiceState → Bool
  restored r none before = false
  restored r (some current) before = is_zero r && current.active == before.active

  abbrev pub rolled_back : String → ServiceState → String → Bool → JobResult
  rolled_back service before error b = record {
    success = false;
    verified = false;
    output = ("service", Value.text service) ∷ ("before", as_object before) ∷ [];
    error = some error;
    rollback_attempted = true;
    rollback_succeeded = some b;
  }

  abbrev pub rollback_replied :
      String → ServiceState → String → Reply → List Command → JobResult × List Command
  rollback_replied service before error (exited ok lines) log = (
    rolled_back service before error
        (restored (exited ok lines) (state_of (runner log (show service))) before),
    show service ∷ log,
  )
  rollback_replied service before error timed_out log =
      (rolled_back service before error false, log)
  rollback_replied service before error os_error log = (rolled_back service before error false, log)

  -- `_rollback`
  unfoldable pub rollback : String → ServiceState → String → List Command → JobResult × List Command
  rollback service before error log =
      rollback_replied service before error (runner log (undo service before))
        (undo service before ∷ log)

  abbrev pub return : JobResult × List Command → Call × List Command
  return (r, log) = (returned r, log)

  abbrev pub after_restart :
      String → ServiceState → Option ServiceState → List Command → Call × List Command
  after_restart service before none log =
      return (rollback service before "post-restart verification failed" log)
  after_restart service before (some after) log =
      if is_running after
      then (
        returned (
            success (
              ("service", Value.text service)
              ∷ ("before", as_object before)
              ∷ ("after", as_object after)
              ∷ [])),
        log,
      )
      else return (rollback service before "post-restart verification failed" log)

  abbrev pub restart_replied : String → ServiceState → Reply → List Command → Call × List Command
  restart_replied service before os_error log = (raised unhandled, log)
  restart_replied service before timed_out log =
      return (rollback service before "restart timed out" log)
  restart_replied service before (exited ok lines) log =
      if ok
      then after_restart service before (state_of (runner log (show service))) (show service ∷ log)
      else return (rollback service before "restart failed" log)

  abbrev pub prechecked : String → Option ServiceState → List Command → Call × List Command
  prechecked service none log =
      (returned (failure (("before", as_object unknown_state) ∷ []) "service precheck failed"), log)
  prechecked service (some before) log =
      if before.load == "loaded"
      then restart_replied service before (runner log (restart service)) (restart service ∷ log)
      else (
        returned (failure (("before", as_object before) ∷ []) "service unit is not loaded"),
        log,
      )

  abbrev pub execute_on : List String → Option String → List Command → Call × List Command
  execute_on allowed none log = (raised value_error, log)
  execute_on allowed (some service) log =
      if any (λ s. s == service) allowed
      then prechecked service (state_of (runner log (show service))) (show service ∷ log)
      else (raised permission_error, log)

  -- `ServiceRestartExecutor.execute`
  unfoldable pub execute : List String → Mapping → List Command → Call × List Command
  execute allowed parameters log = execute_on allowed (only_service parameters) log

  abbrev pub verified_only : String → Option ServiceState → JobResult
  verified_only service none =
      failure (("before", as_object unknown_state) ∷ []) "post-interruption verification failed"
  verified_only service (some s) =
      if is_running s
      then success (
          ("service", Value.text service)
          ∷ ("after", as_object s)
          ∷ ("recovered", Value.boolean true)
          ∷ [])
      else failure (("before", as_object s) ∷ [])
          "service not healthy after an interrupted execution; manual verification required"

  -- `verify_only`
  unfoldable pub verify_only : String → List Command → JobResult × List Command
  verify_only service log =
      (verified_only service (state_of (runner log (show service))), show service ∷ log)

  abbrev pub flushed_state : Option ServiceState → JobResult
  flushed_state none = failure [] "post-flush verification failed"
  flushed_state (some after) =
      if is_running after
      then success (("resolver", as_object after) ∷ [])
      else failure [] "resolver service unhealthy after cache flush"

  abbrev pub flush_replied : Reply → List Command → Call × List Command
  flush_replied (exited ok lines) log =
      if ok
      then (
        returned (flushed_state (state_of (runner log (show "systemd-resolved")))),
        show "systemd-resolved" ∷ log,
      )
      else (returned (failure [] "flush-caches returned a non-zero exit code"), log)
  flush_replied timed_out log = (returned (failure [] "flush-caches command failed to run"), log)
  flush_replied os_error log = (returned (failure [] "flush-caches command failed to run"), log)

  -- `DnsFlushCacheExecutor.execute`
  unfoldable pub flush : Mapping → List Command → Call × List Command
  flush [] log = flush_replied (runner log flush_caches) (flush_caches ∷ log)
  flush (p ∷ parameters) log = (raised value_error, log)
