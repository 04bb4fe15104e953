-- ===== src/Executor/Commands.antt =====
-- Which commands linux_agent/executor.py runs, and what its results say.
use helpdesktool.Prelude.{
  String, ◌≡◌, refl, inl, inr, Bool, true, false, ◌&&◌, Option, none, some, List, [], ◌∷◌, ◌==◌,
  any, arith, eq_iff, Bool-cases,
}
use helpdesktool.Models.{Mapping}
use helpdesktool.Executor.{
  Command, show, restart, stop, flush_caches, Reply, exited, timed_out, os_error, Runner, Call,
  returned, raised, ServiceState, state_of, is_running, is_zero, only_service, undo, rollback,
  rollback_replied, after_restart, restart_replied, prechecked, execute_on, execute,
}

-- whether a call returns a success
abbrev pub succeeds : Call → Bool
succeeds (returned r) = r.success
succeeds (raised e) = false

-- the command is one on a service of the list
abbrev pub is_permitted : List String → Command → Bool
is_permitted allowed (show s) = any (λ x. x == s) allowed
is_permitted allowed (restart s) = any (λ x. x == s) allowed
is_permitted allowed (stop s) = any (λ x. x == s) allowed
is_permitted allowed flush_caches = false

abbrev pub all_permitted : List String → List Command → Bool
all_permitted allowed [] = true
all_permitted allowed (c ∷ log) =
    let rest = all_permitted allowed log in is_permitted allowed c && rest

module _ (runner : Runner) where
  -- what the runner replied in the course of a successful call, from the log before it
  pub record Succeeded (service : String) (log : List Command) : Type 0 where
    pub before : ServiceState
    pub after : ServiceState
    pub before_read : state_of (runner log (show service)) ≡ some before
    pub was_loaded : before.load ≡ "loaded"
    pub was_restarted : is_zero (runner (show service ∷ log) (restart service)) ≡ true
    pub after_read :
        state_of (runner (restart service ∷ show service ∷ log) (show service)) ≡ some after
    pub runs_now : is_running after ≡ true

  rollback-fails :
      (service : String) (before : ServiceState) (error : String) (log : List Command)
      → (rollback runner service before error log).0.success ≡ false
  unfolding rollback
  rollback-fails service before error log =
      go (runner log (undo runner service before)) (undo runner service before ∷ log)
    where
      go :
          (r : Reply) (l : List Command)
          → (rollback_replied runner service before error r l).0.success ≡ false
      go (exited b lines) l = refl
      go timed_out l = refl
      go os_error l = refl

  after_restart-success :
      (service : String) (before : ServiceState) (o : Option ServiceState) (log : List Command)
      → succeeds (after_restart runner service before o log).0 ≡ true
      → (after : ServiceState) × (o ≡ some after)
        × (is_running after ≡ true)
        × ((after_restart runner service before o log).1 ≡ log)
  after_restart-success service before none log h =
      absurd (ground (arith, rollback-fails service before "post-restart verification failed" log))
  after_restart-success service before (some after) log h = elim (Bool-cases (is_running after)) [
    | inl holds ↦ (after, refl, holds, rw holds refl)
    | inr fails ↦ absurd (
        ground (arith, fails, rollback-fails service before "post-restart verification failed" log))
  ]

  restart_replied-success :
      (service : String) (before : ServiceState) (r : Reply) (log : List Command)
      → succeeds (restart_replied runner service before r log).0 ≡ true
      → (after : ServiceState) × (state_of (runner log (show service)) ≡ some after)
        × (is_running after ≡ true)
        × (is_zero r ≡ true)
        × ((restart_replied runner service before r log).1 ≡ show service ∷ log)
  restart_replied-success service before os_error log h = cc
  restart_replied-success service before timed_out log h =
      absurd (ground (arith, rollback-fails service before "restart timed out" log))
  restart_replied-success service before (exited false lines) log h =
      absurd (ground (arith, rollback-fails service before "restart failed" log))
  restart_replied-success service before (exited true lines) log h =
      let (after, e, run, l) =
        after_restart-success service before (state_of (runner log (show service)))
          (show service ∷ log) h in
      (after, e, run, refl, l)

  prechecked-success :
      (service : String) (o : Option ServiceState) (log : List Command)
      → state_of (runner log (show service)) ≡ o
      → succeeds (prechecked runner service o (show service ∷ log)).0 ≡ true
      → Succeeded service log
        × ((prechecked runner service o (show service ∷ log)).1
            ≡ show service ∷ restart service ∷ show service ∷ log)
  prechecked-success service none log e h = cc
  prechecked-success service (some before) log e h = elim (Bool-cases (before.load == "loaded")) [
    | inl holds ↦
        let l = show service ∷ log in
        let (after, read, run, zero_code, same) =
          restart_replied-success service before (runner l (restart service)) (restart service ∷ l)
            (rw holds at h) in
        (
          record {
            before = before;
            after = after;
            before_read = e;
            was_loaded = ground (arith, holds, eq_iff before.load "loaded");
            was_restarted = zero_code;
            after_read = read;
            runs_now = run;
          },
          rw holds same,
        )
    | inr fails ↦ absurd (ground (arith, fails))
  ]

  -- A call that returns a success was for a service of the list, found it loaded, restarted it with return
  -- code 0, found it active and running after that, and ran no other command than those three.
  pub execute-Succeeded :
      (allowed : List String) (parameters : Mapping) (log : List Command)
      → succeeds (execute runner allowed parameters log).0 ≡ true
      → (service : String) × (only_service parameters ≡ some service)
        × (any (λ s. s == service) allowed ≡ true)
        × Succeeded service log
        × ((execute runner allowed parameters log).1
            ≡ show service ∷ restart service ∷ show service ∷ log)
  unfolding execute
  execute-Succeeded allowed parameters log h = go (only_service parameters) h
    where
      go :
          (o : Option String)
          → succeeds (execute_on runner allowed o log).0 ≡ true
          → (service : String) × (o ≡ some service)
            × (any (λ s. s == service) allowed ≡ true)
            × Succeeded service log
            × ((execute_on runner allowed o log).1
                ≡ show service ∷ restart service ∷ show service ∷ log)
      go none k = cc
      go (some service) k = elim (Bool-cases (any (λ s. s == service) allowed)) [
        | inl holds ↦
            let (s, l) =
              prechecked-success service (state_of (runner log (show service))) log refl
                (rw holds at k) in
            (service, refl, holds, s, rw holds l)
        | inr fails ↦ absurd (ground (arith, fails))
      ]

  module _ (allowed : List String) (service : String)
      (own : any (λ s. s == service) allowed ≡ true) where
    rollback_permitted :
        (before : ServiceState) (error : String) (log : List Command)
        → all_permitted allowed log ≡ true
        → all_permitted allowed (rollback runner service before error log).1 ≡ true
    unfolding rollback
    rollback_permitted before error log h =
        go (runner log (undo runner service before)) (undo runner service before ∷ log)
          (ground (arith, own))
      where
        go :
            (r : Reply) (l : List Command)
            → all_permitted allowed l ≡ true
            → all_permitted allowed (rollback_replied runner service before error r l).1 ≡ true
        go (exited b lines) l k = ground (arith, own, k)
        go timed_out l k = k
        go os_error l k = k

    after_restart_permitted :
        (before : ServiceState) (o : Option ServiceState) (log : List Command)
        → all_permitted allowed log ≡ true
        → all_permitted allowed (after_restart runner service before o log).1 ≡ true
    after_restart_permitted before none log h =
        rollback_permitted before "post-restart verification failed" log h
    after_restart_permitted before (some after) log h = elim (Bool-cases (is_running after)) [
      | inl holds ↦ rw holds h
      | inr fails ↦ rw fails (rollback_permitted before "post-restart verification failed" log h)
    ]

    restart_replied_permitted :
        (before : ServiceState) (r : Reply) (log : List Command)
        → all_permitted allowed log ≡ true
        → all_permitted allowed (restart_replied runner service before r log).1 ≡ true
    restart_replied_permitted before os_error log h = h
    restart_replied_permitted before timed_out log h =
        rollback_permitted before "restart timed out" log h
    restart_replied_permitted before (exited false lines) log h =
        rollback_permitted before "restart failed" log h
    restart_replied_permitted before (exited true lines) log h =
        after_restart_permitted before (state_of (runner log (show service))) (show service ∷ log)
          (ground (arith, own, h))

    prechecked_permitted :
        (o : Option ServiceState) (log : List Command)
        → all_permitted allowed log ≡ true
        → all_permitted allowed (prechecked runner service o log).1 ≡ true
    prechecked_permitted none log h = h
    prechecked_permitted (some before) log h = elim (Bool-cases (before.load == "loaded")) [
      | inl holds ↦ rw holds (
          restart_replied_permitted before (runner log (restart service)) (restart service ∷ log)
            (ground (arith, own, h)))
      | inr fails ↦ rw fails h
    ]

  -- Whatever the parameters and the replies, every command that `execute` runs is about a service of the list.
  pub execute_permitted :
      (allowed : List String) (parameters : Mapping) (log : List Command)
      → all_permitted allowed log ≡ true
      → all_permitted allowed (execute runner allowed parameters log).1 ≡ true
  unfolding execute
  execute_permitted allowed parameters log h = go (only_service parameters)
    where
      go : (o : Option String) → all_permitted allowed (execute_on runner allowed o log).1 ≡ true
      go none = h
      go (some service) = elim (Bool-cases (any (λ s. s == service) allowed)) [
        | inl holds ↦ rw holds (
            prechecked_permitted allowed service holds (state_of (runner log (show service)))
              (show service ∷ log) (ground (arith, holds, h)))
        | inr fails ↦ rw fails h
      ]
