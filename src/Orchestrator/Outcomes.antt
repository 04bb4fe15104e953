-- ===== src/Orchestrator/Outcomes.antt =====
-- What is behind the status that orchestrator.py's `_run` leaves an action in.
use helpdesktool.Prelude.{
  Bool, ◌≡◌, ◌⊎◌, inl, inr, refl, ◌&&◌, true, false, some, List, [], ◌∷◌, arith, is_some,
  Bool-cases, if◌then◌else◌,
}
use helpdesktool.Prelude.Exec.{Result, ok, err, ◌>>=◌, ◌>>◌}
use helpdesktool.Models.{
  ActionStatus, running, succeeded, failed, rolled_back, rollback_failed, SkillDefinition,
  ExecutionResult, ActionRequest, Value,
}
use helpdesktool.Audit.{Entry}
use helpdesktool.Orchestrator.{
  Outcome, returned, raised, SkillExecutor, Work, Refusal, run, roll_back, conclude, executor_error,
  Step, try_call, set_status, event,
}

outcome-cases : {A : Type 0} (o : Outcome A) → ((a : A) × (o ≡ returned a)) ⊎ (o ≡ raised)
outcome-cases (returned a) = inl (a, refl)
outcome-cases raised = inr refl

module _ (executor : SkillExecutor) (skill : SkillDefinition) (q : ActionRequest)
    (result : ExecutionResult) (r : Result Refusal (Unit {0})) (s : ActionStatus) where
  -- the rollback was called and the status is its answer, or it raised
  abbrev pub IsRolledBack : Type 0
  IsRolledBack =
      (log : List Entry) × (((undone : ExecutionResult) × (executor.rollback log skill q result
            ≡ returned undone)
          × (r ≡ ok tt)
          × (((undone.success ≡ true) × (s ≡ rolled_back))
              ⊎ ((undone.success ≡ false) × (s ≡ rollback_failed))))
        ⊎ ((executor.rollback log skill q result ≡ raised)
            × (r ≡ err executor_error)
            × (s ≡ failed)))

  -- what follows a failure
  abbrev pub IsUndone : Type 0
  IsUndone =
      (((skill.reversible && is_some skill.rollback_skill_id) ≡ false) × (r ≡ ok tt) × (s ≡ failed))
      ⊎ (((skill.reversible && is_some skill.rollback_skill_id) ≡ true) × IsRolledBack)

  -- what follows the executor's answer: it is verified if it reports success
  abbrev pub IsConcluded : Type 0
  IsConcluded =
      ((result.success ≡ false) × IsUndone)
      ⊎ ((result.success ≡ true)
          × (log : List Entry) × (((executor.verify log skill q result ≡ returned true)
                × (r ≡ ok tt)
                × (s ≡ succeeded))
              ⊎ ((executor.verify log skill q result ≡ returned false) × IsUndone)
              ⊎ ((executor.verify log skill q result ≡ raised)
                  × (r ≡ err executor_error)
                  × (s ≡ running))))

-- what a run of the request `q` has called, and what came of it
abbrev pub IsAccounted :
    SkillExecutor → SkillDefinition → ActionRequest → Result Refusal (Unit {0}) → Work → Type 0
IsAccounted executor skill q r w =
    (log : List Entry) × (((result : ExecutionResult) × (executor.execute log skill q
          ≡ returned result)
        × (w.action.result ≡ some result)
        × IsConcluded executor skill q result r w.action.status)
      ⊎ ((executor.execute log skill q ≡ raised)
          × (r ≡ err executor_error)
          × (w.action.status ≡ running)))

-- the run up to the call of the executor
abbrev started : SkillDefinition → Step
started skill = do
  set_status running
  event "execution.started" "system" (("skill_id", Value.text skill.skill_id) ∷ [])

module _ (executor : SkillExecutor) (skill : SkillDefinition) (result : ExecutionResult) where
  roll_back-IsRolledBack :
      (w : Work)
      → w.action.status ≡ failed
      → IsRolledBack executor skill w.action.request result
          (roll_back executor skill result w).0
          (roll_back executor skill result w).1.action.status
  roll_back-IsRolledBack w f =
      elim (outcome-cases (executor.rollback w.audit skill w.action.request result)) [
        | inr e ↦ (w.audit, inr (e, rw e refl, rw e f))
        | inl (undone, e) ↦ elim (Bool-cases undone.success) [
          | inl good ↦ (w.audit, inl (undone, e, rw e refl, inl (good, rw (e, good) refl)))
          | inr bad ↦ (w.audit, inl (undone, e, rw e refl, inr (bad, rw (e, bad) refl)))
        ]
      ]

  conclude-IsUndone :
      (w : Work)
      → IsUndone executor skill w.action.request result
          (conclude executor skill result false w).0
          (conclude executor skill result false w).1.action.status
  conclude-IsUndone w = elim (Bool-cases (skill.reversible && is_some skill.rollback_skill_id)) [
    | inr cannot ↦ inl (cannot, rw cannot refl, rw cannot refl)
    | inl can ↦ inr (can, rw can (roll_back-IsRolledBack _ refl))
  ]

  conclude-result :
      (b : Bool) (w : Work) → (conclude executor skill result b w).1.action.result ≡ w.action.result
  conclude-result b w = ground arith

  -- from the executor's answer on, by whether it reports success and by its verification
  abbrev finish_as : Bool → Outcome Bool → Step
  finish_as b o w =
      ((λ (v : Work). if b then try_call o v else (ok false, v)) >>= conclude executor skill result)
        w

  abbrev finished : Step
  finished w = finish_as result.success (executor.verify w.audit skill w.action.request result) w

  finished-IsConcluded :
      (w : Work) (b : Bool) (o : Outcome Bool)
      → w.action.status ≡ running
      → result.success ≡ b
      → executor.verify w.audit skill w.action.request result ≡ o
      → IsConcluded executor skill w.action.request result
          (finish_as b o w).0
          (finish_as b o w).1.action.status
  finished-IsConcluded w false o f e v = inl (e, conclude-IsUndone w)
  finished-IsConcluded w true raised f e v = inr (e, w.audit, inr (inr (v, refl, f)))
  finished-IsConcluded w true (returned true) f e v = inr (e, w.audit, inl (v, refl, refl))
  finished-IsConcluded w true (returned false) f e v =
      inr (e, w.audit, inr (inl (v, conclude-IsUndone w)))

  finished-result : (w : Work) → (finished w).1.action.result ≡ w.action.result
  finished-result w = ground arith

-- Whatever the executor answers, a run has executed the action's request, and its status says what came of it. It
-- has succeeded only if the executor reports success and then verifies it. If the executor reports a failure, or
-- does not verify, the action has failed where the skill is not reversible or names no rollback skill, and
-- otherwise it is rolled back, or its rollback has failed, as the executor's rollback answers. An exception of
-- the executor ends the run, and leaves the action failed if the rollback raised it, and running otherwise.
pub run-IsAccounted :
    (executor : SkillExecutor) (skill : SkillDefinition) (w : Work)
    → IsAccounted executor skill w.action.request
        (run executor (some skill) w).0
        (run executor (some skill) w).1
unfolding run
run-IsAccounted executor skill w =
    let log = (started skill w).1.audit in
    elim (outcome-cases (executor.execute log skill w.action.request)) [
      | inr e ↦ (log, inr (e, rw e refl, rw e refl))
      | inl (result, e) ↦ (
        log,
        inl (
          result,
          e,
          rw e (finished-result executor skill result _),
          rw e (finished-IsConcluded executor skill result _ result.success _ refl refl refl),
        ),
      )
    ]
