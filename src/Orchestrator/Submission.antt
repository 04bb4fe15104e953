-- ===== src/Orchestrator/Submission.antt =====
-- What submit of orchestrator.py makes of the policy's decision.
use mathlib.Core.Path.{subst}
use helpdesktool.Prelude.Dict.{get}
use helpdesktool.Prelude.{
  Bool-cases, is_some, inl, inr, refl, Option, none, some, String, ◌≡◌, ◌⊎◌, ◌∙◌, Bool, true, false,
  ap, sym,
}
use helpdesktool.Prelude.Exec.{◌>>◌, Result, ok, bind-ok}
use helpdesktool.Models.{
  SkillDefinition, ActionStatus, pending_approval, denied, queued, succeeded, failed, rolled_back,
  rollback_failed, ActionRequest, ActionRecord, ExecutionResult,
}
use helpdesktool.Policy.{PolicyEngine, PolicyDecision, evaluate}
use helpdesktool.Orchestrator.Approval.{finish-ok}
use helpdesktool.Orchestrator.Outcomes.{IsAccounted, IsUndone, run-IsAccounted}
use helpdesktool.Orchestrator.{
  persist, initial_status, risk_of, record_decision, advance, submit_steps, with_store, add_row,
  assign, Refusal, SkillExecutor, Orchestrator, submit, Work, execute_or_queue, run, queue,
}
use helpdesktool.Orchestrator.Storing.{
  IsStored, HasRow, IsKept, IsKept-refl, execute_or_queue-IsKept, add_row-HasRow,
  update_row-IsStored, HasRow-kept,
}

-- what an action that needs no approval has come to: it waits for its device, or its run has ended
abbrev pub IsReached : Bool → ActionStatus → Type 0
IsReached false s = s ≡ queued
IsReached true s = (s ≡ succeeded) ⊎ (s ≡ failed) ⊎ (s ≡ rolled_back) ⊎ (s ≡ rollback_failed)

-- the status of an action that was submitted, by the policy's decision on it
abbrev pub Follows : Bool → PolicyDecision → ActionRecord → Type 0
Follows immediately d r =
    ((d.approval_required ≡ true) × (r.status ≡ pending_approval))
    ⊎ ((d.approval_required ≡ false) × (d.allowed ≡ false) × (r.status ≡ denied))
    ⊎ ((d.approval_required ≡ false) × (d.allowed ≡ true) × IsReached immediately r.status)

queue-IsReached : (w w' : Work) → queue w ≡ (ok tt, w') → w'.action.status ≡ queued
unfolding queue
queue-IsReached w w' h = ap (λ (p : Result Refusal (Unit {0}) × Work). p.1.action.status) (sym h)

undone-IsReached :
    (executor : SkillExecutor) (skill : SkillDefinition) (q : ActionRequest)
    (result : ExecutionResult) (s : ActionStatus)
    → IsUndone executor skill q result (ok tt) s
    → IsReached true s
undone-IsReached executor skill q result s (inl (no_rollback, r, f)) = inr (inl f)
undone-IsReached executor skill q result s (inr (can, (log, inl (undone, e, r, inl (good, f))))) =
    inr (inr (inl f))
undone-IsReached executor skill q result s (inr (can, (log, inl (undone, e, r, inr (bad, f))))) =
    inr (inr (inr f))
undone-IsReached executor skill q result s (inr (can, (log, inr (e, r, f)))) = cc

-- a run that returns has ended
accounted-IsReached :
    (executor : SkillExecutor) (skill : SkillDefinition) (q : ActionRequest) (w : Work)
    → IsAccounted executor skill q (ok tt) w
    → IsReached true w.action.status
accounted-IsReached executor skill q w (log, inr (e, r, f)) = cc
accounted-IsReached executor skill q w (log, inl (result, e, f, inl (bad, u))) =
    undone-IsReached executor skill q result w.action.status u
accounted-IsReached executor skill q w (log, inl (result, e, f, inr (good, log', inl (v, r, s)))) =
    inl s
accounted-IsReached executor skill q w
      (log, inl (result, e, f, inr (good, log', inr (inl (v, u))))) =
    undone-IsReached executor skill q result w.action.status u
accounted-IsReached executor skill q w
      (log, inl (result, e, f, inr (good, log', inr (inr (v, r, s))))) =
    cc

execute_or_queue-IsReached :
    (executor : SkillExecutor) (now : Bool) (s : Option SkillDefinition) (w w' : Work)
    → execute_or_queue executor now s w ≡ (ok tt, w')
    → IsReached now w'.action.status
unfolding execute_or_queue
execute_or_queue-IsReached executor false s w w' h = queue-IsReached w w' h
execute_or_queue-IsReached executor true none w w' h = unfold run in cc
execute_or_queue-IsReached executor true (some s) w w' h =
    accounted-IsReached executor s w.action.request w' (
      subst
        (λ (p : Result Refusal (Unit {0}) × Work). IsAccounted executor s w.action.request p.0 p.1)
        h (run-IsAccounted executor s w))

module _ (lower : String → String) (executor : SkillExecutor) (policy : PolicyEngine)
    (immediately : Bool) (d : PolicyDecision) where
  advance-Follows :
      (w w' : Work)
      → w.action.status ≡ initial_status d
      → advance lower executor policy immediately d w ≡ (ok tt, w')
      → Follows immediately d w'.action × IsKept w w'
  advance-Follows w w' s h = elim (Bool-cases d.approval_required) [
    | inl asks ↦
        let s' = rw asks at s in
        let h' = rw asks at h in
        let same : w ≡ w' = ap (λ (p : Result Refusal (Unit {0}) × Work). p.1) h' in
        rw (← same) (inl (asks, s'), IsKept-refl w)
    | inr free ↦ elim (Bool-cases d.allowed) [
      | inr refused ↦
          let s' = rw (free, refused) at s in
          let h' = rw (free, refused) at h in
          let same : w ≡ w' = ap (λ (p : Result Refusal (Unit {0}) × Work). p.1) h' in
          rw (← same) (inr (inl (free, refused, s')), IsKept-refl w)
      | inl allowed ↦
          let h' : execute_or_queue executor immediately d.skill w ≡ (ok tt, w') =
            rw (free, allowed) at h in
          (
            inr (
                inr
                  (free, allowed, execute_or_queue-IsReached executor immediately d.skill w w' h')),
            subst (λ (p : Result Refusal (Unit {0}) × Work). IsKept w p.1) h'
                (execute_or_queue-IsKept executor immediately d.skill w),
          )
    ]
  ]

  submit_steps-Follows :
      (request : ActionRequest) (w w' : Work)
      → w.action.status ≡ initial_status d
      → w.action.result ≡ none
      → submit_steps lower executor policy immediately d request w ≡ (ok tt, w')
      → Follows immediately d w'.action
        × (w'.action.request ≡ w.action.request)
        × IsStored w'.action w.orchestrator w'.orchestrator
  submit_steps-Follows request w w' s n h =
      let (_, w1, e1, h1) =
        bind-ok (with_store add_row)
          (λ _.
            record_decision lower executor policy immediately d request
            >> (advance lower executor policy immediately d >> persist))
          (assign (λ r. r) w).1 w' tt h in
      let (same1, kind1, row1) = add_row-HasRow (assign (λ r. r) w).1 w1 e1 in
      let w2 = (record_decision lower executor policy immediately d request w1).1 in
      let (_, w3, e3, h3) =
        bind-ok (advance lower executor policy immediately d) (λ _. persist) w2 w' tt h1 in
      let (follows, kept) =
        advance-Follows w2 w3 (ap (λ (a : ActionRecord). a.status) same1 ∙ s) e3 in
      let row3 : HasRow w3.store w3.action =
        rw kept.store
          (HasRow-kept w1.store w1.action w3.action kept.request kept.device_os kept.risk row1) in
      let (same, kind, is_in) = update_row-IsStored w3 w' h3 row3 in
      (
        subst (Follows immediately d) (sym same) follows,
        ap (λ (a : ActionRecord). a.request) same
            ∙ (kept.request ∙ ap (λ (a : ActionRecord). a.request) same1),
        (kind ∙ (ap is_some kept.store ∙ kind1), is_in),
      )

-- A submission that returns gives an action of the request, which is the row of its id where there is a store. It
-- is pending where the policy asks for an approval, and denied where the policy neither asks for one nor allows
-- it. Where the policy allows it and asks for no approval, it is queued, or, if it is executed at once, its run
-- has ended: it has succeeded, has failed, or is rolled back with success or without.
pub submit-Follows :
    (lower : String → String) (executor : SkillExecutor) (policy : PolicyEngine)
    (immediately : Bool) (request : ActionRequest) (device_os : String) (o o' : Orchestrator)
    (r : ActionRecord)
    → submit lower executor policy immediately request device_os o ≡ (ok r, o')
    → Follows immediately (evaluate lower policy request device_os) r
      × (r.request ≡ request)
      × IsStored r o o'
unfolding submit
submit-Follows lower executor policy immediately request device_os o o' r h =
    let d = evaluate lower policy request device_os in
    elim (Bool-cases (is_some (get request.correlation_id o.actions))) [
      | inl taken ↦ let h' = rw taken at h in cc
      | inr free ↦
          let w : Work = record {
            orchestrator = o;
            action = record {
              request = request;
              device_os = device_os;
              risk = risk_of d.skill;
              status = initial_status d;
              approved_by = none;
              result = none;
            };
            shared = true;
          } in
          let p = submit_steps lower executor policy immediately d request w in
          let (done, same, last) = finish-ok p r o' (rw free at h) in
          let (follows, requested, is_stored) =
            submit_steps-Follows lower executor policy immediately d request w p.1 refl refl
              (ap (λ x. (x, p.1)) done) in
          rw (← same, ← last) (follows, requested, is_stored)
    ]
