-- ===== src/Orchestrator/Approval.antt =====
-- Separation of duties, and what approve and deny of orchestrator.py leave behind.
use helpdesktool.Prelude.{
  ◌==◌, String, ◌≡◌, refl, ◌≢◌, ◌⊎◌, ◌&&◌, Bool, true, false, Option, none, some, arith, eq_iff,
  is_some, Bool-cases, inl, inr, ap, sym, ◌∙◌,
}
use helpdesktool.Prelude.Exec.{bind-keeps, Result, ok, err, ◌>>=◌}
use helpdesktool.Models.{denied, ActionRequest, ActionRecord, SkillDefinition}
use helpdesktool.Policy.{PolicyEngine, PolicyDecision, evaluate}
use helpdesktool.Orchestrator.{
  finish, SkillExecutor, Orchestrator, Refusal, Work, run, queue, persist, execute_or_queue,
  approve_found, get_for_tenant, approve, is_pending, approve_by, record_approval,
  record_invalidation,
}

-- A refused approval or denial: not found, not pending, or the requester's own.
-- It changes nothing.
module _ (lower : String → String) (executor : SkillExecutor) (policy : PolicyEngine)
    (immediately : Bool) (o : Orchestrator) (r : ActionRecord) (shared : Bool)
    (approver : String) where
  refused_unchanged :
      (is_pending r.status ≡ false) ⊎ (approver ≡ r.request.requested_by)
      → (approve_found lower executor policy immediately approver o (some (r, shared))).1 ≡ o
  refused_unchanged h = ground (arith, eq_iff approver r.request.requested_by)

-- who approved, and what was asked for
abbrev IsFor : Option String → ActionRequest → String → Work → Type 0
IsFor a q d w = (w.action.approved_by ≡ a) × (w.action.request ≡ q) × (w.action.device_os ≡ d)

pub finish-ok :
    (p : Result Refusal (Unit {0}) × Work) (r : ActionRecord) (o : Orchestrator)
    → finish p ≡ (ok r, o)
    → (p.0 ≡ ok tt) × (p.1.action ≡ r) × (p.1.orchestrator ≡ o)
finish-ok (ok tt, w) r o h = (refl, ground arith, ground arith)
finish-ok (err e, w) r o h = cc

persist-action : (w : Work) → (persist w).1.action ≡ w.action
unfolding persist
persist-action w = ground arith

module _ (a : Option String) (q : ActionRequest) (d : String) where
  run-IsFor :
      (executor : SkillExecutor) (s : Option SkillDefinition) (w : Work)
      → IsFor a q d w
      → IsFor a q d (run executor s w).1
  unfolding run
  run-IsFor executor none w h = h
  run-IsFor executor (some s) w h = (ground arith, ground arith, ground arith)

  execute_or_queue-IsFor :
      (executor : SkillExecutor) (now : Bool) (s : Option SkillDefinition) (w : Work)
      → IsFor a q d w
      → IsFor a q d (execute_or_queue executor now s w).1
  unfolding execute_or_queue queue
  execute_or_queue-IsFor executor true s w h = run-IsFor executor s w h
  execute_or_queue-IsFor executor false s w h = h

  pub execute_and_persist-IsFor :
      (executor : SkillExecutor) (now : Bool) (s : Option SkillDefinition) (w : Work)
      → IsFor a q d w
      → IsFor a q d ((execute_or_queue executor now s >>= λ _. persist) w).1
  execute_and_persist-IsFor executor now s =
      bind-keeps (IsFor a q d) (execute_or_queue executor now s) (λ _. persist)
        (execute_or_queue-IsFor executor now s) (λ _ w h. rw (persist-action w) h)

module _ (lower : String → String) (executor : SkillExecutor) (policy : PolicyEngine)
    (immediately : Bool) (approver : String) (r : ActionRecord) (o o' : Orchestrator) where
  -- with the policy's consent the approver is recorded; without it the action is denied
  approve_by-cases :
      (b : Bool) (w : Work) (decision : PolicyDecision)
      → ((b ≡ true)
          × IsFor
              (some approver)
              w.action.request
              w.action.device_os
              (approve_by lower executor policy immediately b decision approver w).1)
        ⊎ ((approve_by lower executor policy immediately b decision approver w).1.action.status
            ≡ denied)
  approve_by-cases true w decision = inl (
    refl,
    execute_and_persist-IsFor (some approver) w.action.request w.action.device_os executor
        immediately decision.skill (record_approval lower executor policy immediately approver w).1
        (refl, refl, refl),
  )
  approve_by-cases false w decision = inr (
      ap (λ (x : ActionRecord). x.status)
        (persist-action
          (record_invalidation lower executor policy immediately decision approver w).1))

  -- `r` is what the end of `approve` made of the record of `w`
  approved_found :
      (q : ActionRecord) (w : Work) (decision : PolicyDecision)
      → finish (
          approve_by lower executor policy immediately
            (decision.allowed && is_some decision.skill)
            decision
            approver
            w)
        ≡ (ok r, o')
      → r.status ≢ denied
      → approver ≢ w.action.request.requested_by
      → (r.approved_by ≡ some approver)
        × (approver ≢ r.request.requested_by)
        × (r.request ≡ w.action.request)
        × (r.device_os ≡ w.action.device_os)
        × (decision.allowed ≡ true)
  approved_found q w decision h n s =
      let b = decision.allowed && is_some decision.skill in
      let (o1, same, o2) =
        finish-ok (approve_by lower executor policy immediately b decision approver w) r o' h in
      elim (approve_by-cases b w decision) [
        | inl (e, (a, rq, d)) ↦ (
          ap (λ (x : ActionRecord). x.approved_by) (sym same) ∙ a,
          λ i. s (
              i
              ∙ ap (λ (x : ActionRequest). x.requested_by)
                  (ap (λ (x : ActionRecord). x.request) (sym same) ∙ rq)),
          ap (λ (x : ActionRecord). x.request) (sym same) ∙ rq,
          ap (λ (x : ActionRecord). x.device_os) (sym same) ∙ d,
          ground arith,
        )
        | inr den ↦ absurd (n (cc (same, den)))
      ]

  found-separate :
      (found : Option (ActionRecord × Bool))
      → approve_found lower executor policy immediately approver o found ≡ (ok r, o')
      → r.status ≢ denied
      → (r.approved_by ≡ some approver)
        × (approver ≢ r.request.requested_by)
        × ((evaluate lower policy r.request r.device_os).allowed ≡ true)
  found-separate none h n = cc
  found-separate (some (q, shared)) h n =
      let decision = evaluate lower policy q.request q.device_os in
      let w : Work = record { orchestrator = o; action = q; shared = shared } in
      let b = decision.allowed && is_some decision.skill in
      elim (Bool-cases (is_pending q.status)) [
        | inr other ↦ ground (arith, other)
        | inl pending ↦ elim (Bool-cases (approver == q.request.requested_by)) [
          | inl same ↦ ground (arith, pending, same)
          | inr different ↦
              let (a, s, rq, d, al) =
                approved_found q w decision (rw (pending, different) at h) n
                  (λ e. ground (arith, different, eq_iff approver q.request.requested_by)) in
              (a, s, rw (rq, d) al)
        ]
      ]

-- A successful approval that leaves an action other than denied has recorded the approver, who is not the
-- requester, and the policy allows the action at that moment too.
pub approve-separate :
    (lower : String → String) (executor : SkillExecutor) (policy : PolicyEngine)
    (immediately : Bool) (tenant_id correlation_id approver : String) (o o' : Orchestrator)
    (r : ActionRecord)
    → approve lower executor policy immediately tenant_id correlation_id approver o ≡ (ok r, o')
    → r.status ≢ denied
    → (r.approved_by ≡ some approver)
      × (approver ≢ r.request.requested_by)
      × ((evaluate lower policy r.request r.device_os).allowed ≡ true)
unfolding approve
approve-separate lower executor policy immediately tenant_id correlation_id approver o o' r h n =
    found-separate lower executor policy immediately approver r o o'
      (get_for_tenant lower executor policy immediately tenant_id correlation_id o) h n
