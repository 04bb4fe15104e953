-- ===== src/Orchestrator/Storing.antt =====
-- How `_persist` of orchestrator.py and the store of persistence.py keep an action's row.
use helpdesktool.Prelude.Dict.{Dict, get, put, get-put}
use helpdesktool.Prelude.{
  Bool-cases, is_some, inl, inr, refl, Option, none, some, String, ◌≡◌, ◌∙◌, Bool, true, false,
  arith, eq_refl, ap, sym,
}
use helpdesktool.Prelude.Exec.{Result, ok}
use helpdesktool.Models.{SkillDefinition, ActionRecord}
use helpdesktool.Orchestrator.{
  Step, persist, with_store, add_row, update_row, Refusal, SkillExecutor, Orchestrator, Work,
  execute_or_queue, run, queue, stored,
}

abbrev pub IsIn : Option (Dict ActionRecord) → ActionRecord → Type 0
IsIn none r = Unit {0}
IsIn (some rows) r = get r.request.correlation_id rows ≡ some r

-- the action is the row of its id, where there is a store
abbrev pub IsStored : ActionRecord → Orchestrator → Orchestrator → Type 0
IsStored r o o' = (is_some o'.store ≡ is_some o.store) × IsIn o'.store r

-- the row that `add` has written for the action at work
pub record IsRow (a row : ActionRecord) : Type 0 where
  pub request : row.request ≡ a.request
  pub device_os : row.device_os ≡ a.device_os
  pub risk : row.risk ≡ a.risk
  pub no_result : row.result ≡ none

abbrev pub HasRow : Option (Dict ActionRecord) → ActionRecord → Type 0
HasRow none a = Unit {0}
HasRow (some rows) a =
    (row : ActionRecord) × (get a.request.correlation_id rows ≡ some row) × IsRow a row

-- what a step keeps of the action and of the store
pub record IsKept (w w' : Work) : Type 0 where
  pub store : w'.store ≡ w.store
  pub request : w'.action.request ≡ w.action.request
  pub device_os : w'.action.device_os ≡ w.action.device_os
  pub risk : w'.action.risk ≡ w.action.risk

pub IsKept-refl : (w : Work) → IsKept w w
IsKept-refl w = record { store = refl; request = refl; device_os = refl; risk = refl }

pub execute_or_queue-IsKept :
    (executor : SkillExecutor) (now : Bool) (s : Option SkillDefinition) (w : Work)
    → IsKept w (execute_or_queue executor now s w).1
unfolding execute_or_queue run queue
execute_or_queue-IsKept executor true none w = IsKept-refl w
execute_or_queue-IsKept executor true (some s) w = record {
  store = ground arith;
  request = ground arith;
  device_os = ground arith;
  risk = ground arith;
}
execute_or_queue-IsKept executor false s w = record {
  store = refl;
  request = refl;
  device_os = refl;
  risk = refl;
}

-- `with_store` on a store
abbrev store_as :
    (ActionRecord → Dict ActionRecord → Result Refusal (Dict ActionRecord))
    → Option (Dict ActionRecord)
    → Step
store_as f o w = elim o [ none ↦ (ok tt, w) | some rows ↦ stored (f w.action rows) w ]

put_found : (k : String) (v : ActionRecord) (d : Dict ActionRecord) → get k (put k v d) ≡ some v
put_found k v d = get-put k k v d ∙ rw (eq_refl k) refl

pub add_row-HasRow :
    (w w' : Work)
    → with_store add_row w ≡ (ok tt, w')
    → (w'.action ≡ w.action) × (is_some w'.store ≡ is_some w.store) × HasRow w'.store w'.action
add_row-HasRow w w' h = go w.store refl h
  where
    go :
        (o : Option (Dict ActionRecord))
        → w.store ≡ o
        → store_as add_row o w ≡ (ok tt, w')
        → (w'.action ≡ w.action) × (is_some w'.store ≡ is_some o) × HasRow w'.store w'.action
    go none e k =
        let same : w ≡ w' = ap (λ (p : Result Refusal (Unit {0}) × Work). p.1) k in
        rw (← same) (refl, rw e refl, rw e tt)
    go (some rows) e k = elim (Bool-cases (is_some (get w.action.request.correlation_id rows))) [
      | inl taken ↦ let k' = rw taken at k in cc
      | inr free ↦
          let k' = rw free at k in
          let same = ap (λ (p : Result Refusal (Unit {0}) × Work). p.1) k' in
          rw (← same) (
            refl,
            refl,
            (
              record w.action { approved_by = none; result = none },
              put_found w.action.request.correlation_id _ rows,
              record { request = refl; device_os = refl; risk = refl; no_result = refl },
            ),
          )
    ]

pub update_row-IsStored :
    (w w' : Work)
    → persist w ≡ (ok tt, w')
    → HasRow w.store w.action
    → (w'.action ≡ w.action) × (is_some w'.store ≡ is_some w.store) × IsIn w'.store w'.action
unfolding persist
update_row-IsStored w w' h k = go w.store refl h k
  where
    go :
        (o : Option (Dict ActionRecord))
        → w.store ≡ o
        → store_as update_row o w ≡ (ok tt, w')
        → HasRow o w.action
        → (w'.action ≡ w.action) × (is_some w'.store ≡ is_some o) × IsIn w'.store w'.action
    go none e k l =
        let same : w ≡ w' = ap (λ (p : Result Refusal (Unit {0}) × Work). p.1) k in
        rw (← same) (refl, rw e refl, rw e tt)
    go (some rows) e k (row, found, is) =
        let k' =
          rw
            (
              found,
              is.request,
              eq_refl w.action.request.tenant_id,
              is.device_os,
              is.risk,
              is.no_result,
            )
            at k in
        let same = ap (λ (p : Result Refusal (Unit {0}) × Work). p.1) k' in
        rw (← same) (refl, refl, put_found w.action.request.correlation_id w.action rows)

-- what a step keeps, the row stands for
pub HasRow-kept :
    (o : Option (Dict ActionRecord)) (a a' : ActionRecord)
    → a'.request ≡ a.request
    → a'.device_os ≡ a.device_os
    → a'.risk ≡ a.risk
    → HasRow o a
    → HasRow o a'
HasRow-kept none a a' q d k h = tt
HasRow-kept (some rows) a a' q d k (row, found, is) = (
  row,
  rw q found,
  record {
    request = is.request ∙ sym q;
    device_os = is.device_os ∙ sym d;
    risk = is.risk ∙ sym k;
    no_result = is.no_result;
  },
)
