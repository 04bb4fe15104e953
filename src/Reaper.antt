-- ===== src/Reaper.antt =====
-- helpdesktool/lease_reaper.py: jobs whose lease ran out go back to the queue, or fail once their attempts
-- are used up. The row locks of the SELECT are the database's: a batch runs on rows that nobody changes.
pub mod Attempts
pub mod Examples
use helpdesktool.Prelude.{
  ℕ, String, Bool, true, false, ◌&&◌, Option, none, some, List, [], ◌∷◌, leb, ltb, length, take,
  keep, if◌then◌else◌,
}
use helpdesktool.Prelude.Dict.{Dict, get, put, values}
use helpdesktool.Models.{queued, failed, Value}
use helpdesktool.Leases.{Action, Db, is_claimed, entry, status_text}

abbrev pub is_before : Option ℕ → ℕ → Bool
is_before none now = false
is_before (some t) now = ltb t now

-- the `where` of the SELECT
abbrev pub is_expired : ℕ → Action → Bool
is_expired now row = is_claimed row.status && is_before row.lease_expires_at now

-- `order_by(Action.claimed_at)`; a claimed row has the time of its claim
abbrev pub claim_time : Action → ℕ
claim_time row = elim row.claimed_at [ none ↦ 0 | some t ↦ t ]

unfoldable pub insert_by_claim : Action → List Action → List Action
insert_by_claim r [] = r ∷ []
insert_by_claim r (x ∷ xs) =
    if leb (claim_time r) (claim_time x) then r ∷ x ∷ xs else x ∷ insert_by_claim r xs

unfoldable pub sort_by_claim : List Action → List Action
unfolding insert_by_claim
sort_by_claim [] = []
sort_by_claim (r ∷ rs) = insert_by_claim r (sort_by_claim rs)

-- `min(max(limit, 1), 100)`
abbrev pub clamp_limit : ℕ → ℕ
clamp_limit limit = if ltb limit 1 then 1 else if leb limit 100 then limit else 100

abbrev pub reap_row : ℕ → Action → Action
reap_row max_attempts row = record row {
  claim_token_hash = none;
  claimed_at = none;
  lease_expires_at = none;
  status = if leb max_attempts row.attempt then failed else queued;
}

-- `_reap`: the row's new values and its audit event
unfoldable pub reap : ℕ → Action → Db → Db
reap max_attempts row db = record db {
  actions = put row.id (reap_row max_attempts row) db.actions;
  audit =
      (if leb max_attempts row.attempt
        then entry row.tenant_id row.id "action.escalation_required" "system:lease_reaper" (
            ("status", Value.text "failed")
            ∷ ("error", Value.text "job lease expired and retry attempts were exhausted")
            ∷ ("attempt", Value.number row.attempt)
            ∷ ("previous_status", Value.text (status_text row.status))
            ∷ [])
        else entry row.tenant_id row.id "execution.lease_expired_requeued" "system:lease_reaper" (
            ("attempt", Value.number row.attempt)
            ∷ ("previous_status", Value.text (status_text row.status))
            ∷ ("new_status", Value.text "queued")
            ∷ []))
      ∷ db.audit;
}

unfoldable pub reap_all : ℕ → List Action → Db → Db
unfolding reap
reap_all max_attempts [] db = db
reap_all max_attempts (row ∷ rows) db = reap_all max_attempts rows (reap max_attempts row db)

-- `process_batch`: the number of rows, and the database
unfoldable pub process_batch : ℕ → ℕ → ℕ → Db → ℕ × Db
unfolding reap_all sort_by_claim
process_batch max_attempts limit now db =
    let expired =
      take (clamp_limit limit) (sort_by_claim (keep (is_expired now) (values db.actions))) in
    (length expired, reap_all max_attempts expired db)
