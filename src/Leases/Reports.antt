-- ===== src/Leases/Reports.antt =====
-- Who may report the result of a job, and what a report does: report_job_result of helpdesktool/api.py.
use helpdesktool.Prelude.{
  ap, sym, ◌∙◌, ◌||◌, not, ◌==◌, ℕ, String, ◌≡◌, refl, ◌⊎◌, Bool, true, false, Option, none, some,
  arith, eq_iff, ◌≢◌, ◌∷◌, if◌then◌else◌, sym,
}
use helpdesktool.Prelude.Dict.{get, put}
use helpdesktool.Prelude.Exec.{Result, ok, err}
use mathlib.Core.Path.{subst}
use helpdesktool.Models.{ActionStatus, claimed, succeeded, failed, rolled_back, rollback_failed}
use helpdesktool.Journal.{JobResult}
use helpdesktool.Idempotency.{
  HttpError, conflict, not_found, find_record, idempotency_lookup, remember,
}
use helpdesktool.Leases.{
  Action, report_answer, Db, report_job_result, report_found, report_row, written_report,
  matches_token, lapsed, reported_status, not, is_claimed, has_token, undone,
}
use helpdesktool.Leases.Tokens.{lookup-remember}

undone-some : (o : Option Bool) → undone o ≡ true → o ≡ some true
undone-some none h = cc
undone-some (some true) h = refl
undone-some (some false) h = cc

not_undone : (o : Option Bool) → undone o ≡ false → o ≢ some true
not_undone o h e = cc (rw e at h)

-- how a job ended that did not succeed
abbrev pub IsUndone : JobResult → ActionStatus → Type 0
IsUndone body s =
    ((body.rollback_attempted ≡ false) × (s ≡ failed))
    ⊎ ((body.rollback_attempted ≡ true) × (body.rollback_succeeded ≡ some true) × (s ≡ rolled_back))
    ⊎ ((body.rollback_attempted ≡ true)
        × (body.rollback_succeeded ≢ some true)
        × (s ≡ rollback_failed))

-- what a report comes to: it succeeded if the executor says so and has verified it, and otherwise the rollback
-- decides, where one was tried
abbrev pub IsOutcome : JobResult → ActionStatus → Type 0
IsOutcome body s =
    ((body.success ≡ true) × (body.verified ≡ true) × (s ≡ succeeded))
    ⊎ (((body.success ≡ false) ⊎ (body.verified ≡ false)) × IsUndone body s)

reported_status-IsOutcome : (body : JobResult) → IsOutcome body (reported_status body)
reported_status-IsOutcome body =
    ground (arith, undone-some body.rollback_succeeded, not_undone body.rollback_succeeded)

-- the job's row has the status `s` that the report comes to, no other row has changed, and the report is kept
pub record IsReported (i : String) (body : JobResult) (s : ActionStatus) (db db' : Db)
    : Type 0 where
  pub row : Action
  pub found : get i db.actions ≡ some row
  pub outcome : IsOutcome body s
  pub written : db'.actions ≡ put i (record row { status = s }) db.actions
  pub kept : db'.results ≡ (i, body) ∷ db.results

module _ (sha256 : String → String) (claim_token : String → ℕ → String → String)
    (active_version : String → Option ℕ) where
  -- what a report that is no replay must come with
  pub HoldsToken : String → String → String → String → ℕ → Db → Type 0
  HoldsToken t d i token now db =
      (row : Action) × (get i db.actions ≡ some row)
      × (row.status ≡ claimed)
      × (row.tenant_id ≡ t)
      × (row.device_id ≡ d)
      × (row.claim_token_hash ≡ some (sha256 token))
      × (lapsed row.lease_expires_at now ≡ false)

  matches_token-eq :
      (o : Option String) (supplied : String) → matches_token o supplied ≡ true → o ≡ some supplied
  matches_token-eq none supplied h = cc
  matches_token-eq (some x) supplied h = ground (arith, eq_iff x supplied)

  abbrev Reply : Type 0
  Reply = Result HttpError ActionStatus × Db

  abbrev refusal : HttpError → Db → Reply
  refusal e db = (err e, db)

  abbrev status_or : ActionStatus → Result HttpError ActionStatus → ActionStatus
  status_or s (ok t) = t
  status_or s (err e) = s

  -- a report that passes the three checks in a row passes each
  checks_passed :
      (a b c : Bool) (e e' e'' : HttpError) (s : ActionStatus) (good : Reply) (db db' : Db)
      → (if a
          then refusal e db
          else if not b
          then refusal e' db
          else if c
          then refusal e'' db
          else good)
        ≡ (ok s, db')
      → (a ≡ false) × (b ≡ true) × (c ≡ false) × (good ≡ (ok s, db'))
  checks_passed true b c e e' e'' s good db db' h = cc
  checks_passed false false c e e' e'' s good db db' h = cc
  checks_passed false true true e e' e'' s good db db' h = cc
  checks_passed false true false e e' e'' s good db db' h = (refl, refl, refl, h)

  own_claimed :
      (x d : String) (o : Option String) (s : ActionStatus)
      → not (x == d) || not (is_claimed s) || not (has_token o) ≡ false
      → (x ≡ d) × (s ≡ claimed)
  own_claimed x d o s h = (ground (arith, eq_iff x d), ground arith)

  report_row-IsReported :
      (t d i token key digest : String) (body : JobResult) (now : ℕ) (row : Action)
      (s : ActionStatus) (db db' : Db)
      → get i db.actions ≡ some row
      → row.tenant_id ≡ t
      → report_row sha256 claim_token active_version t d i token key digest body now row db
        ≡ (ok s, db')
      → HoldsToken t d i token now db × IsReported i body s db db'
  unfolding HoldsToken
  report_row-IsReported t d i token key digest body now row s db db' e o h =
      let (own, hashed, alive, same) = checks_passed _ _ _ _ _ _ _ _ _ _ h in
      let (device, status) = own_claimed row.device_id d row.claim_token_hash row.status own in
      let told : reported_status body ≡ s = ap (λ (p : Reply). status_or s p.0) same in
      (
        (
          row,
          e,
          status,
          o,
          device,
          matches_token-eq row.claim_token_hash (sha256 token) hashed,
          alive,
        ),
        record {
          row = row;
          found = e;
          outcome = subst (IsOutcome body) told (reported_status-IsOutcome body);
          written =
              ap (λ (p : Reply). p.1.actions) (sym same)
              ∙ ap (λ x. put i (record row { status = x }) db.actions) told;
          kept = ap (λ (p : Reply). p.1.results) (sym same);
        },
      )

  if_ok :
      (b : Bool) (e : HttpError) (p : Reply) (s : ActionStatus) (db db' : Db)
      → (if b then p else refusal e db) ≡ (ok s, db')
      → (b ≡ true) × (p ≡ (ok s, db'))
  if_ok true e p s db db' h = (refl, h)
  if_ok false e p s db db' h = cc

  report_found-IsReported :
      (t d i token key digest : String) (body : JobResult) (now : ℕ) (o : Option Action)
      (s : ActionStatus) (db db' : Db)
      → get i db.actions ≡ o
      → report_found sha256 claim_token active_version t d i token key digest body now o db
        ≡ (ok s, db')
      → HoldsToken t d i token now db × IsReported i body s db db'
  report_found-IsReported t d i token key digest body now none s db db' e h = cc
  report_found-IsReported t d i token key digest body now (some row) s db db' e h =
      let (own, rest) =
        if_ok (row.tenant_id == t) not_found
          (report_row sha256 claim_token active_version t d i token key digest body now row db) s db
          db' h in
      report_row-IsReported t d i token key digest body now row s db db' e
        (ground (arith, eq_iff row.tenant_id t)) rest

  -- A report that is accepted and is no replay comes from the device and the tenant of a claimed job, with
  -- the token whose hash the job carries, before the lease has run out. The report is kept, and the job's row
  -- gets the status that is answered and no other row changes: succeeded where the body reports success and
  -- verification, and otherwise rolled back, rollback failed or failed, by the rollback that it reports.
  pub report_job_result-HoldsToken :
      (t d i token key digest : String) (body : JobResult) (now : ℕ) (s : ActionStatus)
      (db db' : Db)
      → find_record t "job-result" key db.records ≡ none
      → report_job_result sha256 claim_token active_version t d i token key digest body now db
        ≡ (ok s, db')
      → HoldsToken t d i token now db × IsReported i body s db db'
  unfolding report_job_result idempotency_lookup
  report_job_result-HoldsToken t d i token key digest body now s db db' u h =
      report_found-IsReported t d i token key digest body now (get i db.actions) s db db' refl
        (rw u at h)

  -- an accepted report leaves its answer in the records
  row_remembered :
      (t d i token key digest : String) (body : JobResult) (now : ℕ) (row : Action)
      (s : ActionStatus) (db db' : Db)
      → report_row sha256 claim_token active_version t d i token key digest body now row db
        ≡ (ok s, db')
      → db'.records ≡ remember t "job-result" key digest (report_answer i s) db.records
  row_remembered t d i token key digest body now row s db db' h =
      let (own, hashed, alive, same) =
        checks_passed
          (not (row.device_id == d)
            || not (is_claimed row.status)
            || not (has_token row.claim_token_hash))
          (matches_token row.claim_token_hash (sha256 token)) (lapsed row.lease_expires_at now)
          conflict HttpError.unauthorized conflict s
          (
            ok (reported_status body),
            written_report sha256 claim_token active_version t i key digest d body row db,
          )
          db db' h in
      let told : reported_status body ≡ s = ap (λ (p : Reply). status_or s p.0) same in
      sym (ap (λ (p : Reply). p.1.records) same)
      ∙ ap (λ x. remember t "job-result" key digest (report_answer i x) db.records) told

  found_remembered :
      (t d i token key digest : String) (body : JobResult) (now : ℕ) (o : Option Action)
      (s : ActionStatus) (db db' : Db)
      → report_found sha256 claim_token active_version t d i token key digest body now o db
        ≡ (ok s, db')
      → db'.records ≡ remember t "job-result" key digest (report_answer i s) db.records
  found_remembered t d i token key digest body now none s db db' h = cc
  found_remembered t d i token key digest body now (some row) s db db' h =
      let (own, rest) =
        if_ok (row.tenant_id == t) not_found
          (report_row sha256 claim_token active_version t d i token key digest body now row db) s db
          db' h in
      row_remembered t d i token key digest body now row s db db' rest

  looked_up_again :
      (t d i token key digest : String) (body : JobResult) (now : ℕ) (s : ActionStatus) (db : Db)
      → idempotency_lookup t "job-result" key digest db.records ≡ ok (some (report_answer i s))
      → report_job_result sha256 claim_token active_version t d i token key digest body now db
        ≡ (ok s, db)
  unfolding report_job_result
  looked_up_again t d i token key digest body now s db h = rw h refl

  -- A report that was accepted and is sent again, under the same key and with the same payload, is
  -- answered as before and changes nothing, whatever the time and the token that come with it.
  pub report_job_result-replay :
      (t d i token token' key digest : String) (body : JobResult) (now now' : ℕ) (s : ActionStatus)
      (db db' : Db)
      → find_record t "job-result" key db.records ≡ none
      → report_job_result sha256 claim_token active_version t d i token key digest body now db
        ≡ (ok s, db')
      → report_job_result sha256 claim_token active_version t d i token' key digest body now' db'
        ≡ (ok s, db')
  unfolding idempotency_lookup
  report_job_result-replay t d i token token' key digest body now now' s db db' u h =
      let records =
        found_remembered t d i token key digest body now (get i db.actions) s db db'
          (unfold report_job_result in rw u at h) in
      looked_up_again t d i token' key digest body now' s db' (
        ap (idempotency_lookup t "job-result" key digest) records
        ∙ lookup-remember t "job-result" key digest (report_answer i s) db.records)
