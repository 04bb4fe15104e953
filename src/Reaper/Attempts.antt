-- ===== src/Reaper/Attempts.antt =====
-- Claims, reports and reaped batches in any order: api.py and lease_reaper.py.
use helpdesktool.Prelude.{
  zero, suc, ℕ, String, ◌≡◌, refl, Bool, true, ◌&&◌, Option, none, some, List, [], ◌∷◌, arith, leb,
  ltb, is_some, take, keep, if◌then◌else◌, suc, ◌+◌,
}
use helpdesktool.Prelude.Dict.{Dict, get, put, values}
use helpdesktool.Prelude.Exec.{Result, ok, err}
use helpdesktool.Journal.{JobResult}
use helpdesktool.Idempotency.{HttpError, idempotency_lookup}
use helpdesktool.Leases.{
  Action, Answer, claim_answer, report_answer, Db, is_queued, is_claimed, claim_job,
  report_job_result, report_row, claim_row_found, version_for, claim_looked_up, claim_versioned,
  report_looked_up, report_found, claim_row, reported_status,
}
use helpdesktool.Reaper.{
  is_expired, reap, reap_all, reap_row, sort_by_claim, insert_by_claim, process_batch, clamp_limit,
}

-- A queued job has an attempt left; a claimed one has a token and a lease; no job has more attempts than
-- the maximum.
abbrev pub row_ok : ℕ → Action → Bool
row_ok max_attempts row =
    if is_queued row.status
    then ltb row.attempt max_attempts
    else leb row.attempt max_attempts
      && (if is_claimed row.status
          then is_some row.claim_token_hash && is_some row.lease_expires_at
          else true)

abbrev pub rows_ok : ℕ → Dict Action → Bool
rows_ok max_attempts [] = true
rows_ok max_attempts ((k, row) ∷ d) =
    let rest = rows_ok max_attempts d in row_ok max_attempts row && rest

-- what can happen to the table of actions
pub data Op : Type 0 where
  claim : String → String → String → String → String → ℕ → Op
  report : String → String → String → String → String → String → JobResult → ℕ → Op
  reap_batch : ℕ → ℕ → Op

module _ (max_attempts : ℕ) where
  rows_ok-put :
      (k : String) (row : Action) (d : Dict Action)
      → row_ok max_attempts row ≡ true
      → rows_ok max_attempts d ≡ true
      → rows_ok max_attempts (put k row d) ≡ true
  unfolding put
  rows_ok-put k row [] r h = ground arith
  rows_ok-put k row ((j, x) ∷ d) r h = ground (arith, rows_ok-put k row d)

  row_ok-get :
      (k : String) (d : Dict Action) (row : Action)
      → rows_ok max_attempts d ≡ true
      → get k d ≡ some row
      → row_ok max_attempts row ≡ true
  unfolding get
  row_ok-get k [] row h e = cc
  row_ok-get k ((j, x) ∷ d) row h e = ground (arith, row_ok-get k d row)

  abbrev list_ok : List Action → Bool
  list_ok [] = true
  list_ok (x ∷ xs) = let rest = list_ok xs in row_ok max_attempts x && rest

  list_ok-values : (d : Dict Action) → rows_ok max_attempts d ≡ true → list_ok (values d) ≡ true
  list_ok-values [] h = refl
  list_ok-values ((k, x) ∷ d) h = ground (arith, list_ok-values d)

  list_ok-keep :
      (p : Action → Bool) (xs : List Action) → list_ok xs ≡ true → list_ok (keep p xs) ≡ true
  list_ok-keep p [] h = refl
  list_ok-keep p (x ∷ xs) h = ground (arith, list_ok-keep p xs)

  list_ok-insert :
      (x : Action) (xs : List Action)
      → row_ok max_attempts x ≡ true
      → list_ok xs ≡ true
      → list_ok (insert_by_claim x xs) ≡ true
  unfolding insert_by_claim
  list_ok-insert x [] r h = ground arith
  list_ok-insert x (y ∷ xs) r h = ground (arith, list_ok-insert x xs)

  list_ok-sort : (xs : List Action) → list_ok xs ≡ true → list_ok (sort_by_claim xs) ≡ true
  unfolding sort_by_claim
  list_ok-sort [] h = refl
  list_ok-sort (x ∷ xs) h =
      list_ok-insert x (sort_by_claim xs) (ground arith) (list_ok-sort xs (ground arith))

  list_ok-take : (n : ℕ) (xs : List Action) → list_ok xs ≡ true → list_ok (take n xs) ≡ true
  list_ok-take zero xs h = refl
  list_ok-take (suc n) [] h = refl
  list_ok-take (suc n) (x ∷ xs) h = ground (arith, list_ok-take n xs)

  reap_row_ok :
      (row : Action)
      → row_ok max_attempts row ≡ true
      → row_ok max_attempts (reap_row max_attempts row) ≡ true
  reap_row_ok row h = ground arith

  reap_all_ok :
      (rows : List Action) (db : Db)
      → list_ok rows ≡ true
      → rows_ok max_attempts db.actions ≡ true
      → rows_ok max_attempts (reap_all max_attempts rows db).actions ≡ true
  unfolding reap_all
  reap_all_ok [] db l h = h
  reap_all_ok (x ∷ xs) db l h =
      reap_all_ok xs (reap max_attempts x db) (ground arith)
        (rows_ok-put x.id (reap_row max_attempts x) db.actions (reap_row_ok x (ground arith)) h)

  process_batch_ok :
      (limit now : ℕ) (db : Db)
      → rows_ok max_attempts db.actions ≡ true
      → rows_ok max_attempts (process_batch max_attempts limit now db).1.actions ≡ true
  unfolding process_batch
  process_batch_ok limit now db h =
      reap_all_ok
        (take (clamp_limit limit) (sort_by_claim (keep (is_expired now) (values db.actions)))) db
        (list_ok-take (clamp_limit limit)
          (sort_by_claim (keep (is_expired now) (values db.actions)))
          (list_ok-sort (keep (is_expired now) (values db.actions))
            (list_ok-keep (is_expired now) (values db.actions) (list_ok-values db.actions h))))
        h

module _ (sha256 : String → String) (claim_token : String → ℕ → String → String)
    (active_version : String → Option ℕ) (max_attempts : ℕ) (db : Db)
    (valid : rows_ok max_attempts db.actions ≡ true) where
  claim_found_ok :
      (t d i key digest : String) (now version : ℕ) (o : Option Action)
      → get i db.actions ≡ o
      → rows_ok max_attempts
          (claim_row_found sha256 claim_token active_version t d i key digest now version o
            db).1.actions
        ≡ true
  claim_found_ok t d i key digest now version none e = valid
  claim_found_ok t d i key digest now version (some row) e = ground (
    arith,
    rows_ok-put max_attempts i (claim_row (sha256 (claim_token i (row.attempt + 1) key)) now row)
        db.actions,
    row_ok-get max_attempts i db.actions row,
  )

  claim_versioned_ok :
      (t d i key digest : String) (now : ℕ) (v : Result HttpError ℕ)
      → rows_ok max_attempts
          (claim_versioned sha256 claim_token active_version t d i key digest now v db).1.actions
        ≡ true
  claim_versioned_ok t d i key digest now (err x) = valid
  claim_versioned_ok t d i key digest now (ok v) =
      claim_found_ok t d i key digest now v (get i db.actions) refl

  claim_looked_up_ok :
      (t d i key digest : String) (now : ℕ) (r : Result HttpError (Option Answer))
      → rows_ok max_attempts
          (claim_looked_up sha256 claim_token active_version t d i key digest now r db).1.actions
        ≡ true
  claim_looked_up_ok t d i key digest now (err x) = valid
  claim_looked_up_ok t d i key digest now (ok (some (claim_answer c))) = valid
  claim_looked_up_ok t d i key digest now (ok (some (report_answer j s))) = valid
  claim_looked_up_ok t d i key digest now (ok none) =
      claim_versioned_ok t d i key digest now
        (version_for sha256 claim_token active_version t (get i db.actions))

  report_row_ok :
      (t d i token key digest : String) (body : JobResult) (now : ℕ) (row : Action)
      → get i db.actions ≡ some row
      → rows_ok max_attempts
          (report_row sha256 claim_token active_version t d i token key digest body now row
            db).1.actions
        ≡ true
  report_row_ok t d i token key digest body now row e = ground (
    arith,
    rows_ok-put max_attempts i (record row { status = reported_status body }) db.actions,
    row_ok-get max_attempts i db.actions row,
  )

  report_found_ok :
      (t d i token key digest : String) (body : JobResult) (now : ℕ) (o : Option Action)
      → get i db.actions ≡ o
      → rows_ok max_attempts
          (report_found sha256 claim_token active_version t d i token key digest body now o
            db).1.actions
        ≡ true
  report_found_ok t d i token key digest body now none e = valid
  report_found_ok t d i token key digest body now (some row) e =
      ground (arith, report_row_ok t d i token key digest body now row)

  report_looked_up_ok :
      (t d i token key digest : String) (body : JobResult) (now : ℕ)
      (r : Result HttpError (Option Answer))
      → rows_ok max_attempts
          (report_looked_up sha256 claim_token active_version t d i token key digest body now r
            db).1.actions
        ≡ true
  report_looked_up_ok t d i token key digest body now (err x) = valid
  report_looked_up_ok t d i token key digest body now (ok (some (report_answer j s))) = valid
  report_looked_up_ok t d i token key digest body now (ok (some (claim_answer c))) = valid
  report_looked_up_ok t d i token key digest body now (ok none) =
      report_found_ok t d i token key digest body now (get i db.actions) refl

module _ (sha256 : String → String) (claim_token : String → ℕ → String → String)
    (active_version : String → Option ℕ) (max_attempts : ℕ) where
  -- one request, or one batch of the reaper
  unfoldable pub apply : Op → Db → Db
  apply (claim t d i key digest now) db =
      (claim_job sha256 claim_token active_version t d i key digest now db).1
  apply (report t d i token key digest body now) db =
      (report_job_result sha256 claim_token active_version t d i token key digest body now db).1
  apply (reap_batch limit now) db = (process_batch max_attempts limit now db).1

  unfoldable pub apply_all : List Op → Db → Db
  unfolding apply
  apply_all [] db = db
  apply_all (x ∷ xs) db = apply_all xs (apply x db)

  apply_ok :
      (x : Op) (db : Db)
      → rows_ok max_attempts db.actions ≡ true
      → rows_ok max_attempts (apply x db).actions ≡ true
  unfolding apply claim_job report_job_result
  apply_ok (claim t d i key digest now) db h =
      claim_looked_up_ok sha256 claim_token active_version max_attempts db h t d i key digest now
        (idempotency_lookup t "job-claim" key digest db.records)
  apply_ok (report t d i token key digest body now) db h =
      report_looked_up_ok sha256 claim_token active_version max_attempts db h t d i token key digest
        body now (idempotency_lookup t "job-result" key digest db.records)
  apply_ok (reap_batch limit now) db h = process_batch_ok max_attempts limit now db h

  -- Through any claims, reports and batches of the reaper, in any order, no job has more attempts than the
  -- maximum, a queued one has an attempt left, and a claimed one has a token and a lease.
  pub apply_all-rows_ok :
      (xs : List Op) (db : Db)
      → rows_ok max_attempts db.actions ≡ true
      → rows_ok max_attempts (apply_all xs db).actions ≡ true
  unfolding apply_all
  apply_all-rows_ok [] db h = h
  apply_all-rows_ok (x ∷ xs) db h = apply_all-rows_ok xs (apply x db) (apply_ok x db h)
