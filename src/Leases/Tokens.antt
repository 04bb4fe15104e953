-- ===== src/Leases/Tokens.antt =====
-- Who may claim a job: claim_job of helpdesktool/api.py.
use helpdesktool.Prelude.{
  ap, ◌∙◌, ◌==◌, ◌+◌, ℕ, String, ◌≡◌, refl, ◌⊎◌, Bool, true, false, Option, none, some, List, arith,
  eq_refl, inl, inr, if◌then◌else◌,
}
use helpdesktool.Prelude.Dict.{get, get-put}
use helpdesktool.Prelude.Exec.{Result, ok, err}
use helpdesktool.Models.{claimed}
use helpdesktool.Idempotency.{
  HttpError, conflict, IdempotencyRecord, find_record, idempotency_lookup, remember,
}
use helpdesktool.Leases.{
  claim_answer, Action, Claim, Db, claim_job, claim_row_found, version_for, claim_versioned,
  claim_row,
}

-- a lookup of what was just remembered
pub lookup-remember :
    {A : Type 0} (t scope key digest : String) (a : A) (rs : List (IdempotencyRecord A))
    → idempotency_lookup t scope key digest (remember t scope key digest a rs) ≡ ok (some a)
unfolding idempotency_lookup find_record remember
lookup-remember t scope key digest a rs = simp eq_refl

module _ (sha256 : String → String) (claim_token : String → ℕ → String → String)
    (active_version : String → Option ℕ) where
  claimed_conflict :
      (t d i key digest : String) (now : ℕ) (v : Result HttpError ℕ) (row : Action) (db : Db)
      → get i db.actions ≡ some row
      → row.status ≡ claimed
      → (v ≡ err conflict) ⊎ ((n : ℕ) × (v ≡ ok n))
      → claim_versioned sha256 claim_token active_version t d i key digest now v db
        ≡ (err conflict, db)
  claimed_conflict t d i key digest now v row db e s (inl c) = rw c
  claimed_conflict t d i key digest now v row db e s (inr (n, c)) = rw (c, e) (ground arith)

  version_cases :
      (t : String) (o : Option Action)
      → (version_for sha256 claim_token active_version t o ≡ err conflict)
        ⊎ ((n : ℕ) × (version_for sha256 claim_token active_version t o ≡ ok n))
  version_cases t none = inr (0, refl)
  version_cases t (some row) = go (row.tenant_id == t) (active_version row.skill_id)
    where
      go :
          (b : Bool) (v : Option ℕ)
          → ((if b then (elim v [ none ↦ err conflict | some n ↦ ok n ]) else ok 0) ≡ err conflict)
            ⊎ ((n : ℕ) × ((if b then (elim v [ none ↦ err conflict | some n ↦ ok n ]) else ok 0)
                  ≡ ok n))
      go true none = inl refl
      go true (some n) = inr (n, refl)
      go false v = inr (0, refl)

  -- A job that is claimed is refused to every request that is no replay: 409, and nothing changes.
  pub claim_job-claimed :
      (t d i key digest : String) (now : ℕ) (row : Action) (db : Db)
      → find_record t "job-claim" key db.records ≡ none
      → get i db.actions ≡ some row
      → row.status ≡ claimed
      → claim_job sha256 claim_token active_version t d i key digest now db ≡ (err conflict, db)
  unfolding claim_job idempotency_lookup
  claim_job-claimed t d i key digest now row db u e s = rw u (
      claimed_conflict t d i key digest now
        (version_for sha256 claim_token active_version t (get i db.actions)) row db e s
        (version_cases t (get i db.actions)))

  -- what the row is after a claim that is no replay
  pub HoldsLease : String → String → ℕ → Claim → Db → Type 0
  HoldsLease i token now c db =
      (row : Action) × (get i db.actions ≡ some row)
      × (row.status ≡ claimed)
      × (row.claim_token_hash ≡ some (sha256 token))
      × (row.lease_expires_at ≡ some (now + 60))
      × (row.attempt ≡ c.attempt)

  row_found_claimed :
      (t d i key digest : String) (now v : ℕ) (o : Option Action) (c : Claim) (token : String)
      (db db' : Db)
      → claim_row_found sha256 claim_token active_version t d i key digest now v o db
        ≡ (ok (c, token), db')
      → HoldsLease i token now c db'
  unfolding HoldsLease
  row_found_claimed t d i key digest now v none c token db db' h = cc
  row_found_claimed t d i key digest now v (some row) c token db db' h =
      let row' = claim_row (sha256 (claim_token i (row.attempt + 1) key)) now row in
      (
        row',
        ground (arith, get-put i i row' db.actions, eq_refl i),
        refl,
        ground arith,
        refl,
        ground arith,
      )

  versioned_claimed :
      (t d i key digest : String) (now : ℕ) (v : Result HttpError ℕ) (c : Claim) (token : String)
      (db db' : Db)
      → claim_versioned sha256 claim_token active_version t d i key digest now v db
        ≡ (ok (c, token), db')
      → HoldsLease i token now c db'
  versioned_claimed t d i key digest now (err x) c token db db' h = cc
  versioned_claimed t d i key digest now (ok v) c token db db' h =
      row_found_claimed t d i key digest now v (get i db.actions) c token db db' h

  -- A claim that succeeds and is no replay gives the job to its token alone, for sixty seconds: the job is
  -- claimed, with the token's hash, the lease and the attempt that the answer tells.
  pub claim_job-HoldsLease :
      (t d i key digest : String) (now : ℕ) (c : Claim) (token : String) (db db' : Db)
      → find_record t "job-claim" key db.records ≡ none
      → claim_job sha256 claim_token active_version t d i key digest now db ≡ (ok (c, token), db')
      → HoldsLease i token now c db'
  unfolding claim_job idempotency_lookup
  claim_job-HoldsLease t d i key digest now c token db db' u h =
      versioned_claimed t d i key digest now
        (version_for sha256 claim_token active_version t (get i db.actions)) c token db db'
        (rw u at h)

  -- After such a claim every other claim that is no replay of it is refused, and changes nothing.
  pub claim_job_exclusive :
      (t d i key digest t' d' key' digest' : String) (now now' : ℕ) (c : Claim) (token : String)
      (db db' : Db)
      → find_record t "job-claim" key db.records ≡ none
      → claim_job sha256 claim_token active_version t d i key digest now db ≡ (ok (c, token), db')
      → find_record t' "job-claim" key' db'.records ≡ none
      → claim_job sha256 claim_token active_version t' d' i key' digest' now' db'
        ≡ (err conflict, db')
  unfolding HoldsLease
  claim_job_exclusive t d i key digest t' d' key' digest' now now' c token db db' u h u' =
      let (row, e, s, _, _, _) = claim_job-HoldsLease t d i key digest now c token db db' u h in
      claim_job-claimed t' d' i key' digest' now' row db' u' e s

  -- a claim that changed the job leaves its answer in the records
  claim_remembered :
      (t d i key digest : String) (now v : ℕ) (o : Option Action) (c : Claim) (token : String)
      (db db' : Db)
      → claim_row_found sha256 claim_token active_version t d i key digest now v o db
        ≡ (ok (c, token), db')
      → db'.records ≡ remember t "job-claim" key digest (claim_answer c) db.records
  claim_remembered t d i key digest now v none c token db db' h = cc
  claim_remembered t d i key digest now v (some row) c token db db' h = ground arith

  claim_versioned_remembered :
      (t d i key digest : String) (now : ℕ) (v : Result HttpError ℕ) (c : Claim) (token : String)
      (db db' : Db)
      → claim_versioned sha256 claim_token active_version t d i key digest now v db
        ≡ (ok (c, token), db')
      → db'.records ≡ remember t "job-claim" key digest (claim_answer c) db.records
  claim_versioned_remembered t d i key digest now (err x) c token db db' h = cc
  claim_versioned_remembered t d i key digest now (ok v) c token db db' h =
      claim_remembered t d i key digest now v (get i db.actions) c token db db' h

  claimed_again :
      (t d i key digest : String) (now : ℕ) (c : Claim) (db : Db)
      → idempotency_lookup t "job-claim" key digest db.records ≡ ok (some (claim_answer c))
      → claim_job sha256 claim_token active_version t d i key digest now db
        ≡ (ok (c, claim_token i c.attempt key), db)
  unfolding claim_job
  claimed_again t d i key digest now c db h = rw h refl

  -- A claim that succeeded and is sent again, under the same key and with the same payload, is answered with
  -- the claim of that time and changes nothing, whatever has become of the job since, as long as the
  -- records are the same: a job that went back to the queue stays there.
  pub claim_job-replay :
      (t d i key digest : String) (now now' : ℕ) (c : Claim) (token : String) (db db' db'' : Db)
      → find_record t "job-claim" key db.records ≡ none
      → claim_job sha256 claim_token active_version t d i key digest now db ≡ (ok (c, token), db')
      → db''.records ≡ db'.records
      → claim_job sha256 claim_token active_version t d i key digest now' db''
        ≡ (ok (c, claim_token i c.attempt key), db'')
  unfolding idempotency_lookup
  claim_job-replay t d i key digest now now' c token db db' db'' u h same =
      let records =
        claim_versioned_remembered t d i key digest now
          (version_for sha256 claim_token active_version t (get i db.actions)) c token db db'
          (unfold claim_job in rw u at h) in
      claimed_again t d i key digest now' c db'' (
        ap (idempotency_lookup t "job-claim" key digest) (same ∙ records)
        ∙ lookup-remember t "job-claim" key digest (claim_answer c) db.records)
