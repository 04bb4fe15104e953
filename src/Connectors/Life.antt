-- ===== src/Connectors/Life.antt =====
-- The handlers and the reaper take the steps of the state machine, and no others.
use helpdesktool.Prelude.{
  arith, ℕ, String, true, false, Option, none, some, ◌==◌, ltb, ltb→le, eq_iff, ◌≡◌, ◌⊎◌, inl, inr,
  refl, ap, ◌∙◌, Bool-cases,
}
use helpdesktool.Prelude.Dict.{Dict, get, put, get-put}
use helpdesktool.Prelude.Exec.{Result, ok, err}
use helpdesktool.Auth.{Principal}
use helpdesktool.Idempotency.{HttpError}
use helpdesktool.Connectors.{
  ConnectorRequest, ConnectorRequestDecision, Db, is_pending, approve, own_request, check_code,
  verify_step_up_code, minted, generate_found, cleared,
}
use helpdesktool.Connectors.Requests.{
  Event, generate, waiting, stage_of, is_high, IsShown, IsSame, stay, mint, IsNext,
}

pub waiting_pending :
    (r : ConnectorRequest)
    → is_pending r.status ≡ true
    → stage_of r ≡ waiting r.step_up_code_hash r.step_up_code_expires_at
waiting_pending r h = ground arith

pub own_request-ok :
    (tenant_id : String) (o : Option ConnectorRequest) (r : ConnectorRequest)
    → own_request tenant_id o ≡ ok r
    → o ≡ some r
own_request-ok tenant_id none r h = cc
own_request-ok tenant_id (some s) r h = ground arith

module _ (sha256 : String → String) where
  pub stays : (id : String) (e : Event) (r : ConnectorRequest) → IsNext sha256 id e r r
  stays id e r = record { same = refl; step = stay }

  -- what an event does to the request `k` of a table
  abbrev pub Moves : String → Event → Dict ConnectorRequest → Dict ConnectorRequest → Type 0
  Moves k e rows rows' =
      (r : ConnectorRequest)
      → get k rows ≡ some r
      → (r' : ConnectorRequest) × (get k rows' ≡ some r') × IsNext sha256 k e r r'

  pub unmoved : (k : String) (e : Event) (rows : Dict ConnectorRequest) → Moves k e rows rows
  unmoved k e rows r h = (r, h, stays k e r)

  pub moved :
      (k id : String) (e : Event) (row row' : ConnectorRequest) (rows : Dict ConnectorRequest)
      → get id rows ≡ some row
      → IsNext sha256 id e row row'
      → Moves k e rows (put id row' rows)
  moved k id e row row' rows found next r h = elim (Bool-cases (id == k)) [
    | inr other ↦ (r, get-put id k row' rows ∙ rw other h, stays k e r)
    | inl same ↦
        let i : id ≡ k = ground (arith, eq_iff id k) in
        let here : row ≡ r = let h' = rw (← i) at h in cc in
        (row', get-put id k row' rows ∙ rw same refl, rw (← here) (rw (← i) next))
  ]

  minted-IsNext :
      (id : String) (p : Principal) (code : String) (now : ℕ) (row : ConnectorRequest)
      → (row.requested_by == p.actor_id) ≡ true
      → is_high row ≡ true
      → is_pending row.status ≡ true
      → IsNext sha256 id (generate id p code now) row (minted sha256 row code now)
  minted-IsNext id p code now row own high pending =
      let actor : p.actor_id ≡ row.requested_by =
        ground (arith, eq_iff row.requested_by p.actor_id) in
      record {
        same = refl;
        step =
            rw (waiting_pending row pending, waiting_pending (minted sha256 row code now) pending)
              (mint actor high);
      }

  pub generate_found-Moves :
      (k id : String) (p : Principal) (code : String) (now : ℕ)
      (o : Result HttpError ConnectorRequest) (db : Db)
      → own_request p.tenant_id (get id db.requests) ≡ o
      → Moves k
          (generate id p code now)
          db.requests
          (generate_found sha256 id p code now o db).1.requests
  generate_found-Moves k id p code now (err e) db h = unmoved k _ db.requests
  generate_found-Moves k id p code now (ok row) db h =
      elim (Bool-cases (row.requested_by == p.actor_id)) [
        | inr other ↦ rw other (unmoved k _ db.requests)
        | inl own ↦ elim (Bool-cases (row.risk == "high")) [
          | inr low ↦ rw (own, low) (unmoved k _ db.requests)
          | inl high ↦ elim (Bool-cases (is_pending row.status)) [
            | inr closed ↦ rw (own, high, closed) (unmoved k _ db.requests)
            | inl pending ↦
                rw (own, high, pending)
                  (moved k id _ row (minted sha256 row code now) db.requests
                    (own_request-ok p.tenant_id (get id db.requests) row h)
                    (minted-IsNext id p code now row own high pending))
          ]
        ]
      ]

  check_code-IsShown :
      (row row' : ConnectorRequest) (hash : Option String) (expires : Option ℕ)
      (shown : Option String) (now : ℕ)
      → check_code sha256 row hash expires shown now ≡ ok row'
      → IsShown sha256 hash expires shown now
        × (row' ≡ record row { step_up_code_hash = none; step_up_code_expires_at = none })
  check_code-IsShown row row' none expires shown now h = cc
  check_code-IsShown row row' (some hash) none shown now h = cc
  check_code-IsShown row row' (some hash) (some limit) none now h = ground arith
  check_code-IsShown row row' (some hash) (some limit) (some code) now h =
      let late : ltb limit now ≡ false = ground arith in
      let match : (sha256 code == hash) ≡ true = ground arith in
      (
        record {
          code = code;
          limit = limit;
          given = refl;
          matches = ap some (ground (arith, eq_iff (sha256 code) hash));
          runs_out = refl;
          in_time = ltb→le limit now late;
        },
        ground arith,
      )

  -- a row that is cleared is the row, with its code used up if it had to be shown
  pub cleared-IsShown :
      (body : ConnectorRequestDecision) (now : ℕ) (row row' : ConnectorRequest)
      → body.decision ≡ approve
      → cleared sha256 body now row ≡ ok row'
      → IsSame row row'
        × ((is_high row ≡ false)
            ⊎ IsShown sha256 row.step_up_code_hash row.step_up_code_expires_at body.step_up_code
                now)
  unfolding verify_step_up_code
  cleared-IsShown body now row row' a h = elim (Bool-cases (row.risk == "high")) [
    | inr low ↦ let e : row ≡ row' = let h' = rw (a, low) at h in cc in (rw (← e) refl, inl low)
    | inl high ↦
        let (shown, e) =
          check_code-IsShown row row' row.step_up_code_hash row.step_up_code_expires_at
            body.step_up_code now (rw (a, high) at h) in
        (rw e refl, inr shown)
  ]
