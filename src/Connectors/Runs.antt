-- ===== src/Connectors/Runs.antt =====
-- Whole runs of the control plane and of the reaper over a connector request.
use helpdesktool.Prelude.{
  arith, ℕ, String, Bool, true, false, Option, none, some, List, [], ◌∷◌, ◌==◌, map, ◌≡◌, ◌⊎◌, inl,
  inr, refl, Bool-cases, ◌∙◌, ◌+◌, ◌*◌, ◌<◌,
}
use helpdesktool.Prelude.Dict.{Dict, get}
use helpdesktool.Prelude.Exec.{Result, ok, err}
use helpdesktool.Models.{Value}
use helpdesktool.Auth.{Principal, require_roles}
use helpdesktool.Idempotency.{HttpError}
use helpdesktool.Devices.{administrators}
use helpdesktool.Connectors.{
  ApplicationConnector, ConnectorRequest, ConnectorRequestDecision, Decision, Db, denied,
  is_pending, approve, deny, own_request, own_config, generate_step_up_code, cleared, decided,
}
use helpdesktool.Connectors.Decide.{
  decide_found, decide_cleared, decide_as, decide_admitted, decide_connector_request,
}
use helpdesktool.Connectors.Expiry.{
  expire, is_stale, reap_found, reap_all, process_batch, id_of, stale_rows,
}
use helpdesktool.Connectors.Requests.{
  Event, generate, decide, reap_batch, Stage, stage_of, is_high, IsShown, IsSame, IsSame-requester,
  IsSame-risk, IsSame-creation, Step, stay, refuse, run, lapse, IsNext, serve,
}
use helpdesktool.Connectors.Execution.{IsRan, Ran, execute-Ran}
use helpdesktool.Connectors.Life.{
  waiting_pending, own_request-ok, Moves, unmoved, moved, generate_found-Moves, cleared-IsShown,
}

require_roles-ok : (roles : List String) (p q : Principal) → require_roles roles p ≡ ok q → p ≡ q
unfolding require_roles
require_roles-ok roles p q h = ground arith

module _ (sha256 : String → String) where
  module _ (id : String) (body : ConnectorRequestDecision) (p : Principal) (now : ℕ)
      (row : ConnectorRequest) (pending : is_pending row.status ≡ true)
      (other : (row.requested_by == p.actor_id) ≡ false) where
    denied-IsNext :
        body.decision ≡ deny
        → IsNext sha256 id
            (decide id body p now)
            row
            (record (decided sha256 p body.reason now row) { status = denied })
    denied-IsNext d = record {
      same = refl;
      step = rw (waiting_pending row pending) (refuse other d);
    }

    ran-IsNext :
        (row' r : ConnectorRequest)
        → body.decision ≡ approve
        → IsSame row row'
        → (is_high row ≡ false)
          ⊎ IsShown sha256 row.step_up_code_hash row.step_up_code_expires_at body.step_up_code now
        → IsRan (decided sha256 p body.reason now row') r
        → IsNext sha256 id (decide id body p now) row r
    ran-IsNext row' r a same shown h = record {
      same = h.same ∙ same;
      step = rw (waiting_pending row pending, h.stage) (run other a shown);
    }

  module _ {W : Type 0} (show : Value → String) (registry : Dict (ApplicationConnector W)) where
    execute-Moves :
        (k id : String) (body : ConnectorRequestDecision) (p : Principal) (now : ℕ)
        (row row' : ConnectorRequest) (db db' : Db)
        → is_pending row.status ≡ true
        → (row.requested_by == p.actor_id) ≡ false
        → get id db.requests ≡ some row
        → body.decision ≡ approve
        → cleared sha256 body now row ≡ ok row'
        → Ran sha256 show registry id p (decided sha256 p body.reason now row') db db'
        → Moves sha256 k (decide id body p now) db.requests db'.requests
    execute-Moves k id body p now row row' db db' pending other found a c (inl e) =
        rw e (unmoved sha256 k _ db.requests)
    execute-Moves k id body p now row row' db db' pending other found a c (inr (r, x, e, h)) =
        let (same, shown) = cleared-IsShown sha256 body now row row' a c in
        rw e (
          moved sha256 k id _ row r db.requests found
            (ran-IsNext id body p now row pending other row' r a same shown h))

    decide_as-Moves :
        (d : Decision) (k id : String) (body : ConnectorRequestDecision) (p : Principal) (now : ℕ)
        (row row' : ConnectorRequest) (db : Db) (w : W)
        → body.decision ≡ d
        → is_pending row.status ≡ true
        → (row.requested_by == p.actor_id) ≡ false
        → get id db.requests ≡ some row
        → cleared sha256 body now row ≡ ok row'
        → Moves sha256 k
            (decide id body p now)
            db.requests
            (decide_as sha256 show registry id d p body.reason now row' db w).1.requests
    decide_as-Moves deny k id body p now row row' db w d pending other found c =
        let e : row ≡ row' = let c' = rw d at c in cc in
        rw (← e) (
          moved sha256 k id _ row _ db.requests found
            (denied-IsNext id body p now row pending other d))
    decide_as-Moves approve k id body p now row row' db w d pending other found c =
        execute-Moves k id body p now row row' db _ pending other found d c (
          execute-Ran sha256 show registry id p (decided sha256 p body.reason now row') db
            (own_config p.tenant_id (get row'.connector_id db.configs)) w)

    decide_cleared-Moves :
        (k id : String) (body : ConnectorRequestDecision) (p : Principal) (now : ℕ)
        (row : ConnectorRequest) (o : Result HttpError ConnectorRequest) (db : Db) (w : W)
        → is_pending row.status ≡ true
        → (row.requested_by == p.actor_id) ≡ false
        → get id db.requests ≡ some row
        → cleared sha256 body now row ≡ o
        → Moves sha256 k
            (decide id body p now)
            db.requests
            (decide_cleared sha256 show registry id p body now o db w).1.requests
    decide_cleared-Moves k id body p now row (err e) db w pending other found c =
        unmoved sha256 k _ db.requests
    decide_cleared-Moves k id body p now row (ok row') db w pending other found c =
        decide_as-Moves body.decision k id body p now row row' db w refl pending other found c

    decide_found-Moves :
        (k id : String) (body : ConnectorRequestDecision) (p : Principal) (now : ℕ)
        (o : Result HttpError ConnectorRequest) (db : Db) (w : W)
        → own_request p.tenant_id (get id db.requests) ≡ o
        → Moves sha256 k
            (decide id body p now)
            db.requests
            (decide_found sha256 show registry id p body now o db w).1.requests
    decide_found-Moves k id body p now (err e) db w h = unmoved sha256 k _ db.requests
    decide_found-Moves k id body p now (ok row) db w h = elim (Bool-cases (is_pending row.status)) [
      | inr closed ↦ rw closed (unmoved sha256 k _ db.requests)
      | inl pending ↦ elim (Bool-cases (row.requested_by == p.actor_id)) [
        | inl own ↦ rw (pending, own) (unmoved sha256 k _ db.requests)
        | inr other ↦
            rw (pending, other)
              (decide_cleared-Moves k id body p now row (cleared sha256 body now row) db w pending
                other (own_request-ok p.tenant_id (get id db.requests) row h) refl)
      ]
    ]

    decide-Moves :
        (k id : String) (body : ConnectorRequestDecision) (p : Principal) (now : ℕ) (db : Db)
        (w : W)
        → Moves sha256 k
            (decide id body p now)
            db.requests
            (decide_connector_request sha256 show registry id body p now db w).1.requests
    unfolding decide_connector_request
    decide-Moves k id body p now db w = go (require_roles administrators p) refl
      where
        go :
            (o : Result HttpError Principal)
            → require_roles administrators p ≡ o
            → Moves sha256 k
                (decide id body p now)
                db.requests
                (decide_admitted sha256 show registry id body now o db w).1.requests
        go (err e) h = unmoved sha256 k _ db.requests
        go (ok q) h = rw (← (require_roles-ok administrators p q h)) (
            decide_found-Moves k id body p now (own_request p.tenant_id (get id db.requests)) db w
              refl)

    generate-Moves :
        (k id : String) (p : Principal) (code : String) (now : ℕ) (db : Db)
        → Moves sha256 k
            (generate id p code now)
            db.requests
            (generate_step_up_code sha256 id p code now db).1.requests
    unfolding generate_step_up_code
    generate-Moves k id p code now db =
        generate_found-Moves sha256 k id p code now (own_request p.tenant_id (get id db.requests))
          db refl

  module _ (limit hours now : ℕ) where
    expired-IsNext :
        (id : String) (r : ConnectorRequest)
        → is_stale hours now r ≡ true
        → IsNext sha256 id (reap_batch limit hours now) r (expire hours now r)
    expired-IsNext id r stale =
        let pending : is_pending r.status ≡ true = ground arith in
        let old : r.created_at + 60 * hours < now = ground arith in
        record { same = refl; step = rw (waiting_pending r pending) (lapse old) }

    reap_found-Moves :
        (k id : String) (o : Option ConnectorRequest) (db : Db)
        → get id db.requests ≡ o
        → Moves sha256 k
            (reap_batch limit hours now)
            db.requests
            (reap_found hours now id o db).requests
    reap_found-Moves k id none db h = unmoved sha256 k _ db.requests
    reap_found-Moves k id (some r) db h = elim (Bool-cases (is_stale hours now r)) [
      | inr young ↦ rw young (unmoved sha256 k _ db.requests)
      | inl stale ↦
          rw stale
            (moved sha256 k id _ r (expire hours now r) db.requests h (expired-IsNext id r stale))
    ]

    Step-trans :
        (id requester : String) (high : Bool) (born : ℕ) (q r s : Stage)
        → Step sha256 id requester high born (reap_batch limit hours now) q r
        → Step sha256 id requester high born (reap_batch limit hours now) r s
        → Step sha256 id requester high born (reap_batch limit hours now) q s
    Step-trans id requester high born q r s stay k = k
    Step-trans id requester high born q r s (lapse old) stay = lapse old

    IsNext-trans :
        (id : String) (q r s : ConnectorRequest)
        → IsNext sha256 id (reap_batch limit hours now) q r
        → IsNext sha256 id (reap_batch limit hours now) r s
        → IsNext sha256 id (reap_batch limit hours now) q s
    IsNext-trans id q r s h k = record {
      same = k.same ∙ h.same;
      step =
          Step-trans id q.requested_by (is_high q) q.created_at (stage_of q) (stage_of r)
            (stage_of s) h.step
            (rw
              (
                ← (IsSame-requester q r h.same),
                ← (IsSame-risk q r h.same),
                ← (IsSame-creation q r h.same),
              )
              k.step);
    }

    reap_all-Moves :
        (k : String) (ids : List String) (db : Db)
        → Moves sha256 k
            (reap_batch limit hours now)
            db.requests
            (reap_all hours now ids db).requests
    unfolding reap_all
    reap_all-Moves k [] db r h = unmoved sha256 k _ db.requests r h
    reap_all-Moves k (id ∷ ids) db r h =
        let (q, found, first) = reap_found-Moves k id (get id db.requests) db refl r h in
        let (s, last, next) =
          reap_all-Moves k ids (reap_found hours now id (get id db.requests) db) q found in
        (s, last, IsNext-trans k r q s first next)

  module _ {W : Type 0} (show : Value → String) (registry : Dict (ApplicationConnector W)) where
    -- Whatever a user asks of the control plane, and whatever the reaper does, a request keeps its id, its tenant,
    -- its requester, its conversation, its connector, its operation, its target, its risk and its time of creation, and takes a step of the state machine: a code is minted
    -- for its requester, or it is denied or run by another who showed the code in time if its risk is high, or it
    -- lapses, in a batch that runs more than the given hours after its creation, or it stays at its stage.
    pub serve-IsNext :
        (e : Event) (k : String) (db : Db) (w : W) (r : ConnectorRequest)
        → get k db.requests ≡ some r
        → (r' : ConnectorRequest) × (get k (serve sha256 show registry e (db, w)).0.requests
            ≡ some r')
          × IsNext sha256 k e r r'
    unfolding serve process_batch
    serve-IsNext (generate id p code now) k db w = generate-Moves show registry k id p code now db
    serve-IsNext (decide id body p now) k db w = decide-Moves show registry k id body p now db w
    serve-IsNext (reap_batch limit hours now) k db w =
        reap_all-Moves limit hours now k (map (id_of hours now) (stale_rows hours now limit db)) db
