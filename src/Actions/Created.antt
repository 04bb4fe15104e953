-- ===== src/Actions/Created.antt =====
-- What is behind an action that was created.
use mathlib.Core.Option.{some-injective}
use helpdesktool.Prelude.{
  ap, sym, ◌∙◌, is_some, true, String, false, Option, none, some, List, ◌≡◌, ◌⊎◌, inl, inr, refl,
}
use helpdesktool.Prelude.Dict.{Dict, get}
use helpdesktool.Prelude.Exec.{Result, ok, err, Exec, continue}
use helpdesktool.Models.{ActionRequest, ActionRecord}
use helpdesktool.Auth.{Principal, require_roles}
use helpdesktool.Idempotency.{HttpError, idempotency_lookup, remember}
use helpdesktool.Policy.{PolicyEngine, evaluate}
use helpdesktool.Orchestrator.{Refusal, Orchestrator, submit}
use helpdesktool.Orchestrator.Storing.{IsIn}
use helpdesktool.Orchestrator.Submission.{Follows, submit-Follows}
use helpdesktool.Devices.{Device, own_device}
use helpdesktool.Skills.{SkillManifest}
use helpdesktool.Skills.Registry.{get_active_manifest, load_policy}
use helpdesktool.Actions.{
  ApiDb, ActionCreate, no_local_executor, operators, check_shape, check_service, check_ticket,
  request_of, checked_request, orchestrator_of, rows_of, answered, submitted, create_new,
  create_looked_up, create_action,
}

-- a check that was passed
passed :
    {A B : Type 0} (r : Result HttpError A) (f : A → Exec HttpError ApiDb B) (db db' : ApiDb)
    (b : B)
    → continue r f db ≡ (ok b, db')
    → (a : A) × (r ≡ ok a) × (f a db ≡ (ok b, db'))
passed (ok a) f db db' b h = (a, refl, h)
passed (err e) f db db' b h = cc

-- an answer is the row of the id that was submitted, and it is remembered under its key
submitted_ok :
    (p : Principal) (key payload : String) (x : Result Refusal ActionRecord × Orchestrator)
    (db db' : ApiDb) (r : ActionRecord)
    → submitted p key payload x db ≡ (ok r, db')
    → (action : ActionRecord) × (o : Orchestrator) × (x ≡ (ok action, o))
      × (get action.request.correlation_id (rows_of o.store) ≡ some r)
      × (db'.actions ≡ rows_of o.store)
      × (db'.idempotency ≡ remember p.tenant_id "action" key payload r db.idempotency)
submitted_ok p key payload (err e, o) db db' r h = cc
submitted_ok p key payload (ok action, o) db db' r h =
    let (e, table, remembered) = go (get action.request.correlation_id (rows_of o.store)) h in
    (action, o, refl, e, table, remembered)
  where
    go :
        (x : Option ActionRecord)
        → answered p key payload o x db ≡ (ok r, db')
        → (x ≡ some r)
          × (db'.actions ≡ rows_of o.store)
          × (db'.idempotency ≡ remember p.tenant_id "action" key payload r db.idempotency)
    go none k = cc
    go (some row) k =
        let e : row ≡ r = cc in
        let d = ap (λ (y : Result HttpError ActionRecord × ApiDb). y.1) (sym k) in
        (
          ap some e,
          ap (λ (y : ApiDb). y.actions) d,
          ap (λ (y : ApiDb). y.idempotency) d
              ∙ ap (λ z. remember p.tenant_id "action" key payload z db.idempotency) e,
        )

-- the row of an action that is stored is the action
row_stored :
    (a : ActionRecord) (x : Option (Dict ActionRecord))
    → is_some x ≡ true
    → IsIn x a
    → get a.request.correlation_id (rows_of x) ≡ some a
row_stored a none k h = cc
row_stored a (some rows) k h = h

-- an answer is the action that the orchestrator has made of the request
submitted-Follows :
    (lower : String → String) (policy : PolicyEngine) (request : ActionRequest) (device_os : String)
    (p : Principal) (key payload : String) (db db' : ApiDb) (r : ActionRecord)
    → submitted p key payload
        (submit lower no_local_executor policy false request device_os (orchestrator_of db))
        db
      ≡ (ok r, db')
    → (r.request ≡ request)
      × Follows false (evaluate lower policy request device_os) r
      × (get request.correlation_id db'.actions ≡ some r)
      × (db'.idempotency ≡ remember p.tenant_id "action" key payload r db.idempotency)
submitted-Follows lower policy request device_os p key payload db db' r h =
    let (action, o, e, found, table, remembered) =
      submitted_ok p key payload
        (submit lower no_local_executor policy false request device_os (orchestrator_of db)) db db'
        r h in
    let (follows, same_request, stored) =
      submit-Follows lower no_local_executor policy false request device_os (orchestrator_of db) o
        action e in
    let same : r ≡ action =
      some-injective _ _ (sym found ∙ row_stored action o.store stored.0 stored.1) in
    (
      rw same same_request,
      rw same follows,
      ap (get request.correlation_id) table
          ∙ (ap (λ (q : ActionRequest). get q.correlation_id (rows_of o.store)) (sym same_request)
              ∙ found),
      remembered,
    )

module _ (lower : String → String) (digest : SkillManifest → String) (allowed : List String) where
  -- every guard of the endpoint was passed, and the action that is answered is the request's, stands in the table and
  -- under its key, and follows the policy of the registry's skills
  pub record IsCreated (p : Principal) (body : ActionCreate) (key payload id : String)
      (db db' : ApiDb) (r : ActionRecord) : Type 0 where
    pub manifest : Option SkillManifest
    pub device : Device
    pub request : ActionRequest
    pub policy : PolicyEngine
    pub active_manifest : get_active_manifest digest body.skill_id db.skills ≡ ok manifest
    pub well_shaped : check_shape manifest body.parameters ≡ ok tt
    pub allowlisted : check_service allowed body ≡ ok tt
    pub own : own_device p.tenant_id (get body.device_id db.devices) ≡ ok device
    pub own_ticket : check_ticket p.tenant_id body.ticket_id db.tickets ≡ ok tt
    pub requested : checked_request (request_of p body device id) ≡ ok request
    pub registry : load_policy digest db.skills ≡ ok policy
    pub same_request : r.request ≡ request
    pub follows : Follows false (evaluate lower policy request device.os) r
    pub in_table : get request.correlation_id db'.actions ≡ some r
    pub remembered : db'.idempotency ≡ remember p.tenant_id "action" key payload r db.idempotency

  create_new-IsCreated :
      (p : Principal) (body : ActionCreate) (key payload id : String) (db db' : ApiDb)
      (r : ActionRecord)
      → create_new lower digest allowed p body key payload id db ≡ (ok r, db')
      → IsCreated p body key payload id db db' r
  unfolding create_new
  create_new-IsCreated p body key payload id db db' r h =
      let (manifest, e1, h1) =
        passed (get_active_manifest digest body.skill_id db.skills) _ db db' r h in
      let (_, e2, h2) = passed (check_shape manifest body.parameters) _ db db' r h1 in
      let (_, e3, h3) = passed (check_service allowed body) _ db db' r h2 in
      let (device, e4, h4) =
        passed (own_device p.tenant_id (get body.device_id db.devices)) _ db db' r h3 in
      let (_, e5, h5) = passed (check_ticket p.tenant_id body.ticket_id db.tickets) _ db db' r h4 in
      let (request, e6, h6) =
        passed (checked_request (request_of p body device id)) _ db db' r h5 in
      let (policy, e7, h7) = passed (load_policy digest db.skills) _ db db' r h6 in
      let (same_request, follows, in_table, remembered) =
        submitted-Follows lower policy request device.os p key payload db db' r h7 in
      record {
        manifest = manifest;
        device = device;
        request = request;
        policy = policy;
        active_manifest = e1;
        well_shaped = e2;
        allowlisted = e3;
        own = e4;
        own_ticket = e5;
        requested = e6;
        registry = e7;
        same_request = same_request;
        follows = follows;
        in_table = in_table;
        remembered = remembered;
      }

  looked_up-IsCreated :
      (p : Principal) (body : ActionCreate) (key payload id : String)
      (o : Result HttpError (Option ActionRecord)) (db db' : ApiDb) (r : ActionRecord)
      → create_looked_up lower digest allowed p body key payload id o db ≡ (ok r, db')
      → ((o ≡ ok (some r)) × (db' ≡ db))
        ⊎ ((o ≡ ok none) × IsCreated p body key payload id db db' r)
  looked_up-IsCreated p body key payload id (err e) db db' r h = cc
  looked_up-IsCreated p body key payload id (ok (some cached)) db db' r h = inl (cc, cc)
  looked_up-IsCreated p body key payload id (ok none) db db' r h =
      inr (refl, create_new-IsCreated p body key payload id db db' r h)

  -- An action is answered only to an owner, an admin or an operator. Either the key was used before with the
  -- same payload, and then the old answer is given and nothing changes. Or the skill's active manifest, if it has
  -- one, accepts the parameters, a restart is of an allowed service, the device and the ticket are
  -- the tenant's, and the action that is answered is the principal's request on that device, stands in the table and
  -- under its key, and is pending, denied or queued as the policy of the registered skills decides.
  pub create_action-IsCreated :
      (principal : Principal) (body : ActionCreate) (key payload id : String) (db db' : ApiDb)
      (r : ActionRecord)
      → create_action lower digest allowed principal body key payload id db ≡ (ok r, db')
      → (p : Principal) × (require_roles operators principal ≡ ok p)
        × (((idempotency_lookup p.tenant_id "action" key payload db.idempotency ≡ ok (some r))
              × (db' ≡ db))
            ⊎ ((idempotency_lookup p.tenant_id "action" key payload db.idempotency ≡ ok none)
                × IsCreated p body key payload id db db' r))
  unfolding create_action
  create_action-IsCreated principal body key payload id db db' r h =
      let (p, e, f) = passed (require_roles operators principal) _ db db' r h in
      (
        p,
        e,
        looked_up-IsCreated p body key payload id
            (idempotency_lookup p.tenant_id "action" key payload db.idempotency) db db' r f,
      )
