-- ===== src/Connectors/Requests.antt =====
-- What a connector request promises, as the steps of a state machine.
use helpdesktool.Prelude.{
  ℕ, ◌+◌, ◌≤◌, String, Bool, true, false, Option, some, List, [], ◌∷◌, ◌==◌, ◌≡◌, ◌⊎◌, ap, ◌<◌, ◌*◌,
}
use helpdesktool.Prelude.Dict.{Dict}
use helpdesktool.Models.{Value}
use helpdesktool.Auth.{Principal}
use helpdesktool.Connectors.{
  ApplicationConnector, ConnectorRequest, ConnectorRequestDecision, Db, pending_approval, denied,
  succeeded, failed, expired, approve, deny, generate_step_up_code, step_up_code_ttl_minutes,
}
use helpdesktool.Connectors.Decide.{decide_connector_request}
use helpdesktool.Connectors.Expiry.{process_batch}

-- one request of a user to the control plane, or a batch of the reaper
pub data Event : Type 0 where
  generate : String → Principal → String → ℕ → Event
  decide : String → ConnectorRequestDecision → Principal → ℕ → Event
  reap_batch : ℕ → ℕ → ℕ → Event

-- where a request stands: the code's hash and its time, who decided, and whether it ran well
pub data Stage : Type 0 where
  waiting : Option String → Option ℕ → Stage
  refused : Option String → Stage
  ran : Option String → Bool → Stage
  lapsed : Stage

abbrev pub stage_of : ConnectorRequest → Stage
stage_of r = elim r.status [
  | pending_approval ↦ waiting r.step_up_code_hash r.step_up_code_expires_at
  | denied ↦ refused r.decided_by
  | succeeded ↦ ran r.decided_by true
  | failed ↦ ran r.decided_by false
  | expired ↦ lapsed
]

abbrev pub is_high : ConnectorRequest → Bool
is_high r = r.risk == "high"

-- what no event changes of a request
pub record Identity : Type 0 where
  pub id : String
  pub tenant_id : String
  pub conversation_id : Option String
  pub connector_id : String
  pub operation : String
  pub target_email : String
  pub requested_by : String
  pub risk : String
  pub created_at : ℕ

abbrev pub identity_of : ConnectorRequest → Identity
identity_of r = record {
  id = r.id;
  tenant_id = r.tenant_id;
  conversation_id = r.conversation_id;
  connector_id = r.connector_id;
  operation = r.operation;
  target_email = r.target_email;
  requested_by = r.requested_by;
  risk = r.risk;
  created_at = r.created_at;
}

abbrev pub IsSame : ConnectorRequest → ConnectorRequest → Type 0
IsSame r r' = identity_of r' ≡ identity_of r

pub IsSame-requester : (r r' : ConnectorRequest) → IsSame r r' → r'.requested_by ≡ r.requested_by
IsSame-requester r r' h = ap (λ (i : Identity). i.requested_by) h

pub IsSame-risk : (r r' : ConnectorRequest) → IsSame r r' → r'.risk ≡ r.risk
IsSame-risk r r' h = ap (λ (i : Identity). i.risk) h

pub IsSame-creation : (r r' : ConnectorRequest) → IsSame r r' → r'.created_at ≡ r.created_at
IsSame-creation r r' h = ap (λ (i : Identity). i.created_at) h

module _ (sha256 : String → String) where
  -- a code that the hash is of was shown in its time
  pub record IsShown (hash : Option String) (expires : Option ℕ) (shown : Option String) (now : ℕ)
      : Type 0 where
    pub code : String
    pub limit : ℕ
    pub given : shown ≡ some code
    pub matches : hash ≡ some (sha256 code)
    pub runs_out : expires ≡ some limit
    pub in_time : now ≤ limit

  -- what may become of the request `id`, of `requester` and as old as `born`, by an event; nothing leaves a
  -- final stage
  pub data Step (id requester : String) (high : Bool) (born : ℕ)
      : Event → Stage → Stage → Type 0 where
    stay : {e : Event} {s : Stage} → Step id requester high born e s s
    mint :
        {p : Principal} {code : String} {now : ℕ} {hash : Option String} {expires : Option ℕ}
        → p.actor_id ≡ requester
        → high ≡ true
        → Step id requester high born
            (generate id p code now)
            (waiting hash expires)
            (waiting (some (sha256 code)) (some (now + step_up_code_ttl_minutes)))
    refuse :
        {body : ConnectorRequestDecision} {p : Principal} {now : ℕ} {hash : Option String}
        {expires : Option ℕ}
        → (requester == p.actor_id) ≡ false
        → body.decision ≡ deny
        → Step id requester high born
            (decide id body p now)
            (waiting hash expires)
            (refused (some p.actor_id))
    run :
        {body : ConnectorRequestDecision} {p : Principal} {now : ℕ} {hash : Option String}
        {expires : Option ℕ} {b : Bool}
        → (requester == p.actor_id) ≡ false
        → body.decision ≡ approve
        → (high ≡ false) ⊎ IsShown hash expires body.step_up_code now
        → Step id requester high born
            (decide id body p now)
            (waiting hash expires)
            (ran (some p.actor_id) b)
    lapse :
        {limit hours now : ℕ} {hash : Option String} {expires : Option ℕ}
        → born + 60 * hours < now
        → Step id requester high born (reap_batch limit hours now) (waiting hash expires) lapsed

  module _ {W : Type 0} (show : Value → String) (registry : Dict (ApplicationConnector W)) where
    -- what an event leaves of the database and the world
    unfoldable pub serve : Event → Db × W → Db × W
    serve (generate id p code now) (db, w) = ((generate_step_up_code sha256 id p code now db).1, w)
    serve (decide id body p now) (db, w) =
        let o = decide_connector_request sha256 show registry id body p now db w in (o.1, o.2)
    serve (reap_batch limit hours now) (db, w) = ((process_batch hours now limit db).1, w)

    unfoldable pub serve_all : List Event → Db × W → Db × W
    unfolding serve
    serve_all [] s = s
    serve_all (e ∷ es) s = serve_all es (serve e s)

  -- the request keeps what it is, and takes a step
  pub record IsNext (id : String) (e : Event) (r r' : ConnectorRequest) : Type 0 where
    pub same : IsSame r r'
    pub step : Step id r.requested_by (is_high r) r.created_at e (stage_of r) (stage_of r')
