-- ===== src/Audit.antt =====
-- helpdesktool/audit.py: the hash-chained audit log in memory. `digest` stands for the SHA-256 of the
-- payload's canonical JSON, and `occurred_at` for the clock.
pub mod Chain
pub mod Examples
use helpdesktool.Prelude.{
  ℕ, ◌+◌, String, Bool, true, false, ◌&&◌, List, [], ◌∷◌, ◌++◌, ◌==◌, length, if◌then◌else◌,
}
use helpdesktool.Models.{Mapping}

pub record AuditEvent : Type 0 where
  pub sequence : ℕ
  pub occurred_at : String
  pub tenant_id : String
  pub correlation_id : String
  pub event_type : String
  pub actor_id : String
  pub details : Mapping
  pub previous_hash : String
  pub event_hash : String

-- what is hashed: the event but its own hash
pub record Payload : Type 0 where
  pub sequence : ℕ
  pub occurred_at : String
  pub tenant_id : String
  pub correlation_id : String
  pub event_type : String
  pub actor_id : String
  pub details : Mapping
  pub previous_hash : String

-- `payload = asdict(event); payload.pop("event_hash")`
abbrev pub payload : AuditEvent → Payload
payload e = record {
  sequence = e.sequence;
  occurred_at = e.occurred_at;
  tenant_id = e.tenant_id;
  correlation_id = e.correlation_id;
  event_type = e.event_type;
  actor_id = e.actor_id;
  details = e.details;
  previous_hash = e.previous_hash;
}

-- the arguments of `append`
pub record Entry : Type 0 where
  pub tenant_id : String
  pub correlation_id : String
  pub event_type : String
  pub actor_id : String
  pub details : Mapping

-- `"0" * 64`
abbrev pub genesis : String
genesis = "0000000000000000000000000000000000000000000000000000000000000000"

-- the hash of the last event of a log, and `h` for a log with none
abbrev pub last_hash : String → List AuditEvent → String
last_hash h [] = h
last_hash h (e ∷ es) = last_hash e.event_hash es

module _ (digest : Payload → String) where
  -- the event that `append` makes
  abbrev pub make_event : List AuditEvent → String → Entry → AuditEvent
  make_event events occurred_at a =
      let p : Payload = record {
        sequence = length events + 1;
        occurred_at = occurred_at;
        tenant_id = a.tenant_id;
        correlation_id = a.correlation_id;
        event_type = a.event_type;
        actor_id = a.actor_id;
        details = a.details;
        previous_hash = last_hash genesis events;
      } in
      record {
        sequence = p.sequence;
        occurred_at = p.occurred_at;
        tenant_id = p.tenant_id;
        correlation_id = p.correlation_id;
        event_type = p.event_type;
        actor_id = p.actor_id;
        details = p.details;
        previous_hash = p.previous_hash;
        event_hash = digest p;
      }

  -- `InMemoryAuditLog.append`; the event that it returns is the last one of the new log.
  unfoldable pub append : List AuditEvent → String → Entry → List AuditEvent
  append events occurred_at a = events ++ make_event events occurred_at a ∷ []

  -- the loop of `verify_chain`
  unfoldable pub verify_from : String → List AuditEvent → Bool
  verify_from previous_hash [] = true
  verify_from previous_hash (event ∷ events) =
      let rest = verify_from event.event_hash events in
      if event.previous_hash == previous_hash
      then (if digest (payload event) == event.event_hash then rest else false)
      else false

  unfoldable pub verify_chain : List AuditEvent → Bool
  unfolding verify_from
  verify_chain events = verify_from genesis events
