-- ===== src/Conversation/Turns.antt =====
-- One turn of a conversation: `handle_message` of helpdesktool/conversation.py with its branches, and
-- `send_chat_message` of helpdesktool/api.py.
use helpdesktool.Prelude.{
  ℕ, String, Bool, false, ◌&&◌, not, Option, none, some, List, [], ◌∷◌, ◌==◌, any, keep, map,
  is_some, truthy, same_text, if◌then◌else◌,
}
use helpdesktool.Prelude.Dict.{get, put, values}
use helpdesktool.Prelude.Text.{◌++◌}
use helpdesktool.Prelude.Exec.{Result, ok, err, pure, ◌>>=◌, ◌>>◌}
use helpdesktool.Models.{Value, Mapping}
use helpdesktool.Audit.{Entry}
use helpdesktool.Auth.{User, Principal, first}
use helpdesktool.Idempotency.{HttpError, not_found, internal_error}
use helpdesktool.Leases.{entry}
use helpdesktool.Connectors.{
  ApplicationConnectorConfig, ConnectorRequest, pending_approval, high_risk_operations,
}
use helpdesktool.Conversation.{
  Pattern, Intent, ClassifiedIntent, Ticket, Conversation, Reply, logged, which_application,
  no_applications, submitted, said, replied, ConversationMessage, ChatDb, Ids,
  ConversationTurnResult, Turn, first_chars, intent_operation, operation_title, classify_intent,
}

abbrev pub with_audit : Entry → ChatDb → ChatDb
with_audit e db = record db { store = record db.store { audit = e ∷ db.store.audit } }

abbrev pub audit : String → String → String → String → Mapping → Turn (Unit {0})
audit tenant_id correlation_id event_type actor_id details db =
    (ok tt, with_audit (entry tenant_id correlation_id event_type actor_id details) db)

abbrev pub insert_conversation : Conversation → Turn (Unit {0})
insert_conversation c db =
    if is_some (get c.id db.conversations)
    then (err internal_error, db)
    else (ok tt, record db { conversations = put c.id c db.conversations })

abbrev pub insert_ticket : Ticket → Turn (Unit {0})
insert_ticket t db =
    if is_some (get t.id db.tickets)
    then (err internal_error, db)
    else (ok tt, record db { tickets = put t.id t db.tickets })

abbrev pub insert_request : ConnectorRequest → Turn (Unit {0})
insert_request r db =
    if is_some (get r.id db.store.requests)
    then (err internal_error, db)
    else (ok tt, record db { store = record db.store { requests = put r.id r db.store.requests } })

abbrev pub add_message : ConversationMessage → Turn (Unit {0})
add_message m db = (ok tt, record db { messages = m ∷ db.messages })

-- `conversation.ticket_id = ticket_id`
abbrev pub link_ticket : Conversation → String → Turn (Unit {0})
link_ticket c ticket_id db = (
  ok tt,
  record db { conversations = put c.id (record c { ticket_id = some ticket_id }) db.conversations },
)

-- the conversation, if there is one and it is the tenant's
abbrev pub own_conversation : String → Option String → ChatDb → Option Conversation
own_conversation tenant_id none db = none
own_conversation tenant_id (some id) db =
    if id == "" then none else elim (get id db.conversations) [
      | none ↦ none
      | some c ↦ if c.tenant_id == tenant_id then some c else none
    ]

abbrev pub is_usable : String → ApplicationConnectorConfig → Bool
is_usable tenant_id c = c.tenant_id == tenant_id && c.active

-- `connectors[0] if len(connectors) == 1 else None`
abbrev pub only : List ApplicationConnectorConfig → Option ApplicationConnectorConfig
only (c ∷ []) = some c
only _ = none

abbrev pub or_only :
    List ApplicationConnectorConfig
    → Option ApplicationConnectorConfig
    → Option ApplicationConnectorConfig
or_only connectors (some c) = some c
or_only connectors none = only connectors

abbrev pub chosen :
    List ApplicationConnectorConfig → Option String → Option ApplicationConnectorConfig
chosen connectors hint =
    or_only connectors (first (keep (λ c. same_text (some c.application_id) hint) connectors))

abbrev pub general_ticket : Ids → String → User → String → Ticket
general_ticket ids tenant_id user message = record {
  id = ids.ticket;
  tenant_id = tenant_id;
  title =
      if first_chars 280 message == "" then "Help desk chat request" else first_chars 280 message;
  description = message;
  priority = "normal";
  created_by = user.id;
}

-- what a branch decides: the reply, the ticket and the request
pub record Answer : Type 0 where
  pub reply : Reply
  pub ticket_id : Option String
  pub connector_request_id : Option String

module _ (ids : Ids) (now : ℕ) (tenant_id : String) (user : User) (message : String) where
  abbrev pub new_conversation : String → String → Conversation
  new_conversation channel thread = record {
    id = ids.conversation;
    tenant_id = tenant_id;
    channel = channel;
    channel_thread_id = thread;
    user_id = user.id;
    ticket_id = none;
  }

  -- the conversation of the turn, a new one if need be
  unfoldable pub start_conversation : String → String → Option Conversation → Turn Conversation
  start_conversation channel thread (some c) = pure c
  start_conversation channel thread none = do
    insert_conversation (new_conversation channel thread)
    audit tenant_id ids.conversation "conversation.started" user.id
        (("channel", Value.text channel) ∷ [])
    pure (new_conversation channel thread)

  -- a general inquiry: one ticket for the conversation
  unfoldable pub answer_general : Conversation → Option String → Turn Answer
  answer_general c (some ticket_id) =
      pure (record {
        reply = logged ticket_id;
        ticket_id = some ticket_id;
        connector_request_id = none;
      })
  answer_general c none = do
    insert_ticket (general_ticket ids tenant_id user message)
    link_ticket c ids.ticket
    audit tenant_id ids.ticket "ticket.created" user.id
        (("source", Value.text "conversation") ∷ ("conversation_id", Value.text c.id) ∷ [])
    pure (record {
      reply = logged ids.ticket;
      ticket_id = some ids.ticket;
      connector_request_id = none;
    })

  abbrev pub new_request : Conversation → String → ApplicationConnectorConfig → ConnectorRequest
  new_request c operation config = record {
    id = ids.request;
    tenant_id = tenant_id;
    conversation_id = some c.id;
    connector_id = config.id;
    operation = operation;
    target_email = user.email;
    requested_by = user.id;
    risk = if any (λ o. o == operation) high_risk_operations then "high" else "read_only";
    status = pending_approval;
    decided_by = none;
    decision_reason = none;
    decided_at = none;
    result_success = none;
    result_detail = none;
    verified = false;
    step_up_code_hash = none;
    step_up_code_expires_at = none;
    created_at = now;
  }

  abbrev pub operation_ticket : String → ApplicationConnectorConfig → Ticket
  operation_ticket operation config = record {
    id = ids.ticket;
    tenant_id = tenant_id;
    title = operation_title operation ++ ": " ++ config.display_name;
    description = message;
    priority = "high";
    created_by = user.id;
  }

  -- an operation on an application: a request that waits for approval, and a ticket
  unfoldable pub answer_operation : Conversation → String → ApplicationConnectorConfig → Turn Answer
  answer_operation c operation config = do
    insert_request (new_request c operation config)
    insert_ticket (operation_ticket operation config)
    link_ticket c ids.ticket
    audit tenant_id ids.request "connector_request.created" user.id (
        ("operation", Value.text operation)
        ∷ ("application_id", Value.text config.application_id)
        ∷ ("target_email", Value.text user.email)
        ∷ ("ticket_id", Value.text ids.ticket)
        ∷ [])
    pure (record {
      reply = submitted operation config.display_name ids.ticket;
      ticket_id = some ids.ticket;
      connector_request_id = some ids.request;
    })

  -- no application was found: a ticket only where none is configured
  unfoldable pub answer_unknown : Conversation → List ApplicationConnectorConfig → Turn Answer
  answer_unknown c (x ∷ connectors) =
      pure
        (record { reply = which_application; ticket_id = c.ticket_id; connector_request_id = none })
  answer_unknown c [] = do
    insert_ticket (general_ticket ids tenant_id user message)
    link_ticket c ids.ticket
    pure (record {
      reply = no_applications;
      ticket_id = some ids.ticket;
      connector_request_id = none;
    })

  abbrev pub answer_chosen :
      Conversation
      → String
      → List ApplicationConnectorConfig
      → Option ApplicationConnectorConfig
      → Turn Answer
  answer_chosen c operation connectors none = answer_unknown c connectors
  answer_chosen c operation connectors (some config) = answer_operation c operation config

  abbrev pub answer_intent :
      Conversation → List ApplicationConnectorConfig → Option String → Option String → Turn Answer
  answer_intent c connectors hint none = answer_general c c.ticket_id
  answer_intent c connectors hint (some operation) =
      answer_chosen c operation connectors (chosen connectors hint)

  abbrev pub answer_classified :
      Conversation → List ApplicationConnectorConfig → ClassifiedIntent → Turn (Intent × Answer)
  answer_classified c connectors classified = do
    a ← answer_intent c connectors classified.application_hint (intent_operation classified.intent)
    pure (classified.intent, a)

  -- the answer is kept as a message, and told
  abbrev pub finish_turn : Conversation → Intent → Answer → Turn ConversationTurnResult
  finish_turn c intent a = do
    add_message
        (record { tenant_id = tenant_id; conversation_id = c.id; content = replied a.reply intent })
    pure (record {
      conversation_id = c.id;
      reply = a.reply;
      ticket_id = a.ticket_id;
      connector_request_id = a.connector_request_id;
    })

  module _ (lower : String → String) (search : Pattern → String → Bool)
      (iterate : List String → List String) where
    abbrev pub application_of : ApplicationConnectorConfig → String
    application_of c = c.application_id

    -- the intent of the message, and what is done about it
    unfoldable pub answer : Conversation → Turn (Intent × Answer)
    unfolding answer_general answer_operation answer_unknown classify_intent
    answer c db =
        let connectors = keep (is_usable tenant_id) (values db.store.configs) in
        answer_classified c connectors
          (classify_intent lower search iterate message (map application_of connectors)) db

    -- the turn in a conversation
    unfoldable pub take_turn : Conversation → Turn ConversationTurnResult
    unfolding answer
    take_turn c = do
      add_message (record { tenant_id = tenant_id; conversation_id = c.id; content = said message })
      (intent, a) ← answer c
      finish_turn c intent a

    -- `handle_message`
    unfoldable pub handle_message : String → String → Option String → Turn ConversationTurnResult
    unfolding start_conversation take_turn
    handle_message channel channel_thread_id conversation_id = do
      c ← λ db.
          start_conversation channel channel_thread_id
            (own_conversation tenant_id conversation_id db) db
      take_turn c

-- the changes of a handler that raises are rolled back
abbrev pub committed :
    {A : Type 0} → ChatDb → Result HttpError A × ChatDb → Result HttpError A × ChatDb
committed db (ok a, db') = (ok a, db')
committed db (err e, db') = (err e, db)

-- `tenant_row` on a conversation that the body names
abbrev pub check_conversation : String → Option String → ChatDb → Result HttpError (Unit {0})
check_conversation tenant_id conversation_id db =
    if not (truthy conversation_id)
    then ok tt
    else elim (own_conversation tenant_id conversation_id db) [
      | none ↦ err not_found
      | some c ↦ ok tt
    ]

abbrev pub or_blank : Option String → String
or_blank none = ""
or_blank (some s) = s

module _ (lower : String → String) (search : Pattern → String → Bool)
    (iterate : List String → List String) where
  abbrev pub send_as :
      Ids
      → ℕ
      → Principal
      → String
      → Option String
      → Option User
      → Result HttpError (Unit {0})
      → Turn ConversationTurnResult
  send_as ids now p message conversation_id none checked db = (err not_found, db)
  send_as ids now p message conversation_id (some user) (err e) db = (err e, db)
  send_as ids now p message conversation_id (some user) (ok _) db = committed db (
      handle_message ids now p.tenant_id user message lower search iterate "web"
        (or_blank conversation_id) conversation_id db)

  -- `send_chat_message`
  unfoldable pub send_chat_message :
      Ids → ℕ → Principal → String → Option String → Turn ConversationTurnResult
  unfolding handle_message
  send_chat_message ids now principal message conversation_id db =
      send_as ids now principal message conversation_id (get principal.actor_id db.users)
        (check_conversation principal.tenant_id conversation_id db) db
