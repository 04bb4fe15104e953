-- ===== src/Conversation/Proposals.antt =====
-- What a message can bring about: at most a request about the account of the one who wrote it.
use helpdesktool.Prelude.{
  arith, ℕ, String, Bool, true, Option, none, some, List, [], ◌∷◌, ◌==◌, eq_iff, any, map, keep,
  is_some, ◌≡◌, ◌⊎◌, inl, inr, refl, sym, ap, ◌∙◌, Bool-cases, Option-cases,
}
use helpdesktool.Prelude.Dict.{Dict, get, put, values}
use helpdesktool.Prelude.Exec.{Result, ok, err, bind-keeps, bind-moves}
use helpdesktool.Auth.{User, Principal}
use helpdesktool.Idempotency.{HttpError}
use helpdesktool.Connectors.{ApplicationConnectorConfig, ConnectorRequest, high_risk_operations}
use helpdesktool.Connectors.Requests.{waiting, stage_of, is_high}
use helpdesktool.Conversation.{
  Pattern, Intent, ClassifiedIntent, classify_intent, Ticket, Conversation, said, ChatDb, Ids,
  intent_operation,
}
use helpdesktool.Conversation.Turns.{
  insert_conversation, insert_ticket, insert_request, add_message, start_conversation,
  answer_general, new_request, answer_operation, answer_unknown, answer_chosen, answer_intent,
  answer_classified, application_of, is_usable, answer, own_conversation, chosen, take_turn,
  finish_turn, handle_message, committed, check_conversation, or_blank, send_as, send_chat_message,
}

-- a request of a user for a change of an own account, that waits for somebody else and has no code
pub record IsProposal (tenant_id : String) (user : User) (r : ConnectorRequest) : Type 0 where
  pub of_tenant : r.tenant_id ≡ tenant_id
  pub by_user : r.requested_by ≡ user.id
  pub own_account : r.target_email ≡ user.email
  pub risky : is_high r ≡ true
  pub known_operation : any (λ o. o == r.operation) high_risk_operations ≡ true
  pub waits : stage_of r ≡ waiting none none

-- the requests of a table are as they were, or one is new, and it is a proposal
abbrev pub Proposed : String → User → Dict ConnectorRequest → Dict ConnectorRequest → Type 0
Proposed tenant_id user rows rows' =
    (rows' ≡ rows)
    ⊎ ((r : ConnectorRequest) × (get r.id rows ≡ none)
        × (rows' ≡ put r.id r rows)
        × IsProposal tenant_id user r)

module _ (ids : Ids) (now : ℕ) (tenant_id : String) (user : User) (message : String) where
  module _ (K : Dict ConnectorRequest → Type 0) where
    abbrev Has : ChatDb → Type 0
    Has db = K db.store.requests

    insert_ticket-Keeps : (t : Ticket) (db : ChatDb) → Has db → Has (insert_ticket t db).1
    insert_ticket-Keeps t db h = elim (Bool-cases (is_some (get t.id db.tickets))) [
      | inl taken ↦ rw taken h
      | inr free ↦ rw free h
    ]

    insert_conversation-Keeps :
        (c : Conversation) (db : ChatDb) → Has db → Has (insert_conversation c db).1
    insert_conversation-Keeps c db h = elim (Bool-cases (is_some (get c.id db.conversations))) [
      | inl taken ↦ rw taken h
      | inr free ↦ rw free h
    ]

    start_conversation-Keeps :
        (channel thread : String) (o : Option Conversation) (db : ChatDb)
        → Has db
        → Has (start_conversation ids now tenant_id user message channel thread o db).1
    unfolding start_conversation
    start_conversation-Keeps channel thread (some c) = λ db h. h
    start_conversation-Keeps channel thread none =
        bind-keeps Has (insert_conversation _) _ (insert_conversation-Keeps _) (λ _ s h. h)

    answer_general-Keeps :
        (c : Conversation) (o : Option String) (db : ChatDb)
        → Has db
        → Has (answer_general ids now tenant_id user message c o db).1
    unfolding answer_general
    answer_general-Keeps c (some t) = λ db h. h
    answer_general-Keeps c none =
        bind-keeps Has (insert_ticket _) _ (insert_ticket-Keeps _) (λ _ s h. h)

    answer_unknown-Keeps :
        (c : Conversation) (connectors : List ApplicationConnectorConfig) (db : ChatDb)
        → Has db
        → Has (answer_unknown ids now tenant_id user message c connectors db).1
    unfolding answer_unknown
    answer_unknown-Keeps c (x ∷ connectors) = λ db h. h
    answer_unknown-Keeps c [] =
        bind-keeps Has (insert_ticket _) _ (insert_ticket-Keeps _) (λ _ s h. h)

  new_request-IsProposal :
      (c : Conversation) (operation : String) (config : ApplicationConnectorConfig)
      → any (λ o. o == operation) high_risk_operations ≡ true
      → IsProposal tenant_id user (new_request ids now tenant_id user message c operation config)
  new_request-IsProposal c operation config risky = record {
    of_tenant = refl;
    by_user = refl;
    own_account = refl;
    known_operation = risky;
    waits = refl;
    risky = rw risky refl;
  }

  module _ (rows : Dict ConnectorRequest) where
    abbrev Kept : ChatDb → Type 0
    Kept db = db.store.requests ≡ rows

    abbrev Done : ChatDb → Type 0
    Done db = Proposed tenant_id user rows db.store.requests

    insert_request-Done :
        (r : ConnectorRequest)
        → IsProposal tenant_id user r
        → (db : ChatDb) → Kept db
        → Done (insert_request r db).1
    insert_request-Done r p db h = elim (Option-cases (get r.id db.store.requests)) [
      | inr (q, taken) ↦ rw taken (inl h)
      | inl free ↦ rw free (inr (r, ap (get r.id) (sym h) ∙ free, ap (put r.id r) h, p))
    ]

    answer_operation-Done :
        (c : Conversation) (operation : String) (config : ApplicationConnectorConfig)
        → any (λ o. o == operation) high_risk_operations ≡ true
        → (db : ChatDb) → Kept db
        → Done (answer_operation ids now tenant_id user message c operation config db).1
    unfolding answer_operation
    answer_operation-Done c operation config risky =
        bind-moves Kept Done Done (insert_request _) _ (λ _ h. h)
          (insert_request-Done _ (new_request-IsProposal c operation config risky))
          (λ _.
            bind-keeps Done (insert_ticket _) _
              (insert_ticket-Keeps (Proposed tenant_id user rows) _) (λ _ s h. h))

    intent_operation-risky :
        (i : Intent) (operation : String)
        → intent_operation i ≡ some operation
        → any (λ o. o == operation) high_risk_operations ≡ true
    intent_operation-risky i operation h = ground (
      arith,
      eq_iff "reset_password" operation,
      eq_iff "unlock_account" operation,
      eq_iff "reset_mfa" operation,
    )

    answer_intent-Done :
        (c : Conversation) (connectors : List ApplicationConnectorConfig) (hint : Option String)
        (i : Intent) (o : Option String)
        → intent_operation i ≡ o
        → (db : ChatDb) → Kept db
        → Done (answer_intent ids now tenant_id user message c connectors hint o db).1
    answer_intent-Done c connectors hint i none e =
        λ db h. inl (answer_general-Keeps (λ x. x ≡ rows) c c.ticket_id db h)
    answer_intent-Done c connectors hint i (some operation) e = go (chosen connectors hint)
      where
        go :
            (o : Option ApplicationConnectorConfig) (db : ChatDb)
            → Kept db
            → Done (answer_chosen ids now tenant_id user message c operation connectors o db).1
        go none = λ db h. inl (answer_unknown-Keeps (λ x. x ≡ rows) c connectors db h)
        go (some config) =
            answer_operation-Done c operation config (intent_operation-risky i operation e)

    answer_classified-Done :
        (c : Conversation) (connectors : List ApplicationConnectorConfig)
        (classified : ClassifiedIntent) (db : ChatDb)
        → Kept db
        → Done (answer_classified ids now tenant_id user message c connectors classified db).1
    answer_classified-Done c connectors classified =
        bind-moves Kept Done Done
          (answer_intent ids now tenant_id user message c connectors classified.application_hint
            (intent_operation classified.intent))
          _ (λ _ h. h)
          (answer_intent-Done c connectors classified.application_hint classified.intent
            (intent_operation classified.intent) refl)
          (λ _ s h. h)

    module _ (lower : String → String) (search : Pattern → String → Bool)
        (iterate : List String → List String) where
      answer-Done :
          (c : Conversation) (db : ChatDb)
          → Kept db
          → Done (answer ids now tenant_id user message lower search iterate c db).1
      unfolding answer
      answer-Done c db =
          let connectors = keep (is_usable tenant_id) (values db.store.configs) in
          answer_classified-Done c connectors
            (classify_intent lower search iterate message
              (map (application_of ids now tenant_id user message lower search iterate) connectors))
            db

      take_turn-Done :
          (c : Conversation) (db : ChatDb)
          → Kept db
          → Done (take_turn ids now tenant_id user message lower search iterate c db).1
      unfolding take_turn
      take_turn-Done c db h =
          bind-moves Kept Done Done (answer ids now tenant_id user message lower search iterate c)
            (λ x. finish_turn ids now tenant_id user message c x.0 x.1) (λ _ h. h) (answer-Done c)
            (λ _ s k. k)
            (add_message
              (record { tenant_id = tenant_id; conversation_id = c.id; content = said message })
              db).1
            h

      pub handle_message-Done :
          (channel thread : String) (conversation_id : Option String) (db : ChatDb)
          → Kept db
          → Done
              (handle_message ids now tenant_id user message lower search iterate channel thread
                conversation_id db).1
      unfolding handle_message
      handle_message-Done channel thread conversation_id db h =
          bind-moves Kept Kept Done
            (λ s.
              start_conversation ids now tenant_id user message channel thread
                (own_conversation tenant_id conversation_id s) s)
            (take_turn ids now tenant_id user message lower search iterate) (λ _ h. inl h)
            (λ s.
              start_conversation-Keeps (λ x. x ≡ rows) channel thread
                (own_conversation tenant_id conversation_id s) s)
            (λ c. take_turn-Done c) db h

module _ (lower : String → String) (search : Pattern → String → Bool)
    (iterate : List String → List String) where
  committed-Proposed :
      {A : Type 0} (tenant_id : String) (user : User) (db : ChatDb)
      (o : Result HttpError A × ChatDb)
      → Proposed tenant_id user db.store.requests o.1.store.requests
      → Proposed tenant_id user db.store.requests (committed db o).1.store.requests
  committed-Proposed tenant_id user db (ok a, db') h = h
  committed-Proposed tenant_id user db (err e, db') h = inl refl

  -- Whatever is written to the chat, and whatever it is taken for, the table of connector requests is as it was, or
  -- has one request more, under an id that was free: of the writer's tenant, by the writer and for the writer's own
  -- address, at high risk, for a known operation, and waiting for a decision without a code.
  pub send_chat_message-Proposed :
      (ids : Ids) (now : ℕ) (p : Principal) (message : String) (conversation_id : Option String)
      (db : ChatDb) (user : User)
      → get p.actor_id db.users ≡ some user
      → Proposed p.tenant_id user db.store.requests
          (send_chat_message lower search iterate ids now p message conversation_id
            db).1.store.requests
  unfolding send_chat_message
  send_chat_message-Proposed ids now p message conversation_id db user h =
      rw h (go (check_conversation p.tenant_id conversation_id db))
    where
      go :
          (o : Result HttpError (Unit {0}))
          → Proposed p.tenant_id user db.store.requests
              (send_as lower search iterate ids now p message conversation_id
                (some user)
                o
                db).1.store.requests
      go (err e) = inl refl
      go (ok _) = committed-Proposed p.tenant_id user db _ (
          handle_message-Done ids now p.tenant_id user message db.store.requests lower search
            iterate "web" (or_blank conversation_id) conversation_id db refl)
