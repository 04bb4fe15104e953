-- ===== src/Conversation/Examples.antt =====
-- A user who writes that a password is forgotten.
use helpdesktool.Prelude.{◌≡◌, refl, String, Bool, true, false, some, none, [], ◌∷◌}
use helpdesktool.Prelude.Dict.{get}
use helpdesktool.Auth.{User, Principal}
use helpdesktool.Connectors.{ApplicationConnectorConfig}
use helpdesktool.Conversation.{Pattern, password_reset_re, ChatDb, Ids}
use helpdesktool.Conversation.Turns.{send_chat_message}
use helpdesktool.Conversation.Proposals.{Proposed, send_chat_message-Proposed}

abbrev search : Pattern → String → Bool
search password_reset_re s = true
search _ s = false

abbrev same : {A : Type 0} → A → A
same a = a

abbrev ann : User
ann = record {
  id = "u1";
  tenant_id = "t1";
  email = "ann@example.com";
  role = "viewer";
  active = true;
}

abbrev crm : ApplicationConnectorConfig
crm = record {
  id = "c1";
  tenant_id = "t1";
  application_id = "crm";
  display_name = "CRM";
  connector_type = "mock";
  active = true;
}

abbrev start : ChatDb
start = record {
  store = record { requests = []; configs = ("c1", crm) ∷ []; audit = [] };
  users = ("u1", ann) ∷ [];
  conversations = [];
  messages = [];
  tickets = [];
}

abbrev ids : Ids
ids = record { conversation = "v1"; ticket = "k1"; request = "r1" }

abbrev principal : Principal
principal = record { tenant_id = "t1"; actor_id = "u1"; role = "viewer" }

known : get "u1" start.users ≡ some ann
unfolding get
known = refl

send_chat_message-Proposed_example :
    Proposed "t1" ann start.store.requests
      (send_chat_message same search same ids 3 principal "I forgot my crm password" none
        start).1.store.requests
send_chat_message-Proposed_example =
    send_chat_message-Proposed same search same ids 3 principal "I forgot my crm password" none
      start ann known
