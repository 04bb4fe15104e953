-- ===== src/Conversation.antt =====
-- helpdesktool/conversation.py, and `send_chat_message` of helpdesktool/api.py, through which the web channel
-- calls it. Arguments stand for str.lower, for the search of the three regular expressions, and for the order
-- in which a frozenset is iterated; new ids and the time are arguments too. The wording of the replies is left
-- out: a reply is a case of `Reply` with what it names. An id that is taken is an IntegrityError.
pub mod Turns
pub mod Proposals
pub mod Examples
use helpdesktool.Prelude.{
  ℕ, zero, suc, String, Bool, true, false, ◌&&◌, ◌||◌, not, Option, none, some, List, [], ◌∷◌, ◌++◌,
  ◌==◌, any, keep, map, is_some, truthy, same_text, if◌then◌else◌,
}
use helpdesktool.Prelude.Dict.{Dict, get, put, values}
use helpdesktool.Prelude.Text.{after_prefix, ◌++◌ as append}
use helpdesktool.Prelude.Exec.{Result, ok, err, Exec, pure, raise, lift, ◌>>=◌, ◌>>◌}
use helpdesktool.Models.{Value, Mapping}
use helpdesktool.Audit.{Entry}
use helpdesktool.Auth.{User, Principal, first}
use helpdesktool.Idempotency.{HttpError, not_found, internal_error}
use helpdesktool.Leases.{entry}
use helpdesktool.Connectors.{
  ApplicationConnectorConfig, ConnectorRequest, Db, pending_approval, high_risk_operations,
}

pub data Pattern : Type 0 where
  password_reset_re unlock_re mfa_reset_re : Pattern

pub data Intent : Type 0 where
  password_reset unlock_account mfa_reset general_inquiry : Intent

pub record ClassifiedIntent : Type 0 where
  pub intent : Intent
  pub application_hint : Option String

pub record Ticket : Type 0 where
  pub id : String
  pub tenant_id : String
  pub title : String
  pub description : String
  pub priority : String
  pub created_by : String

pub record Conversation : Type 0 where
  pub id : String
  pub tenant_id : String
  pub channel : String
  pub channel_thread_id : String
  pub user_id : String
  pub ticket_id : Option String

pub data Reply : Type 0 where
  logged : String → Reply
  which_application no_applications : Reply
  submitted : String → String → String → Reply

pub data Content : Type 0 where
  said : String → Content
  replied : Reply → Intent → Content

pub record ConversationMessage : Type 0 where
  pub tenant_id : String
  pub conversation_id : String
  pub content : Content

pub record ChatDb : Type 0 where
  pub store : Db
  pub users : Dict User
  pub conversations : Dict Conversation
  pub messages : List ConversationMessage
  pub tickets : Dict Ticket

-- the ids that the new rows of a turn get
pub record Ids : Type 0 where
  pub conversation : String
  pub ticket : String
  pub request : String

pub record ConversationTurnResult : Type 0 where
  pub conversation_id : String
  pub reply : Reply
  pub ticket_id : Option String
  pub connector_request_id : Option String

abbrev pub Turn : Type 0 → Type 0
Turn A = Exec HttpError ChatDb A

-- `text in s`
unfoldable pub is_in : String → String → Bool
unfolding after_prefix
is_in t String.[] = is_some (after_prefix t "")
is_in t (String.◌∷◌ c s) = is_some (after_prefix t (String.◌∷◌ c s)) || is_in t s

-- `s[:n]`
unfoldable pub first_chars : ℕ → String → String
first_chars zero s = ""
first_chars (suc n) String.[] = ""
first_chars (suc n) (String.◌∷◌ c s) = String.◌∷◌ c (first_chars n s)

-- `_INTENT_OPERATIONS`
abbrev pub intent_operation : Intent → Option String
intent_operation password_reset = some "reset_password"
intent_operation unlock_account = some "unlock_account"
intent_operation mfa_reset = some "reset_mfa"
intent_operation general_inquiry = none

-- `operation.replace('_', ' ').title()`, for those operations
abbrev pub operation_title : String → String
operation_title operation =
    if operation == "reset_password"
    then "Reset Password"
    else if operation == "unlock_account"
    then "Unlock Account"
    else "Reset Mfa"

module _ (lower : String → String) (search : Pattern → String → Bool)
    (iterate : List String → List String) where
  unfoldable pub classify_intent : String → List String → ClassifiedIntent
  unfolding is_in
  classify_intent message known_application_ids =
      let application_hint =
        first (keep (λ id. is_in id (lower message)) (iterate known_application_ids)) in
      if search password_reset_re message
      then record { intent = password_reset; application_hint = application_hint }
      else if search unlock_re message
      then record { intent = unlock_account; application_hint = application_hint }
      else if search mfa_reset_re message
      then record { intent = mfa_reset; application_hint = application_hint }
      else record { intent = general_inquiry; application_hint = application_hint }
