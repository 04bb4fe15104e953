-- ===== src/Connectors/Mock.antt =====
-- helpdesktool/connectors/mock.py, a connector whose world is its accounts by email. Every instance shares
-- the demo accounts. The token of a reset is an argument, permissions are kept as printed, and the tests'
-- hook `seed_account` is left out.
use helpdesktool.Prelude.{
  String, Bool, true, false, not, Option, none, some, [], ◌∷◌, ◌==◌, is_some, if◌then◌else◌,
}
use helpdesktool.Prelude.Dict.{Dict, get}
use helpdesktool.Models.{Value, Mapping}
use helpdesktool.Connectors.{ConnectorResult, Call, ApplicationConnector}

pub record MockAccount : Type 0 where
  pub external_user_id : String
  pub email : String
  pub active : Bool
  pub locked : Bool
  pub mfa_enrolled : Bool
  pub permissions : String
  pub last_reset_token : Option String

abbrev pub Accounts : Type 0
Accounts = Dict MockAccount

abbrev demo_account : String → String → String × MockAccount
demo_account id email = (
  email,
  record {
    external_user_id = id;
    email = email;
    active = true;
    locked = false;
    mfa_enrolled = true;
    permissions = "[\"standard_user\"]";
    last_reset_token = none;
  },
)

abbrev pub demo_accounts : Accounts
demo_accounts =
    demo_account "mock-ext-001" "owner@example.com"
    ∷ demo_account "mock-ext-002" "admin@example.com"
    ∷ []

abbrev pub result : Bool → String → Mapping → ConnectorResult
result success detail fields = record { success = success; detail = detail; data_of = fields }

abbrev pub resolve_user : String → Call Accounts
resolve_user email accounts = elim (get email accounts) [
  | none ↦ (some (result false "no account found for this email" []), accounts)
  | some a ↦ (
    some
        (result true "account resolved" (("external_user_id", Value.text a.external_user_id) ∷ [])),
    accounts,
  )
]

-- `_by_id`
unfoldable pub by_id : String → Accounts → Option MockAccount
by_id id [] = none
by_id id ((email, a) ∷ accounts) = if a.external_user_id == id then some a else by_id id accounts

-- an assignment to a field of the account that `_by_id` finds
unfoldable pub change : (MockAccount → MockAccount) → String → Accounts → Accounts
change f id [] = []
change f id ((email, a) ∷ accounts) =
    if a.external_user_id == id then (email, f a) ∷ accounts else (email, a) ∷ change f id accounts

abbrev pub missing : Accounts → Option ConnectorResult × Accounts
missing accounts = (some (result false "account not found" []), accounts)

abbrev pub check_account : String → Call Accounts
check_account id accounts = elim (by_id id accounts) [
  | none ↦ missing accounts
  | some a ↦ (
    some (
        result true "account status retrieved"
          (("active", Value.boolean a.active) ∷ ("locked", Value.boolean a.locked) ∷ [])),
    accounts,
  )
]

abbrev pub check_permissions : String → Call Accounts
check_permissions id accounts = elim (by_id id accounts) [
  | none ↦ missing accounts
  | some a ↦ (
    some (result true "permissions retrieved" (("permissions", Value.array a.permissions) ∷ [])),
    accounts,
  )
]

abbrev pub with_token : String → MockAccount → MockAccount
with_token token a = record a { last_reset_token = some token }

abbrev pub unlocked : MockAccount → MockAccount
unlocked a = record a { locked = false }

abbrev pub without_mfa : MockAccount → MockAccount
without_mfa a = record a { mfa_enrolled = false }

abbrev pub reset_found :
    String → String → Accounts → Option MockAccount → Option ConnectorResult × Accounts
reset_found token id accounts none = missing accounts
reset_found token id accounts (some a) =
    if not a.active
    then (some (result false "account is not active" []), accounts)
    else (some (result true "password reset initiated" []), change (with_token token) id accounts)

unfoldable pub reset_password : String → String → Call Accounts
unfolding by_id change
reset_password token id accounts = reset_found token id accounts (by_id id accounts)

abbrev pub unlock_found : String → Accounts → Option MockAccount → Option ConnectorResult × Accounts
unlock_found id accounts none = missing accounts
unlock_found id accounts (some a) =
    (some (result true "account unlocked" []), change unlocked id accounts)

unfoldable pub unlock_account : String → Call Accounts
unfolding by_id change
unlock_account id accounts = unlock_found id accounts (by_id id accounts)

abbrev pub mfa_found : String → Accounts → Option MockAccount → Option ConnectorResult × Accounts
mfa_found id accounts none = missing accounts
mfa_found id accounts (some a) = (
  some (result true "MFA factors cleared; re-enrollment required" []),
  change without_mfa id accounts,
)

unfoldable pub reset_mfa : String → Call Accounts
unfolding by_id change
reset_mfa id accounts = mfa_found id accounts (by_id id accounts)

abbrev pub verify_found : Option MockAccount → String → ConnectorResult
verify_found none action = result false "account not found" []
verify_found (some a) action =
    if action == "reset_password"
    then result (is_some a.last_reset_token)
        (if is_some a.last_reset_token then "reset token present" else "no reset recorded") []
    else if action == "unlock_account"
    then result (not a.locked) "lock state verified" []
    else if action == "reset_mfa"
    then result (not a.mfa_enrolled) "mfa state verified" []
    else result false "unknown action to verify" []

unfoldable pub verify_result : String → String → Call Accounts
unfolding by_id
verify_result id action accounts = (some (verify_found (by_id id accounts) action), accounts)

-- the methods of one argument, by name
abbrev pub operation : String → String → Option (String → Call Accounts)
operation token name =
    if name == "reset_password"
    then some (reset_password token)
    else if name == "unlock_account"
    then some unlock_account
    else if name == "reset_mfa"
    then some reset_mfa
    else if name == "check_account"
    then some check_account
    else if name == "check_permissions"
    then some check_permissions
    else if name == "resolve_user"
    then some resolve_user
    else none

abbrev pub mock_connector : String → ApplicationConnector Accounts
mock_connector token = record {
  resolve_user = resolve_user;
  operation = operation token;
  verify_result = verify_result;
}
