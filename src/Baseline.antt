-- ===== src/Baseline.antt =====
-- Known-good configuration: helpdesktool/baseline.py, and the endpoints of helpdesktool/api.py that store
-- entries and resolve them. The rows are in the order in which the database returns them, and the device
-- and user tables are dictionaries from an id to its tenant.
pub mod Precedence
pub mod Stored
pub mod Examples
use helpdesktool.Prelude.{
  ℕ, String, Bool, true, false, ◌&&◌, ◌||◌, not, Option, none, some, List, [], ◌∷◌, ◌++◌, ◌==◌, any,
  keep, ltb, truthy, same_text, if◌then◌else◌,
}
use helpdesktool.Prelude.Dict.{Dict, get}
use helpdesktool.Prelude.Exec.{Result, ok, err, Exec, pure, raise, lift, ◌>>=◌, ◌>>◌}
use helpdesktool.Models.{
  Value, BaselineScope, generic_best_practice, organizational_policy, device_baseline,
  user_baseline, current_state,
}
use helpdesktool.Models.Space.{is_blank}
use helpdesktool.Audit.{Entry}
use helpdesktool.Auth.{Principal, require_roles}
use helpdesktool.Idempotency.{HttpError, not_found, unprocessable, internal_error}
use helpdesktool.Leases.{entry}
use helpdesktool.Devices.{administrators}

pub record BaselineEntry : Type 0 where
  pub scope : BaselineScope
  pub key : String
  pub value : Value
  pub device_id : Option String
  pub user_id : Option String
  pub description : String

-- the ValueError of the enumeration, and the reasons of a BaselineValidationError
pub data EntryError : Type 0 where
  unknown_scope empty_key needs_device_id needs_user_id not_scoped : EntryError

abbrev pub scope_text : BaselineScope → String
scope_text generic_best_practice = "generic_best_practice"
scope_text organizational_policy = "organizational_policy"
scope_text device_baseline = "device_baseline"
scope_text user_baseline = "user_baseline"
scope_text current_state = "current_state"

-- `BaselineScope(text)`
abbrev pub scope_of : String → Option BaselineScope
scope_of s =
    if s == "generic_best_practice"
    then some generic_best_practice
    else if s == "organizational_policy"
    then some organizational_policy
    else if s == "device_baseline"
    then some device_baseline
    else if s == "user_baseline"
    then some user_baseline
    else if s == "current_state"
    then some current_state
    else none

abbrev pub is_device : BaselineScope → Bool
is_device device_baseline = true
is_device _ = false

abbrev pub is_user : BaselineScope → Bool
is_user user_baseline = true
is_user _ = false

abbrev pub is_current : BaselineScope → Bool
is_current current_state = true
is_current _ = false

-- the entry with its checks, once the scope is read
unfoldable pub post_init : BaselineEntry → Result EntryError BaselineEntry
unfolding is_blank
post_init e =
    if is_blank e.key
    then err empty_key
    else if is_device e.scope && not (truthy e.device_id)
    then err needs_device_id
    else if is_user e.scope && not (truthy e.user_id)
    then err needs_user_id
    else if not (is_device e.scope || is_user e.scope) && (truthy e.device_id || truthy e.user_id)
    then err not_scoped
    else ok e

-- `BaselineEntry(scope, key, value, device_id, user_id, description)`
unfoldable pub make :
    String
    → String
    → Value
    → Option String
    → Option String
    → String
    → Result EntryError BaselineEntry
unfolding post_init
make scope key value device_id user_id description = elim (scope_of scope) [
  | none ↦ err unknown_scope
  | some s ↦ post_init (record {
    scope = s;
    key = key;
    value = value;
    device_id = device_id;
    user_id = user_id;
    description = description;
  })
]

-- `_PRECEDENCE`; `current_state` has no place in it, and no candidate has that scope
abbrev pub precedence : BaselineScope → ℕ
precedence device_baseline = 0
precedence user_baseline = 1
precedence organizational_policy = 2
precedence generic_best_practice = 3
precedence current_state = 4

abbrev pub is_candidate : String → Option String → Option String → BaselineEntry → Bool
is_candidate key device_id user_id e =
    e.key == key
    && (not (is_current e.scope)
        && ((not (is_device e.scope) || same_text e.device_id device_id)
            && (not (is_user e.scope) || same_text e.user_id user_id)))

-- `min` with the precedence as its key, of an entry and those after it: the first of the least
unfoldable pub least : BaselineEntry → List BaselineEntry → BaselineEntry
least e [] = e
least e (f ∷ es) = least (if ltb (precedence f.scope) (precedence e.scope) then f else e) es

abbrev pub least_of : List BaselineEntry → Option BaselineEntry
least_of [] = none
least_of (e ∷ es) = some (least e es)

unfoldable pub resolve_known_good :
    List BaselineEntry → String → Option String → Option String → Option BaselineEntry
unfolding least
resolve_known_good entries key device_id user_id =
    least_of (keep (is_candidate key device_id user_id) entries)

pub record BaselineRow : Type 0 where
  pub id : String
  pub tenant_id : String
  pub scope : String
  pub key : String
  pub value : Value
  pub device_id : Option String
  pub user_id : Option String
  pub description : String
  pub active : Bool
  pub created_by : String

pub record Db : Type 0 where
  pub devices : Dict String
  pub users : Dict String
  pub baselines : List BaselineRow
  pub audit : List Entry

pub record BaselineCreate : Type 0 where
  pub scope : BaselineScope
  pub key : String
  pub value : Value
  pub device_id : Option String
  pub user_id : Option String
  pub description : String

-- `tenant_row` on the id of a body, where it has one
abbrev pub own : String → Dict String → Option String → Result HttpError (Unit {0})
own tenant_id owners none = ok tt
own tenant_id owners (some id) = elim (get id owners) [
  | none ↦ err not_found
  | some t ↦ if t == tenant_id then ok tt else err not_found
]

-- the `except` of the handler
abbrev pub entry_error : EntryError → HttpError
entry_error unknown_scope = internal_error
entry_error _ = unprocessable

abbrev pub checked : Result EntryError BaselineEntry → Result HttpError BaselineEntry
checked (ok e) = ok e
checked (err x) = err (entry_error x)

abbrev pub new_row : String → Principal → BaselineCreate → BaselineRow
new_row id p body = record {
  id = id;
  tenant_id = p.tenant_id;
  scope = scope_text body.scope;
  key = body.key;
  value = body.value;
  device_id = body.device_id;
  user_id = body.user_id;
  description = body.description;
  active = true;
  created_by = p.actor_id;
}

abbrev pub insert_row : BaselineRow → Exec HttpError Db BaselineRow
insert_row row db = if any (λ r. r.id == row.id) db.baselines then (err internal_error, db) else (
  ok row,
  record db {
    baselines = db.baselines ++ row ∷ [];
    audit =
        entry row.tenant_id row.id "baseline.registered" row.created_by
          (("scope", Value.text row.scope) ∷ ("key", Value.text row.key) ∷ [])
        ∷ db.audit;
  },
)

-- `create_organizational_baseline`, given the new row's id
unfoldable pub create_organizational_baseline :
    String → BaselineCreate → Principal → Exec HttpError Db BaselineRow
unfolding make
create_organizational_baseline id body principal = do
  p ← lift (require_roles administrators principal)
  λ db. (own p.tenant_id db.devices body.device_id, db)
  λ db. (own p.tenant_id db.users body.user_id, db)
  _ ← lift (
      checked (
        make (scope_text body.scope) body.key body.value body.device_id body.user_id
          body.description))
  insert_row (new_row id p body)

abbrev pub is_resolved : String → String → BaselineRow → Bool
is_resolved tenant_id key row = row.tenant_id == tenant_id && (row.key == key && row.active)

abbrev pub entry_of : BaselineRow → Result EntryError BaselineEntry
entry_of r = make r.scope r.key r.value r.device_id r.user_id r.description

abbrev pub and_entry :
    Result EntryError BaselineEntry
    → Result HttpError (List BaselineEntry)
    → Result HttpError (List BaselineEntry)
and_entry (err x) rest = err internal_error
and_entry (ok e) (err x) = err x
and_entry (ok e) (ok es) = ok (e ∷ es)

-- the entries of rows; one that is not valid is an exception that nothing catches
unfoldable pub entries_of : List BaselineRow → Result HttpError (List BaselineEntry)
entries_of [] = ok []
entries_of (r ∷ rows) = and_entry (entry_of r) (entries_of rows)

abbrev pub resolved_in :
    String
    → Option String
    → Option String
    → Result HttpError (List BaselineEntry)
    → Result HttpError (Option BaselineEntry)
resolved_in key device_id user_id (err x) = err x
resolved_in key device_id user_id (ok entries) =
    ok (resolve_known_good entries key device_id user_id)

-- `resolve_organizational_baseline`
unfoldable pub resolve_organizational_baseline :
    String
    → Option String
    → Option String
    → Principal
    → Db
    → Result HttpError (Option BaselineEntry)
unfolding entries_of
resolve_organizational_baseline key device_id user_id p db =
    resolved_in key device_id user_id (entries_of (keep (is_resolved p.tenant_id key) db.baselines))
