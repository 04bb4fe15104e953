-- ===== src/Devices.antt =====
-- The endpoints of helpdesktool/api.py by which devices get, change and lose their credentials, with
-- `require_agent` of auth.py. A handler that raises an HTTPException commits nothing. Ids, tokens and the
-- time are arguments, and so is SHA-256. A row's id is unique, so that a row with an id that is taken is
-- an IntegrityError like the others. Times are in minutes.
pub mod Secrets
pub mod Lifecycle
pub mod Examples
use helpdesktool.Prelude.{
  ℕ, ◌+◌, String, Bool, true, false, ◌&&◌, ◌||◌, not, Option, none, some, List, [], ◌∷◌, ◌==◌, any,
  ltb, is_some, if◌then◌else◌,
}
use helpdesktool.Prelude.Dict.{Dict, get, put, values}
use helpdesktool.Prelude.Text.{◌++◌, after_prefix}
use helpdesktool.Prelude.Exec.{Result, ok, err}
use helpdesktool.Models.{Value, Mapping}
use helpdesktool.Audit.{Entry}
use helpdesktool.Auth.{Principal, require_roles}
use helpdesktool.Idempotency.{
  HttpError, unauthorized, forbidden, not_found, conflict, internal_error,
}
use helpdesktool.Leases.{entry}

pub record Device : Type 0 where
  pub id : String
  pub tenant_id : String
  pub external_id : String
  pub hostname : String
  pub os : String
  pub agent_key_hash : String
  pub active : Bool
  pub revoked_at : Option ℕ
  pub revoked_reason : Option String
  pub credential_rotated_at : Option ℕ

pub record EnrollmentToken : Type 0 where
  pub id : String
  pub tenant_id : String
  pub token_hash : String
  pub created_by : String
  pub label : String
  pub expires_at : ℕ
  pub used_at : Option ℕ
  pub used_by_device_id : Option String
  pub revoked_at : Option ℕ

pub record Db : Type 0 where
  pub devices : Dict Device
  pub tokens : Dict EnrollmentToken
  pub audit : List Entry

-- the body of an enrolment
pub record DeviceEnroll : Type 0 where
  pub external_id : String
  pub hostname : String
  pub os : String

-- the answer to an enrolment
pub record Enrolled : Type 0 where
  pub device_id : String
  pub tenant_id : String
  pub agent_token : String

abbrev pub Handler : Type 0 → Type 0
Handler A = Db → Result HttpError A × Db

abbrev pub administrators : List String
administrators = "owner" ∷ "admin" ∷ []

-- a dependency that may refuse the request, and the handler
abbrev pub depends : {A B : Type 0} → Result HttpError A → (A → Handler B) → Handler B
depends (err e) f db = (err e, db)
depends (ok a) f db = f a db

-- `tenant_row` on devices
abbrev pub own_device : String → Option Device → Result HttpError Device
own_device tenant_id none = err not_found
own_device tenant_id (some d) = if d.tenant_id == tenant_id then ok d else err not_found

-- `tenant_row` on enrolment tokens
abbrev pub own_token : String → Option EnrollmentToken → Result HttpError EnrollmentToken
own_token tenant_id none = err not_found
own_token tenant_id (some t) = if t.tenant_id == tenant_id then ok t else err not_found

-- the device's tenant has a device with the external id, or the id is taken
abbrev pub is_taken : String → String → String → Dict Device → Bool
is_taken id tenant_id external_id devices =
    is_some (get id devices)
    || any (λ d. d.tenant_id == tenant_id && d.external_id == external_id) (values devices)

-- the first token with a hash
unfoldable pub find_token : String → Dict EnrollmentToken → Option EnrollmentToken
find_token hash [] = none
find_token hash ((k, t) ∷ tokens) = if t.token_hash == hash then some t else find_token hash tokens

-- the first token with a hash is used, for a device
unfoldable pub mark_used : String → ℕ → String → Dict EnrollmentToken → Dict EnrollmentToken
mark_used hash now id [] = []
mark_used hash now id ((k, t) ∷ tokens) =
    if t.token_hash == hash
    then (k, record t { used_at = some now; used_by_device_id = some id }) ∷ tokens
    else (k, t) ∷ mark_used hash now id tokens

-- the token was neither used nor revoked and has not run out
abbrev pub is_usable : ℕ → EnrollmentToken → Bool
is_usable now t =
    not (is_some t.used_at) && (not (is_some t.revoked_at) && not (ltb t.expires_at now))

module _ (sha256 : String → String) where
  abbrev pub new_device : String → String → DeviceEnroll → String → Device
  new_device id tenant_id body token = record {
    id = id;
    tenant_id = tenant_id;
    external_id = body.external_id;
    hostname = body.hostname;
    os = body.os;
    agent_key_hash = sha256 token;
    active = true;
    revoked_at = none;
    revoked_reason = none;
    credential_rotated_at = none;
  }

  abbrev pub described : DeviceEnroll → Mapping
  described body = ("hostname", Value.text body.hostname) ∷ ("os", Value.text body.os) ∷ []

  -- `enroll_device`
  unfoldable pub enroll_device : Principal → DeviceEnroll → String → String → Handler Enrolled
  enroll_device principal body id token = depends (require_roles administrators principal) λ p db.
      if is_taken id p.tenant_id body.external_id db.devices then (err conflict, db) else (
        ok (record { device_id = id; tenant_id = p.tenant_id; agent_token = token }),
        record db {
          devices = put id (new_device id p.tenant_id body token) db.devices;
          audit = entry p.tenant_id id "device.enrolled" p.actor_id (described body) ∷ db.audit;
        },
      )

  abbrev pub new_token : Principal → String → ℕ → String → String → ℕ → EnrollmentToken
  new_token p label ttl_minutes id token now = record {
    id = id;
    tenant_id = p.tenant_id;
    token_hash = sha256 token;
    created_by = p.actor_id;
    label = label;
    expires_at = now + ttl_minutes;
    used_at = none;
    used_by_device_id = none;
    revoked_at = none;
  }

  -- `create_enrollment_token`; the unique columns make a second such row a database error
  unfoldable pub create_enrollment_token :
      Principal → String → ℕ → String → String → ℕ → Handler String
  unfolding find_token
  create_enrollment_token principal label ttl_minutes id token now =
      depends (require_roles administrators principal) λ p db.
        if is_some (get id db.tokens) || is_some (find_token (sha256 token) db.tokens)
        then (err internal_error, db)
        else (
          ok token,
          record db {
            tokens = put id (new_token p label ttl_minutes id token now) db.tokens;
            audit =
                entry p.tenant_id id "enrollment_token.created" p.actor_id (
                  ("label", Value.text label)
                  ∷ ("expires_at", Value.number (now + ttl_minutes))
                  ∷ [])
                ∷ db.audit;
          },
        )

  -- `revoke_enrollment_token`
  unfoldable pub revoke_enrollment_token : Principal → String → ℕ → Handler (Unit {0})
  revoke_enrollment_token principal token_id now =
      depends (require_roles administrators principal) λ p db.
        depends (own_token p.tenant_id (get token_id db.tokens))
          (λ t db'. (
            ok tt,
            record db' {
              tokens = put token_id (record t { revoked_at = some now }) db'.tokens;
              audit =
                  entry p.tenant_id t.id "enrollment_token.revoked" p.actor_id
                    (("label", Value.text t.label) ∷ [])
                  ∷ db'.audit;
            },
          ))
          db

  abbrev pub enroll_found :
      DeviceEnroll → String → String → ℕ → Option EnrollmentToken → Handler Enrolled
  enroll_found body id device_token now none db = (err unauthorized, db)
  enroll_found body id device_token now (some t) db =
      if not (is_usable now t)
      then (err unauthorized, db)
      else if is_taken id t.tenant_id body.external_id db.devices
      then (err conflict, db)
      else (
        ok (record { device_id = id; tenant_id = t.tenant_id; agent_token = device_token }),
        record db {
          devices = put id (new_device id t.tenant_id body device_token) db.devices;
          tokens = mark_used t.token_hash now id db.tokens;
          audit =
              entry t.tenant_id id "device.enrolled" ("enrollment-token:" ++ t.id)
                (("via", Value.text "enrollment_token") ∷ described body)
              ∷ db.audit;
        },
      )

  -- `enroll_device_with_token`
  unfoldable pub enroll_device_with_token :
      DeviceEnroll → String → String → String → ℕ → Handler Enrolled
  unfolding find_token mark_used
  enroll_device_with_token body token id device_token now db =
      enroll_found body id device_token now (find_token (sha256 token) db.tokens) db

  -- a device with a new credential
  abbrev pub rotated : Device → String → ℕ → Device
  rotated d token now = record d { agent_key_hash = sha256 token; credential_rotated_at = some now }

  abbrev pub write_rotated : Principal → String → String → String → String → ℕ → Device → Db → Db
  write_rotated p actor_id via device_id token now d db = record db {
    devices = put device_id (rotated d token now) db.devices;
    audit =
        entry p.tenant_id d.id "device.credential_rotated" actor_id (("via", Value.text via) ∷ [])
        ∷ db.audit;
  }

  -- `rotate_device_credential`
  unfoldable pub rotate_device_credential : Principal → String → String → ℕ → Handler String
  rotate_device_credential principal device_id token now =
      depends (require_roles administrators principal) λ p db.
        depends (own_device p.tenant_id (get device_id db.devices))
          (λ d db'.
            if not d.active
            then (err conflict, db')
            else (ok token, write_rotated p p.actor_id "admin" device_id token now d db'))
          db

  abbrev pub admit_device : String → Option Device → Result HttpError Principal
  admit_device supplied none = err unauthorized
  admit_device supplied (some d) =
      if not d.active || not (d.agent_key_hash == supplied)
      then err unauthorized
      else ok (record { tenant_id = d.tenant_id; actor_id = d.id; role = "agent" })

  -- `require_agent`, given the Authorization header
  unfoldable pub require_agent : String → String → Db → Result HttpError Principal
  require_agent device_id authorization db = elim (after_prefix "Bearer " authorization) [
    | none ↦ err unauthorized
    | some token ↦ admit_device (sha256 token) (get device_id db.devices)
  ]

  -- `renew_device_credential`
  unfoldable pub renew_device_credential : String → String → String → ℕ → Handler String
  unfolding require_agent
  renew_device_credential device_id authorization token now db =
      depends (require_agent device_id authorization db)
        (λ p db'.
          depends (own_device p.tenant_id (get device_id db'.devices))
            (λ d db''. (ok token, write_rotated p d.id "self_service" device_id token now d db''))
            db')
        db

  -- `revoke_device`
  unfoldable pub revoke_device : Principal → String → String → ℕ → Handler Device
  revoke_device principal device_id reason now =
      depends (require_roles administrators principal) λ p db.
        depends (own_device p.tenant_id (get device_id db.devices))
          (λ d db'.
            let d' = record d {
              active = false;
              revoked_at = some now;
              revoked_reason = some reason;
            } in
            (
              ok d',
              record db' {
                devices = put device_id d' db'.devices;
                audit =
                    entry p.tenant_id d.id "device.revoked" p.actor_id
                      (("reason", Value.text reason) ∷ [])
                    ∷ db'.audit;
              },
            ))
          db
