-- ===== src/Auth.antt =====
-- helpdesktool/auth.py: who a request comes from. Arguments stand for the checks of the two kinds of
-- session tokens: `session_of` for the claims of a development session, `email_of` for those of an
-- identity token, whose email may be missing; `none` is the token's refusal. The roles and the row-level
-- security that the database adds are not modelled.
pub mod Principals
pub mod Examples
use helpdesktool.Prelude.{
  String, Bool, true, false, ◌&&◌, ◌||◌, not, Option, none, some, List, [], ◌∷◌, ◌==◌, any, keep,
  if◌then◌else◌, truthy,
}
use helpdesktool.Prelude.Text.{after_prefix}
use helpdesktool.Prelude.Exec.{Result, ok, err}
use helpdesktool.Idempotency.{HttpError, unauthorized, forbidden, conflict, service_unavailable}

pub record User : Type 0 where
  pub id : String
  pub tenant_id : String
  pub email : String
  pub role : String
  pub active : Bool

pub record Principal : Type 0 where
  pub tenant_id : String
  pub actor_id : String
  pub role : String

-- what `require_user` reads of the settings
pub record AuthSettings : Type 0 where
  pub environment : String
  pub development_login_enabled : Bool
  pub oidc_configured : Bool
  pub allow_insecure_header_auth : Bool

abbrev pub principal_of : User → Principal
principal_of u = record { tenant_id = u.tenant_id; actor_id = u.id; role = u.role }

-- the first row of a SELECT
abbrev pub first {ℓ} : {A : Type ℓ} → List A → Option A
first [] = none
first (x ∷ xs) = some x

abbrev pub principal_or : HttpError → Option User → Result HttpError Principal
principal_or e none = err e
principal_or e (some u) = ok (principal_of u)

-- `_load_principal`
unfoldable pub load_principal : List User → String → String → Result HttpError Principal
load_principal users tenant_id user_id =
    principal_or unauthorized
      (first (keep (λ u. u.id == user_id && (u.tenant_id == tenant_id && u.active)) users))

abbrev pub choose_candidate : Option String → List User → Result HttpError Principal
choose_candidate requested [] = err forbidden
choose_candidate requested (u ∷ []) = ok (principal_of u)
choose_candidate none (u ∷ v ∷ us) = err conflict
choose_candidate (some t) (u ∷ v ∷ us) =
    if t == ""
    then err conflict
    else principal_or forbidden (first (keep (λ w. w.tenant_id == t) (u ∷ v ∷ us)))

-- the part of `_resolve_oidc_principal` after the token's check
unfoldable pub resolve_email :
    List User → Option String → Option String → Result HttpError Principal
resolve_email users requested none = err unauthorized
resolve_email users requested (some email) =
    if email == ""
    then err unauthorized
    else choose_candidate requested (keep (λ u. u.email == email && u.active) users)

-- `require_roles`
unfoldable pub require_roles : List String → Principal → Result HttpError Principal
require_roles roles p = if any (λ r. r == p.role) roles then ok p else err forbidden

module _ (session_of : String → Option (String × String))
    (email_of : String → Option (Option String)) where
  -- `_resolve_oidc_principal`
  unfoldable pub resolve_oidc_principal :
      AuthSettings → List User → Option String → String → Result HttpError Principal
  unfolding resolve_email
  resolve_oidc_principal settings users requested token =
      if not settings.oidc_configured then err service_unavailable else elim (email_of token) [
        | none ↦ err unauthorized
        | some email ↦ resolve_email users requested email
      ]

  abbrev pub with_session : List User → Option (String × String) → Result HttpError Principal
  with_session users none = err unauthorized
  with_session users (some (tenant_id, user_id)) = load_principal users tenant_id user_id

  abbrev pub with_token :
      AuthSettings → List User → Option String → String → Result HttpError Principal
  with_token settings users requested token =
      if settings.environment == "development" && settings.development_login_enabled
      then with_session users (session_of token)
      else resolve_oidc_principal settings users requested token

  abbrev pub with_headers :
      AuthSettings → List User → Option String → Option String → Result HttpError Principal
  with_headers settings users (some tenant_id) (some user_id) =
      if not settings.allow_insecure_header_auth
      then err service_unavailable
      else if tenant_id == "" || user_id == ""
      then err unauthorized
      else load_principal users tenant_id user_id
  with_headers settings users tenant_id user_id =
      if not settings.allow_insecure_header_auth then err service_unavailable else err unauthorized

  abbrev pub bearer_of : Option String → Option String
  bearer_of none = none
  bearer_of (some authorization) = after_prefix "Bearer " authorization

  -- `require_user`, given the three headers
  unfoldable pub require_user :
      AuthSettings
      → List User
      → Option String
      → Option String
      → Option String
      → Result HttpError Principal
  require_user settings users tenant_id user_id authorization = elim (bearer_of authorization) [
    | some token ↦ with_token settings users tenant_id token
    | none ↦ with_headers settings users tenant_id user_id
  ]
