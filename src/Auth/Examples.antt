-- ===== src/Auth/Examples.antt =====
-- Two users of one email in two tenants.
use helpdesktool.Prelude.{
  ◌≡◌, ◌⊎◌, refl, String, true, false, Option, some, none, List, [], ◌∷◌, Elem, keep,
}
use helpdesktool.Prelude.Text.{after_prefix}
use helpdesktool.Prelude.Exec.{ok}
use helpdesktool.Auth.{
  User, AuthSettings, principal_of, resolve_email, resolve_oidc_principal, require_user, bearer_of,
}
use helpdesktool.Auth.Principals.{Authenticated, has_email, resolve_email-Chosen, require_user-Is}

abbrev ann : User
ann = record {
  id = "u1";
  tenant_id = "t1";
  email = "ann@example.com";
  role = "owner";
  active = true;
}

abbrev ann_too : User
ann_too = record {
  id = "u2";
  tenant_id = "t2";
  email = "ann@example.com";
  role = "viewer";
  active = true;
}

abbrev users : List User
users = ann ∷ ann_too ∷ []

abbrev settings : AuthSettings
settings = record {
  environment = "production";
  development_login_enabled = false;
  oidc_configured = true;
  allow_insecure_header_auth = false;
}

abbrev session_of : String → Option (String × String)
session_of s = none

abbrev email_of : String → Option (Option String)
email_of s = some (some "ann@example.com")

resolved : resolve_email users (some "t2") (some "ann@example.com") ≡ ok (principal_of ann_too)
unfolding resolve_email
resolved = refl

resolve_email-Chosen_example :
    (u : User) × Elem u users
    × (u.email ≡ "ann@example.com")
    × (u.active ≡ true)
    × (principal_of ann_too ≡ principal_of u)
    × ((keep (has_email "ann@example.com") users ≡ u ∷ [])
        ⊎ (some "t2" ≡ some (principal_of ann_too).tenant_id))
resolve_email-Chosen_example =
    resolve_email-Chosen users (some "t2") "ann@example.com" (principal_of ann_too) resolved

let_in :
    require_user session_of email_of settings users (some "t2") none (some "Bearer token")
    ≡ ok (principal_of ann_too)
unfolding require_user after_prefix resolve_oidc_principal
let_in = refl

require_user-Is_example :
    Authenticated session_of email_of settings users
      (principal_of ann_too)
      (some "t2")
      none
      (bearer_of session_of email_of (some "Bearer token"))
require_user-Is_example =
    require_user-Is session_of email_of settings users (principal_of ann_too) (some "t2") none
      (some "Bearer token") let_in
