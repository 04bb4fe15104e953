-- ===== src/Auth/Principals.antt =====
-- Whom auth.py lets in.
use helpdesktool.Prelude.{
  String, ◌≡◌, ◌⊎◌, inl, inr, refl, Bool, true, false, ◌&&◌, ◌||◌, not, Option, none, some, List,
  [], ◌∷◌, ◌==◌, arith, eq_iff, keep, Elem, ap, sym, ◌∙◌, Bool-cases, if◌then◌else◌,
}
use helpdesktool.Prelude.Exec.{ok, err}
use helpdesktool.Idempotency.{HttpError, unauthorized, forbidden, service_unavailable}
use helpdesktool.Auth.{
  User, Principal, AuthSettings, principal_of, first, principal_or, load_principal,
  choose_candidate, resolve_email, resolve_oidc_principal, with_session, with_token, with_headers,
  bearer_of, require_user,
}

-- a principal that stands for one of the users, with a property
abbrev pub Is : (User → Bool) → List User → Principal → Type 0
Is p users q = (u : User) × Elem u users × (p u ≡ true) × (q ≡ principal_of u)

-- what a search finds is in the list and has the property
first-keep :
    (p : User → Bool) (e : HttpError) (users : List User) (q : Principal)
    → principal_or e (first (keep p users)) ≡ ok q
    → Is p users q
first-keep p e [] q h = cc
first-keep p e (u ∷ users) q h = elim (Bool-cases (p u)) [
  | inl t ↦ (u, inl refl, t, cc (rw t at h))
  | inr f ↦ let (v, m, t, same) = first-keep p e users q (rw f at h) in (v, inr m, t, same)
]

-- the user of a tenant and an id
load_principal-Is :
    (users : List User) (tenant_id user_id : String) (q : Principal)
    → load_principal users tenant_id user_id ≡ ok q
    → (u : User) × Elem u users
      × (u.active ≡ true)
      × (u.tenant_id ≡ tenant_id)
      × (u.id ≡ user_id)
      × (q ≡ principal_of u)
unfolding load_principal
load_principal-Is users tenant_id user_id q h =
    let (u, m, t, same) =
      first-keep (λ u. u.id == user_id && (u.tenant_id == tenant_id && u.active)) unauthorized users
        q h in
    (
      u,
      m,
      ground arith,
      ground (arith, eq_iff u.tenant_id tenant_id),
      ground (arith, eq_iff u.id user_id),
      same,
    )

pub Elem-keep :
    (p : User → Bool) (u : User) (users : List User)
    → Elem u (keep p users)
    → Elem u users × (p u ≡ true)
Elem-keep p u [] m = absurd m
Elem-keep p u (x ∷ users) m = elim (Bool-cases (p x)) [
  | inl t ↦ elim (let n : (u ≡ x) ⊎ Elem u (keep p users) = rw t at m in n) [
    | inl e ↦ (inl e, rw e t)
    | inr k ↦ let (l, t') = Elem-keep p u users k in (inr l, t')
  ]
  | inr f ↦ let (k, t) = Elem-keep p u users (rw f at m) in (inr k, t)
]

-- the candidates with a verified email
abbrev pub has_email : String → User → Bool
has_email email u = u.email == email && u.active

-- the candidate is the only one, or the one of the requested tenant
abbrev pub Chosen : Option String → List User → Principal → Type 0
Chosen requested us q =
    (u : User) × Elem u us × (q ≡ principal_of u) × ((us ≡ u ∷ []) ⊎ (requested ≡ some q.tenant_id))

choose_candidate-Chosen :
    (requested : Option String) (us : List User) (q : Principal)
    → choose_candidate requested us ≡ ok q
    → Chosen requested us q
choose_candidate-Chosen requested [] q h = cc
choose_candidate-Chosen requested (u ∷ []) q h = (u, inl refl, cc, inl refl)
choose_candidate-Chosen none (u ∷ v ∷ us) q h = cc
choose_candidate-Chosen (some t) (u ∷ v ∷ us) q h = elim (Bool-cases (t == "")) [
  | inl e ↦ ground (arith, e)
  | inr e ↦
      let (w, m, own, same) =
        first-keep (λ w. w.tenant_id == t) forbidden (u ∷ v ∷ us) q (rw e at h) in
      (w, m, same, inr (ground (arith, same, own, eq_iff w.tenant_id t)))
]

-- Whom a verified email stands for: an active user with that email, who is the only one, or the one in the
-- tenant that the client asked for. The header only chooses among the tenants of that email.
pub resolve_email-Chosen :
    (users : List User) (requested : Option String) (email : String) (q : Principal)
    → resolve_email users requested (some email) ≡ ok q
    → (u : User) × Elem u users
      × (u.email ≡ email)
      × (u.active ≡ true)
      × (q ≡ principal_of u)
      × ((keep (has_email email) users ≡ u ∷ []) ⊎ (requested ≡ some q.tenant_id))
unfolding resolve_email
resolve_email-Chosen users requested email q h = elim (Bool-cases (email == "")) [
  | inl e ↦ ground (arith, e)
  | inr e ↦
      let (u, m, same, only) =
        choose_candidate-Chosen requested (keep (has_email email) users) q (rw e at h) in
      let (k, t) = Elem-keep (has_email email) u users m in
      (u, k, ground (arith, t, eq_iff u.email email), ground (arith, t), same, only)
]

no_email :
    (users : List User) (requested : Option String) (q : Principal)
    → resolve_email users requested none ≡ ok q
    → ⊥
unfolding resolve_email
no_email users requested q h = cc

module _ (session_of : String → Option (String × String))
    (email_of : String → Option (Option String)) (settings : AuthSettings) (users : List User)
    (q : Principal) where
  -- what speaks for a user: a session token of the development login, an OIDC token with the user's email, or,
  -- where the setting allows it, the two plain headers
  abbrev pub SpeaksFor : Option String → Option String → Option String → User → Type 0
  SpeaksFor tenant_id user_id token u =
      ((t : String) × (token ≡ some t)
        × (settings.environment ≡ "development")
        × (settings.development_login_enabled ≡ true)
        × (session_of t ≡ some (u.tenant_id, u.id)))
      ⊎ ((t : String) × (token ≡ some t)
          × (settings.oidc_configured ≡ true)
          × (email_of t ≡ some (some u.email)))
      ⊎ ((token ≡ none)
          × (settings.allow_insecure_header_auth ≡ true)
          × (tenant_id ≡ some u.tenant_id)
          × (user_id ≡ some u.id))

  abbrev pub Authenticated : Option String → Option String → Option String → Type 0
  Authenticated tenant_id user_id token =
      (u : User) × Elem u users
      × (u.active ≡ true)
      × (q ≡ principal_of u)
      × SpeaksFor tenant_id user_id token u

  oidc-Authenticated :
      (requested user_id : Option String) (token : String)
      → resolve_oidc_principal session_of email_of settings users requested token ≡ ok q
      → Authenticated requested user_id (some token)
  unfolding resolve_oidc_principal
  oidc-Authenticated requested user_id token h =
      go settings.oidc_configured (email_of token) refl refl h
    where
      go :
          (b : Bool) (o : Option (Option String))
          → settings.oidc_configured ≡ b
          → email_of token ≡ o
          → (if not b then err service_unavailable else elim o [
            | none ↦ err unauthorized
            | some email ↦ resolve_email users requested email
          ])
            ≡ ok q
          → Authenticated requested user_id (some token)
      go false o e f k = cc
      go true none e f k = cc
      go true (some none) e f k = absurd (no_email users requested q k)
      go true (some (some email)) e f k =
          let (u, m, same_email, active, same, _) =
            resolve_email-Chosen users requested email q k in
          (
            u,
            m,
            active,
            same,
            inr (inl (token, refl, e, f ∙ ap (λ x. some (some x)) (sym same_email))),
          )

  session-Authenticated :
      (tenant_id user_id : Option String) (token : String) (o : Option (String × String))
      → settings.environment ≡ "development"
      → settings.development_login_enabled ≡ true
      → session_of token ≡ o
      → with_session session_of email_of users o ≡ ok q
      → Authenticated tenant_id user_id (some token)
  session-Authenticated tenant_id user_id token none dev login e h = cc
  session-Authenticated tenant_id user_id token (some (t, i)) dev login e h =
      let (u, m, active, own, id, same) = load_principal-Is users t i q h in
      (u, m, active, same, inl (token, refl, dev, login, rw (own, id) e))

  token-Authenticated :
      (tenant_id user_id : Option String) (token : String)
      → with_token session_of email_of settings users tenant_id token ≡ ok q
      → Authenticated tenant_id user_id (some token)
  token-Authenticated tenant_id user_id token h =
      elim (Bool-cases
        (settings.environment == "development" && settings.development_login_enabled)) [
          | inl e ↦
              session-Authenticated tenant_id user_id token (session_of token)
                (ground (arith, e, eq_iff settings.environment "development")) (ground (arith, e))
                refl (rw e at h)
          | inr e ↦ oidc-Authenticated tenant_id user_id token (rw e at h)
        ]

  headers-Authenticated :
      (tenant_id user_id : Option String)
      → with_headers session_of email_of settings users tenant_id user_id ≡ ok q
      → Authenticated tenant_id user_id none
  headers-Authenticated none user_id h = ground arith
  headers-Authenticated (some t) none h = ground arith
  headers-Authenticated (some t) (some i) h =
      elim (Bool-cases settings.allow_insecure_header_auth) [
        | inr off ↦ ground (arith, off)
        | inl on ↦ elim (Bool-cases (t == "" || i == "")) [
          | inl empty ↦ ground (arith, on, empty)
          | inr full ↦
              let (u, m, active, own, id, same) =
                load_principal-Is users t i q (rw (on, full) at h) in
              (u, m, active, same, inr (inr (refl, on, ap some (sym own), ap some (sym id))))
        ]
      ]

  -- Whichever way a request is authenticated, the principal is an active one of the users, with that user's tenant
  -- and role, for whom the request speaks: by a bearer token that is the session of that user and tenant, where
  -- the development login is on, or that the OIDC check accepts for the user's email, or, without a bearer
  -- token and where the setting allows it, by headers that name the tenant and the user.
  pub require_user-Is :
      (tenant_id user_id authorization : Option String)
      → require_user session_of email_of settings users tenant_id user_id authorization ≡ ok q
      → Authenticated tenant_id user_id (bearer_of session_of email_of authorization)
  unfolding require_user
  require_user-Is tenant_id user_id authorization h =
      go (bearer_of session_of email_of authorization) h
    where
      go :
          (o : Option String)
          → (elim o [
            | some token ↦ with_token session_of email_of settings users tenant_id token
            | none ↦ with_headers session_of email_of settings users tenant_id user_id
          ])
            ≡ ok q
          → Authenticated tenant_id user_id o
      go none k = headers-Authenticated tenant_id user_id k
      go (some token) k = token-Authenticated tenant_id user_id token k
