-- ===== src/Connectors/Verified.antt =====
-- The mock connector's checks of its own operations.
use helpdesktool.Prelude.{
  arith, eq_iff, String, Bool, true, false, Option, none, some, [], ◌∷◌, ◌==◌, ◌≡◌, ◌⊎◌, inl, inr,
  refl, ap, ◌∙◌, Bool-cases, any,
}
use helpdesktool.Connectors.{ConnectorResult, Call, high_risk_operations}
use helpdesktool.Connectors.Mock.{
  MockAccount, Accounts, by_id, change, with_token, unlocked, without_mfa, reset_found,
  unlock_found, mfa_found, reset_password, unlock_account, reset_mfa, verify_found, verify_result,
  mock_connector,
}

by_id-change :
    (f : MockAccount → MockAccount) (id : String) (a : MockAccount) (accounts : Accounts)
    → ((a : MockAccount) → (f a).external_user_id ≡ a.external_user_id)
    → by_id id accounts ≡ some a
    → by_id id (change f id accounts) ≡ some (f a)
unfolding by_id change
by_id-change f id a [] same h = cc
by_id-change f id a ((email, b) ∷ accounts) same h = elim (Bool-cases (b.external_user_id == id)) [
  | inl here ↦
      let e : b ≡ a = let h' = rw here at h in cc in
      let kept : ((f b).external_user_id == id) ≡ true = ap (λ x. x == id) (same b) ∙ here in
      rw (here, kept) (ap (λ x. some (f x)) e)
  | inr there ↦ rw (there, there) (by_id-change f id a accounts same (rw there at h))
]

abbrev pub succeeds : Option ConnectorResult × Accounts → Bool
succeeds (none, accounts) = false
succeeds (some r, accounts) = r.success

module _ (token id : String) (accounts : Accounts) where
  reset_password-verified :
      succeeds (reset_password token id accounts) ≡ true
      → succeeds (verify_result id "reset_password" (reset_password token id accounts).1) ≡ true
  unfolding reset_password verify_result
  reset_password-verified = go (by_id id accounts) refl
    where
      go :
          (o : Option MockAccount)
          → by_id id accounts ≡ o
          → succeeds (reset_found token id accounts o) ≡ true
          → (verify_found (by_id id (reset_found token id accounts o).1) "reset_password").success
            ≡ true
      go none e h = cc
      go (some a) e h = elim (Bool-cases a.active) [
        | inl live ↦ rw (live, by_id-change (with_token token) id a accounts (λ _. refl) e) refl
        | inr dead ↦ let h' = rw dead at h in cc
      ]

  unlock_account-verified :
      succeeds (unlock_account id accounts) ≡ true
      → succeeds (verify_result id "unlock_account" (unlock_account id accounts).1) ≡ true
  unfolding unlock_account verify_result
  unlock_account-verified = go (by_id id accounts) refl
    where
      go :
          (o : Option MockAccount)
          → by_id id accounts ≡ o
          → succeeds (unlock_found id accounts o) ≡ true
          → (verify_found (by_id id (unlock_found id accounts o).1) "unlock_account").success ≡ true
      go none e h = cc
      go (some a) e h = rw (by_id-change unlocked id a accounts (λ _. refl) e) refl

  reset_mfa-verified :
      succeeds (reset_mfa id accounts) ≡ true
      → succeeds (verify_result id "reset_mfa" (reset_mfa id accounts).1) ≡ true
  unfolding reset_mfa verify_result
  reset_mfa-verified = go (by_id id accounts) refl
    where
      go :
          (o : Option MockAccount)
          → by_id id accounts ≡ o
          → succeeds (mfa_found id accounts o) ≡ true
          → (verify_found (by_id id (mfa_found id accounts o).1) "reset_mfa").success ≡ true
      go none e h = cc
      go (some a) e h = rw (by_id-change without_mfa id a accounts (λ _. refl) e) refl

  high_risk-cases :
      (name : String)
      → any (λ o. o == name) high_risk_operations ≡ true
      → (name ≡ "reset_password") ⊎ ((name ≡ "unlock_account") ⊎ (name ≡ "reset_mfa"))
  high_risk-cases name h =
      ground
        (arith, eq_iff "reset_password" name, eq_iff "unlock_account" name, eq_iff "reset_mfa" name)

  by_method :
      (known : String → Call Accounts) (action name : String) (method : String → Call Accounts)
      → name ≡ action
      → some known ≡ some method
      → succeeds (method id accounts) ≡ true
      → (succeeds (known id accounts) ≡ true
          → succeeds (verify_result id action (known id accounts).1) ≡ true)
      → succeeds (verify_result id name (method id accounts).1) ≡ true
  by_method known action name method e found h verified =
      let same : known ≡ method = cc in rw (e, ← same) (verified (rw (← same) at h))

  -- Every high-risk operation of the mock connector that says it has succeeded is found to have taken effect
  -- by the check that follows it.
  pub operation-verified :
      (name : String) (method : String → Call Accounts)
      → any (λ o. o == name) high_risk_operations ≡ true
      → (mock_connector token).operation name ≡ some method
      → succeeds (method id accounts) ≡ true
      → succeeds ((mock_connector token).verify_result id name (method id accounts).1) ≡ true
  operation-verified name method risky found h = elim (high_risk-cases name risky) [
    | inl e ↦
        by_method (reset_password token) "reset_password" name method e (rw e at found) h
          reset_password-verified
    | inr (inl e) ↦
        by_method unlock_account "unlock_account" name method e (rw e at found) h
          unlock_account-verified
    | inr (inr e) ↦
        by_method reset_mfa "reset_mfa" name method e (rw e at found) h reset_mfa-verified
  ]
