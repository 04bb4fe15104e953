-- ===== src/Keys/Refresh.antt =====
-- What an agent has pinned after it has refreshed its keys any number of times.
use helpdesktool.Prelude.{
  ℕ, String, Bool, true, false, Option, none, some, List, [], ◌∷◌, ◌++◌, eqb, is_some, ◌≡◌, refl,
  ◌∙◌, inl, inr, arith, if◌then◌else◌, Bool-cases, Option-cases,
}
use helpdesktool.Prelude.Exec.{Result, ok, err}
use helpdesktool.Signing.{Keys, find_key}
use helpdesktool.Keys.{
  KeyError, Pinned, pin, merge_signing_keys, saved_after, or_empty, ensure_signing_key, refresh_all,
}

pub find_key-append :
    (n m : ℕ) (pem : String) (keys : Keys)
    → find_key n (keys ++ (m, pem) ∷ [])
      ≡ (elim (find_key n keys) [ some p ↦ some p | none ↦ (if eqb m n then some pem else none) ])
unfolding find_key
find_key-append n m pem [] = refl
find_key-append n m pem ((k, p) ∷ keys) = ground (arith, find_key-append n m pem keys)

-- a version that was pinned stays
pin_keeps :
    (version n : ℕ) (pem p : String) (changed : Bool) (s : Pinned)
    → find_key n s.signing_public_keys ≡ some p
    → find_key n (pin version pem changed s).1.signing_public_keys ≡ some p
unfolding pin
pin_keeps version n pem p changed s h =
    elim (Bool-cases (is_some (find_key version s.signing_public_keys))) [
      | inl there ↦ rw there h
      | inr new ↦ rw new (find_key-append n version pem s.signing_public_keys ∙ rw h refl)
    ]

pub saved_after-keys :
    (r : Result KeyError Bool × Pinned)
    → (saved_after r).1.signing_public_keys ≡ r.1.signing_public_keys
saved_after-keys (ok true, s) = refl
saved_after-keys (ok false, s) = refl
saved_after-keys (err e, s) = refl

module _ (int : String → Option ℕ) where
  pub merge_keeps :
      (keys : List (String × String)) (n : ℕ) (p : String) (changed : Bool) (s : Pinned)
      → find_key n s.signing_public_keys ≡ some p
      → find_key n (merge_signing_keys int keys changed s).1.signing_public_keys ≡ some p
  unfolding merge_signing_keys
  merge_keeps [] n p changed s h = h
  merge_keeps ((v, pem) ∷ keys) n p changed s h = elim (Option-cases (int v)) [
    | inl bad ↦ rw (merge_signing_keys, bad) h
    | inr (m, e) ↦
        rw (merge_signing_keys, e)
          (merge_keeps keys n p (pin m pem changed s).0 (pin m pem changed s).1
            (pin_keeps m n pem p changed s h))
  ]

  ensure_keeps :
      (response : Option (Option (List (String × String)))) (n : ℕ) (p : String) (s : Pinned)
      → find_key n s.signing_public_keys ≡ some p
      → find_key n (ensure_signing_key int response s).1.signing_public_keys ≡ some p
  unfolding ensure_signing_key
  ensure_keeps none n p s h = ground arith
  ensure_keeps (some keys) n p s h =
      rw (saved_after-keys (merge_signing_keys int (or_empty keys) false s))
        (merge_keeps (or_empty keys) n p false s h)

  -- A key that an agent has pinned for a version is never replaced, whatever the control plane answers to
  -- its refreshes.
  pub refresh_all-keeps :
      (responses : List (Option (Option (List (String × String))))) (n : ℕ) (p : String)
      (s : Pinned)
      → find_key n s.signing_public_keys ≡ some p
      → find_key n (refresh_all int responses s).signing_public_keys ≡ some p
  unfolding refresh_all
  refresh_all-keeps [] n p s h = h
  refresh_all-keeps (r ∷ rs) n p s h =
      refresh_all-keeps rs n p (ensure_signing_key int r s).1 (ensure_keeps r n p s h)
