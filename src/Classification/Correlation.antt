-- ===== src/Classification/Correlation.antt =====
-- What security_classification.py needs in order to say more than that something is set up wrongly.
use helpdesktool.Prelude.{
  ℕ, ◌≤◌, String, ◌≡◌, refl, ◌⊎◌, inl, inr, Bool, true, false, ◌||◌, not, List, [], ◌∷◌, ◌==◌, any,
  arith, eq_iff, eq_refl, ltb, length, Bool-cases,
}
use helpdesktool.Models.{SecurityClassification}
use helpdesktool.Classification.{SecuritySignal, categories, classify_security_state}

abbrev pub is_elevated : SecurityClassification → Bool
is_elevated SecurityClassification.suspicious = true
is_elevated SecurityClassification.likely_compromised = true
is_elevated SecurityClassification.confirmed_compromise = true
is_elevated _ = false

-- some two signals have different categories
abbrev pub differs_from : String → List SecuritySignal → Bool
differs_from c [] = false
differs_from c (s ∷ ss) = let rest = differs_from c ss in not (s.category == c) || rest

abbrev pub is_correlated : List SecuritySignal → Bool
is_correlated [] = false
is_correlated (s ∷ ss) = differs_from s.category ss

-- signals of one category have that category alone
categories_single :
    (c : String) (ss : List SecuritySignal)
    → differs_from c ss ≡ false
    → (categories ss ≡ []) ⊎ (categories ss ≡ c ∷ [])
unfolding categories
categories_single c [] h = inl refl
categories_single c (s ∷ ss) h =
    let same : s.category ≡ c = ground (arith, eq_iff s.category c) in
    elim (categories_single c ss (ground arith)) [
      | inl e ↦ inr (rw (e, same) refl)
      | inr e ↦ inr (rw (e, same) (simp eq_refl))
    ]

categories_nonempty :
    (s : SecuritySignal) (ss : List SecuritySignal) → 1 ≤ length (categories (s ∷ ss))
unfolding categories
categories_nonempty s [] = omega arith
categories_nonempty s (t ∷ ss) = ground (arith, categories_nonempty t ss)

any-categories :
    (c : String) (ss : List SecuritySignal)
    → differs_from c ss ≡ true
    → any (λ d. not (d == c)) (categories ss) ≡ true
unfolding categories
any-categories c [] h = cc
any-categories c (s ∷ ss) h = elim (Bool-cases (any (λ x. x == s.category) (categories ss))) [
  | inr new ↦ rw new (ground (arith, any-categories c ss))
  | inl old ↦ rw old (elim (Bool-cases (s.category == c)) [
    | inl same ↦ any-categories c ss (ground (arith, same))
    | inr other ↦ any_other c s.category (categories ss) old other
  ])
]
  where
    any_other :
        (c d : String) (xs : List String)
        → any (λ x. x == d) xs ≡ true
        → d == c ≡ false
        → any (λ x. not (x == c)) xs ≡ true
    any_other c d [] h n = cc
    any_other c d (x ∷ xs) h n = ground (arith, eq_iff x d, any_other c d xs)

any_own :
    (s : SecuritySignal) (ss : List SecuritySignal)
    → any (λ x. x == s.category) (categories (s ∷ ss)) ≡ true
unfolding categories
any_own s ss = elim (Bool-cases (any (λ x. x == s.category) (categories ss))) [
  | inl old ↦ rw old old
  | inr new ↦ rw new (ground (arith, eq_refl s.category))
]

-- a list with an item that is `c` and one that is not has two items
two_items :
    (c : String) (xs : List String)
    → any (λ x. x == c) xs ≡ true
    → any (λ x. not (x == c)) xs ≡ true
    → 2 ≤ length xs
two_items c [] h k = absurd cc
two_items c (x ∷ []) h k = ground arith
two_items c (x ∷ y ∷ xs) h k = omega arith

few_categories :
    (s : SecuritySignal) (ss : List SecuritySignal)
    → ltb (length (categories (s ∷ ss))) 2 ≡ not (is_correlated (s ∷ ss))
few_categories s ss = elim (Bool-cases (differs_from s.category ss)) [
  | inl apart ↦ rw apart (
      ground (
        arith,
        two_items s.category (categories (s ∷ ss)) (any_own s ss)
            (any-categories s.category (s ∷ ss) (ground (arith, apart))),
      ))
  | inr alike ↦
      rw alike
        (elim (categories_single s.category (s ∷ ss) (ground (arith, alike, eq_refl s.category))) [
          | inl e ↦ rw e refl
          | inr e ↦ rw e refl
        ])
]

-- A state is called suspicious or worse exactly when an authoritative source confirmed it or two of the
-- signals are of different categories.
pub classify_security_state-is_elevated :
    (unit : ℕ) (signals : List SecuritySignal) (policy_violation confirmed : Bool)
    → is_elevated (classify_security_state unit signals policy_violation confirmed).classification
      ≡ (confirmed || is_correlated signals)
unfolding classify_security_state
classify_security_state-is_elevated unit [] policy_violation confirmed = ground arith
classify_security_state-is_elevated unit (s ∷ ss) policy_violation confirmed =
    ground (arith, few_categories s ss)
