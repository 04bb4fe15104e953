-- ===== src/Classification.antt =====
-- helpdesktool/security_classification.py: how bad a device's state is said to be. A weight,
-- in the source a number from 0 to 1, is a number of parts of which `unit` make 1.0: sums are exact here,
-- where the source's sums of floats may round. The rationale's text is not modelled.
pub mod Correlation
pub mod Examples
use helpdesktool.Prelude.{
  ℕ, suc, ◌+◌, ◌*◌, String, Bool, true, false, ◌||◌, Option, none, some, List, [], ◌∷◌, ◌==◌, any,
  ltb, leb, length, if◌then◌else◌,
}
use helpdesktool.Models.{SecurityClassification}
use helpdesktool.Models.Space.{is_blank}

pub record SecuritySignal : Type 0 where
  pub category : String
  pub name : String
  pub weight : ℕ

-- `none` is the ValueError.
unfoldable pub make_signal : ℕ → SecuritySignal → Option SecuritySignal
unfolding is_blank
make_signal unit s =
    if is_blank s.category || is_blank s.name
    then none
    else if leb s.weight unit
    then some s
    else none

pub record ClassificationResult : Type 0 where
  pub classification : SecurityClassification
  pub distinct_categories : ℕ
  pub total_weight : ℕ

-- `{signal.category for signal in signals}`
unfoldable pub categories : List SecuritySignal → List String
categories [] = []
categories (s ∷ ss) =
    let rest = categories ss in if any (λ c. c == s.category) rest then rest else s.category ∷ rest

unfoldable pub total_weight_of : List SecuritySignal → ℕ
total_weight_of [] = 0
total_weight_of (s ∷ ss) = s.weight + total_weight_of ss

abbrev pub is_none : List SecuritySignal → Bool
is_none [] = true
is_none (s ∷ ss) = false

-- `classify_security_state`
unfoldable pub classify_security_state :
    ℕ → List SecuritySignal → Bool → Bool → ClassificationResult
unfolding categories total_weight_of
classify_security_state unit signals policy_violation confirmed =
    let n = length (categories signals) in
    let w = total_weight_of signals in
    if confirmed
    then record {
      classification = SecurityClassification.confirmed_compromise;
      distinct_categories = n;
      total_weight = w;
    }
    else if is_none signals
    then record {
      classification =
          if policy_violation
          then SecurityClassification.policy_violation
          else SecurityClassification.normal;
      distinct_categories = 0;
      total_weight = 0;
    }
    else if ltb n 2
    then record {
      classification =
          if policy_violation
          then SecurityClassification.policy_violation
          else SecurityClassification.misconfiguration;
      distinct_categories = n;
      total_weight = w;
    }
    else if leb 3 n
    then (if leb (2 * unit) w
        then record {
          classification = SecurityClassification.likely_compromised;
          distinct_categories = n;
          total_weight = w;
        }
        else record {
          classification = SecurityClassification.suspicious;
          distinct_categories = n;
          total_weight = w;
        })
    else record {
      classification = SecurityClassification.suspicious;
      distinct_categories = n;
      total_weight = w;
    }
