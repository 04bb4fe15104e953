-- ===== src/Webhooks/Examples.antt =====
-- A delivery that fails, waits and fails for good.
use helpdesktool.Prelude.{◌≡◌, refl, String, true, none, List, [], ◌∷◌, ℕ}
use helpdesktool.Webhooks.{pending, Delivery, Attempt, answered, raised, deliver_all}
use helpdesktool.Webhooks.Attempts.{delivery_ok, deliver_all-delivery_ok}

abbrev show_status : ℕ → String
show_status n = "HTTP"

abbrev truncate : String → String
truncate s = s

abbrev delivery : Delivery
delivery = record {
  status = pending;
  attempt_count = 0;
  next_attempt_at = 0;
  last_attempt_at = none;
  delivered_at = none;
  response_status = none;
  last_error = none;
}

abbrev batches : List (ℕ × Attempt)
batches = (10, answered 503) ∷ (11, answered 200) ∷ (14, raised "TimeoutError") ∷ []

deliver_all-delivery_ok_example :
    delivery_ok 2 (deliver_all 2 show_status truncate batches delivery) ≡ true
deliver_all-delivery_ok_example =
    deliver_all-delivery_ok 2 show_status truncate batches delivery refl
