-- ===== src/Webhooks/Attempts.antt =====
-- How often and when webhook_worker.py tries a delivery.
use helpdesktool.Prelude.{
  ℕ, zero, suc, ◌+◌, ◌≤◌, ◌<◌, String, ◌≡◌, refl, inl, inr, Bool, true, false, ◌||◌, not, some,
  List, [], ◌∷◌, arith, leb, ltb, Bool-cases,
}
use helpdesktool.Webhooks.{
  pending, Delivery, Attempt, unavailable, answered, raised, is_due, fail, power, min, delay,
  deliver, deliver_all, is_success, is_retryable,
}

-- no more attempts than the maximum, and one left where the delivery is pending
abbrev pub delivery_ok : ℕ → Delivery → Bool
delivery_ok max_attempts d = elim d.status [
  | pending ↦ ltb d.attempt_count max_attempts
  | _ ↦ leb d.attempt_count max_attempts
]

abbrev pub is_pending : Delivery → Bool
is_pending d = elim d.status [ pending ↦ true | _ ↦ false ]

power_pos : (n : ℕ) → 1 ≤ power n
unfolding power
power_pos zero = omega arith
power_pos (suc n) = omega (arith, power_pos n)

power_mono : (m n : ℕ) → m ≤ n → power m ≤ power n
unfolding power
power_mono zero n h = power_pos n
power_mono (suc m) zero h = absurd (omega arith)
power_mono (suc m) (suc n) h = omega (arith, power_mono m n (omega arith))

power_eleven : power 11 ≡ 2048
unfolding power
power_eleven = refl

power_one : power 1 ≡ 2
unfolding power
power_one = refl

delay-bounds : (n : ℕ) → 1 ≤ n → (2 ≤ delay n) × (delay n ≤ 2048)
delay-bounds n h =
    let k = min n 11 in
    let low : 2 ≤ power k = omega (arith, power_mono 1 k (ground arith), power_one) in
    let high : power k ≤ 2048 = omega (arith, power_mono k 11 (ground arith), power_eleven) in
    (ground (arith, low), ground (arith, high))

module _ (max_attempts : ℕ) (show_status : ℕ → String) (truncate : String → String) where
  fail_ok :
      (error : String) (retryable : Bool) (now : ℕ) (d : Delivery)
      → d.attempt_count ≤ max_attempts
      → delivery_ok max_attempts (fail max_attempts show_status truncate error retryable now d)
        ≡ true
  unfolding fail
  fail_ok error retryable now d h = ground arith

  deliver_ok :
      (a : Attempt) (now : ℕ) (d : Delivery)
      → d.attempt_count < max_attempts
      → delivery_ok max_attempts (deliver max_attempts show_status truncate a now d) ≡ true
  unfolding deliver
  deliver_ok unavailable now d h = ground arith
  deliver_ok (raised name) now d h =
      fail_ok name true now
        (record d { attempt_count = d.attempt_count + 1; last_attempt_at = some now }) (omega arith)
  deliver_ok (answered code) now d h =
      let d' : Delivery = record d {
        attempt_count = d.attempt_count + 1;
        last_attempt_at = some now;
      } in
      elim (Bool-cases (is_success code)) [
        | inl good ↦ rw good (ground arith)
        | inr bad ↦ rw bad (
            fail_ok (show_status code) (is_retryable code) now
              (record d' { response_status = some code }) (omega arith))
      ]

  -- Through any batches a delivery is tried at most the maximum number of times, and one that is still
  -- pending has been tried less often.
  pub deliver_all-delivery_ok :
      (batches : List (ℕ × Attempt)) (d : Delivery)
      → delivery_ok max_attempts d ≡ true
      → delivery_ok max_attempts (deliver_all max_attempts show_status truncate batches d) ≡ true
  unfolding deliver_all
  deliver_all-delivery_ok [] d h = h
  deliver_all-delivery_ok ((now, a) ∷ batches) d h = elim (Bool-cases (is_due now d)) [
    | inl due ↦ rw due (
        deliver_all-delivery_ok batches (deliver max_attempts show_status truncate a now d)
          (deliver_ok a now d (ground (arith, due))))
    | inr other ↦ rw other (deliver_all-delivery_ok batches d h)
  ]

  -- what a delivery that stays pending is left with
  abbrev pub IsPostponed : ℕ → Delivery → Delivery → Type 0
  IsPostponed now d d' =
      (d'.attempt_count ≡ d.attempt_count + 1)
      × (now + 2 ≤ d'.next_attempt_at)
      × (d'.next_attempt_at ≤ now + 2048)

  fail-IsPostponed :
      (error : String) (retryable : Bool) (now : ℕ) (d : Delivery)
      → 1 ≤ d.attempt_count
      → is_pending (fail max_attempts show_status truncate error retryable now d) ≡ true
      → is_pending d ≡ true
      → (now + 2 ≤ (fail max_attempts show_status truncate error retryable now d).next_attempt_at)
        × ((fail max_attempts show_status truncate error retryable now d).next_attempt_at
            ≤ now + 2048)
        × ((fail max_attempts show_status truncate error retryable now d).attempt_count
            ≡ d.attempt_count)
  unfolding fail
  fail-IsPostponed error retryable now d h p q =
      let (low, high) = delay-bounds d.attempt_count h in
      elim (Bool-cases (not retryable || leb max_attempts d.attempt_count)) [
        | inl dead ↦ absurd (ground (arith, dead))
        | inr alive ↦ rw alive (omega (arith, low), omega (arith, high), refl)
      ]

  -- A pending delivery that is tried and stays pending is due again no sooner than two seconds later and no
  -- later than 2048 seconds.
  pub deliver-IsPostponed :
      (a : Attempt) (now : ℕ) (d : Delivery)
      → is_pending d ≡ true
      → is_pending (deliver max_attempts show_status truncate a now d) ≡ true
      → IsPostponed now d (deliver max_attempts show_status truncate a now d)
  unfolding deliver
  deliver-IsPostponed unavailable now d q p = absurd (ground arith)
  deliver-IsPostponed (raised name) now d q p =
      let (low, high, same) =
        fail-IsPostponed name true now
          (record d { attempt_count = d.attempt_count + 1; last_attempt_at = some now })
          (omega arith) p q in
      (same, low, high)
  deliver-IsPostponed (answered code) now d q p =
      let d' : Delivery = record d {
        attempt_count = d.attempt_count + 1;
        last_attempt_at = some now;
      } in
      elim (Bool-cases (is_success code)) [
        | inl good ↦ absurd (ground (arith, good))
        | inr bad ↦
            let (low, high, same) =
              fail-IsPostponed (show_status code) (is_retryable code) now
                (record d' { response_status = some code }) (omega arith) (rw bad at p) q in
            rw bad (same, low, high)
      ]
