-- ===== src/Webhooks.antt =====
-- helpdesktool/webhook_worker.py: the delivery of events to webhooks, with retries that wait longer and
-- longer. Times are in seconds. What comes before and during the HTTP exchange is the environment's: it
-- ends in a response's status or in an exception.
pub mod Attempts
pub mod Examples
use helpdesktool.Prelude.{
  ℕ, zero, suc, ◌+◌, ◌*◌, String, Bool, true, false, ◌&&◌, ◌||◌, not, Option, none, some, List, [],
  ◌∷◌, leb, ltb, eqb, if◌then◌else◌, any,
}

pub data DeliveryStatus : Type 0 where
  pending delivered cancelled dead_letter : DeliveryStatus

-- the columns of `webhook_deliveries` that the worker writes
pub record Delivery : Type 0 where
  pub status : DeliveryStatus
  pub attempt_count : ℕ
  pub next_attempt_at : ℕ
  pub last_attempt_at : Option ℕ
  pub delivered_at : Option ℕ
  pub response_status : Option ℕ
  pub last_error : Option String

-- how an attempt goes: there is no active subscription or no event, or the server answers, or the body of
-- the `try` raises an exception of a class
pub data Attempt : Type 0 where
  unavailable : Attempt
  answered : ℕ → Attempt
  raised : String → Attempt

abbrev pub is_success : ℕ → Bool
is_success code = leb 200 code && ltb code 300

abbrev pub is_retryable : ℕ → Bool
is_retryable code = any (eqb code) (408 ∷ 425 ∷ 429 ∷ []) || leb 500 code

abbrev pub min : ℕ → ℕ → ℕ
min a b = if leb a b then a else b

-- `2 ** n`
unfoldable pub power : ℕ → ℕ
power zero = 1
power (suc n) = 2 * power n

abbrev pub delay : ℕ → ℕ
delay attempts = min 3600 (power (min attempts 11))

-- the `where` of the SELECT
abbrev pub is_due : ℕ → Delivery → Bool
is_due now d = elim d.status [ pending ↦ leb d.next_attempt_at now | _ ↦ false ]

module _ (max_attempts : ℕ) (show_status : ℕ → String) (truncate : String → String) where
  -- `_fail`
  unfoldable pub fail : String → Bool → ℕ → Delivery → Delivery
  unfolding power
  fail error retryable now d =
      if not retryable || leb max_attempts d.attempt_count
      then record d { last_error = some (truncate error); status = dead_letter }
      else record d {
        last_error = some (truncate error);
        next_attempt_at = now + delay d.attempt_count;
      }

  abbrev pub answer : ℕ → ℕ → Delivery → Delivery
  answer code now d =
      if is_success code
      then record d {
        response_status = some code;
        status = delivered;
        delivered_at = some now;
        last_error = none;
      }
      else fail (show_status code) (is_retryable code) now
          (record d { response_status = some code })

  -- `_deliver`
  unfoldable pub deliver : Attempt → ℕ → Delivery → Delivery
  unfolding fail
  deliver a now d =
      let d' : Delivery = record d {
        attempt_count = d.attempt_count + 1;
        last_attempt_at = some now;
      } in
      elim a [
        | unavailable ↦ record d' {
          status = cancelled;
          last_error = some "subscription or event unavailable";
        }
        | answered code ↦ answer code now d'
        | raised name ↦ fail name true now d'
      ]

  -- what the batches, each at its time, do to one delivery: it is delivered where it is due
  unfoldable pub deliver_all : List (ℕ × Attempt) → Delivery → Delivery
  unfolding deliver
  deliver_all [] d = d
  deliver_all ((now, a) ∷ batches) d =
      deliver_all batches (if is_due now d then deliver a now d else d)
