-- ===== src/Webhooks/Delivery.antt =====
-- deliverWithRetry and SendTest of dispatcher.go: what a receiver's answers lead to.
pub mod Retries
use otel_fleet.Prelude.{
  ℕ, zero, suc, ◌+◌, ◌*◌, Bool, true, false, ◌&&◌, Option, none, some, List, [], ◌∷◌, leb, ltb,
  if◌then◌else◌,
}

abbrev pub second : ℕ
second = 1000000000

abbrev pub backoff : List ℕ
backoff = second ∷ 5 * second ∷ 25 * second ∷ []

-- An attempt: the status of the answer, or an error of the network.
pub data Answer : Type 0 where
  network_error : Answer
  status : ℕ → Answer

pub data Verdict : Type 0 where
  delivered rejected given_up cancelled : Verdict

abbrev pub is_success : ℕ → Bool
is_success s = leb 200 s && ltb s 300

-- What an answer means for the loop; none: it is tried again.
unfoldable pub verdict_of : Answer → Option Verdict
verdict_of network_error = none
verdict_of (status s) =
    if is_success s then some delivered else if ltb s 500 then some rejected else none

pub record Delivery : Type 0 where
  pub verdict : Verdict
  pub attempts : ℕ
  pub waited : ℕ

-- The loop from an attempt on, with the waits that are left and the time waited so far. `answer` is
-- what an attempt brings, `is_cancelled` whether the context ends in the wait after it.
unfoldable pub deliver_from : (ℕ → Answer) → (ℕ → Bool) → List ℕ → ℕ → ℕ → Delivery
deliver_from answer is_cancelled [] attempt waited = elim (verdict_of (answer attempt)) [
  | some v ↦ record { verdict = v; attempts = attempt + 1; waited = waited }
  | none ↦ record { verdict = given_up; attempts = attempt + 1; waited = waited }
]
deliver_from answer is_cancelled (wait ∷ waits) attempt waited =
    elim (verdict_of (answer attempt)) [
      | some v ↦ record { verdict = v; attempts = attempt + 1; waited = waited }
      | none ↦ elim (is_cancelled attempt) [
        | true ↦ record { verdict = cancelled; attempts = attempt + 1; waited = waited }
        | false ↦ deliver_from answer is_cancelled waits (attempt + 1) (waited + wait)
      ]
    ]

abbrev pub deliver_with_retry : (ℕ → Answer) → (ℕ → Bool) → Delivery
deliver_with_retry answer is_cancelled = deliver_from answer is_cancelled backoff 0 0

-- SendTest: one attempt, and whether it was taken.
unfoldable pub send_test : Answer → Bool
send_test network_error = false
send_test (status s) = is_success s
