-- ===== src/Activity/Attempts.antt =====
-- The retry loop of an activity: `executeWithRetry` of activity.go with `ShouldRetry` of
-- retry/policy.go.
use romancy.Base.{
  ℕ, ◌+◌, ◌≤◌, ◌<◌, ◌≡◌, refl, subst, ◌⊎◌, inl, inr, Bool, true, false, Option, none, some, List,
  ◌∷◌, zero, suc, not, length, arith, if◌then◌else◌,
}
use romancy.Json.{Json, Value}
use romancy.Errors.{Error, Result, ok, err, retry_exhausted, cancelled, is_terminal_error}
use romancy.Storage.World.{World, Call, activity, Outside, called}
use romancy.Activity.{
  Activity, Policy, policy_of, should_retry, judged, perform_activity, execute_with_retry,
}

-- The calls with a number of equal ones made after them.
abbrev pub repeated : ℕ → Call → List Call → List Call
repeated zero c calls = calls
repeated (suc n) c calls = repeated n c (c ∷ calls)

-- What is returned after a number of attempts, by the answer to the last of them, and by whether the
-- context is done after it.
abbrev pub Verdict : Activity → ℕ → Bool → Result Value → Result Value → Type 0
Verdict a n stopped (ok x) r = r ≡ ok x
Verdict a n stopped (err e) r =
    ((is_terminal_error e ≡ true) × (r ≡ err e))
    ⊎ ((is_terminal_error e ≡ false)
        × (should_retry (policy_of a) n e ≡ false)
        × (r ≡ err (retry_exhausted a.name n e)))
    ⊎ ((is_terminal_error e ≡ false)
        × (should_retry (policy_of a) n e ≡ true)
        × (stopped ≡ true)
        × (r ≡ err cancelled))

-- After a number of attempts there is another one: the last failed with an error that is not
-- terminal, the policy allows it, and the context is not done.
abbrev pub GoesOn : Activity → ℕ → Bool → Result Value → Type 0
GoesOn a n stopped (ok x) = ⊥
GoesOn a n stopped (err e) =
    (is_terminal_error e ≡ false) × (should_retry (policy_of a) n e ≡ true) × (stopped ≡ false)

-- The loop has ended, within the limit of the policy; it called the activity with this input, once
-- for each attempt, and touched nothing else. Each attempt before the last was to be followed by
-- another, and the last was to be the last.
abbrev pub Attempted :
    Outside → Activity → Json → ℕ → World → Option (Result Value × World) → Type 0
Attempted o a input m w none = ⊥
Attempted o a input m w (some (r, v)) =
    (j : ℕ) × (m + suc j ≤ (policy_of a).max_attempts)
    × (v ≡ record w { calls = repeated (suc j) (activity a.name input) w.calls })
    × ((i : ℕ)
        → i < j
        → GoesOn a (m + suc i) (o.interrupts (length w.calls + suc i))
            (o.perform a.name input (length w.calls + i)))
    × Verdict a (m + suc j) (o.interrupts (length w.calls + suc j))
        (o.perform a.name input (length w.calls + j)) r

retried_below :
    (p : Policy) (n : ℕ) (e : Error)
    → 0 < p.max_attempts
    → should_retry p n e ≡ true
    → n < p.max_attempts
unfolding should_retry
retried_below p n e b r = ground arith

module _ (o : Outside) (a : Activity) (input : Json) where
  abbrev asked : World → World
  asked w = record w { calls = activity a.name input ∷ w.calls }

  -- The same of an attempt, counted from one attempt before.
  moved :
      (P : ℕ → Bool → Result Value → Type 0) (m n k : ℕ)
      → P (suc m + suc k) (o.interrupts (suc n + suc k)) (o.perform a.name input (suc n + k))
      → P (m + suc (suc k)) (o.interrupts (n + suc (suc k))) (o.perform a.name input (n + suc k))
  moved P m n k p =
      subst (λ x. P x (o.interrupts (n + suc (suc k))) (o.perform a.name input (n + suc k)))
        (omega arith)
        (subst (λ x. P (suc m + suc k) (o.interrupts x) (o.perform a.name input (n + suc k)))
          (omega arith)
          (subst (λ x. P (suc m + suc k) (o.interrupts (suc n + suc k)) (o.perform a.name input x))
            (omega arith) p))

  -- The same of the first attempt.
  first :
      (P : ℕ → Bool → Result Value → Type 0) (m n : ℕ) (answer : Result Value)
      → answer ≡ o.perform a.name input n
      → P (suc m) (o.interrupts (suc n)) answer
      → P (m + suc 0) (o.interrupts (n + suc 0)) (o.perform a.name input (n + 0))
  first P m n answer e p =
      subst (λ x. P x (o.interrupts (n + suc 0)) (o.perform a.name input (n + 0))) (omega arith)
        (subst (λ x. P (suc m) (o.interrupts x) (o.perform a.name input (n + 0))) (omega arith)
          (subst (λ x. P (suc m) (o.interrupts (suc n)) (o.perform a.name input x)) (omega arith)
            (subst (P (suc m) (o.interrupts (suc n))) e p)))

  later :
      (m : ℕ) (w : World) (answer : Result Value) (out : Option (Result Value × World))
      → answer ≡ o.perform a.name input (length w.calls)
      → GoesOn a (suc m) (o.interrupts (suc (length w.calls))) answer
      → Attempted o a input (suc m) (asked w) out
      → Attempted o a input m w out
  later m w answer none same_answer goes t = t
  later m w answer (some (r, v)) same_answer goes (j, l, e, before, verdict) = (
    suc j,
    omega arith,
    e,
    earlier,
    moved (λ x b y. Verdict a x b y r) m (length w.calls) j verdict,
  )
    where
      earlier :
          (i : ℕ)
          → i < suc j
          → GoesOn a
              (m + suc i)
              (o.interrupts (length w.calls + suc i))
              (o.perform a.name input (length w.calls + i))
      earlier zero h = first (GoesOn a) m (length w.calls) answer same_answer goes
      earlier (suc i) h = moved (GoesOn a) m (length w.calls) i (before i (omega arith))

  once :
      (m : ℕ) (w : World) (answer r : Result Value)
      → answer ≡ o.perform a.name input (length w.calls)
      → m < (policy_of a).max_attempts
      → Verdict a (suc m) (o.interrupts (suc (length w.calls))) answer r
      → Attempted o a input m w (some (r, asked w))
  once m w answer r e l v = (
    0,
    omega arith,
    refl,
    λ i h. absurd (omega arith),
    first (λ x b y. Verdict a x b y r) m (length w.calls) answer e v,
  )

  judged-Attempted :
      (m : ℕ) (w : World) (again : World → Option (Result Value × World)) (r : Result Value)
      → r ≡ o.perform a.name input (length w.calls)
      → m < (policy_of a).max_attempts
      → (suc m < (policy_of a).max_attempts
          → Attempted o a input (suc m) (asked w) (again (asked w)))
      → Attempted o a input m w (judged o again a (suc m) (r, asked w))
  judged-Attempted m w again (ok x) e l ih = once m w (ok x) (ok x) e l refl
  judged-Attempted m w again (err x) e l ih =
      go (is_terminal_error x) (should_retry (policy_of a) (suc m) x)
        (o.interrupts (suc (length w.calls))) refl refl refl
    where
      go :
          (t s i : Bool)
          → is_terminal_error x ≡ t
          → should_retry (policy_of a) (suc m) x ≡ s
          → o.interrupts (suc (length w.calls)) ≡ i
          → Attempted o a input m w (
              if t
              then some (err x, asked w)
              else if not s
              then some (err (retry_exhausted a.name (suc m) x), asked w)
              else if i
              then some (err cancelled, asked w)
              else again (asked w))
      go true s i et es ei = once m w (err x) _ e l (inl (et, refl))
      go false false i et es ei = once m w (err x) _ e l (inr (inl (et, es, refl)))
      go false true true et es ei = once m w (err x) _ e l (inr (inr (et, es, ei, refl)))
      go false true false et es ei =
          later m w (err x) (again (asked w)) e (et, es, ei)
            (ih (retried_below (policy_of a) (suc m) x (omega arith) es))

  attempts_from :
      (fuel m : ℕ) (w : World)
      → m < (policy_of a).max_attempts
      → (policy_of a).max_attempts ≤ m + fuel
      → Attempted o a input m w (execute_with_retry o fuel a input m w)
  unfolding execute_with_retry perform_activity called
  attempts_from zero m w l f = absurd (omega arith)
  attempts_from (suc fuel) m w l f =
      judged-Attempted m w (execute_with_retry o fuel a input (suc m))
        (o.perform a.name input (length w.calls)) refl l
        (λ l'. attempts_from fuel (suc m) (asked w) l' (omega arith))

-- With a limit on the attempts, and as much fuel, the retry loop ends within the limit. It has called
-- the activity with this input once for each attempt and touched nothing else. Every attempt but the
-- last failed with an error that is not terminal and that the policy retries after so many attempts,
-- and the context was not done then. The last attempt gave the result that is returned, or a terminal
-- error that is returned, or an error that the policy does not retry, for which the
-- exhausted-retries error is returned, or one that it retries while the context is done, for which
-- the cancellation is returned.
pub execute_with_retry-Attempted :
    (o : Outside) (fuel : ℕ) (a : Activity) (input : Json) (w : World)
    → 0 < (policy_of a).max_attempts
    → (policy_of a).max_attempts ≤ fuel
    → Attempted o a input 0 w (execute_with_retry o fuel a input 0 w)
execute_with_retry-Attempted o fuel a input w b f = attempts_from o a input fuel 0 w b (omega arith)
