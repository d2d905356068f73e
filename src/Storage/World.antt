-- ===== src/Storage/World.antt =====
-- What a storage method runs against: the database, the clock, and the answers of the SQL driver.
-- A method is a function of the world that returns a Go result and the new world. Each SQL
-- statement asks the driver once, so every statement may fail: see `statement`.
pub mod Keeps
pub mod Runs
use romancy.Base.{String, ℕ, ◌+◌, ◌/◌, Bool, true, false, List, [], ◌∷◌, length}
use romancy.Json.{Json, Value}
use romancy.Errors.{Error, Result, ok, err, sql_error, wrap, message}
use romancy.Storage.Models.{Db, OutboxEvent}

-- What the program asks of the outside: the code of an activity, of a compensation, or a send.
pub data Call : Type 0 where
  activity : (name : String) (input : Json) → Call
  compensation : (name : String) (args : Json) → Call
  send : (event_id : String) → Call

pub record World : Type 0 where
  pub db : Db
  -- nanoseconds since 1970
  pub clock : ℕ
  -- nanoseconds that pass until the clock is read again, where a method reads it twice
  pub tick : ℕ
  -- whether the next statements fail, in order; those after the list's end succeed
  pub faults : List Bool
  -- the calls made so far, the last one first
  pub calls : List Call

abbrev pub M {ℓ} : Type ℓ → Type ℓ
M A = World → Result A × World

module _ {ℓ} {A : Type ℓ} where
  unfoldable pub pure : A → M A
  pure a w = (ok a, w)

  unfoldable pub raise : Error → M A
  raise e w = (err e, w)

  -- `fmt.Errorf("context: %w", err)` on the error path
  unfoldable pub in_context : String → M A → M A
  in_context s m w =
      let (r, w') = m w in elim r [ ok a ↦ (ok a, w') | err e ↦ (err (wrap s e), w') ]

  -- `_ = cleanup` before the result of `m` is returned, on both paths
  unfoldable pub finally : M A → M (Unit {0}) → M A
  finally m cleanup w = let (r, w') = m w in (r, (cleanup w').1)

infixl 5 ◌>>=◌ ◌>>◌
unfoldable pub ◌>>=◌ {ℓ κ} : {A : Type ℓ} {B : Type κ} → M A → (A → M B) → M B
◌>>=◌ m f w = let (r, w') = m w in elim r [ ok a ↦ f a w' | err e ↦ (err e, w') ]

unfoldable pub ◌>>◌ {ℓ} : {B : Type ℓ} → M (Unit {0}) → M B → M B
unfolding ◌>>=◌
m >> k = m >>= λ _. k

-- `if err := m; err != nil { cleanup; return err }`
unfoldable pub on_error {ℓ} : {A : Type ℓ} → M A → M (Unit {0}) → M A
on_error m cleanup w =
    let (r, w') = m w in elim r [ ok a ↦ (ok a, w') | err e ↦ (err e, (cleanup w').1) ]

-- `_ = m`
unfoldable pub ignore : M (Unit {0}) → M (Unit {0})
ignore m w = (ok tt, (m w).1)

answer : {A : Type 0} → List Bool → (Db → Result A × Db) → M A
answer [] f w = let (r, d) = f w.db in (r, record w { db = d; faults = [] })
answer (false ∷ rest) f w = let (r, d) = f w.db in (r, record w { db = d; faults = rest })
answer (true ∷ rest) f w = (err sql_error, record w { faults = rest })

-- One SQL statement. It fails and leaves the database alone, or has its effect.
unfoldable pub statement : {A : Type 0} → (Db → Result A × Db) → M A
unfolding answer
statement f w = answer w.faults f w

-- `datetime('now')`
abbrev pub seconds : World → ℕ
seconds w = w.clock / 1000000000

-- A statement that reads.
unfoldable pub query : {A : Type 0} → (Db → A) → M A
query f = statement (λ d. (ok (f d), d))

-- A statement that writes and reports how many rows it touched.
unfoldable pub exec : (Db → ℕ × Db) → M ℕ
exec f = statement (λ d. let (n, d') = f d in (ok n, d'))

-- A statement that writes.
unfoldable pub exec_ : (Db → Db) → M (Unit {0})
exec_ f = statement (λ d. (ok tt, f d))

unfoldable pub now : M ℕ
now w = (ok (seconds w), w)

unfoldable pub now_ns : M ℕ
now_ns w = (ok w.clock, w)

unfoldable pub now_ns_again : M ℕ
now_ns_again w = (ok (w.clock + w.tick), w)

unfoldable pub now_ms : M ℕ
now_ms w = (ok (w.clock / 1000000), w)

-- The code that the program runs and does not hold: activity functions, compensation functions and
-- the sender of the outbox. A call may answer otherwise each time: the number says how many calls
-- came before it.
pub record Outside : Type 0 where
  pub perform : (name : String) (input : Json) → ℕ → Result Value
  pub compensate : (name : String) (args : Json) → ℕ → Result (Unit {0})
  pub deliver : (event_id : String) → ℕ → Result (Unit {0})
  -- whether the context is done while the program waits for another attempt
  pub interrupts : ℕ → Bool

unfoldable pub called {ℓ} : {A : Type ℓ} → Call → (ℕ → Result A) → M A
called c answer w = (answer (length w.calls), record w { calls = c ∷ w.calls })
