-- ===== src/Storage/World/Keeps.antt =====
-- Invariants of the tables under the methods: one rule for each way to build a method. The clock
-- stands still during a method.
use romancy.Base.{
  ℕ, ◌/◌, ◌≡◌, refl, sym, subst, Bool, true, false, List, [], ◌∷◌, if◌then◌else◌, String,
}
use romancy.Errors.{Error, Result, ok, err, sql_error}
use romancy.Storage.Models.{Db}
use romancy.Storage.World.{
  World, M, Call, pure, raise, in_context, finally, on_error, ignore, ◌>>=◌, ◌>>◌, statement, query,
  exec, exec_, now, now_ms, called, answer,
}

-- What holds of the outcome of a statement, by whether the driver failed.
pub statement_cases {ℓ} :
    {A : Type 0} (P : Result A × World → Type ℓ) (f : Db → Result A × Db) (w : World)
    → ((rest : List Bool) → P (err sql_error, record w { faults = rest }))
    → ((rest : List Bool) → P ((f w.db).0, record w { db = (f w.db).1; faults = rest }))
    → P (statement f w)
unfolding statement
statement_cases {A} P f w bad good = go w.faults
  where
    go : (fs : List Bool) → P (answer fs f w)
    go [] = good []
    go (false ∷ rest) = good rest
    go (true ∷ rest) = bad rest

-- At a time, the method keeps what holds of the tables, whether it returns or fails.
pub record Keeps {ℓ} {A : Type 0} (t : ℕ) (I : Db → Type ℓ) (m : M A) : Type ℓ where
  pub at : (w : World) → w.clock ≡ t → I w.db → ((m w).1.clock ≡ t) × I (m w).1.db

module _ {ℓ} {t : ℕ} {I : Db → Type ℓ} where
  pub Keeps-pure : {A : Type 0} (a : A) → Keeps t I (pure a)
  unfolding pure
  Keeps-pure a = record { at = λ w c h. (c, h) }

  pub Keeps-raise : {A : Type 0} (e : Error) → Keeps t I (raise {A = A} e)
  unfolding raise
  Keeps-raise e = record { at = λ w c h. (c, h) }

  -- A statement keeps what its effect keeps.
  pub Keeps-statement :
      {A : Type 0} (f : Db → Result A × Db) → ((d : Db) → I d → I (f d).1) → Keeps t I (statement f)
  unfolding statement
  Keeps-statement {A} f keep = record { at = λ w c h. go w.faults w c h }
    where
      go :
          (fs : List Bool) (w : World)
          → w.clock ≡ t
          → I w.db
          → ((answer fs f w).1.clock ≡ t) × I (answer fs f w).1.db
      go [] w c h = (c, keep w.db h)
      go (false ∷ rest) w c h = (c, keep w.db h)
      go (true ∷ rest) w c h = (c, h)

  pub Keeps-query : {A : Type 0} (f : Db → A) → Keeps t I (query f)
  unfolding query
  Keeps-query f = Keeps-statement _ (λ d h. h)

  pub Keeps-exec : (f : Db → ℕ × Db) → ((d : Db) → I d → I (f d).1) → Keeps t I (exec f)
  unfolding exec
  Keeps-exec f keep = Keeps-statement _ keep

  pub Keeps-exec_ : (f : Db → Db) → ((d : Db) → I d → I (f d)) → Keeps t I (exec_ f)
  unfolding exec_
  Keeps-exec_ f keep = Keeps-statement _ keep

  pub Keeps-called : {A : Type 0} (c : Call) (f : ℕ → Result A) → Keeps t I (called c f)
  unfolding called
  Keeps-called c f = record { at = λ w k h. (k, h) }

  pub Keeps-if :
      {A : Type 0} (b : Bool) (m n : M A)
      → (b ≡ true → Keeps t I m)
      → (b ≡ false → Keeps t I n)
      → Keeps t I (if b then m else n)
  Keeps-if true m n km kn = km refl
  Keeps-if false m n km kn = kn refl

  -- What follows a read of the clock may use the time that was read.
  pub Keeps-now :
      {B : Type 0} (f : ℕ → M B) → Keeps t I (f (t / 1000000000)) → Keeps t I (now >>= f)
  unfolding ◌>>=◌ now
  Keeps-now f k = record {
    at = λ w c h.
        subst (λ n. ((f (n / 1000000000) w).1.clock ≡ t) × I (f (n / 1000000000) w).1.db) (sym c)
          (k.at w c h);
  }

  pub Keeps-now_ms :
      {B : Type 0} (f : ℕ → M B) → Keeps t I (f (t / 1000000)) → Keeps t I (now_ms >>= f)
  unfolding ◌>>=◌ now_ms
  Keeps-now_ms f k = record {
    at = λ w c h.
        subst (λ n. ((f (n / 1000000) w).1.clock ≡ t) × I (f (n / 1000000) w).1.db) (sym c)
          (k.at w c h);
  }

  continue :
      {A B : Type 0} (f : A → M B)
      → ((a : A) → Keeps t I (f a))
      → (r : Result A) (v : World) → (v.clock ≡ t) × I v.db
      → let x : Result B × World = elim r [ ok a ↦ f a v | err e ↦ (err e, v) ] in
        (x.1.clock ≡ t) × I x.1.db
  continue f kf (ok a) v h = (kf a).at v h.0 h.1
  continue f kf (err e) v h = h

  pub Keeps-bind :
      {A B : Type 0} (m : M A) (f : A → M B)
      → Keeps t I m
      → ((a : A) → Keeps t I (f a))
      → Keeps t I (m >>= f)
  unfolding ◌>>=◌
  Keeps-bind m f km kf = record { at = λ w c h. continue f kf (m w).0 (m w).1 (km.at w c h) }

  pub Keeps-then :
      {B : Type 0} (m : M (Unit {0})) (k : M B) → Keeps t I m → Keeps t I k → Keeps t I (m >> k)
  unfolding ◌>>◌
  Keeps-then m k km kk = Keeps-bind m (λ _. k) km (λ _. kk)

  pub Keeps-ignore : (m : M (Unit {0})) → Keeps t I m → Keeps t I (ignore m)
  unfolding ignore
  Keeps-ignore m km = record { at = km.at }

  pub Keeps-finally :
      {A : Type 0} (m : M A) (c : M (Unit {0}))
      → Keeps t I m
      → Keeps t I c
      → Keeps t I (finally m c)
  unfolding finally
  Keeps-finally m c km kc = record { at = λ w e h. let p = km.at w e h in kc.at (m w).1 p.0 p.1 }

  pub Keeps-in_context :
      {A : Type 0} (s : String) (m : M A) → Keeps t I m → Keeps t I (in_context s m)
  unfolding in_context
  Keeps-in_context {A} s m km = record { at = λ w e h. go (m w).0 (m w).1 (km.at w e h) }
    where
      go :
          (r : Result A) (v : World)
          → (v.clock ≡ t) × I v.db
          → let x : Result A × World = elim r [
            | ok a ↦ (ok a, v)
            | err e ↦ (err (Error.wrap s e), v)
          ] in
            (x.1.clock ≡ t) × I x.1.db
      go (ok a) v h = h
      go (err e) v h = h

  pub Keeps-on_error :
      {A : Type 0} (m : M A) (c : M (Unit {0}))
      → Keeps t I m
      → Keeps t I c
      → Keeps t I (on_error m c)
  unfolding on_error
  Keeps-on_error {A} m c km kc = record { at = λ w e h. go (m w).0 (m w).1 (km.at w e h) }
    where
      go :
          (r : Result A) (v : World)
          → (v.clock ≡ t) × I v.db
          → let x : Result A × World = elim r [ ok a ↦ (ok a, v) | err e ↦ (err e, (c v).1) ] in
            (x.1.clock ≡ t) × I x.1.db
      go (ok a) v h = h
      go (err e) v h = kc.at v h.0 h.1

pub ruleset keeps_rules = (
  Keeps-pure, Keeps-raise, Keeps-query, Keeps-called, Keeps-if, Keeps-now, Keeps-now_ms, Keeps-bind,
  Keeps-then, Keeps-ignore, Keeps-finally, Keeps-in_context, Keeps-on_error,
)

-- A statement that the driver does not fail.
pub statement_done :
    {A : Type 0} (f : Db → Result A × Db) (w : World)
    → w.faults ≡ []
    → statement f w ≡ ((f w.db).0, record w { db = (f w.db).1; faults = [] })
unfolding statement
statement_done {A} f w e = go w.faults e
  where
    go :
        (fs : List Bool)
        → fs ≡ []
        → answer fs f w ≡ ((f w.db).0, record w { db = (f w.db).1; faults = [] })
    go [] e = refl
    go (b ∷ rest) e = cc
