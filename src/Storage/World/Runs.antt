-- ===== src/Storage/World/Runs.antt =====
-- Runs of methods in which a statement succeeds: one rule for each way to go on.
use romancy.Base.{◌≡◌, refl, sym, subst, Bool, List}
use romancy.Errors.{Error, Result, ok, err, sql_error}
use romancy.Storage.Models.{Db}
use romancy.Storage.World.{World, M, ◌>>=◌, ◌>>◌, query, exec_}
use romancy.Storage.World.Keeps.{statement_cases}

-- What holds after the rest of a method holds after all of it.
pub bind-ok {ℓ} :
    {A B : Type 0} (P : Result B × World → Type ℓ) (m : M A) (f : A → M B) (w v : World) (a : A)
    → m w ≡ (ok a, v)
    → P (f a v)
    → P ((m >>= f) w)
unfolding ◌>>=◌
bind-ok P m f w v a e p = subst (λ out. P (((λ (u : World). out) >>= f) w)) (sym e) p

pub then-ok {ℓ} :
    {B : Type 0} (P : Result B × World → Type ℓ) (m : M (Unit {0})) (k : M B) (w v : World)
    → m w ≡ (ok tt, v)
    → P (k v)
    → P ((m >> k) w)
unfolding ◌>>◌
then-ok P m k w v e p = bind-ok P m (λ _. k) w v tt e p

-- What holds of every failure, and after every success of the first step, holds of the method.
pub bind-each {ℓ} :
    {A B : Type 0} (P : Result B × World → Type ℓ) (m : M A) (f : A → M B) (w : World)
    → ((e : Error) (v : World) → P (err e, v))
    → ((a : A) (v : World) → m w ≡ (ok a, v) → P (f a v))
    → P ((m >>= f) w)
unfolding ◌>>=◌
bind-each {A} P m f w bad good = go (m w) refl
  where
    go : (out : Result A × World) → m w ≡ out → P (((λ (u : World). out) >>= f) w)
    go (ok a, v) e = good a v e
    go (err x, v) e = bad x v

-- What holds where a read fails, and after it, holds of the method; and so of a write.
pub query-each {ℓ} :
    {A B : Type 0} (P : Result B × World → Type ℓ) (q : Db → A) (f : A → M B) (w : World)
    → ((rest : List Bool) → P (err sql_error, record w { faults = rest }))
    → ((rest : List Bool) → P (f (q w.db) (record w { faults = rest })))
    → P ((query q >>= f) w)
unfolding ◌>>=◌ query
query-each P q f w bad good =
    statement_cases (λ out. P (((λ (u : World). out) >>= f) w)) (λ d. (ok (q d), d)) w bad good

pub exec-each {ℓ} :
    {B : Type 0} (P : Result B × World → Type ℓ) (g : Db → Db) (k : M B) (w : World)
    → ((rest : List Bool) → P (err sql_error, record w { faults = rest }))
    → ((rest : List Bool) → P (k (record w { db = g w.db; faults = rest })))
    → P ((exec_ g >> k) w)
unfolding ◌>>◌ ◌>>=◌ exec_
exec-each P g k w bad good =
    statement_cases (λ out. P (((λ (u : World). out) >> k) w)) (λ d. (ok tt, g d)) w bad good
