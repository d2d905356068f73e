-- ===== src/App/Tasks/Backoff.antt =====
-- `calculateBackoff` (app.go).
use romancy.Base.{ℕ, zero, suc, ◌≤◌, ◌≡◌, arith}
use romancy.App.Tasks.{calculate_backoff}

-- Between the base and the maximum, where the base is no more than the maximum, and a worker that
-- found nothing once more waits no shorter; after five times the wait does not change.
pub calculate_backoff-bounds :
    (base n max_backoff : ℕ)
    → base ≤ max_backoff
    → (base ≤ calculate_backoff base n max_backoff)
      × (calculate_backoff base n max_backoff ≤ max_backoff)
      × (calculate_backoff base n max_backoff ≤ calculate_backoff base (suc n) max_backoff)
      × (5 ≤ n → calculate_backoff base n max_backoff ≡ calculate_backoff base 5 max_backoff)
unfolding calculate_backoff
calculate_backoff-bounds base zero max_backoff h =
    (ground arith, ground arith, ground arith, λ big. ground arith)
calculate_backoff-bounds base (suc zero) max_backoff h =
    (ground arith, ground arith, ground arith, λ big. ground arith)
calculate_backoff-bounds base (suc (suc zero)) max_backoff h =
    (ground arith, ground arith, ground arith, λ big. ground arith)
calculate_backoff-bounds base (suc (suc (suc zero))) max_backoff h =
    (ground arith, ground arith, ground arith, λ big. ground arith)
calculate_backoff-bounds base (suc (suc (suc (suc zero)))) max_backoff h =
    (ground arith, ground arith, ground arith, λ big. ground arith)
calculate_backoff-bounds base (suc (suc (suc (suc (suc n))))) max_backoff h =
    (ground arith, ground arith, ground arith, λ big. ground arith)
