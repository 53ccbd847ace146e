-- ===== src/Usecase/Files/Delays.antt =====
-- `attachmentRetryDelay` of comment/attachment_service.go and `outboxRetryDelay` of
-- realtime/dispatcher.go.
use ms_go_comment.Base.{arith, min, pos_part, refl, suc, zero, ℕ, ℤ, ◌*◌, ◌-◌, ◌≡◌, ◌≤◌}
use ms_go_comment.Domain.Common.{minute, second}
use ms_go_comment.Usecase.Dispatch.{outbox_retry_delay}
use ms_go_comment.Usecase.Files.{doubled, min_ℕ, retry_delay}

-- Five seconds, doubled as often as asked for, without bounds.
abbrev pub backoff : ℕ → ℕ
backoff zero = 5 * second
backoff (suc n) = 2 * backoff n

backoff_le : (n : ℕ) → 5 * second ≤ backoff n
backoff_le zero = omega arith
backoff_le (suc n) = omega (arith, backoff_le n)

-- The delay behind a number of attempts.
steps-eq : (n : ℕ) → min_ℕ (doubled (min_ℕ n 6)) (5 * minute) ≡ min (backoff n) (5 * minute)
steps-eq zero = refl
steps-eq (suc zero) = refl
steps-eq (suc (suc zero)) = refl
steps-eq (suc (suc (suc zero))) = refl
steps-eq (suc (suc (suc (suc zero)))) = refl
steps-eq (suc (suc (suc (suc (suc zero))))) = refl
steps-eq (suc (suc (suc (suc (suc (suc n)))))) = ground (arith, backoff_le n)

-- attachmentRetryDelay and outboxRetryDelay, the shift of which is on 64 bits, both give five
-- seconds, doubled without bounds for each attempt behind the first, or five minutes where that is
-- less; an attempt below 1 counts as the first.
pub retry_delay-backoff :
    (attempt : ℤ)
    → (retry_delay attempt ≡ min (backoff (pos_part attempt - 1)) (5 * minute))
      × (outbox_retry_delay attempt ≡ min (backoff (pos_part attempt - 1)) (5 * minute))
unfolding retry_delay outbox_retry_delay
retry_delay-backoff attempt = let e = steps-eq (pos_part attempt - 1) in (e, ground (arith, e))
