-- ===== src/Usecase/Dispatch.antt =====
-- internal/usecase/realtime/dispatcher.go
pub mod Marks
pub mod Accounts
pub mod Leases
-- `Lease` is a duration that is used if it is positive; the publisher may be nil.
use ms_go_comment.Base.{
  Bool, Err, List, Result, Text, [], err, fail_if, if◌then◌else◌, ltb, ltb_ℤ, not, not_found, ok,
  pos, pos_part, take, unavailable, validation, ℕ, ℤ, ◌*◌, ◌++◌, ◌+ℤ◌, ◌+◌, ◌-◌, ◌∷◌,
}
use ms_go_comment.Domain.Common.{minute, second}
use ms_go_comment.Domain.Outbox.{OutboxEvent}
use ms_go_comment.Store.Monad.{Answer, Env, M, ask, attempt, call, clock, lift, pure, ◌>>=◌, ◌>>◌}
use ms_go_comment.Store.Outbox.{claim_pending, mark_failed, mark_published}
use ms_go_comment.Usecase.Files.{doubled, min_ℕ}

pub record Dispatcher : Type 0 where
  pub has_publisher : Bool
  pub lease : ℤ

-- `DispatchResult` with the errors that `Process` joins.
pub record DispatchResult : Type 0 where
  pub published : ℕ
  pub failed : ℕ
  pub errors : List Err

abbrev pub lease_of : Dispatcher → ℕ
lease_of d = if ltb_ℤ (pos 0) d.lease then pos_part d.lease else 30 * second

-- `outboxRetryDelay`
unfoldable pub outbox_retry_delay : ℤ → ℕ
outbox_retry_delay attempt =
    let delay = doubled (min_ℕ (pos_part attempt - 1) 6) in
    if ltb (5 * minute) delay then 5 * minute else delay

-- `boundedError` on the bytes of the text.
abbrev pub bounded_error : Text → Text
bounded_error message = take 2048 message

abbrev pub count_undelivered : Result (Unit {0}) → DispatchResult → DispatchResult
count_undelivered (ok _) r = record r { failed = r.failed + 1 }
count_undelivered (err e) r = record r { failed = r.failed + 1; errors = r.errors ++ e ∷ [] }

abbrev pub count_published : Result (Unit {0}) → DispatchResult → DispatchResult
count_published (ok _) r = record r { published = r.published + 1 }
count_published (err not_found) r = record r { published = r.published + 1 }
count_published (err e) r = record r { errors = r.errors ++ e ∷ [] }

module _ (env : Env) where
  -- One round of the loop.
  unfoldable pub deliver_one : OutboxEvent → Answer (Unit {0}) → DispatchResult → M DispatchResult
  deliver_one event (Answer.failed message) r = do
    now ← clock env
    result ← attempt (
        call env (
          mark_failed event.id (now + outbox_retry_delay (event.attempts +ℤ pos 1))
            (bounded_error message)))
    pure (count_undelivered result r)
  deliver_one event (Answer.done _) r = do
    now ← clock env
    result ← attempt (call env (mark_published event.id now))
    pure (count_published result r)

  unfoldable pub deliver_all : List OutboxEvent → DispatchResult → M DispatchResult
  unfolding deliver_one
  deliver_all [] r = pure r
  deliver_all (event ∷ more) r = do
    answer ← ask env env.publish_at
    r' ← deliver_one event answer r
    deliver_all more r'

  -- `Process`
  unfoldable pub process : Dispatcher → ℤ → M DispatchResult
  unfolding deliver_all
  process d limit = do
    lift (fail_if (ltb_ℤ limit (pos 1)) validation)
    lift (fail_if (not d.has_publisher) unavailable)
    now ← clock env
    events ← call env (claim_pending now (now + lease_of d) limit)
    deliver_all events (record { published = 0; failed = 0; errors = [] })
