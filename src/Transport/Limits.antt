-- ===== src/Transport/Limits.antt =====
-- internal/transport/http/middleware/guardrails.go: the rate limiter of the actors. Tokens are
-- counted in units of a thousand-millionth, so that `elapsed*rate` is a whole number; the rounding of
-- the source's `float64` is not represented. A run of the locked section is one step.
pub mod Levels
pub mod Fair
pub mod Runs
use ms_go_comment.Base.{
  Bool, List, Option, Result, [], authentication_required, err, false, if◌then◌else◌, keep, leb,
  length, ltb, ltb_ℤ, min, none, not, ok, pos, pos_part, rate_limited, some, unavailable, ℕ, ℤ, ◌*◌,
  ◌+◌, ◌-◌, ◌==◌, ◌||◌,
}
use ms_go_comment.Domain.Actor.{Actor}
use ms_go_comment.Domain.Common.{Time, Uuid, second}
use ms_go_comment.Transport.Maps.{lookup, put}

-- One token.
abbrev pub token : ℕ
token = 1_000_000_000

pub record Bucket : Type 0 where
  pub tokens : ℕ
  pub last : Time
  pub seen : Time

pub record Limiter : Type 0 where
  pub items : List (Uuid × Bucket)
  pub rate : ℕ
  pub burst : ℕ
  pub maximum : ℕ
  pub idle_expiry : Time

-- `newActorRateLimiter`; `clocked` says that a clock is given.
unfoldable pub new_limiter : ℤ → ℤ → ℤ → ℤ → Bool → Result Limiter
new_limiter rate burst maximum idle_expiry clocked =
    if ltb_ℤ rate (pos 1)
      || ltb_ℤ burst (pos 1)
      || ltb_ℤ maximum (pos 1)
      || ltb_ℤ idle_expiry (pos second)
      || not clocked
    then err unavailable
    else ok (record {
      items = [];
      rate = pos_part rate;
      burst = pos_part burst;
      maximum = pos_part maximum;
      idle_expiry = pos_part idle_expiry;
    })

-- `evictIdle`: a bucket stays that was seen after `now - idleExpiry`.
unfoldable pub evict_idle : Time → Limiter → Limiter
evict_idle now l = record l { items = keep (λ e. ltb now (e.1.seen + l.idle_expiry)) l.items }

-- The bucket refilled for the time that passed, the clock never running back.
abbrev pub refilled : Limiter → Time → Bucket → ℕ
refilled l now b =
    if ltb b.last now then min (l.burst * token) (b.tokens + (now - b.last) * l.rate) else b.tokens

abbrev pub not_before : Time → Bucket → Time
not_before now b = if ltb now b.last then b.last else now

-- The rest of `Allow`, with the bucket at hand.
unfoldable pub spend : Uuid → Time → Bucket → Limiter → Bool × Limiter
spend id now b l =
    let time = not_before now b in
    let tokens = refilled l time b in
    let allowed = leb token tokens in
    (
      allowed,
      record l {
        items =
            put id
              (record {
                tokens = if allowed then tokens - token else tokens;
                last = time;
                seen = time;
              })
              l.items;
      },
    )

-- The part of `Allow` that makes room for an actor without a bucket.
unfoldable pub room : Time → Limiter → Limiter
unfolding evict_idle
room now l = if leb l.maximum (length l.items) then evict_idle now l else l

abbrev pub fresh_bucket : Limiter → Time → Bucket
fresh_bucket l now = record { tokens = l.burst * token; last = now; seen = now }

unfoldable pub enter : Option Bucket → Uuid → Time → Limiter → Bool × Limiter
unfolding spend room
enter (some b) id now l = spend id now b l
enter none id now l =
    let l' = room now l in
    if leb l'.maximum (length l'.items) then (false, l') else spend id now (fresh_bucket l' now) l'

-- `Allow`
unfoldable pub allow : Uuid → Time → Limiter → Bool × Limiter
unfolding enter
allow id now l = if id == 0 then (false, l) else enter (lookup id l.items) id now l

-- `RateLimitActor`: the answer of the middleware before the handler runs, with the actor that the
-- context holds; `none` is a limiter that is not configured.
unfoldable pub rate_limit_actor :
    Option Actor → Time → Option Limiter → Result Actor × Option Limiter
unfolding allow
rate_limit_actor none now limiter = (err authentication_required, limiter)
rate_limit_actor (some actor) now none = (err rate_limited, none)
rate_limit_actor (some actor) now (some l) =
    let (allowed, l') = allow actor.user_id now l in
    (if allowed then ok actor else err rate_limited, some l')
