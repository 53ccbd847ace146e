-- ===== src/Transport/Limits/Levels.antt =====
-- The levels of the actors in the limiter of guardrails.go.
use ms_go_comment.Base.{
  All, Bool, Option, arith, false, if◌then◌else◌, leb, length, ltb, min, none, some, true, ℕ, ◌&&◌,
  ◌*◌, ◌+◌, ◌-◌, ◌<◌, ◌==◌, ◌≡◌, ◌≤◌, ◌⊎◌,
}
use ms_go_comment.Domain.Common.{Time, Uuid}
use ms_go_comment.Transport.Limits.{Bucket, Limiter, fresh_bucket, refilled, token}
use ms_go_comment.Transport.Maps.{DistinctKeys, lookup}

-- What an actor may spend at a time: a bucket of `burst` tokens that fills at `rate`.
unfoldable pub balance : Limiter → Time → Option Bucket → ℕ
balance l now none = l.burst * token
balance l now (some b) = min (l.burst * token) (b.tokens + (now - b.last) * l.rate)

abbrev pub level : Limiter → Time → Uuid → ℕ
level l now id = balance l now (lookup id l.items)

abbrev pub Kept : Limiter → Time → Uuid × Bucket → Type 0
Kept l now e = (e.1.seen ≡ e.1.last) × (e.1.last ≤ now) × (e.1.tokens ≤ l.burst * token)

-- The state that `Allow` keeps, at a time, where an idle bucket is full again.
pub record Fair (l : Limiter) (now : Time) : Type 0 where
  pub sized : length l.items ≤ l.maximum
  pub idle : l.burst * token ≤ l.idle_expiry * l.rate
  pub distinct : DistinctKeys l.items
  pub kept : All (Kept l now) l.items

-- What `Allow` does to the levels.
pub record Spends (id : Uuid) (now : Time) (l : Limiter) (r : Bool × Limiter) : Type 0 where
  pub fair : Fair r.1 now
  pub rates : r.1.rate ≡ l.rate
  pub bursts : r.1.burst ≡ l.burst
  pub paid : r.0 ≡ true → token ≤ level l now id
  pub refused :
      r.0 ≡ false
      → (level l now id < token) ⊎ ((lookup id l.items ≡ none) × (l.maximum ≤ length r.1.items))
  pub levels : (i : Uuid) → level r.1 now i + (if r.0 && id == i then token else 0) ≡ level l now i

pub balance-fresh :
    (l : Limiter) (now : Time) → balance l now (some (fresh_bucket l now)) ≡ l.burst * token
unfolding balance
balance-fresh l now = ground arith

unfoldable pub spent : Limiter → Time → Bucket → Bucket
spent l now b = record {
  tokens = if leb token (refilled l now b) then refilled l now b - token else refilled l now b;
  last = now;
  seen = now;
}

-- The bucket's level before is what it holds after, and the token.
pub refilled-balance :
    (l : Limiter) (now : Time) (b : Bucket)
    → b.last ≤ now
    → b.tokens ≤ l.burst * token
    → refilled l now b ≡ balance l now (some b)
unfolding balance
refilled-balance l now b h k = ground arith

pub mul_mono : (a b c : ℕ) → a ≤ b → a * c ≤ b * c
mul_mono a b c h = grind arith

pub cap_of_idle :
    (l : Limiter) (now : Time) (b : Bucket)
    → l.burst * token ≤ l.idle_expiry * l.rate
    → b.seen ≡ b.last
    → ltb now (b.seen + l.idle_expiry) ≡ false
    → balance l now (some b) ≡ l.burst * token
unfolding balance
cap_of_idle l now b enough same old = ground (arith, filled)
  where
    waited : l.idle_expiry ≤ now - b.last
    waited = ground arith

    filled : l.idle_expiry * l.rate ≤ (now - b.last) * l.rate
    filled = mul_mono l.idle_expiry (now - b.last) l.rate waited
