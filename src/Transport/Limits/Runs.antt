-- ===== src/Transport/Limits/Runs.antt =====
-- Runs of calls of `Allow` in guardrails.go.
use ms_go_comment.Base.{
  Bool, Bool-cases, List, Option, [], ap, arith, false, if◌then◌else◌, inl, inr, none, ok, pos_part,
  refl, some, subst, sym, ℕ, ℤ, ◌&&◌, ◌*◌, ◌+◌, ◌-◌, ◌==◌, ◌∙◌, ◌∷◌, ◌≡◌, ◌≤◌,
}
use ms_go_comment.Domain.Common.{Time, Uuid}
use ms_go_comment.Store.Rows.{All-map}
use ms_go_comment.Transport.Limits.{Bucket, Limiter, allow, new_limiter, token}
use ms_go_comment.Transport.Limits.Fair.{allow-Spends}
use ms_go_comment.Transport.Limits.Levels.{Fair, Kept, Spends, balance, level, mul_mono}
use ms_go_comment.Transport.Maps.{lookup}

-- The admitted calls of one actor in a run.
unfoldable pub admitted : Uuid → List (Uuid × Time) → Limiter → ℕ
admitted a [] l = 0
admitted a ((id, now) ∷ calls) l =
    (if (allow id now l).0 && id == a then 1 else 0) + admitted a calls (allow id now l).1

-- The calls stand in the order of their times, between two times.
abbrev pub InOrder : Time → List (Uuid × Time) → Time → Type 0
InOrder from [] to = from ≤ to
InOrder from ((id, now) ∷ calls) to = (from ≤ now) × InOrder now calls to

InOrder-le : (from to : Time) (calls : List (Uuid × Time)) → InOrder from calls to → from ≤ to
InOrder-le from to [] h = h
InOrder-le from to ((id, now) ∷ calls) h = omega (arith, h.0, InOrder-le now to calls h.1)

add-mul : (a b c : ℕ) → (a + b) * c ≡ a * c + b * c
add-mul a b c = omega arith

wait_le :
    (last now then_at r : ℕ)
    → now ≤ then_at
    → (then_at - last) * r ≤ (now - last) * r + (then_at - now) * r
wait_le last now then_at r h =
    let apart : (then_at - last) * r ≤ ((now - last) + (then_at - now)) * r =
      mul_mono _ _ r (omega arith) in
    omega (arith, apart, add-mul (now - last) (then_at - now) r)

wait_split :
    (from now to r : ℕ)
    → from ≤ now
    → now ≤ to
    → (now - from) * r + (to - now) * r ≡ (to - from) * r
wait_split from now to r h k =
    let e : (now - from) + (to - now) ≡ to - from = omega arith in
    sym (add-mul (now - from) (to - now) r) ∙ ap (λ n. n * r) e

later-balance :
    (l : Limiter) (now then_at : Time) (o : Option Bucket)
    → now ≤ then_at
    → balance l then_at o ≤ balance l now o + (then_at - now) * l.rate
unfolding balance
later-balance l now then_at none h = omega arith
later-balance l now then_at (some b) h = ground (arith, wait_le b.last now then_at l.rate h)

later-Fair : (l : Limiter) (now then_at : Time) → now ≤ then_at → Fair l now → Fair l then_at
later-Fair l now then_at h f = record {
  sized = f.sized;
  idle = f.idle;
  distinct = f.distinct;
  kept =
      All-map (Kept l now) (Kept l then_at) l.items (λ e k. (k.0, omega (arith, k.1), k.2)) f.kept;
}

allow-zero : (now : Time) (l : Limiter) → allow 0 now l ≡ (false, l)
unfolding allow
allow-zero now l = refl

-- One call costs its actor one token, where it is admitted.
allow-level :
    (a id : Uuid) (now : Time) (l : Limiter)
    → Fair l now
    → Fair (allow id now l).1 now
      × ((allow id now l).1.rate ≡ l.rate)
      × (level (allow id now l).1 now a + (if (allow id now l).0 && id == a then token else 0)
          ≡ level l now a)
allow-level a id now l f = elim (Bool-cases (id == 0)) [
  | inl z ↦
      let zero_id : 0 ≡ id = ground arith in
      subst
        (λ i.
          Fair (allow i now l).1 now
          × ((allow i now l).1.rate ≡ l.rate)
          × (level (allow i now l).1 now a + (if (allow i now l).0 && i == a then token else 0)
              ≡ level l now a))
        zero_id (rw (allow-zero now l) (f, refl, omega arith))
  | inr n ↦
      let r : Spends id now l (allow id now l) = allow-Spends id now l f (ground arith) in
      (r.fair, r.rates, r.levels a)
]

-- In a run of calls in the order of their times, the tokens that one actor's admitted calls took are
-- at most its level at the start and what the bucket gained since.
admitted_le_level :
    (a : Uuid) (from to : Time) (calls : List (Uuid × Time)) (l : Limiter)
    → Fair l from
    → InOrder from calls to
    → admitted a calls l * token ≤ level l from a + (to - from) * l.rate
unfolding admitted
admitted_le_level a from to [] l f h = omega arith
admitted_le_level a from to ((id, now) ∷ calls) l f h =
    let later : Fair l now = later-Fair l from now h.0 f in
    let one = allow-level a id now l later in
    let l' : Limiter = (allow id now l).1 in
    let rest = admitted_le_level a now to calls l' one.0 h.1 in
    let gained = later-balance l from now (lookup a l.items) h.0 in
    let same : (to - now) * l'.rate ≡ (to - now) * l.rate = ap (λ r. (to - now) * r) one.1 in
    ground (
      arith,
      one.2,
      rest,
      gained,
      same,
      wait_split from now to l.rate h.0 (InOrder-le now to calls h.1),
    )

-- The settings of a limiter for which an idle bucket has filled up.
abbrev pub FillsWhenIdle : ℤ → ℤ → ℤ → Type 0
FillsWhenIdle rate burst idle_expiry = pos_part burst * token ≤ pos_part idle_expiry * pos_part rate

abbrev made : ℤ → ℤ → ℤ → ℤ → Limiter
made rate burst maximum idle_expiry = record {
  items = [];
  rate = pos_part rate;
  burst = pos_part burst;
  maximum = pos_part maximum;
  idle_expiry = pos_part idle_expiry;
}

new_limiter-made :
    (rate burst maximum idle_expiry : ℤ) (clocked : Bool) (l : Limiter)
    → new_limiter rate burst maximum idle_expiry clocked ≡ ok l
    → made rate burst maximum idle_expiry ≡ l
unfolding new_limiter
new_limiter-made rate burst maximum idle_expiry clocked l e = ground arith

made-Fair :
    (rate burst maximum idle_expiry : ℤ) (now : Time)
    → FillsWhenIdle rate burst idle_expiry
    → Fair (made rate burst maximum idle_expiry) now
made-Fair rate burst maximum idle_expiry now enough = record {
  sized = omega arith;
  idle = enough;
  distinct = tt;
  kept = tt;
}

made-admitted :
    (rate burst maximum idle_expiry : ℤ)
    → FillsWhenIdle rate burst idle_expiry
    → (a : Uuid) (from to : Time) (calls : List (Uuid × Time)) → InOrder from calls to
    → admitted a calls (made rate burst maximum idle_expiry) * token
      ≤ pos_part burst * token + (to - from) * pos_part rate
unfolding balance
made-admitted rate burst maximum idle_expiry enough a from to calls h =
    admitted_le_level a from to calls (made rate burst maximum idle_expiry)
      (made-Fair rate burst maximum idle_expiry from enough) h

-- A limiter that newActorRateLimiter makes, whose bucket fills up within the idle time, admits in
-- any run of calls in the order of their times at most its burst and what its rate gives for the
-- time of the run of the calls of one actor: evictions, other actors and refused calls do not add
-- to it.
pub new_limiter-admitted :
    (rate burst maximum idle_expiry : ℤ) (clocked : Bool) (l : Limiter)
    → FillsWhenIdle rate burst idle_expiry
    → new_limiter rate burst maximum idle_expiry clocked ≡ ok l
    → (a : Uuid) (from to : Time) (calls : List (Uuid × Time)) → InOrder from calls to
    → admitted a calls l * token ≤ pos_part burst * token + (to - from) * pos_part rate
new_limiter-admitted rate burst maximum idle_expiry clocked l enough e a from to calls h =
    subst (λ m. admitted a calls m * token ≤ pos_part burst * token + (to - from) * pos_part rate)
      (new_limiter-made rate burst maximum idle_expiry clocked l e)
      (made-admitted rate burst maximum idle_expiry enough a from to calls h)
