-- ===== src/Transport/Limits/Fair.antt =====
-- The limiter of guardrails.go against one token bucket per actor.
use ms_go_comment.Base.{
  Bool, Bool-cases, List, Option, Option-cases, [], ap, arith, false, if◌then◌else◌, inl, inr,
  is_some, keep, leb, length, ltb, none, refl, some, subst, sym, true, ◌&&◌, ◌*◌, ◌+◌, ◌<◌, ◌==◌,
  ◌∙◌, ◌∷◌, ◌≡◌, ◌≢◌, ◌≤◌, ◌⊎◌,
}
use ms_go_comment.Domain.Common.{Time, Uuid}
use ms_go_comment.Store.Rows.{All-keep}
use ms_go_comment.Transport.Limits.{
  Bucket, Limiter, allow, enter, evict_idle, fresh_bucket, not_before, refilled, room, spend, token,
}
use ms_go_comment.Transport.Limits.Levels.{
  Fair, Kept, Spends, balance, balance-fresh, cap_of_idle, level, refilled-balance, spent,
}
use ms_go_comment.Transport.Maps.{
  All-put, keep-DistinctKeys, length-put, lookup, lookup-All, lookup-keep, lookup-put, put,
  put-DistinctKeys,
}

-- An eviction leaves every level as it is.
level-evict_idle :
    (l : Limiter) (now : Time) (i : Uuid)
    → Fair l now
    → level (evict_idle now l) now i ≡ level l now i
unfolding evict_idle balance
level-evict_idle l now i f = elim (Option-cases (lookup i l.items)) [
  | inl e ↦ rw (lookup-keep (λ e. ltb now (e.1.seen + l.idle_expiry)) i l.items f.distinct, e) refl
  | inr (b, e) ↦
      let k : Kept l now (i, b) = lookup-All (Kept l now) i l.items b f.kept e in
      elim (Bool-cases (ltb now (b.seen + l.idle_expiry))) [
        | inl t ↦
            rw (lookup-keep (λ e. ltb now (e.1.seen + l.idle_expiry)) i l.items f.distinct, e, t)
              refl
        | inr t ↦
            rw (lookup-keep (λ e. ltb now (e.1.seen + l.idle_expiry)) i l.items f.distinct, e, t)
              (sym (cap_of_idle l now b f.idle k.0 t))
      ]
]

length-keep_le {ℓ} : {A : Type ℓ} (p : A → Bool) (xs : List A) → length (keep p xs) ≤ length xs
length-keep_le p [] = omega arith
length-keep_le p (x ∷ xs) = ground (arith, length-keep_le p xs)

evict_idle-Fair : (l : Limiter) (now : Time) → Fair l now → Fair (evict_idle now l) now
unfolding evict_idle
evict_idle-Fair l now f = record {
  sized = omega (arith, length-keep_le (λ e. ltb now (e.1.seen + l.idle_expiry)) l.items, f.sized);
  idle = f.idle;
  distinct = keep-DistinctKeys (λ e. ltb now (e.1.seen + l.idle_expiry)) l.items f.distinct;
  kept = All-keep (Kept l now) (λ e. ltb now (e.1.seen + l.idle_expiry)) l.items f.kept;
}

not_before-now : (now : Time) (b : Bucket) → b.last ≤ now → not_before now b ≡ now
not_before-now now b h = ground arith

-- The levels after `put`.
level-put :
    (id i : Uuid) (now : Time) (b c : Bucket) (l : Limiter)
    → level (record l { items = put id c l.items }) now i
      ≡ (if id == i then balance l now (some c) else level l now i)
unfolding balance
level-put id i now b c l = ground (arith, lookup-put i id c l.items)

balance-spent :
    (l : Limiter) (now : Time) (b : Bucket)
    → b.last ≤ now
    → b.tokens ≤ l.burst * token
    → balance l now (some (spent l now b)) + (if leb token (refilled l now b) then token else 0)
      ≡ balance l now (some b)
unfolding balance spent
balance-spent l now b h k = ground arith

spent-levels :
    (id i : Uuid) (now : Time) (b : Bucket) (l : Limiter)
    → b.last ≤ now
    → b.tokens ≤ l.burst * token
    → balance l now (some b) ≡ level l now id
    → level (record l { items = put id (spent l now b) l.items }) now i
        + (if leb token (refilled l now b) && id == i then token else 0)
      ≡ level l now i
spent-levels id i now b l h k same = elim (Bool-cases (id == i)) [
  | inl e ↦
      let equal : id ≡ i = ground arith in
      rw (level-put id i now b (spent l now b) l, e)
        (ground (arith, balance-spent l now b h k, same, ap (level l now) equal))
  | inr e ↦ rw (level-put id i now b (spent l now b) l, e) (ground arith)
]

spend-Spends :
    (id : Uuid) (now : Time) (b : Bucket) (l : Limiter)
    → Fair l now
    → b.last ≤ now
    → b.tokens ≤ l.burst * token
    → balance l now (some b) ≡ level l now id
    → (is_some (lookup id l.items) ≡ true) ⊎ (length l.items < l.maximum)
    → Spends id now l (spend id now b l)
unfolding spend spent
spend-Spends id now b l f h k same space = rw (not_before-now now b h) (record {
  fair = record {
    sized = ground (arith, length-put id (spent l now b) l.items, f.sized);
    idle = f.idle;
    distinct = put-DistinctKeys id (spent l now b) l.items f.distinct;
    kept = All-put (Kept l now) id (spent l now b) l.items f.kept (ground (arith));
  };
  rates = refl;
  bursts = refl;
  paid = λ e. ground (arith, refilled-balance l now b h k);
  refused = λ e. inl (ground (arith, refilled-balance l now b h k));
  levels = λ i. spent-levels id i now b l h k same;
})

-- Making room changes neither the levels nor the rest.
room_lem :
    (id : Uuid) (now : Time) (l : Limiter)
    → Fair l now
    → lookup id l.items ≡ none
    → Fair (room now l) now × ((i : Uuid) → level (room now l) now i ≡ level l now i)
unfolding room
room_lem id now l f e = elim (Bool-cases (leb l.maximum (length l.items))) [
  | inl t ↦ rw t (evict_idle-Fair l now f, λ i. level-evict_idle l now i f)
  | inr t ↦ rw t (f, λ i. refl)
]

room-same :
    (now : Time) (l : Limiter)
    → ((room now l).rate ≡ l.rate)
      × ((room now l).burst ≡ l.burst)
      × ((room now l).maximum ≡ l.maximum)
unfolding room evict_idle
room-same now l = ground arith

abbrev refuse : Limiter → Bool × Limiter
refuse l = (false, l)

enter-Spends :
    (o : Option Bucket) (id : Uuid) (now : Time) (l : Limiter)
    → Fair l now
    → lookup id l.items ≡ o
    → Spends id now l (enter o id now l)
unfolding enter balance
enter-Spends (some b) id now l f e =
    let k : Kept l now (id, b) = lookup-All (Kept l now) id l.items b f.kept e in
    spend-Spends id now b l f k.1 k.2 (rw e refl) (inl (rw e refl))
enter-Spends none id now l f e =
    let (fair, levels) = room_lem id now l f e in
    let same = room-same now l in
    let l' : Limiter = room now l in
    elim (Bool-cases (leb l'.maximum (length l'.items))) [
      | inl t ↦ rw t (record {
        fair = fair;
        rates = same.0;
        bursts = same.1;
        paid = λ h. cc;
        refused = λ h. inr (e, ground arith);
        levels = λ i. ground (arith, levels i);
      })
      | inr t ↦
          let r : Spends id now l' (spend id now (fresh_bucket l' now) l') =
            spend-Spends id now (fresh_bucket l' now) l' fair (omega arith) (omega arith)
              (balance-fresh l' now
                ∙ ap (λ n. n * token) same.1
                ∙ sym (levels id ∙ ap (balance l now) e))
              (inr (ground arith)) in
          let r' : Bool × Limiter = spend id now (fresh_bucket l' now) l' in
          rw t (record {
            fair = r.fair;
            rates = r.rates ∙ same.0;
            bursts = r.bursts ∙ same.1;
            paid = λ h. subst (λ n. token ≤ n) (levels id) (r.paid h);
            refused = λ h. elim (r.refused h) [
              | inl x ↦ inl (subst (λ n. n < token) (levels id) x)
              | inr x ↦ inr (e, subst (λ n. n ≤ length r'.1.items) same.2 x.1)
            ];
            levels = λ i. r.levels i ∙ levels i;
          })
    ]

-- Allow implements one bucket of tokens for each actor: on a limiter that is within its maximum,
-- whose buckets fill up within the idle time and are not of a later time, it keeps these properties
-- and the settings, an admitted call found a token and takes it from its actor, a refused call
-- found less than one or no room for a new bucket, and the level of every actor is otherwise as it
-- was, whatever was evicted.
pub allow-Spends :
    (id : Uuid) (now : Time) (l : Limiter) → Fair l now → id ≢ 0 → Spends id now l (allow id now l)
unfolding allow
allow-Spends id now l f some_id =
    let e : (id == 0) ≡ false = ground arith in
    rw e (enter-Spends (lookup id l.items) id now l f refl)
