-- ===== src/Store/Triples.antt =====
-- Pre- and postconditions on the database, with one rule for each way to build an action. A
-- postcondition speaks of the runs that return a value; a transaction undoes the others.
use ms_go_comment.Base.{
  Bool, Bool-cases, Err, Result, ap, arith, err, fail_if, false, if◌then◌else◌, inl, inr, keep,
  not_found, ok, refl, subst, sym, true, unavailable, ℕ, ◌+◌, ◌≡◌, ◌⊎◌,
}
use ms_go_comment.Domain.Common.{Time}
use ms_go_comment.Store.Database.{Database, Query, affecting, reads}
use ms_go_comment.Store.Monad.{
  Env, M, World, ask, attempt, call, clock, continue, lift, map_not_found, new_id, or_missing, pure,
  set_flag, tick, ◌>>=◌,
}

-- What holds of a result and the world that is left.
abbrev pub Post : {A : Type 0} → (A → Database → Type 0) → Result A × World → Type 0
Post Q (ok a, w) = Q a w.db
Post Q (err e, w) = Unit

pub record Triple {A : Type 0} (P : Database → Type 0) (m : M A) (Q : A → Database → Type 0)
    : Type 0 where
  pub at : (w : World) → P w.db → Post Q (m w)

module _ {A : Type 0} {P : Database → Type 0} where
  pub Triple-pure :
      (Q : A → Database → Type 0) (a : A) → ((d : Database) → P d → Q a d) → Triple P (pure a) Q
  unfolding pure
  Triple-pure Q a h = record { at = λ w p. h w.db p }

  -- A weaker postcondition.
  pub Triple-weaken :
      {m : M A} (Q R : A → Database → Type 0)
      → ((a : A) (d : Database) → Q a d → R a d)
      → Triple P m Q
      → Triple P m R
  Triple-weaken {m} Q R h t = record { at = λ w p. go (m w) (t.at w p) }
    where
      go : (r : Result A × World) → Post Q r → Post R r
      go (ok a, w) q = h a w.db q
      go (err e, w) q = tt

  pub Triple-if :
      (Q : A → Database → Type 0) (b : Bool) (m n : M A)
      → (b ≡ true → Triple P m Q)
      → (b ≡ false → Triple P n Q)
      → Triple P (if b then m else n) Q
  Triple-if Q true m n f g = f refl
  Triple-if Q false m n f g = g refl

  -- A failure satisfies every postcondition.
  pub Triple-fail : (Q : A → Database → Type 0) (e : Err) → Triple P (lift {A = A} (err e)) Q
  unfolding lift
  Triple-fail Q e = record { at = λ w p. tt }

  pub Triple-lift :
      (Q : A → Database → Type 0) (r : Result A)
      → ((a : A) (d : Database) → r ≡ ok a → P d → Q a d)
      → Triple P (lift r) Q
  unfolding lift
  Triple-lift Q (ok a) h = record { at = λ w p. h a w.db refl p }
  Triple-lift Q (err e) h = Triple-fail Q e

module _ {A B : Type 0} {P : Database → Type 0} where
  pub Triple-bind :
      (m : M A) (f : A → M B) (Q : A → Database → Type 0) {R : B → Database → Type 0}
      → Triple P m Q
      → ((a : A) → Triple (Q a) (f a) R)
      → Triple P (m >>= f) R
  unfolding ◌>>=◌
  Triple-bind m f Q {R} t k = record { at = λ w p. go (m w) (t.at w p) }
    where
      go : (r : Result A × World) → Post Q r → Post R (continue r.0 f r.1)
      go (ok a, w) q = (k a).at w q
      go (err e, w) q = tt

  -- After a check, the rest may use what the check found.
  pub Triple-bind-lift :
      (r : Result A) (f : A → M B) (R : B → Database → Type 0)
      → ((a : A) → r ≡ ok a → Triple P (f a) R)
      → Triple P (lift r >>= f) R
  unfolding ◌>>=◌
  Triple-bind-lift (ok a) f R k = record { at = λ w p. (k a refl).at w p }
  Triple-bind-lift (err e) f R k = record { at = λ w p. tt }

  -- The rest sees the result of an action, its error included.
  pub Triple-bind-attempt :
      (m : M A) (f : Result A → M B) (R : B → Database → Type 0)
      → ((w : World) → P w.db → P (m w).1.db)
      → ((r : Result A) → Triple P (f r) R)
      → Triple P (attempt m >>= f) R
  unfolding ◌>>=◌
  Triple-bind-attempt m f R s k = record { at = λ w p. (k (m w).0).at (m w).1 (s w p) }

module _ {B : Type 0} {P : Database → Type 0} where
  -- `if c { return err }`: behind it the condition is false.
  pub Triple-guard :
      (b : Bool) (e : Err) (f : Unit {0} → M B) (R : B → Database → Type 0)
      → (b ≡ false → Triple P (f tt) R)
      → Triple P (lift (fail_if b e) >>= f) R
  unfolding ◌>>=◌
  Triple-guard true e f R k = record { at = λ w p. tt }
  Triple-guard false e f R k = record { at = λ w p. (k refl).at w p }

module _ (env : Env) {A : Type 0} {P : Database → Type 0} where
  -- A statement, by what it does to the database whenever it runs.
  pub Triple-call :
      (q : Query A) (Q : A → Database → Type 0)
      → ((now : Time) (d : Database) (a : A) → P d → (q now d).0 ≡ ok a → Q a (q now d).1)
      → Triple P (call env q) Q
  unfolding call
  Triple-call q Q h = record {
    at = λ w p. elim (Bool-cases (env.fault w.calls)) [
      | inl e ↦ rw e tt
      | inr e ↦ rw e (go w (q (env.now_at w.calls) w.db) (λ a f. h (env.now_at w.calls) w.db a p f))
    ];
  }
    where
      go :
          (w : World) (r : Result A × Database)
          → ((a : A) → r.0 ≡ ok a → Q a r.1)
          → Post Q (r.0, record w { db = r.1; calls = w.calls + 1 })
      go w (ok a, d) k = k a refl
      go w (err e, d) k = tt

module _ (env : Env) {A : Type 0} {P : Database → Type 0} where
  -- A statement that only reads.
  pub Triple-reads :
      (f : Database → Result A) (Q : A → Database → Type 0)
      → ((d : Database) (a : A) → P d → f d ≡ ok a → Q a d)
      → Triple P (call env (reads f)) Q
  Triple-reads f Q h = Triple-call env (reads f) Q (λ now d a p e. h d a p e)

module _ (env : Env) {A B : Type 0} {P : Database → Type 0} where
  -- The rest sees what was read, or the error of the driver.
  pub Triple-attempt-reads :
      (f : Database → Result A) (k : Result A → M B) (R : B → Database → Type 0)
      → ((r : Result A) → Triple (λ d. P d × ((r ≡ err unavailable) ⊎ (f d ≡ r))) (k r) R)
      → Triple P (attempt (call env (reads f)) >>= k) R
  unfolding ◌>>=◌ attempt call
  Triple-attempt-reads f k R t = record {
    at = λ w p. elim (Bool-cases (env.fault w.calls)) [
      | inl e ↦ rw e ((t (err unavailable)).at (tick w) (p, inl refl))
      | inr e ↦ rw e ((t (f w.db)).at (tick w) (p, inr refl))
    ];
  }

module _ {A : Type 0} {P : Database → Type 0} where
  -- The same under `mapNotFound`, which leaves successes alone.
  pub Triple-or_missing :
      (target : Err) (m : M A) (Q : A → Database → Type 0)
      → Triple P m Q
      → Triple P (or_missing target m) Q
  unfolding or_missing
  Triple-or_missing target m Q t = record { at = λ w p. go (m w) (t.at w p) }
    where
      go : (r : Result A × World) → Post Q r → Post Q (map_not_found target r.0, r.1)
      go (ok a, w) q = q
      go (err not_found, w) q = tt
      go (err _, w) q = tt

module _ (env : Env) {P : Database → Type 0} where
  pub Triple-clock : Triple P (clock env) (λ a d. P d)
  unfolding clock
  Triple-clock = record { at = λ w p. p }

  pub Triple-new_id : Triple P (new_id env) (λ a d. P d)
  unfolding new_id
  Triple-new_id = record { at = λ w p. p }

-- An action that leaves the database alone keeps whatever holds of it.
abbrev pub IsPassive : {A : Type 0} → M A → Type 0
IsPassive m = (w : World) → (m w).1.db ≡ w.db

pub Triple-passive :
    {A : Type 0} (P : Database → Type 0) (m : M A) → IsPassive m → Triple P m (λ a d. P d)
Triple-passive P m quiet = record { at = λ w p. go (m w) (subst P (sym (quiet w)) p) }
  where
    go : {A : Type 0} (r : Result A × World) → P r.1.db → Post (λ a d. P d) r
    go (ok a, w) q = q
    go (err e, w) q = tt

pub call-reads-db :
    (env : Env) {A : Type 0} (f : Database → Result A) (w : World)
    → (call env (reads f) w).1.db ≡ w.db
unfolding call
call-reads-db env f w = elim (Bool-cases (env.fault w.calls)) [ inl e ↦ rw e | inr e ↦ rw e ]

-- A statement that keeps `P`, whether it affects rows or not.
pub Triple-keeps :
    (env : Env) {A : Type 0} {P : Database → Type 0} (q : Query A)
    → ((now : Time) (d : Database) → P d → P (q now d).1)
    → Triple P (call env q) (λ a d. P d)
Triple-keeps env q keep = Triple-call env q _ (λ now d a p e. keep now d p)

pub affecting-Keeps :
    (P : Database → Type 0) (b : Bool) (e : Err) (d d' : Database)
    → P d
    → P d'
    → P (affecting b e d d').1
affecting-Keeps P true e d d' p p' = p'
affecting-Keeps P false e d d' p p' = p

-- The result of a statement that affects rows, when it succeeds.
pub affecting-eq-ok :
    (b : Bool) (e : Err) (d d' : Database) (u : Unit {0})
    → (affecting b e d d').0 ≡ ok u
    → (b ≡ true) × ((affecting b e d d').1 ≡ d')
affecting-eq-ok true e d d' u h = (refl, refl)
affecting-eq-ok false e d d' u h = cc

pub Triple-set_flag : {P : Database → Type 0} (b : Bool) → Triple P (set_flag b) (λ u d. P d)
unfolding set_flag
Triple-set_flag b = record { at = λ w p. p }

-- A run whose first part returns goes on from there.
pub >>=-of_ok :
    {A B : Type 0} (m : M A) (f : A → M B) (w : World) (a : A)
    → (m w).0 ≡ ok a
    → (m >>= f) w ≡ f a (m w).1
unfolding ◌>>=◌
>>=-of_ok m f w a h = rw h

pub Triple-ask :
    (env : Env) {A : Type 0} {P : Database → Type 0} (f : ℕ → A) → Triple P (ask env f) (λ a d. P d)
unfolding ask
Triple-ask env f = record { at = λ w p. p }

-- A fact about values, taken out of the precondition.
pub Triple-fact :
    {A : Type 0} {P : Database → Type 0} (F : Type 0) (m : M A) (Q : A → Database → Type 0)
    → (F → Triple P m Q)
    → Triple (λ d. P d × F) m Q
Triple-fact F m Q k = record { at = λ w p. (k p.1).at w p.0 }

-- A result is what the action gave in some world.
abbrev pub Given : {A : Type 0} → M A → A → Type 0
Given m a = (w : World) × ((m w).0 ≡ ok a)

pub Triple-given :
    {A : Type 0} {P : Database → Type 0} (m : M A)
    → Triple P m (λ a d. P d)
    → Triple P m (λ a d. P d × Given m a)
Triple-given {A} {P} m t = record { at = λ w p. go w (m w) refl (t.at w p) }
  where
    go :
        (w : World) (r : Result A × World)
        → m w ≡ r
        → Post (λ a d. P d) r
        → Post (λ a d. P d × Given m a) r
    go w (ok a, w') e q = (q, (w, ap (λ (x : Result A × World). x.0) e))
    go w (err x, w') e q = tt

-- A reading of the clock has a number.
pub clock_given : (env : Env) (now : Time) → Given (clock env) now → (n : ℕ) × (env.now_at n ≡ now)
unfolding clock
clock_given env now g = (g.0.calls, ground arith)
