-- ===== src/Store/Safety.antt =====
-- Actions that keep a property of the database on every run, errors included, and leave no
-- transaction open. Between them stand actions that are not in a transaction of their own.
use ms_go_comment.Base.{
  Bool, Bool-cases, Err, Result, arith, err, false, if◌then◌else◌, inl, inr, keep, ok, refl, true,
  ℕ, ◌≡◌,
}
use ms_go_comment.Domain.Common.{Time}
use ms_go_comment.Store.Database.{Database, Query}
use ms_go_comment.Store.Monad.{
  Env, M, World, ask, attempt, call, clock, continue, finish, get_flag, lift, new_id, or_missing,
  pure, set_flag, tick, within_transaction, ◌>>=◌,
}
use ms_go_comment.Store.Transactions.{within_transaction-Keeps}
use ms_go_comment.Store.Triples.{Triple}

pub record Safe (P : Database → Type 0) {A : Type 0} (m : M A) : Type 0 where
  pub at : (w : World) → w.in_tx ≡ false → P w.db → P (m w).1.db × ((m w).1.in_tx ≡ false)

module _ {P : Database → Type 0} {A : Type 0} where
  pub Safe-pure : (a : A) → Safe P (pure a)
  unfolding pure
  Safe-pure a = record { at = λ w out p. (p, out) }

  pub Safe-lift : (r : Result A) → Safe P (lift r)
  unfolding lift
  Safe-lift r = record { at = λ w out p. (p, out) }

  Safe-or_missing : (e : Err) (m : M A) → Safe P m → Safe P (or_missing e m)
  unfolding or_missing
  Safe-or_missing e m s = record { at = λ w out p. s.at w out p }

  pub Safe-if : (b : Bool) (m n : M A) → Safe P m → Safe P n → Safe P (if b then m else n)
  Safe-if true m n s t = s
  Safe-if false m n s t = t

module _ {P : Database → Type 0} {A B : Type 0} where
  pub Safe-bind : (m : M A) (f : A → M B) → Safe P m → ((a : A) → Safe P (f a)) → Safe P (m >>= f)
  unfolding ◌>>=◌
  Safe-bind m f s t = record {
    at = λ w out p. let (q, out') = s.at w out p in go (m w).0 (m w).1 out' q;
  }
    where
      go :
          (r : Result A) (w : World)
          → w.in_tx ≡ false
          → P w.db
          → P (continue r f w).1.db × ((continue r f w).1.in_tx ≡ false)
      go (ok a) w out p = (t a).at w out p
      go (err e) w out p = (p, out)

  -- The same when the rest sees the result, its error included.
  pub Safe-bind-attempt :
      (m : M A) (f : Result A → M B)
      → Safe P m
      → ((r : Result A) → Safe P (f r))
      → Safe P (attempt m >>= f)
  unfolding ◌>>=◌ attempt
  Safe-bind-attempt m f s t = record {
    at = λ w out p. let (q, out') = s.at w out p in (t (m w).0).at (m w).1 out' q;
  }

module _ (env : Env) {A : Type 0} (fn : M A) where
  -- A transaction leaves none open.
  within_transaction-closed :
      (w : World) → w.in_tx ≡ false → (within_transaction env fn w).1.in_tx ≡ false
  unfolding within_transaction
  within_transaction-closed w out = elim (Bool-cases (env.fault w.calls)) [
    | inl e ↦ rw (out, e) refl
    | inr e ↦ rw (out, e) (go w.db (fn (record (tick w) { in_tx = true })))
  ]
    where
      go : (d : Database) (r : Result A × World) → (finish env d r.0 r.1).1.in_tx ≡ false
      go d (ok a, w') = ground arith
      go d (err x, w') = refl

module _ (env : Env) {P : Database → Type 0} where
  pub Safe-clock : Safe P (clock env)
  unfolding clock
  Safe-clock = record { at = λ w out p. (p, out) }

  Safe-new_id : Safe P (new_id env)
  unfolding new_id
  Safe-new_id = record { at = λ w out p. (p, out) }

  pub Safe-ask : {A : Type 0} (f : ℕ → A) → Safe P (ask env f)
  unfolding ask
  Safe-ask f = record { at = λ w out p. (p, out) }

  pub Safe-set_flag : (b : Bool) → Safe P (set_flag b)
  unfolding set_flag
  Safe-set_flag b = record { at = λ w out p. (p, out) }

  pub Safe-get_flag : Safe P get_flag
  unfolding get_flag
  Safe-get_flag = record { at = λ w out p. (p, out) }

  module _ {A : Type 0} where
    -- A statement that keeps the property.
    pub Safe-call :
        (q : Query A) → ((now : Time) (d : Database) → P d → P (q now d).1) → Safe P (call env q)
    unfolding call
    Safe-call q keep = record {
      at = λ w out p. elim (Bool-cases (env.fault w.calls)) [
        | inl e ↦ rw e (p, out)
        | inr e ↦ rw e (keep (env.now_at w.calls) w.db p, out)
      ];
    }

    pub Safe-within_transaction :
        (fn : M A) → Triple P fn (λ a d. P d) → Safe P (within_transaction env fn)
    Safe-within_transaction fn t = record {
      at = λ w out p.
          (within_transaction-Keeps env P fn t w out p, within_transaction-closed env fn w out);
    }
