-- ===== src/Store/Transactions.antt =====
-- Runs of `within_transaction`, the `WithinTransaction` of tx.go.
use ms_go_comment.Base.{Bool-cases, Err, Result, arith, err, false, inl, inr, ok, refl, true, ◌≡◌}
use ms_go_comment.Store.Database.{Database}
use ms_go_comment.Store.Monad.{Env, M, World, finish, lift, tick, within_transaction, ◌>>=◌}
use ms_go_comment.Store.Triples.{Post, Triple}

module _ (env : Env) {A : Type 0} (P Q : Database → Type 0) (fn : M A) where
  -- A transaction that leads from `P` to `Q` whenever it returns, and `Q` is weaker.
  pub within_transaction-Leads :
      ((d : Database) → P d → Q d)
      → Triple P fn (λ a d. Q d)
      → (w : World) → w.in_tx ≡ false
      → P w.db
      → Q (within_transaction env fn w).1.db
  unfolding within_transaction
  within_transaction-Leads weaker t w out p = elim (Bool-cases (env.fault w.calls)) [
    | inl e ↦ rw (out, e) (weaker w.db p)
    | inr e ↦
        let inner : World = record (tick w) { in_tx = true } in
        rw (out, e) (go (fn inner) (t.at inner p))
  ]
    where
      go : (r : Result A × World) → Post (λ a d. Q d) r → Q (finish env w.db r.0 r.1).1.db
      go (ok a, w') q = elim (Bool-cases (env.fault w'.calls)) [
        | inl e ↦ rw e (weaker w.db p)
        | inr e ↦ rw e q
      ]
      go (err x, w') q = weaker w.db p

module _ (env : Env) {A : Type 0} (P : Database → Type 0) (fn : M A) where
  -- A transaction that keeps an invariant whenever it returns keeps it always.
  pub within_transaction-Keeps :
      Triple P fn (λ a d. P d)
      → (w : World) → w.in_tx ≡ false
      → P w.db
      → P (within_transaction env fn w).1.db
  within_transaction-Keeps = within_transaction-Leads env P P fn (λ d p. p)

  -- A transaction that fails changes nothing.
  pub within_transaction-atomic :
      (w : World) {e : Err}
      → w.in_tx ≡ false
      → (within_transaction env fn w).0 ≡ err e
      → (within_transaction env fn w).1.db ≡ w.db
  unfolding within_transaction
  within_transaction-atomic w {e} out h = elim (Bool-cases (env.fault w.calls)) [
    | inl f ↦ rw (out, f)
    | inr f ↦
        let inner : World = record (tick w) { in_tx = true } in
        rw (out, f) (go (fn inner) (rw (out, f) at h))
  ]
    where
      go :
          (r : Result A × World)
          → (finish env w.db r.0 r.1).0 ≡ err e
          → (finish env w.db r.0 r.1).1.db ≡ w.db
      go (ok a, w') q = ground arith
      go (err x, w') q = refl

-- A check in front of an action, which keeps what the action keeps.
pub checked-Keeps :
    {A B : Type 0} (P : Database → Type 0) (r : Result A) (f : A → M B) (w : World)
    → P w.db
    → ((a : A) → r ≡ ok a → P (f a w).1.db)
    → P ((lift r >>= f) w).1.db
unfolding ◌>>=◌
checked-Keeps P (ok a) f w p k = k a refl
checked-Keeps P (err e) f w p k = p

-- A check in front of an action that is undone when it fails.
pub checked-atomic :
    {A B : Type 0} (r : Result A) (f : A → M B) (w : World) {e : Err}
    → ((a : A) → (f a w).0 ≡ err e → (f a w).1.db ≡ w.db)
    → ((lift r >>= f) w).0 ≡ err e
    → ((lift r >>= f) w).1.db ≡ w.db
unfolding ◌>>=◌
checked-atomic (ok a) f w k h = k a h
checked-atomic (err x) f w k h = refl
