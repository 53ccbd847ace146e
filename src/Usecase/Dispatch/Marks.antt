-- ===== src/Usecase/Dispatch/Marks.antt =====
-- What the loop of `Process` in realtime/dispatcher.go leaves in the outbox.
use ms_go_comment.Base.{
  Bool, Bool-cases, List, Text, [], any, arith, false, if◌then◌else◌, inl, inr, is_none, not, refl,
  some, true, ℕ, ◌&&◌, ◌++◌, ◌+◌, ◌==◌, ◌∙◌, ◌∷◌, ◌≡◌,
}
use ms_go_comment.Domain.Common.{Time, Uuid}
use ms_go_comment.Domain.Outbox.{OutboxEvent}
use ms_go_comment.Store.Database.{Database}
use ms_go_comment.Store.Monad.{Answer, Env, World, attempt, call, clock, pure, ◌>>=◌}
use ms_go_comment.Store.Outbox.{mark_failed, mark_published, unpublished}
use ms_go_comment.Store.Rows.{any-update_where, update_where}
use ms_go_comment.Usecase.Dispatch.{DispatchResult, deliver_one}

abbrev pub is_done : Answer (Unit {0}) → Bool
is_done (Answer.done _) = true
is_done (Answer.failed _) = false

-- Not published.
abbrev pub unsent : Uuid → OutboxEvent → Bool
unsent id o = o.id == id && is_none o.published_at

-- The events that were accepted, by the number of the call that asks for each, and the statement
-- behind which, two calls later, did not fail.
abbrev pub recorded : Env → ℕ → List OutboxEvent → List Uuid
recorded env n [] = []
recorded env n (e ∷ more) =
    (if is_done (env.publish_at n) && not (env.fault (n + 2)) then e.id ∷ [] else [])
    ++ recorded env (n + 3) more

any-marked :
    (id eid : Uuid) (at : Time) (xs : List OutboxEvent)
    → any (unsent id) (
        update_where
          (unpublished eid)
          (λ o. record o { published_at = some at; last_error = [] })
          xs)
      ≡ (any (unsent id) xs && not (eid == id))
unfolding update_where
any-marked id eid at [] = refl
any-marked id eid at (x ∷ xs) = ground (arith, any-marked id eid at xs)

any-unsent-congr :
    (id eid : Uuid) (xs : List OutboxEvent)
    → any (unpublished eid) xs ≡ false
    → any (unsent id) xs ≡ (any (unsent id) xs && not (eid == id))
any-unsent-congr id eid [] h = refl
any-unsent-congr id eid (x ∷ xs) h = ground (arith, any-unsent-congr id eid xs)

marked :
    (id eid : Uuid) (at now : Time) (d : Database)
    → any (unsent id) (mark_published eid at now d).1.outbox
      ≡ (any (unsent id) d.outbox && not (eid == id))
unfolding mark_published
marked id eid at now d = elim (Bool-cases (any (unpublished eid) d.outbox)) [
  | inl e ↦ rw e (any-marked id eid at d.outbox)
  | inr e ↦ rw e (any-unsent-congr id eid d.outbox e)
]

noted :
    (id eid : Uuid) (next : Time) (message : Text) (now : Time) (d : Database)
    → any (unsent id) (mark_failed eid next message now d).1.outbox ≡ any (unsent id) d.outbox
unfolding mark_failed
noted id eid next message now d = elim (Bool-cases (any (unpublished eid) d.outbox)) [
  | inl e ↦ rw e (any-update_where (unsent id) (unpublished eid) _ d.outbox (λ x. refl))
  | inr e ↦ rw e refl
]

module _ (env : Env) where
  pub deliver_one-marks :
      (id : Uuid) (e : OutboxEvent) (answer : Answer (Unit {0})) (r : DispatchResult) (w : World)
      → any (unsent id) (deliver_one env e answer r w).1.db.outbox ≡ (
          any (unsent id) w.db.outbox
          && not (is_done answer && not (env.fault (w.calls + 1)) && e.id == id))
  unfolding deliver_one ◌>>=◌ clock attempt pure call
  deliver_one-marks id e (Answer.failed message) r w = elim (Bool-cases (env.fault (w.calls + 1))) [
    | inl f ↦ rw f (ground arith)
    | inr f ↦ rw f (noted id e.id _ _ _ w.db ∙ ground arith)
  ]
  deliver_one-marks id e (Answer.done _) r w = elim (Bool-cases (env.fault (w.calls + 1))) [
    | inl f ↦ rw f (ground arith)
    | inr f ↦ rw f (marked id e.id _ _ w.db ∙ ground arith)
  ]
