-- ===== src/Usecase/Dispatch/Accounts.antt =====
-- The loop of `Process` in realtime/dispatcher.go.
use ms_go_comment.Base.{
  List, Result, [], any, ap, arith, err, if◌then◌else◌, length, length-append, mem, not, not_found,
  ok, refl, subst, ℕ, ◌&&◌, ◌+◌, ◌==◌, ◌∙◌, ◌∷◌, ◌≡◌, ◌≤◌,
}
use ms_go_comment.Domain.Common.{Uuid}
use ms_go_comment.Domain.Outbox.{OutboxEvent}
use ms_go_comment.Store.Monad.{Answer, Env, World, ask, attempt, call, clock, pure, tick, ◌>>=◌}
use ms_go_comment.Store.Rows.{any-append}
use ms_go_comment.Store.Triples.{>>=-of_ok}
use ms_go_comment.Usecase.Dispatch.{
  DispatchResult, count_published, count_undelivered, deliver_all, deliver_one,
}
use ms_go_comment.Usecase.Dispatch.Marks.{deliver_one-marks, is_done, recorded, unsent}

-- Of the answers that a loop gets, by the number of the call that asks for each, those that say
-- published, and the others. A round makes three calls.
abbrev pub accepted : Env → ℕ → List OutboxEvent → ℕ
accepted env n [] = 0
accepted env n (e ∷ more) =
    (if is_done (env.publish_at n) then 1 else 0) + accepted env (n + 3) more

abbrev pub refused : Env → ℕ → List OutboxEvent → ℕ
refused env n [] = 0
refused env n (e ∷ more) = (if is_done (env.publish_at n) then 0 else 1) + refused env (n + 3) more

-- The counts behind a number of accepted and of refused publications.
pub record Accounted (done refusals : ℕ) (r r' : DispatchResult) : Type 0 where
  pub all_failed : r'.failed ≡ r.failed + refusals
  pub published_bound : r'.published ≤ r.published + done
  pub none_lost : r.published + length r.errors + done ≤ r'.published + length r'.errors
  pub none_twice : r'.published + length r'.errors ≤ r.published + length r.errors + done + refusals

undelivered-Accounted :
    (result : Result (Unit {0})) (r : DispatchResult) → Accounted 0 1 r (count_undelivered result r)
undelivered-Accounted (ok _) r = record {
  all_failed = refl;
  published_bound = omega arith;
  none_lost = omega arith;
  none_twice = omega arith;
}
undelivered-Accounted (err e) r = record {
  all_failed = refl;
  published_bound = omega arith;
  none_lost = omega (arith, length-append r.errors (e ∷ []));
  none_twice = omega (arith, length-append r.errors (e ∷ []));
}

published-Accounted :
    (result : Result (Unit {0})) (r : DispatchResult) → Accounted 1 0 r (count_published result r)
published-Accounted (ok _) r = record {
  all_failed = omega arith;
  published_bound = omega arith;
  none_lost = omega arith;
  none_twice = omega arith;
}
published-Accounted (err not_found) r = record {
  all_failed = omega arith;
  published_bound = omega arith;
  none_lost = omega arith;
  none_twice = omega arith;
}
published-Accounted (err e) r = record {
  all_failed = ground arith;
  published_bound = ground arith;
  none_lost = ground (arith, length-append r.errors (e ∷ []));
  none_twice = ground (arith, length-append r.errors (e ∷ []));
}

module _ (env : Env) where
  deliver_one-Accounted :
      (e : OutboxEvent) (answer : Answer (Unit {0})) (r : DispatchResult) (w : World)
      → (r' : DispatchResult) × ((deliver_one env e answer r w).0 ≡ ok r')
        × Accounted (if is_done answer then 1 else 0) (if is_done answer then 0 else 1) r r'
  unfolding deliver_one ◌>>=◌ clock attempt pure
  deliver_one-Accounted e (Answer.failed message) r w = (_, refl, undelivered-Accounted _ r)
  deliver_one-Accounted e (Answer.done _) r w = (_, refl, published-Accounted _ r)

  deliver_one-calls :
      (e : OutboxEvent) (answer : Answer (Unit {0})) (r : DispatchResult) (w : World)
      → (deliver_one env e answer r w).1.calls ≡ w.calls + 2
  unfolding deliver_one ◌>>=◌ clock attempt pure call
  deliver_one-calls e (Answer.failed message) r w = ground arith
  deliver_one-calls e (Answer.done _) r w = ground arith

  deliver_all-counted :
      (events : List OutboxEvent) (r : DispatchResult) (w : World)
      → (r' : DispatchResult) × ((deliver_all env events r w).0 ≡ ok r')
        × Accounted (accepted env w.calls events) (refused env w.calls events) r r'
        × (accepted env w.calls events + refused env w.calls events ≡ length events)
  unfolding deliver_all pure ask ◌>>=◌
  deliver_all-counted [] r w = (
    r,
    refl,
    record {
      all_failed = omega arith;
      published_bound = omega arith;
      none_lost = omega arith;
      none_twice = omega arith;
    },
    refl,
  )
  deliver_all-counted (e ∷ more) r w =
      let answer = env.publish_at w.calls in
      let (r1, e1, a1) = deliver_one-Accounted e answer r (tick w) in
      let w1 : World = (deliver_one env e answer r (tick w)).1 in
      let at : w1.calls ≡ w.calls + 3 = deliver_one-calls e answer r (tick w) ∙ omega arith in
      let (r2, e2, a2, n2) =
        subst
          (λ n.
            (r' : DispatchResult) × ((deliver_all env more r1 w1).0 ≡ ok r')
            × Accounted (accepted env n more) (refused env n more) r1 r'
            × (accepted env n more + refused env n more ≡ length more))
          at (deliver_all-counted more r1 w1) in
      (
        r2,
        ap (λ (x : Result DispatchResult × World). x.0)
              (>>=-of_ok (deliver_one env e answer r) (deliver_all env more) (tick w) r1 e1)
            ∙ e2,
        record {
          all_failed = omega (arith, a1.all_failed, a2.all_failed);
          published_bound = omega (arith, a1.published_bound, a2.published_bound);
          none_lost = omega (arith, a1.none_lost, a2.none_lost);
          none_twice = omega (arith, a1.none_twice, a2.none_twice);
        },
        ground (arith, n2),
      )

  deliver_all-marks :
      (id : Uuid) (events : List OutboxEvent) (r : DispatchResult) (w : World)
      → any (unsent id) (deliver_all env events r w).1.db.outbox
        ≡ (any (unsent id) w.db.outbox && not (mem id (recorded env w.calls events)))
  unfolding deliver_all pure ask ◌>>=◌
  deliver_all-marks id [] r w = ground arith
  deliver_all-marks id (e ∷ more) r w =
      let answer = env.publish_at w.calls in
      let (r1, e1, _) = deliver_one-Accounted e answer r (tick w) in
      let w1 : World = (deliver_one env e answer r (tick w)).1 in
      let at : w1.calls ≡ w.calls + 3 = deliver_one-calls e answer r (tick w) ∙ omega arith in
      let rest =
        subst
          (λ n.
            any (unsent id) (deliver_all env more r1 w1).1.db.outbox
            ≡ (any (unsent id) w1.db.outbox && not (mem id (recorded env n more))))
          at (deliver_all-marks id more r1 w1) in
      ap (λ (x : Result DispatchResult × World). any (unsent id) x.1.db.outbox)
        (>>=-of_ok (deliver_one env e answer r) (deliver_all env more) (tick w) r1 e1)
      ∙ rest
      ∙ ground (
        arith,
        deliver_one-marks env id e answer r (tick w),
        any-append (λ x. x == id)
            (if is_done answer && not (env.fault (w.calls + 2)) then e.id ∷ [] else [])
            (recorded env (w.calls + 3) more),
      )

  -- The loop of Process over the claimed events always returns a result; each event is either
  -- accepted by the publisher or refused, every refused one is counted as failed and no other, the
  -- count of the published does not exceed the accepted, every accepted one is counted as published
  -- or leaves an error, and an event is not counted as published and with an error unless it was
  -- refused. In the table, the events that are not published afterwards are those that were not
  -- before, but for the identifiers that the publisher accepted where the statement behind did not
  -- fail.
  pub deliver_all-Accounted :
      (events : List OutboxEvent) (r : DispatchResult) (w : World)
      → ((r' : DispatchResult) × ((deliver_all env events r w).0 ≡ ok r')
          × Accounted (accepted env w.calls events) (refused env w.calls events) r r'
          × (accepted env w.calls events + refused env w.calls events ≡ length events))
        × ((id : Uuid)
            → any (unsent id) (deliver_all env events r w).1.db.outbox
              ≡ (any (unsent id) w.db.outbox && not (mem id (recorded env w.calls events))))
  deliver_all-Accounted events r w =
      (deliver_all-counted events r w, λ id. deliver_all-marks id events r w)
