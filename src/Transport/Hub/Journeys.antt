-- ===== src/Transport/Hub/Journeys.antt =====
-- Runs of hub.go from the registration of a client.
use ms_go_comment.Base.{
  Option, ap, arith, false, false≢true, if_cases, mem, none, ok, refl, some, subst, sym, true, ℕ, ℤ,
  ◌==◌, ◌∙◌, ◌≡◌, ◌≢◌,
}
use ms_go_comment.Domain.Common.{Uuid}
use ms_go_comment.Domain.Json.{Json}
use ms_go_comment.Transport.Hub.{
  Hub, Registration, add_client, broadcast_ephemeral, broadcast_lifecycle, close, new_client,
  push_thread, refusal, register, register_unless, registered,
}
use ms_go_comment.Transport.Hub.Feeds.{backlog}
use ms_go_comment.Transport.Hub.Logs.{
  Agrees, Log, empty_log, log_op, post, posted_by, unheard-Agrees,
}
use ms_go_comment.Transport.Hub.Posts.{
  broadcast_ok-Agrees, push_thread-Agrees, register-Agrees, unregister-Agrees,
}
use ms_go_comment.Transport.Hub.Reach.{
  Allowed, HubOp, HubReach, HubReach-IsValid, apply_op, op_activate, op_close, op_enqueue,
  op_ephemeral, op_lifecycle, op_receive, op_register, op_unregister,
}
use ms_go_comment.Transport.Hub.Steps.{close-IsValid, register-IsValid}
use ms_go_comment.Transport.Hub.Valid.{IsValid}
use ms_go_comment.Transport.Hub.Writers.{activate-Agrees, enqueue-Agrees, receive-Agrees}
use ms_go_comment.Transport.Protocol.{lifecycle_envelope}
use ms_go_comment.Usecase.Tickets.{Session}

close-Agrees : (p : ℕ) (h : Hub) (l : Log) → Agrees p h l → Agrees p (close h) l
unfolding close
close-Agrees p h l a =
    if_cases (λ g. IsValid g → Agrees p g l) h.closed _ _ (λ e v. a)
      (λ e v. unheard-Agrees p _ l v a.exists refl) (close-IsValid h a.valid)

apply_op-Agrees :
    (p : ℕ) (op : HubOp) (h : Hub) (l : Log)
    → Allowed op h
    → Agrees p h l
    → Agrees p (apply_op op h) (log_op p op h l)
unfolding apply_op broadcast_lifecycle broadcast_ephemeral
apply_op-Agrees p (op_register session) h l k a = register-Agrees p session h l a
apply_op-Agrees p (op_unregister q) h l k a = unregister-Agrees p q h l a
apply_op-Agrees p (op_lifecycle subject payload) h l k a =
    broadcast_ok-Agrees p (lifecycle_envelope subject payload) h l a
apply_op-Agrees p (op_ephemeral payload) h l k a = broadcast_ok-Agrees p _ h l a
apply_op-Agrees p (op_activate q initial) h l k a = activate-Agrees p q initial h l k a
apply_op-Agrees p (op_enqueue q payload) h l k a = enqueue-Agrees p q payload h l k a
apply_op-Agrees p (op_receive q) h l k a = receive-Agrees p q h l a
apply_op-Agrees p op_close h l k a = close-Agrees p h l a

-- The runs from the registration of a client, with its log.
pub data Journey (max size : ℤ) (p : ℕ) : Hub → Log → Type 0 where
  joined :
      (session : Session) {h : Hub}
      → HubReach max size h
      → (register session h).0 ≡ registered p
      → Journey max size p (register session h).1 empty_log
  went :
      {h : Hub} {l : Log} (op : HubOp)
      → Journey max size p h l
      → Allowed op h
      → Journey max size p (apply_op op h) (log_op p op h l)
  passed :
      {h : Hub} {l : Log} (t : Uuid) (payload : Json)
      → Journey max size p h l
      → mem p (push_thread t payload h).0 ≡ false
      → Journey max size p
          (push_thread t payload h).1
          (post (posted_by (ok (t, payload)) (h.clients p).session.thread_id) l)

added-Agrees :
    (session : Session) (h : Hub)
    → IsValid (add_client session h)
    → Agrees h.made (add_client session h) empty_log
unfolding add_client
added-Agrees session h v =
    let here : (h.made == h.made) ≡ true = ground arith in
    let same : (add_client session h).clients h.made ≡ new_client session h.queue_size =
      rw here refl in
    record {
      valid = v;
      exists = omega arith;
      silent = λ s off. (refl, ap backlog same);
      ordered = λ s on.
          let never : false ≡ true = sym (ap (λ c. c.active) same) ∙ on in
          absurd (false≢true never);
    }

pub not-refusal-registered :
    (session : Session) (h : Hub) (p : ℕ) → refusal session h ≢ some (registered p)
unfolding refusal
not-refusal-registered session h p e = ground arith

joined_unless :
    (o : Option Registration) (p : ℕ) (session : Session) (h : Hub)
    → refusal session h ≡ o
    → IsValid (register_unless o session h).1
    → (register_unless o session h).0 ≡ registered p
    → Agrees p (register_unless o session h).1 empty_log
joined_unless (some r) p session h e v k =
    absurd (not-refusal-registered session h p (e ∙ ap (λ x. some x) k))
joined_unless none p session h e v k =
    let at : h.made ≡ p = ground arith in
    subst (λ i. Agrees i (add_client session h) empty_log) at (added-Agrees session h v)

joined-Agrees :
    (p : ℕ) (session : Session) (h : Hub)
    → IsValid h
    → (register session h).0 ≡ registered p
    → Agrees p (register session h).1 empty_log
unfolding register
joined-Agrees p session h v e =
    joined_unless (refusal session h) p session h refl (register-IsValid session h v) e

-- In every run of the hub from the registration of a client on (registrations, ends, broadcasts,
-- activations, frames of the session itself, reads and the close, each of them one step, and the
-- pushes of a broadcast without the ends of registrations behind them, where the client is not one
-- that they refuse; in any order and for any client, where a session activates its client once and
-- sends it frames of its own after that): as long as the client is registered and active, the
-- frames that its writer was given, and then those that wait in its queue, are the frames that its
-- session started with and then every frame that was broadcast to its thread or sent to it since
-- its registration, in that order; none is lost, added or moved.
pub Journey-Agrees :
    {max size : ℤ} {p : ℕ} {h : Hub} {l : Log} → Journey max size p h l → Agrees p h l
Journey-Agrees {p = p} (joined session {h} r e) = joined-Agrees p session h (HubReach-IsValid r) e
Journey-Agrees {p = p} (went {h} {l} op j k) = apply_op-Agrees p op h l k (Journey-Agrees j)
Journey-Agrees {p = p} (passed {h} {l} t payload j fast) =
    push_thread-Agrees p t payload h l (Journey-Agrees j) fast
