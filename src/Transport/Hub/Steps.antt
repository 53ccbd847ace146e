-- ===== src/Transport/Hub/Steps.antt =====
-- Every operation of hub.go keeps the invariant, and so every run.
use ms_go_comment.Base.{
  Bool, Bool-cases, List, Option, [], any, ap, arith, false, false≢true, if_cases, if◌then◌else◌,
  inl, inr, length, length-append, ltb, none, refl, some, sym, true, ℕ, ◌+◌, ◌<◌, ◌==◌, ◌∙◌, ◌∷◌,
  ◌≡◌,
}
use ms_go_comment.Domain.Common.{Uuid}
use ms_go_comment.Domain.Json.{Json}
use ms_go_comment.Store.Rows.{All-map}
use ms_go_comment.Transport.Hub.{
  Client, Hub, Registration, activate, add_client, broadcast, close, count_of, enqueue, members,
  new_client, push, push_all, receive, receive_from, refusal, register, register_unless,
  store_client, unregister_all,
}
use ms_go_comment.Transport.Hub.Counts.{count_of-put, number, number-sessions}
use ms_go_comment.Transport.Hub.Valid.{
  Alike, Home, IsValid, Shaped, at_store, store_client-IsValid, unregister-IsValid,
}
use ms_go_comment.Usecase.Tickets.{Session}

pub push-Alike :
    (size : ℕ) (payload : Json) (c : Client) → Shaped size c → Alike size c (push payload c).1
unfolding push
push-Alike size payload c s = record {
  session_kept = ground arith;
  done_kept = ground arith;
  shape_kept = record {
    waiting = λ e. ground (arith, s.waiting);
    sending = λ e. ground (arith, s.sending);
    pending_bound =
        ground (arith, length-append c.pending (payload ∷ []), s.pending_bound, s.size_kept);
    send_bound = ground (arith, length-append c.send (payload ∷ []), s.send_bound, s.size_kept);
    size_kept = ground (arith, s.size_kept);
  };
}

pub push_all-IsValid :
    (payload : Json) (ps : List ℕ) (h : Hub) → IsValid h → IsValid (push_all payload ps h).1
unfolding push_all
push_all-IsValid payload [] h v = v
push_all-IsValid payload (p ∷ ps) h v =
    push_all-IsValid payload ps _
      (store_client-IsValid p _ h v (push-Alike h.queue_size payload (h.clients p) (v.shaped p)))

unregister_all-IsValid : (ps : List ℕ) (h : Hub) → IsValid h → IsValid (unregister_all ps h)
unregister_all-IsValid [] h v = v
unregister_all-IsValid (p ∷ ps) h v = unregister_all-IsValid ps _ (unregister-IsValid p h v)

pub broadcast-IsValid :
    (t : Uuid) (payload : Json) (h : Hub) → IsValid h → IsValid (broadcast t payload h)
unfolding broadcast
broadcast-IsValid t payload h v =
    unregister_all-IsValid (push_all payload (members t h.threads) h).0 _
      (push_all-IsValid payload (members t h.threads) h v)

pub activate-IsValid :
    (p : ℕ) (initial : List Json) (h : Hub) → IsValid h → IsValid (activate p initial h).1
unfolding activate
activate-IsValid p initial h v =
    let s = v.shaped p in
    store_client-IsValid p _ h v (record {
      session_kept = refl;
      done_kept = refl;
      shape_kept = record {
        waiting = λ e. refl;
        sending = λ e. cc;
        pending_bound = omega arith;
        send_bound = s.send_bound;
        size_kept = s.size_kept;
      };
    })

pub receive_from-IsValid :
    (q : List Json) (p : ℕ) (h : Hub)
    → (h.clients p).send ≡ q
    → IsValid h
    → IsValid (receive_from q p h).1
unfolding receive_from
receive_from-IsValid [] p h e v = v
receive_from-IsValid (payload ∷ rest) p h e v =
    let s = v.shaped p in
    store_client-IsValid p _ h v (record {
      session_kept = refl;
      done_kept = refl;
      shape_kept = record {
        waiting = s.waiting;
        sending = λ off. let none_left : payload ∷ rest ≡ [] = sym e ∙ s.sending off in cc;
        pending_bound = s.pending_bound;
        send_bound = omega (arith, s.send_bound, ap length e);
        size_kept = s.size_kept;
      };
    })

pub receive-IsValid : (p : ℕ) (h : Hub) → IsValid h → IsValid (receive p h).1
unfolding receive
receive-IsValid p h v = receive_from-IsValid (h.clients p).send p h refl v

pub enqueue-IsValid :
    (p : ℕ) (payload : Json) (h : Hub)
    → (h.clients p).active ≡ true
    → IsValid h
    → IsValid (enqueue p payload h)
unfolding enqueue
enqueue-IsValid p payload h on v =
    let s = v.shaped p in
    elim (Bool-cases (ltb (length (h.clients p).send) (h.clients p).queue_size)) [
      | inl e ↦ rw e (
          store_client-IsValid p _ h v (record {
            session_kept = refl;
            done_kept = refl;
            shape_kept = record {
              waiting = s.waiting;
              sending = λ off. absurd (false≢true (sym off ∙ on));
              pending_bound = s.pending_bound;
              send_bound =
                  ground (arith, length-append (h.clients p).send (payload ∷ []), s.size_kept);
              size_kept = s.size_kept;
            };
          }))
      | inr e ↦ rw e (unregister-IsValid p h v)
    ]

-- The pairs that stood before keep their homes and counts when a new client is added.
module _ (session : Session) (h : Hub) (v : IsValid h) where
  abbrev added : Client
  added = new_client session h.queue_size

  before_made : (e : Uuid × ℕ) → Home h e → (e.1 == h.made) ≡ false
  before_made e k = ground arith

  old_Home : (e : Uuid × ℕ) → Home h e → Home (add_client session h) e
  unfolding add_client
  old_Home e k = let ne = before_made e k in (rw ne k.0, rw ne k.1, omega (arith, k.2))

  old_number :
      (u : Uuid)
      → number h.clients u h.threads ≡ number (store_client h.made added h).clients u h.threads
  old_number u =
      number-sessions h.clients (store_client h.made added h).clients u h.threads
        (All-map (Home h) _ h.threads (λ e k. rw (before_made e k) refl) v.homes)

  new_Home : Home (add_client session h) (session.thread_id, h.made)
  unfolding add_client
  new_Home =
      let same : (h.made == h.made) ≡ true = ground arith in
      (rw same refl, rw same refl, omega arith)

  pub add_client-IsValid :
      h.closed ≡ false
      → count_of session.user_id h.user_counts < h.max_connections_per_user
      → IsValid (add_client session h)
  unfolding add_client
  add_client-IsValid still free = record {
    homes = (new_Home, All-map (Home h) (Home (add_client session h)) h.threads old_Home v.homes);
    once = (All-map (Home h) _ h.threads (λ e k same. omega (arith, k.2, same)) v.homes, v.once);
    counts = λ u.
        let same : (h.made == h.made) ≡ true = ground arith in
        rw same (
          ground (
            arith,
            count_of-put u session.user_id (count_of session.user_id h.user_counts + 1)
                h.user_counts,
            v.counts u,
            v.counts session.user_id,
            old_number u,
            old_number session.user_id,
          ));
    limits = λ u. ground (
      arith,
      count_of-put u session.user_id (count_of session.user_id h.user_counts + 1) h.user_counts,
      v.limits u,
    );
    shaped = λ q.
        at_store (Shaped h.queue_size) q h.made _ h
          (λ e. record {
            waiting = λ on. refl;
            sending = λ off. refl;
            pending_bound = omega arith;
            send_bound = omega arith;
            size_kept = refl;
          })
          (v.shaped q);
    shut = λ e. absurd (false≢true (sym still ∙ e));
  }

-- A registration that nothing refuses has room in an open hub.
pub refusal-eq-none :
    (session : Session) (h : Hub)
    → refusal session h ≡ none
    → (h.closed ≡ false) × (count_of session.user_id h.user_counts < h.max_connections_per_user)
unfolding refusal
refusal-eq-none session h e = ground arith

register_unless-IsValid :
    (o : Option Registration) (session : Session) (h : Hub)
    → refusal session h ≡ o
    → IsValid h
    → IsValid (register_unless o session h).1
register_unless-IsValid (some r) session h e v = v
register_unless-IsValid none session h e v =
    let (still, free) = refusal-eq-none session h e in add_client-IsValid session h v still free

pub register-IsValid : (session : Session) (h : Hub) → IsValid h → IsValid (register session h).1
unfolding register
register-IsValid session h v = register_unless-IsValid (refusal session h) session h refl v

pub close-IsValid : (h : Hub) → IsValid h → IsValid (close h)
unfolding close
close-IsValid h v =
    if_cases IsValid h.closed _ _ (λ shut. v)
      λ still. record {
        homes = tt;
        once = tt;
        counts = λ u. refl;
        limits = λ u. omega arith;
        shaped = λ q. closed_shape (any (λ e. e.1 == q) h.threads) q (v.shaped q);
        shut = λ e. refl;
      }
  where
    closed_shape :
        (b : Bool) (q : ℕ)
        → Shaped h.queue_size (h.clients q)
        → Shaped h.queue_size (if b then record (h.clients q) { done = true } else h.clients q)
    closed_shape true q s = record {
      waiting = s.waiting;
      sending = s.sending;
      pending_bound = s.pending_bound;
      send_bound = s.send_bound;
      size_kept = s.size_kept;
    }
    closed_shape false q s = s
