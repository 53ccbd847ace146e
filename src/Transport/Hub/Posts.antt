-- ===== src/Transport/Hub/Posts.antt =====
-- The steps of hub.go that other clients and the broadcasts make, on the log of one client.
use mathlib.Core.List.{append_assoc}
use ms_go_comment.Base.{
  Bool-cases, Option, Result, [], any, ap, arith, both, err, false, if◌then◌else◌, inl, inr, mem,
  none, ok, refl, some, sym, true, ℕ, ◌++◌, ◌<◌, ◌==◌, ◌∙◌, ◌∷◌, ◌≡◌, ◌≤◌,
}
use ms_go_comment.Domain.Common.{Uuid}
use ms_go_comment.Domain.Json.{Json}
use ms_go_comment.Transport.Hub.{
  Hub, Registration, add_client, broadcast, broadcast_ok, is_pair, members, push_thread, refusal,
  register, register_unless, unregister,
}
use ms_go_comment.Transport.Hub.Broadcast.{broadcast_refines, pushed_lem}
use ms_go_comment.Transport.Hub.Feeds.{Subscription, backlog, deliver, listens, subscription}
use ms_go_comment.Transport.Hub.Logs.{Agrees, Log, post, post_none, posted_by, same-Agrees}
use ms_go_comment.Transport.Hub.Removals.{unregister-client, unregister-listens}
use ms_go_comment.Transport.Hub.Rests.{broadcast-rest, push_all-rest, unregister-rest}
use ms_go_comment.Transport.Hub.Steps.{broadcast-IsValid, push_all-IsValid, register-IsValid}
use ms_go_comment.Transport.Hub.Valid.{IsValid, unregister-IsValid}
use ms_go_comment.Usecase.Tickets.{Session}

-- A new client is another one.
still_listening :
    (p : ℕ) (session : Session) (h : Hub)
    → p < h.made
    → listens (add_client session h) p ≡ true
    → listens h p ≡ true
unfolding add_client
still_listening p session h k s =
    let other : (p == h.made) ≡ false = ground arith in
    let other' : (h.made == p) ≡ false = ground arith in
    let same : (add_client session h).clients p ≡ h.clients p = rw other refl in
    let moved : listens (add_client session h) p
        ≡ any (is_pair (h.clients p).session.thread_id p)
            ((session.thread_id, h.made) ∷ h.threads) =
      ap (λ c. any (is_pair c.session.thread_id p) ((session.thread_id, h.made) ∷ h.threads))
        same in
    let heard : any (is_pair (h.clients p).session.thread_id p)
          ((session.thread_id, h.made) ∷ h.threads)
        ≡ true =
      sym moved ∙ s in
    ground (arith, heard, other')

-- Registration of another client.
pub register-Agrees :
    (p : ℕ) (session : Session) (h : Hub) (l : Log)
    → Agrees p h l
    → Agrees p (register session h).1 l
unfolding register add_client
register-Agrees p session h l a = go (refusal session h) (register-IsValid session h a.valid)
  where
    other : (p == h.made) ≡ false
    other = let k = a.exists in ground arith

    go :
        (o : Option Registration)
        → IsValid (register_unless o session h).1
        → Agrees p (register_unless o session h).1 l
    go (some r) v = a
    go none v =
        same-Agrees p h (add_client session h) l a v (omega arith)
          (λ s. still_listening p session h a.exists s) (rw other refl) (rw other refl)

pub unregister-Agrees : (p q : ℕ) (h : Hub) (l : Log) → Agrees p h l → Agrees p (unregister q h) l
unregister-Agrees p q h l a =
    let rest = unregister-rest q h p in
    let kept = unregister-client q h p in
    same-Agrees p h (unregister q h) l a (unregister-IsValid q h a.valid) (omega (arith, rest.0))
      (λ s.
        let heard =
          ap (λ i. any (is_pair i.thread_id p) (unregister q h).threads) kept.0
          ∙ unregister-listens q h p (h.clients p).session.thread_id refl in
        (both _ _ (sym heard ∙ s)).0)
      rest.1 kept.1

deliver-listening :
    (size : ℕ) (frame : Json) (s r : Subscription)
    → r ≡ deliver size frame s
    → r.listening ≡ true
    → (s.listening ≡ true) × (r.frames ≡ s.frames ++ frame ∷ [])
deliver-listening size frame s r e k = ground arith

-- A frame of the client's own thread.
deliver-Agrees :
    (p : ℕ) (frame : Json) (h g : Hub) (l : Log)
    → Agrees p h l
    → IsValid g
    → h.made ≤ g.made
    → (g.clients p).active ≡ (h.clients p).active
    → (listens g p ≡ true
        → (listens h p ≡ true) × (backlog (g.clients p) ≡ backlog (h.clients p) ++ frame ∷ []))
    → Agrees p g (post (frame ∷ []) l)
deliver-Agrees p frame h g l a v m on queue = record {
  valid = v;
  exists = omega (arith, a.exists);
  silent = λ s off.
      let q = queue s in
      let r = a.silent q.0 (sym on ∙ off) in (r.0, q.1 ∙ ap (λ b. b ++ frame ∷ []) r.1);
  ordered = λ s act.
      let q = queue s in
      ap (λ b. l.given ++ b) q.1
      ∙ sym (append_assoc l.given (backlog (h.clients p)) (frame ∷ []))
      ∙ ap (λ b. b ++ frame ∷ []) (a.ordered q.0 (sym on ∙ act))
      ∙ append_assoc l.initial l.posted (frame ∷ []);
}

seen-Agrees :
    (p : ℕ) (t : Uuid) (frame : Json) (h g : Hub) (l : Log)
    → Agrees p h l
    → IsValid g
    → h.made ≤ g.made
    → (g.clients p).active ≡ (h.clients p).active
    → subscription g p ≡ (
        if (h.clients p).session.thread_id == t
        then deliver h.queue_size frame (subscription h p)
        else subscription h p)
    → Agrees p g (post (posted_by (ok (t, frame)) (h.clients p).session.thread_id) l)
seen-Agrees p t frame h g l a v grown on seen =
    elim (Bool-cases ((h.clients p).session.thread_id == t)) [
      | inl e ↦ rw e (
          deliver-Agrees p frame h g l a v grown on (
            deliver-listening h.queue_size frame (subscription h p) (subscription g p)
              (seen ∙ rw e refl)))
      | inr e ↦
          let same : subscription g p ≡ subscription h p = seen ∙ rw e refl in
          rw e (
            post_none p g l (
              same-Agrees p h g l a v grown (λ s. sym (ap (λ k. k.listening) same) ∙ s) on
                (ap (λ k. k.frames) same)))
    ]

broadcast-Agrees :
    (p : ℕ) (t : Uuid) (frame : Json) (h : Hub) (l : Log)
    → Agrees p h l
    → Agrees p
        (broadcast t frame h)
        (post (posted_by (ok (t, frame)) (h.clients p).session.thread_id) l)
broadcast-Agrees p t frame h l a =
    let rest = broadcast-rest t frame h p in
    seen-Agrees p t frame h (broadcast t frame h) l a (broadcast-IsValid t frame h a.valid)
      (omega (arith, rest.0)) rest.1 (broadcast_refines t frame h p a.valid)

-- The first section of a broadcast, where it does not find the client too slow.
pub push_thread-Agrees :
    (p : ℕ) (t : Uuid) (frame : Json) (h : Hub) (l : Log)
    → Agrees p h l
    → mem p (push_thread t frame h).0 ≡ false
    → Agrees p
        (push_thread t frame h).1
        (post (posted_by (ok (t, frame)) (h.clients p).session.thread_id) l)
push_thread-Agrees p t frame h l a fast =
    let rest = push_all-rest frame (members t h.threads) h p in
    seen-Agrees p t frame h (push_thread t frame h).1 l a
      (push_all-IsValid frame (members t h.threads) h a.valid) (omega (arith, rest.0)) rest.1
      (pushed_lem t frame h p a.valid fast)

pub broadcast_ok-Agrees :
    (p : ℕ) (r : Result (Uuid × Json)) (h : Hub) (l : Log)
    → Agrees p h l
    → Agrees p (broadcast_ok r h) (post (posted_by r (h.clients p).session.thread_id) l)
broadcast_ok-Agrees p (err e) h l a = post_none p h l a
broadcast_ok-Agrees p (ok (t, frame)) h l a = broadcast-Agrees p t frame h l a
