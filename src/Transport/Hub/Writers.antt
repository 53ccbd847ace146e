-- ===== src/Transport/Hub/Writers.antt =====
-- The steps of one session of hub.go, on the log of a client: its own, or another's.
use mathlib.Core.List.{append_assoc}
use ms_go_comment.Base.{
  List, [], any, ap, arith, false, false≢true, if_cases, length, ltb, refl, subst, sym, true, ℕ,
  ◌++◌, ◌==◌, ◌∙◌, ◌∷◌, ◌≡◌,
}
use ms_go_comment.Domain.Json.{Json}
use ms_go_comment.Transport.Hub.{Hub, activate, enqueue, is_pair, receive, receive_from, unregister}
use ms_go_comment.Transport.Hub.Feeds.{append-nil, backlog}
use ms_go_comment.Transport.Hub.Logs.{
  Agrees, Log, log_op, other_client-Agrees, own_client-Agrees, post, taken, unheard-Agrees,
}
use ms_go_comment.Transport.Hub.Posts.{unregister-Agrees}
use ms_go_comment.Transport.Hub.Reach.{op_activate, op_enqueue, op_receive}
use ms_go_comment.Transport.Hub.Removals.{unregister-client, unregister_self}
use ms_go_comment.Transport.Hub.Rests.{unregister-rest}
use ms_go_comment.Transport.Hub.Steps.{activate-IsValid, enqueue-IsValid, receive_from-IsValid}
use ms_go_comment.Transport.Hub.Valid.{IsValid}

activate_own :
    (p : ℕ) (initial : List Json) (h : Hub) (l : Log)
    → (h.clients p).active ≡ false
    → Agrees p h l
    → Agrees p
        (activate p initial h).1
        (record l { initial = initial; given = (activate p initial h).0 })
unfolding activate
activate_own p initial h l off a =
    own_client-Agrees p _ h l _ a (activate-IsValid p initial h a.valid) refl (λ s e. cc)
      λ s e.
        append_assoc initial (h.clients p).pending (h.clients p).send
        ∙ ap (λ b. initial ++ b) (a.silent s off).1

enqueue_own :
    (p : ℕ) (payload : Json) (h : Hub) (l : Log)
    → (h.clients p).active ≡ true
    → Agrees p h l
    → Agrees p (enqueue p payload h) (post (payload ∷ []) l)
unfolding enqueue
enqueue_own p payload h l on a =
    if_cases (λ g. IsValid g → Agrees p g (post (payload ∷ []) l))
      (ltb (length (h.clients p).send) (h.clients p).queue_size) _ _
      (λ e v.
        own_client-Agrees p _ h l _ a v refl (λ s off. absurd (false≢true (sym off ∙ on)))
          λ s k.
            sym (
              ap (λ b. l.given ++ b)
                (append_assoc (h.clients p).pending (h.clients p).send (payload ∷ [])))
            ∙ sym (append_assoc l.given (backlog (h.clients p)) (payload ∷ []))
            ∙ ap (λ b. b ++ payload ∷ []) (a.ordered s on)
            ∙ append_assoc l.initial l.posted (payload ∷ []))
      (λ e v.
        unheard-Agrees p (unregister p h) _ v (omega (arith, (unregister-rest p h p).0, a.exists)) (
          ap (λ i. any (is_pair i.thread_id p) (unregister p h).threads) (unregister-client p h p).0
          ∙ unregister_self p h))
      (enqueue-IsValid p payload h on a.valid)

receive_own :
    (q : List Json) (p : ℕ) (h : Hub) (l : Log)
    → (h.clients p).send ≡ q
    → Agrees p h l
    → Agrees p (receive_from q p h).1 (record l { given = l.given ++ taken (receive_from q p h).0 })
unfolding receive_from
receive_own [] p h l e a =
    subst (λ g. Agrees p h (record l { given = g })) (sym (append-nil l.given)) a
receive_own (frame ∷ rest) p h l e a =
    let shape = a.valid.shaped p in
    own_client-Agrees p _ h l _ a (receive_from-IsValid (frame ∷ rest) p h e a.valid) refl
      (λ s off. let none_left : frame ∷ rest ≡ [] = sym e ∙ shape.sending off in absurd (cc))
      λ s on.
        let w = shape.waiting on in
        append_assoc l.given (frame ∷ []) ((h.clients p).pending ++ rest)
        ∙ ap (λ ps. l.given ++ frame ∷ (ps ++ rest)) w
        ∙ sym (ap (λ ps. l.given ++ (ps ++ frame ∷ rest)) w)
        ∙ sym (ap (λ q. l.given ++ ((h.clients p).pending ++ q)) e)
        ∙ a.ordered s on

other_activate :
    (p q : ℕ) (initial : List Json) (h : Hub) (l : Log)
    → (q == p) ≡ false
    → Agrees p h l
    → Agrees p (activate q initial h).1 l
unfolding activate
other_activate p q initial h l e a =
    other_client-Agrees p q _ h l e a (activate-IsValid q initial h a.valid)

other_enqueue :
    (p q : ℕ) (payload : Json) (h : Hub) (l : Log)
    → (q == p) ≡ false
    → (h.clients q).active ≡ true
    → Agrees p h l
    → Agrees p (enqueue q payload h) l
unfolding enqueue
other_enqueue p q payload h l e on a =
    if_cases (λ g. IsValid g → Agrees p g l)
      (ltb (length (h.clients q).send) (h.clients q).queue_size) _ _
      (λ t v. other_client-Agrees p q _ h l e a v) (λ t v. unregister-Agrees p q h l a)
      (enqueue-IsValid q payload h on a.valid)

other_receive :
    (s : List Json) (p q : ℕ) (h : Hub) (l : Log)
    → (h.clients q).send ≡ s
    → (q == p) ≡ false
    → Agrees p h l
    → Agrees p (receive_from s q h).1 l
unfolding receive_from
other_receive [] p q h l k e a = a
other_receive (frame ∷ rest) p q h l k e a =
    other_client-Agrees p q _ h l e a (receive_from-IsValid (frame ∷ rest) q h k a.valid)

pub activate-Agrees :
    (p q : ℕ) (initial : List Json) (h : Hub) (l : Log)
    → (h.clients q).active ≡ false
    → Agrees p h l
    → Agrees p (activate q initial h).1 (log_op p (op_activate q initial) h l)
activate-Agrees p q initial h l off a =
    if_cases (Agrees p (activate q initial h).1) (q == p) _ _
      (λ e.
        let at : p ≡ q = ground arith in
        subst
          (λ i.
            Agrees p (activate i initial h).1
              (record l { initial = initial; given = (activate i initial h).0 }))
          at (activate_own p initial h l (ap (λ i. (h.clients i).active) at ∙ off) a))
      (λ e. other_activate p q initial h l e a)

pub enqueue-Agrees :
    (p q : ℕ) (payload : Json) (h : Hub) (l : Log)
    → (h.clients q).active ≡ true
    → Agrees p h l
    → Agrees p (enqueue q payload h) (log_op p (op_enqueue q payload) h l)
enqueue-Agrees p q payload h l on a =
    if_cases (Agrees p (enqueue q payload h)) (q == p) _ _
      (λ e.
        let at : p ≡ q = ground arith in
        subst (λ i. Agrees p (enqueue i payload h) (post (payload ∷ []) l)) at
          (enqueue_own p payload h l (ap (λ i. (h.clients i).active) at ∙ on) a))
      (λ e. other_enqueue p q payload h l e on a)

pub receive-Agrees :
    (p q : ℕ) (h : Hub) (l : Log)
    → Agrees p h l
    → Agrees p (receive q h).1 (log_op p (op_receive q) h l)
unfolding receive
receive-Agrees p q h l a =
    if_cases (Agrees p (receive q h).1) (q == p) _ _
      (λ e.
        let at : p ≡ q = ground arith in
        subst
          (λ i. Agrees p (receive i h).1 (record l { given = l.given ++ taken (receive i h).0 })) at
          (receive_own (h.clients p).send p h l refl a))
      (λ e. other_receive (h.clients q).send p q h l refl e a)
