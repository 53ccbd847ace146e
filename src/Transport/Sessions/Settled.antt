-- ===== src/Transport/Sessions/Settled.antt =====
-- What a handshake of handler.go leaves of the hub.
use ms_go_comment.Base.{
  Bool, Err, List, Option, Result, Text, [], any, ap, arith, err, false, false≢true, none, not, ok,
  refl, some, subst, sym, text_eq, true, ℕ, ℤ, ◌==◌, ◌||◌, ◌∙◌, ◌∷◌, ◌≡◌,
}
use ms_go_comment.Domain.Common.{Uuid}
use ms_go_comment.Domain.Json.{Json}
use ms_go_comment.Store.Database.{Database}
use ms_go_comment.Store.Monad.{Env, M, World}
use ms_go_comment.Store.Triples.{
  Post, Triple, Triple-bind, Triple-bind-attempt, Triple-if, Triple-pure,
}
use ms_go_comment.Transport.Hub.{
  Hub, Registration, activate, add_client, connection_limit, count_of, hub_closed, invalid_session,
  is_pair, refusal, register, register_unless, registered, unregister,
}
use ms_go_comment.Transport.Hub.Counts.{ApartFrom}
use ms_go_comment.Transport.Hub.Feeds.{listens}
use ms_go_comment.Transport.Hub.Journeys.{not-refusal-registered}
use ms_go_comment.Transport.Hub.Steps.{activate-IsValid, add_client-IsValid, refusal-eq-none}
use ms_go_comment.Transport.Hub.Undone.{added-listens, apart_before, undone-counts, undone-threads}
use ms_go_comment.Transport.Hub.Valid.{IsValid, unregister-IsValid}
use ms_go_comment.Transport.Protocol.{ready_frame}
use ms_go_comment.Transport.Sessions.{
  Handshake, Opening, enter_hub, open_session, origin_allowed, serve_websocket, start_session,
  ticket_protocol, with_session, with_ticket,
}
use ms_go_comment.Usecase.Discussion.{Authorizer}
use ms_go_comment.Usecase.Grants.{Codec}
use ms_go_comment.Usecase.Tickets.{Session}

abbrev pub is_open : Opening → Bool
is_open (open_session p frames) = true
is_open _ = false

-- A handshake that opens a session has registered one client and activated it; any other leaves the
-- registered clients and the counts as they were.
pub record Settled (h : Hub) (o : Opening) (h' : Hub) : Type 0 where
  pub valid : IsValid h'
  pub opened :
      (p : ℕ) (frames : List Json)
      → o ≡ open_session p frames
      → (listens h p ≡ false) × (listens h' p ≡ true) × ((h'.clients p).active ≡ true)
  pub untouched :
      is_open o ≡ false
      → (h'.threads ≡ h.threads)
        × ((u : Uuid) → count_of u h'.user_counts ≡ count_of u h.user_counts)

same-Settled : (h : Hub) (o : Opening) → IsValid h → is_open o ≡ false → Settled h o h
same-Settled h o v e = record {
  valid = v;
  opened =
      λ p frames s. let never : false ≡ true = sym e ∙ ap is_open s in absurd (false≢true never);
  untouched = λ _. (refl, λ u. refl);
}

not_listening :
    (t : Uuid) (p : ℕ) (m : List (Uuid × ℕ)) → ApartFrom p m → any (is_pair t p) m ≡ false
not_listening t p [] a = refl
not_listening t p ((j, q) ∷ m) a = ground (arith, not_listening t p m a.1)

activated-listens :
    (p : ℕ) (initial : List Json) (h : Hub)
    → listens h p ≡ true
    → (listens (activate p initial h).1 p ≡ true)
      × (((activate p initial h).1.clients p).active ≡ true)
unfolding activate
activated-listens p initial h s =
    let here : (p == p) ≡ true = ground arith in
    let own : (activate p initial h).1.clients p
        ≡ record (h.clients p) { pending = []; active = true } =
      rw here refl in
    (ap (λ c. any (is_pair c.session.thread_id p) h.threads) own ∙ s, ap (λ c. c.active) own)

module _ (session : Session) (h : Hub) (v : IsValid h) (g : IsValid (add_client session h)) where
  undone-Settled :
      (o : Opening) → is_open o ≡ false → Settled h o (unregister h.made (add_client session h))
  undone-Settled o e = record {
    valid = unregister-IsValid h.made (add_client session h) g;
    opened =
        λ p frames s. let never : false ≡ true = sym e ∙ ap is_open s in absurd (false≢true never);
    untouched = λ _. (undone-threads session h v g, undone-counts session h v g);
  }

  opened-Settled :
      (initial frames : List Json)
      → Settled h (open_session h.made frames) (activate h.made initial (add_client session h)).1
  opened-Settled initial frames = record {
    valid = activate-IsValid h.made initial (add_client session h) g;
    opened = λ p more e.
        let at : h.made ≡ p = ground arith in
        subst
          (λ q.
            (listens h q ≡ false)
            × (listens (activate h.made initial (add_client session h)).1 q ≡ true)
            × (((activate h.made initial (add_client session h)).1.clients q).active ≡ true))
          at
          (let on =
              activated-listens h.made initial (add_client session h)
                (added-listens session h v g) in
            (not_listening _ h.made h.threads (apart_before session h v g), on.0, on.1));
    untouched = λ e. let never : true ≡ false = e in absurd (false≢true (sym never));
  }

-- The same of a handshake's answer.
abbrev pub Settles : Hub → Opening × Hub → Database → Type 0
Settles h r d = Settled h r.0 r.1

trivial : {A : Type 0} (m : M A) → Triple (λ d. Unit {0}) m (λ a d. Unit {0})
trivial m = record { at = λ w p. go (m w) }
  where
    go : {A : Type 0} (r : Result A × World) → Post (λ a d. Unit {0}) r
    go (ok a, w) = tt
    go (err e, w) = tt

module _ (env : Env) (tokens : Codec) (access : Option Authorizer) (ttl : ℤ) (session : Session)
    (h : Hub) (v : IsValid h) where
  start_session-Settles :
      IsValid (add_client session h)
      → (upgraded : Bool) (current : Result ℤ)
      → Triple
          (λ d. Unit {0})
          (start_session env tokens access ttl session h.made upgraded
            (add_client session h)
            current)
          (Settles h)
  unfolding start_session
  start_session-Settles g upgraded (err e) =
      Triple-pure _ _ (λ d p. undone-Settled session h v g _ refl)
  start_session-Settles g false (ok current) =
      Triple-pure _ _ (λ d p. undone-Settled session h v g _ refl)
  start_session-Settles g true (ok current) =
      Triple-bind _ _ (λ a d. Unit {0}) (trivial _)
        λ now.
          Triple-bind _ _ (λ a d. Unit {0}) (trivial _)
            λ more. Triple-pure _ _ (λ d p.
              opened-Settled session h v g (ready_frame session.thread_id current now ∷ more) _)

  enter_hub-Settles :
      (upgraded : Bool) (o : Option Registration)
      → refusal session h ≡ o
      → Triple
          (λ d. Unit {0})
          (enter_hub env tokens access ttl session upgraded
            (register_unless o session h).0
            (register_unless o session h).1)
          (Settles h)
  unfolding enter_hub
  enter_hub-Settles upgraded none e =
      let (still, free) = refusal-eq-none session h e in
      Triple-bind-attempt _ _ _ (λ w p. tt)
        (start_session-Settles (add_client-IsValid session h v still free) upgraded)
  enter_hub-Settles upgraded (some (registered p)) e = absurd (not-refusal-registered session h p e)
  enter_hub-Settles upgraded (some invalid_session) e =
      Triple-pure _ _ (λ d p. same-Settled h _ v refl)
  enter_hub-Settles upgraded (some hub_closed) e = Triple-pure _ _ (λ d p. same-Settled h _ v refl)
  enter_hub-Settles upgraded (some connection_limit) e =
      Triple-pure _ _ (λ d p. same-Settled h _ v refl)

  with_session-Settles :
      (origin : Text) (upgraded : Bool)
      → Triple
          (λ d. Unit {0})
          (with_session env tokens access ttl origin upgraded (some h) (ok session))
          (λ r d. (h' : Hub) × (r.1 ≡ some h') × Settled h r.0 h')
  unfolding with_session register
  with_session-Settles origin upgraded =
      Triple-if _ (not (origin_allowed origin session.allowed_origins)) _ _
        (λ e. Triple-pure _ _ (λ d p. (h, refl, same-Settled h _ v refl)))
        λ e.
          Triple-bind _ _ (Settles h) (enter_hub-Settles upgraded (refusal session h) refl)
            λ r. Triple-pure _ _ (λ d p. (r.1, refl, p))

refused-Settles :
    (env : Env) (tokens : Codec) (access : Option Authorizer) (ttl : ℤ) (origin : Text)
    (upgraded : Bool) (h : Hub) (e : Err)
    → IsValid h
    → Triple
        (λ d. Unit {0})
        (with_session env tokens access ttl origin upgraded (some h) (err e))
        (λ r d. (h' : Hub) × (r.1 ≡ some h') × Settled h r.0 h')
unfolding with_session
refused-Settles env tokens access ttl origin upgraded h e v =
    Triple-pure _ _ (λ d p. (h, refl, same-Settled h _ v refl))

-- On a hub that satisfies the invariant, a handshake that returns, whatever it brings and whatever
-- the ticket service answers, leaves a hub that satisfies it; where it opens a session, the client
-- of the session was not registered before and is registered and active now, and otherwise the
-- registered clients and the counts of all users are as they were.
pub serve_websocket-Settled :
    (env : Env) (tokens : Codec) (access : Option Authorizer) (ttl : ℤ) (shake : Handshake)
    (upgraded : Bool) (h : Hub)
    → IsValid h
    → Triple
        (λ d. Unit {0})
        (serve_websocket env tokens access ttl shake upgraded (some h))
        (λ r d. (h' : Hub) × (r.1 ≡ some h') × Settled h r.0 h')
unfolding serve_websocket with_ticket
serve_websocket-Settled env tokens access ttl shake upgraded h v =
    Triple-if _ (not (text_eq shake.query_ticket []) || not (text_eq shake.query_token [])) _ _
      (λ e. Triple-pure _ _ (λ d p. (h, refl, same-Settled h _ v refl)))
      λ e. by_ticket (ticket_protocol shake.protocols)
  where
    by_session :
        (r : Result Session)
        → Triple
            (λ d. Unit {0})
            (with_session env tokens access ttl shake.origin upgraded (some h) r)
            (λ r d. (h' : Hub) × (r.1 ≡ some h') × Settled h r.0 h')
    by_session (ok session) =
        with_session-Settles env tokens access ttl session h v shake.origin upgraded
    by_session (err e) = refused-Settles env tokens access ttl shake.origin upgraded h e v

    by_ticket :
        (o : Option Text)
        → Triple
            (λ d. Unit {0})
            (with_ticket env tokens access ttl shake.origin upgraded (some h) o)
            (λ r d. (h' : Hub) × (r.1 ≡ some h') × Settled h r.0 h')
    by_ticket none = Triple-pure _ _ (λ d p. (h, refl, same-Settled h _ v refl))
    by_ticket (some ticket) = Triple-bind-attempt _ _ _ (λ w p. tt) by_session
