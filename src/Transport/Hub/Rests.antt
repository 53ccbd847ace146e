-- ===== src/Transport/Hub/Rests.antt =====
-- What the loops of hub.go leave as it is: the flags of the clients, and how many were made.
use ms_go_comment.Base.{
  Bool, Bool-cases, List, [], ap, arith, false, if◌then◌else◌, inl, inr, refl, sym, true, ℕ, ◌==◌,
  ◌∙◌, ◌∷◌, ◌≡◌,
}
use ms_go_comment.Domain.Common.{Uuid}
use ms_go_comment.Domain.Json.{Json}
use ms_go_comment.Transport.Hub.{
  Client, Hub, broadcast, members, push, push_all, remove_client, store_client, unregister,
  unregister_all,
}
use ms_go_comment.Transport.Hub.Feeds.{listens}
use ms_go_comment.Transport.Hub.Valid.{at_store}

-- An unregistration leaves everyone's queues, and the count of clients made.
removed_rest :
    (b : Bool) (q : ℕ) (h : Hub)
    → ((if b then remove_client q h else h).made ≡ h.made)
      × ((if b then remove_client q h else h).clients ≡ h.clients)
unfolding remove_client
removed_rest true q h = (refl, refl)
removed_rest false q h = (refl, refl)

pub unregister-rest :
    (q : ℕ) (h : Hub) (p : ℕ)
    → ((unregister q h).made ≡ h.made)
      × (((unregister q h).clients p).active ≡ (h.clients p).active)
unfolding unregister
unregister-rest q h p =
    let same = removed_rest (listens h q) q h in
    (
      same.0,
      elim (Bool-cases (p == q)) [
        | inl e ↦
            let at : q ≡ p = ground arith in
            rw e (ap (λ f. (f q).active) same.1 ∙ ap (λ i. (h.clients i).active) at)
        | inr e ↦ rw e (ap (λ f. (f p).active) same.1)
      ],
    )

unregister_all-rest :
    (ps : List ℕ) (h : Hub) (p : ℕ)
    → ((unregister_all ps h).made ≡ h.made)
      × (((unregister_all ps h).clients p).active ≡ (h.clients p).active)
unregister_all-rest [] h p = (refl, refl)
unregister_all-rest (q ∷ ps) h p =
    let ih = unregister_all-rest ps (unregister q h) p in
    let one = unregister-rest q h p in (ih.0 ∙ one.0, ih.1 ∙ one.1)

push-active : (payload : Json) (c : Client) → (push payload c).1.active ≡ c.active
unfolding push
push-active payload c = ground arith

pub push_all-rest :
    (payload : Json) (ps : List ℕ) (h : Hub) (p : ℕ)
    → ((push_all payload ps h).1.made ≡ h.made)
      × (((push_all payload ps h).1.clients p).active ≡ (h.clients p).active)
unfolding push_all
push_all-rest payload [] h p = (refl, refl)
push_all-rest payload (q ∷ ps) h p =
    let c : Client = (push payload (h.clients q)).1 in
    let ih = push_all-rest payload ps (store_client q c h) p in
    (
      ih.0,
      ih.1
          ∙ at_store (λ d. d.active ≡ (h.clients p).active) p q c h
              (λ e. push-active payload (h.clients q) ∙ ap (λ i. (h.clients i).active) (sym e))
              refl,
    )

pub broadcast-rest :
    (t : Uuid) (payload : Json) (h : Hub) (p : ℕ)
    → ((broadcast t payload h).made ≡ h.made)
      × (((broadcast t payload h).clients p).active ≡ (h.clients p).active)
unfolding broadcast
broadcast-rest t payload h p =
    let pushed = push_all-rest payload (members t h.threads) h p in
    let after =
      unregister_all-rest (push_all payload (members t h.threads) h).0
        (push_all payload (members t h.threads) h).1 p in
    (after.0 ∙ pushed.0, after.1 ∙ pushed.1)
