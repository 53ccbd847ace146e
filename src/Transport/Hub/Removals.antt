-- ===== src/Transport/Hub/Removals.antt =====
-- The ends of registrations in hub.go as each client sees them.
use ms_go_comment.Base.{
  All, Bool-cases, List, [], any, ap, arith, false, if_cases, inl, inr, keep, mem, not, refl, sym,
  ℕ, ◌&&◌, ◌==◌, ◌∙◌, ◌∷◌, ◌≡◌,
}
use ms_go_comment.Domain.Common.{Uuid}
use ms_go_comment.Transport.Hub.{
  Hub, close_done, is_pair, members, remove_client, unregister, unregister_all,
}
use ms_go_comment.Transport.Hub.Counts.{ApartFrom, Once}
use ms_go_comment.Transport.Hub.Feeds.{NodupPointers, backlog, listens}
use ms_go_comment.Transport.Hub.Valid.{Home}

any_kept_same :
    (p : ℕ) (t : Uuid) (m : List (Uuid × ℕ))
    → any (is_pair t p) (keep (λ e. not (is_pair t p e)) m) ≡ false
any_kept_same p t [] = refl
any_kept_same p t (e ∷ m) = elim (Bool-cases (is_pair t p e)) [
  | inl h ↦ rw h (any_kept_same p t m)
  | inr h ↦ rw (h, h) (any_kept_same p t m)
]

any_kept_other :
    (p q : ℕ) (t u : Uuid) (m : List (Uuid × ℕ))
    → (p == q) ≡ false
    → any (is_pair t p) (keep (λ e. not (is_pair u q e)) m) ≡ any (is_pair t p) m
any_kept_other p q t u [] h = refl
any_kept_other p q t u ((j, r) ∷ m) h = ground (arith, any_kept_other p q t u m h)

-- An unregistered client no longer listens; nothing else changes for anyone.
pub unregister-client :
    (q : ℕ) (h : Hub) (p : ℕ)
    → (((unregister q h).clients p).session ≡ (h.clients p).session)
      × (backlog ((unregister q h).clients p) ≡ backlog (h.clients p))
unfolding unregister
unregister-client q h p =
    elim (Bool-cases (any (is_pair (h.clients q).session.thread_id q) h.threads)) [
      | inl e ↦ rw e (closed (remove_client q h) refl)
      | inr e ↦ rw e (closed h refl)
    ]
  where
    closed :
        (g : Hub)
        → g.clients ≡ h.clients
        → (((close_done q g).clients p).session ≡ (h.clients p).session)
          × (backlog ((close_done q g).clients p) ≡ backlog (h.clients p))
    closed g same = elim (Bool-cases (p == q)) [
      | inl e ↦
          let at : q ≡ p = ground arith in
          rw e (
            ap (λ i. (g.clients i).session) at ∙ ap (λ f. (f p).session) same,
            ap (λ i. backlog (g.clients i)) at ∙ ap (λ f. backlog (f p)) same,
          )
      | inr e ↦ rw e (ap (λ f. (f p).session) same, ap (λ f. backlog (f p)) same)
    ]

pub unregister_self :
    (p : ℕ) (h : Hub)
    → any (is_pair (h.clients p).session.thread_id p) (unregister p h).threads ≡ false
unfolding unregister remove_client
unregister_self p h = elim (Bool-cases (listens h p)) [
  | inl e ↦ rw e (any_kept_same p (h.clients p).session.thread_id h.threads)
  | inr e ↦ rw e e
]

unregister-other :
    (q : ℕ) (h : Hub) (p : ℕ) (t : Uuid)
    → (p == q) ≡ false
    → any (is_pair t p) (unregister q h).threads ≡ any (is_pair t p) h.threads
unfolding unregister remove_client
unregister-other q h p t ne = elim (Bool-cases (listens h q)) [
  | inl e ↦ rw e (any_kept_other p q t (h.clients q).session.thread_id h.threads ne)
  | inr e ↦ rw e refl
]

pub unregister-listens :
    (q : ℕ) (h : Hub) (p : ℕ) (t : Uuid)
    → t ≡ (h.clients p).session.thread_id
    → any (is_pair t p) (unregister q h).threads ≡ (any (is_pair t p) h.threads && not (p == q))
unregister-listens q h p t mine = elim (Bool-cases (p == q)) [
  | inl e ↦
      let at : p ≡ q = ground arith in
      let gone : any (is_pair t p) (unregister p h).threads ≡ false =
        ap (λ i. any (is_pair i p) (unregister p h).threads) mine ∙ unregister_self p h in
      let moved : any (is_pair t p) (unregister q h).threads
          ≡ any (is_pair t p) (unregister p h).threads =
        ap (λ i. any (is_pair t p) (unregister i h).threads) (sym at) in
      ground (arith, gone, moved, e)
  | inr e ↦ ground (arith, unregister-other q h p t e, e)
]

pub unregister_all-client :
    (ps : List ℕ) (h : Hub) (p : ℕ)
    → (((unregister_all ps h).clients p).session ≡ (h.clients p).session)
      × (backlog ((unregister_all ps h).clients p) ≡ backlog (h.clients p))
unregister_all-client [] h p = (refl, refl)
unregister_all-client (q ∷ ps) h p =
    let ih = unregister_all-client ps (unregister q h) p in
    let one = unregister-client q h p in (ih.0 ∙ one.0, ih.1 ∙ one.1)

pub unregister_all-listens :
    (ps : List ℕ) (h : Hub) (p : ℕ) (t : Uuid)
    → t ≡ (h.clients p).session.thread_id
    → any (is_pair t p) (unregister_all ps h).threads
      ≡ (any (is_pair t p) h.threads && not (mem p ps))
unregister_all-listens [] h p t mine = ground arith
unregister_all-listens (q ∷ ps) h p t mine =
    let kept = unregister-client q h p in
    let ih =
      unregister_all-listens ps (unregister q h) p t (mine ∙ sym (ap (λ s. s.thread_id) kept.0)) in
    ground (arith, ih, unregister-listens q h p t mine)

pub mem-members :
    (h : Hub) (p : ℕ) (t : Uuid) (m : List (Uuid × ℕ))
    → All (Home h) m
    → mem p (members t m)
      ≡ ((h.clients p).session.thread_id == t && any (is_pair (h.clients p).session.thread_id p) m)
mem-members h p t [] k = ground arith
mem-members h p t ((j, q) ∷ m) k =
    let ih = mem-members h p t m k.1 in
    elim (Bool-cases (q == p)) [
      | inl e ↦
          let at : q ≡ p = ground arith in
          let home : (h.clients p).session.thread_id ≡ j =
            ap (λ i. (h.clients i).session.thread_id) (sym at) ∙ k.0.0 in
          ground (arith, ih, home)
      | inr e ↦ ground (arith, ih)
    ]

apart-members :
    (t : Uuid) (p : ℕ) (m : List (Uuid × ℕ)) → ApartFrom p m → mem p (members t m) ≡ false
apart-members t p [] a = refl
apart-members t p ((j, q) ∷ m) a = ground (arith, apart-members t p m)

pub members-Once : (t : Uuid) (m : List (Uuid × ℕ)) → Once m → NodupPointers (members t m)
members-Once t [] o = tt
members-Once t ((j, q) ∷ m) o =
    if_cases NodupPointers (j == t) (q ∷ members t m) (members t m)
      (λ e. (apart-members t q m o.0, members-Once t m o.1)) (λ e. members-Once t m o.1)
