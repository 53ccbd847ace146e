-- ===== src/Transport/Hub/Feeds.antt =====
-- What a client of hub.go is to receive, against the two queues that hold it.
use ms_go_comment.Base.{
  Bool, Bool-cases, List, [], any, ap, arith, false, if◌then◌else◌, inl, inr, length, ltb, mem, not,
  refl, sym, true, ℕ, ◌&&◌, ◌++◌, ◌==◌, ◌∙◌, ◌∷◌, ◌≡◌,
}
use ms_go_comment.Domain.Json.{Json}
use ms_go_comment.Transport.Hub.{Client, Hub, is_pair, push, push_all, store_client}
use ms_go_comment.Transport.Hub.Valid.{Shaped}

-- The frames that a client has yet to be given, in their order.
abbrev pub backlog : Client → List Json
backlog c = c.pending ++ c.send

-- A client as the broadcasts see it.
pub record Subscription : Type 0 where
  pub listening : Bool
  pub frames : List Json

abbrev pub listens : Hub → ℕ → Bool
listens h p = any (is_pair (h.clients p).session.thread_id p) h.threads

abbrev pub subscription : Hub → ℕ → Subscription
subscription h p = record { listening = listens h p; frames = backlog (h.clients p) }

-- A frame for a client that listens is put behind the others, or ends a client that is too slow.
abbrev pub deliver : ℕ → Json → Subscription → Subscription
deliver size payload s =
    if s.listening
    then if ltb (length s.frames) size
      then record s { frames = s.frames ++ payload ∷ [] }
      else record s { listening = false }
    else s

pub append-nil {ℓ} : {A : Type ℓ} (xs : List A) → xs ++ [] ≡ xs
append-nil [] = refl
append-nil (x ∷ xs) = ap (λ ys. x ∷ ys) (append-nil xs)

pub push-backlog :
    (size : ℕ) (payload : Json) (c : Client)
    → Shaped size c
    → ((push payload c).0 ≡ ltb (length (backlog c)) size)
      × (backlog (push payload c).1
          ≡ (if ltb (length (backlog c)) size then backlog c ++ payload ∷ [] else backlog c))
unfolding push
push-backlog size payload c s = elim (Bool-cases c.active) [
  | inl on ↦ let e = s.waiting on in rw (on, e, s.size_kept) (ground arith, ground arith)
  | inr off ↦
      let e = s.sending off in
      rw (off, e, s.size_kept)
        (
          ground (arith, append-nil c.pending),
          ground (arith, append-nil c.pending, append-nil (c.pending ++ payload ∷ [])),
        )
]

-- No client stands twice.
abbrev pub NodupPointers : List ℕ → Type 0
NodupPointers [] = Unit
NodupPointers (p ∷ ps) = (mem p ps ≡ false) × NodupPointers ps

pub push_all-client :
    (payload : Json) (ps : List ℕ) (h : Hub) (p : ℕ)
    → NodupPointers ps
    → (push_all payload ps h).1.clients p
      ≡ (if mem p ps then (push payload (h.clients p)).1 else h.clients p)
unfolding push_all
push_all-client payload [] h p d = refl
push_all-client payload (q ∷ ps) h p d =
    let c : Client = (push payload (h.clients q)).1 in
    let ih = push_all-client payload ps (store_client q c h) p d.1 in
    elim (Bool-cases (q == p)) [
      | inl e ↦
          let same : q ≡ p = ground arith in
          let once_only : mem p ps ≡ false = ap (λ i. mem i ps) (sym same) ∙ d.0 in
          let at_p : (p == q) ≡ true = ground arith in
          let pushed : c ≡ (push payload (h.clients p)).1 =
            ap (λ i. (push payload (h.clients i)).1) same in
          ih ∙ rw (e, once_only, at_p) pushed
      | inr e ↦ let off_p : (p == q) ≡ false = ground arith in ih ∙ rw (e, off_p) refl
    ]

pub push_all-slow :
    (payload : Json) (ps : List ℕ) (h : Hub) (p : ℕ)
    → NodupPointers ps
    → mem p (push_all payload ps h).0 ≡ (mem p ps && not (push payload (h.clients p)).0)
unfolding push_all
push_all-slow payload [] h p d = refl
push_all-slow payload (q ∷ ps) h p d =
    let c : Client = (push payload (h.clients q)).1 in
    let ih = push_all-slow payload ps (store_client q c h) p d.1 in
    elim (Bool-cases (q == p)) [
      | inl e ↦
          let same : q ≡ p = ground arith in
          let once_only : mem p ps ≡ false = ap (λ i. mem i ps) (sym same) ∙ d.0 in
          let pushed : (push payload (h.clients q)).0 ≡ (push payload (h.clients p)).0 =
            ap (λ i. (push payload (h.clients i)).0) same in
          ground (arith, ih, once_only, pushed, e)
      | inr e ↦
          let off_p : (p == q) ≡ false = ground arith in
          let ih' : mem p (push_all payload ps (store_client q c h)).0
              ≡ (mem p ps && not (push payload (h.clients p)).0) =
            ih ∙ rw off_p refl in
          ground (arith, ih', e)
    ]

pub push_all-threads :
    (payload : Json) (ps : List ℕ) (h : Hub) → (push_all payload ps h).1.threads ≡ h.threads
unfolding push_all
push_all-threads payload [] h = refl
push_all-threads payload (q ∷ ps) h = push_all-threads payload ps _
