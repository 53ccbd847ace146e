-- ===== src/Transport/Hub/Valid.antt =====
-- The invariant of the hub of hub.go.
use ms_go_comment.Base.{
  All, Bool-cases, List, [], any, ap, arith, false, inl, inr, keep, length, not, refl, sym, true, ℕ,
  ℤ, ◌<◌, ◌==◌, ◌∙◌, ◌∷◌, ◌≡◌, ◌≤◌,
}
use ms_go_comment.Domain.Common.{Uuid}
use ms_go_comment.Store.Rows.{All-keep, All-map, All-zip}
use ms_go_comment.Transport.Hub.{
  Client, Hub, close_done, count_of, is_pair, new_hub, remove_client, store_client, unregister,
}
use ms_go_comment.Transport.Hub.Counts.{
  ApartFrom, Once, Once-keep, count_of-count_down, number, number-removed, number-sessions,
}

-- The queues of a client: before it is active all waits in one, and then in the other.
pub record Shaped (size : ℕ) (c : Client) : Type 0 where
  pub waiting : c.active ≡ true → c.pending ≡ []
  pub sending : c.active ≡ false → c.send ≡ []
  pub pending_bound : length c.pending ≤ size
  pub send_bound : length c.send ≤ size
  pub size_kept : c.queue_size ≡ size

abbrev pub Home : Hub → Uuid × ℕ → Type 0
Home h e =
    ((h.clients e.1).session.thread_id ≡ e.0) × ((h.clients e.1).done ≡ false) × (e.1 < h.made)

pub record IsValid (h : Hub) : Type 0 where
  pub homes : All (Home h) h.threads
  pub once : Once h.threads
  pub counts : (u : Uuid) → count_of u h.user_counts ≡ number h.clients u h.threads
  pub limits : (u : Uuid) → count_of u h.user_counts ≤ h.max_connections_per_user
  pub shaped : (p : ℕ) → Shaped h.queue_size (h.clients p)
  pub shut : h.closed ≡ true → h.threads ≡ []

pub new_hub-IsValid : (max size : ℤ) → IsValid (new_hub max size)
unfolding new_hub
new_hub-IsValid max size = record {
  homes = tt;
  once = tt;
  counts = λ u. refl;
  limits = λ u. omega arith;
  shaped = λ p. record {
    waiting = λ e. refl;
    sending = λ e. refl;
    pending_bound = omega arith;
    send_bound = omega arith;
    size_kept = refl;
  };
  shut = λ e. refl;
}

-- What a client's owner may change of it.
pub record Alike (size : ℕ) (old new : Client) : Type 0 where
  pub session_kept : new.session ≡ old.session
  pub done_kept : new.done ≡ old.done
  pub shape_kept : Shaped size new

-- A predicate at a changed state holds at the new client, or held before.
pub at_store {κ} :
    (P : Client → Type κ) (q p : ℕ) (c : Client) (h : Hub)
    → (q ≡ p → P c)
    → P (h.clients q)
    → P ((store_client p c h).clients q)
at_store P q p c h new old = elim (Bool-cases (q == p)) [
  | inl e ↦ rw e (new (ground arith))
  | inr e ↦ rw e old
]

stored_session :
    (q p : ℕ) (c : Client) (h : Hub)
    → c.session ≡ (h.clients p).session
    → ((store_client p c h).clients q).session ≡ (h.clients q).session
stored_session q p c h same =
    at_store (λ d. d.session ≡ (h.clients q).session) q p c h (λ e. rw e same) refl

all_entries {κ} : {A : Type κ} (P : A → Type 0) (m : List A) → ((e : A) → P e) → All P m
all_entries P [] h = tt
all_entries P (e ∷ m) h = (h e, all_entries P m h)

stored_number :
    (p : ℕ) (c : Client) (h : Hub) (u : Uuid)
    → c.session ≡ (h.clients p).session
    → number h.clients u h.threads ≡ number (store_client p c h).clients u h.threads
stored_number p c h u same =
    number-sessions h.clients (store_client p c h).clients u h.threads
      (all_entries _ h.threads (λ e. sym (ap (λ s. s.user_id) (stored_session e.1 p c h same))))

-- A client's state that keeps the session and the mark.
pub store_client-IsValid :
    (p : ℕ) (c : Client) (h : Hub)
    → IsValid h
    → Alike h.queue_size (h.clients p) c
    → IsValid (store_client p c h)
store_client-IsValid p c h v a = record {
  homes =
      All-map (Home h) (Home (store_client p c h)) h.threads
        (λ e k. (
          ap (λ s. s.thread_id) (stored_session e.1 p c h a.session_kept) ∙ k.0,
          at_store (λ d. d.done ≡ false) e.1 p c h
              (λ same. a.done_kept ∙ ap (λ q. (h.clients q).done) (sym same) ∙ k.1) k.1,
          k.2,
        ))
        v.homes;
  once = v.once;
  counts = λ u. v.counts u ∙ stored_number p c h u a.session_kept;
  limits = v.limits;
  shaped = λ q. at_store (Shaped h.queue_size) q p c h (λ e. a.shape_kept) (v.shaped q);
  shut = v.shut;
}

-- A client that stands nowhere, closed.
close_done-IsValid :
    (p : ℕ) (h : Hub) → IsValid h → ApartFrom p h.threads → IsValid (close_done p h)
close_done-IsValid p h v away = record {
  homes =
      All-map _ (Home (close_done p h)) h.threads
        (λ e k. (
          ap (λ s. s.thread_id) (stored_session e.1 p _ h refl) ∙ k.0.0,
          at_store (λ d. d.done ≡ false) e.1 p _ h (λ same. absurd (k.1 same)) k.0.1,
          k.0.2,
        ))
        (All-zip _ _ h.threads v.homes away);
  once = v.once;
  counts = λ u. v.counts u ∙ stored_number p _ h u refl;
  limits = v.limits;
  shaped = λ q.
      at_store (Shaped h.queue_size) q p _ h
        (λ e.
          let k = v.shaped p in
          record {
            waiting = k.waiting;
            sending = k.sending;
            pending_bound = k.pending_bound;
            send_bound = k.send_bound;
            size_kept = k.size_kept;
          })
        (v.shaped q);
  shut = v.shut;
}

-- A client stands under its own thread only.
not_pair-ApartFrom :
    (h : Hub) (p : ℕ) (m : List (Uuid × ℕ))
    → All (Home h) m
    → any (is_pair (h.clients p).session.thread_id p) m ≡ false
    → ApartFrom p m
not_pair-ApartFrom h p [] k e = tt
not_pair-ApartFrom h p ((j, q) ∷ m) k e = (
  λ same. elsewhere (ap (λ i. (h.clients i).session.thread_id) (sym same) ∙ k.0.0) same,
  not_pair-ApartFrom h p m k.1 (ground arith),
)
  where
    elsewhere : (h.clients p).session.thread_id ≡ j → q ≡ p → ⊥
    elsewhere t same = ground arith

removed-ApartFrom :
    (h : Hub) (p : ℕ) (m : List (Uuid × ℕ))
    → All (Home h) m
    → ApartFrom p (keep (λ e. not (is_pair (h.clients p).session.thread_id p e)) m)
removed-ApartFrom h p [] k = tt
removed-ApartFrom h p ((j, q) ∷ m) k =
    elim (Bool-cases (is_pair (h.clients p).session.thread_id p (j, q))) [
      | inl e ↦ rw e (removed-ApartFrom h p m k.1)
      | inr e ↦ rw e (
        (not_pair-ApartFrom h p ((j, q) ∷ []) (k.0, tt) (ground arith)).0,
        removed-ApartFrom h p m k.1,
      )
    ]

remove_client-ApartFrom : (p : ℕ) (h : Hub) → IsValid h → ApartFrom p (remove_client p h).threads
unfolding remove_client
remove_client-ApartFrom p h v = removed-ApartFrom h p h.threads v.homes

remove_client-IsValid :
    (p : ℕ) (h : Hub)
    → IsValid h
    → any (is_pair (h.clients p).session.thread_id p) h.threads ≡ true
    → IsValid (remove_client p h)
unfolding remove_client
remove_client-IsValid p h v there = record {
  homes = All-keep (Home h) _ h.threads v.homes;
  once = Once-keep _ h.threads v.once;
  counts = λ u. ground (
    arith,
    v.counts u,
    count_of-count_down u (h.clients p).session.user_id h.user_counts,
    number-removed h.clients u (h.clients p).session.thread_id p h.threads v.once there,
    v.counts (h.clients p).session.user_id,
    number-removed h.clients (h.clients p).session.user_id (h.clients p).session.thread_id p
        h.threads v.once there,
  );
  limits = λ u. ground (
    arith,
    v.limits u,
    v.limits (h.clients p).session.user_id,
    count_of-count_down u (h.clients p).session.user_id h.user_counts,
  );
  shaped = v.shaped;
  shut = λ e. ground (arith, v.shut e);
}

-- `unregister` keeps the invariant.
pub unregister-IsValid : (p : ℕ) (h : Hub) → IsValid h → IsValid (unregister p h)
unfolding unregister
unregister-IsValid p h v =
    elim (Bool-cases (any (is_pair (h.clients p).session.thread_id p) h.threads)) [
      | inl e ↦ rw e (
          close_done-IsValid p (remove_client p h) (remove_client-IsValid p h v e)
            (remove_client-ApartFrom p h v))
      | inr e ↦ rw e (close_done-IsValid p h v (not_pair-ApartFrom h p h.threads v.homes e))
    ]
