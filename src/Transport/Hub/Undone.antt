-- ===== src/Transport/Hub/Undone.antt =====
-- A registration of hub.go that is taken back.
use ms_go_comment.Base.{
  any, ap, arith, false, if◌then◌else◌, keep, not, refl, sym, true, ℕ, ◌==◌, ◌∙◌, ◌∷◌, ◌≡◌,
}
use ms_go_comment.Domain.Common.{Uuid}
use ms_go_comment.Store.Rows.{All-map}
use ms_go_comment.Transport.Hub.{
  Hub, add_client, count_of, is_pair, new_client, remove_client, unregister,
}
use ms_go_comment.Transport.Hub.Counts.{ApartFrom, keep_apart, number, number-sessions}
use ms_go_comment.Transport.Hub.Feeds.{listens}
use ms_go_comment.Transport.Hub.Removals.{unregister-client}
use ms_go_comment.Transport.Hub.Valid.{Home, IsValid, unregister-IsValid}
use ms_go_comment.Usecase.Tickets.{Session}

-- A client that was added and unregistered again.
module _ (session : Session) (h : Hub) (v : IsValid h) (g : IsValid (add_client session h)) where
  own : (add_client session h).clients h.made ≡ new_client session h.queue_size
  unfolding add_client
  own = let here : (h.made == h.made) ≡ true = ground arith in rw here refl

  pub added-listens : listens (add_client session h) h.made ≡ true
  unfolding add_client
  added-listens =
      ap (λ c. any (is_pair c.session.thread_id h.made) ((session.thread_id, h.made) ∷ h.threads))
        own
      ∙ ground arith

  pub apart_before : ApartFrom h.made h.threads
  apart_before = All-map (Home h) _ h.threads (λ e k same. omega (arith, k.2, same)) v.homes

  pub undone-threads : (unregister h.made (add_client session h)).threads ≡ h.threads
  unfolding unregister remove_client add_client
  undone-threads =
      ap
        (λ b.
          (if b then remove_client h.made (add_client session h) else add_client session h).threads)
        added-listens
      ∙ ap
          (λ c.
            keep (λ e. not (is_pair c.session.thread_id h.made e))
              ((session.thread_id, h.made) ∷ h.threads))
          own
      ∙ first
      ∙ keep_apart session.thread_id h.made h.threads apart_before
    where
      first :
          keep
            (λ e. not (is_pair session.thread_id h.made e))
            ((session.thread_id, h.made) ∷ h.threads)
          ≡ keep (λ e. not (is_pair session.thread_id h.made e)) h.threads
      first = ground arith

  kept_session :
      (e : Uuid × ℕ)
      → Home h e
      → (h.clients e.1).session.user_id
        ≡ ((unregister h.made (add_client session h)).clients e.1).session.user_id
  unfolding add_client
  kept_session e k =
      let ne : (e.1 == h.made) ≡ false = ground arith in
      let old : (add_client session h).clients e.1 ≡ h.clients e.1 = rw ne refl in
      sym (
        ap (λ s. s.user_id) ((unregister-client h.made (add_client session h) e.1).0)
        ∙ ap (λ c. c.session.user_id) old)

  pub undone-counts :
      (u : Uuid)
      → count_of u (unregister h.made (add_client session h)).user_counts ≡ count_of u h.user_counts
  undone-counts u =
      let after : Hub = unregister h.made (add_client session h) in
      let valid : IsValid after = unregister-IsValid h.made (add_client session h) g in
      valid.counts u
      ∙ ap (number after.clients u) undone-threads
      ∙ sym (
          number-sessions h.clients after.clients u h.threads
            (All-map (Home h) _ h.threads kept_session v.homes))
      ∙ sym (v.counts u)
