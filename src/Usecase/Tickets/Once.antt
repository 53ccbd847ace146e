-- ===== src/Usecase/Tickets/Once.antt =====
-- `Consume` of realtime_ticket_repository.go.
use ms_go_comment.Base.{
  Bool, List, [], arith, err, find, none, not_found, refl, true, ℕ, ◌∷◌, ◌≡◌, ◌≤◌,
}
use ms_go_comment.Domain.Common.{Time}
use ms_go_comment.Domain.Ticket.{RealtimeTicket}
use ms_go_comment.Store.Database.{Database}
use ms_go_comment.Store.Rows.{delete_where}
use ms_go_comment.Store.Tokens.{consume_ticket, live_ticket}

find-delete_where :
    (p q : RealtimeTicket → Bool) (ts : List RealtimeTicket)
    → ((t : RealtimeTicket) → q t ≡ true → p t ≡ true)
    → find q (delete_where p ts) ≡ none
unfolding delete_where
find-delete_where p q [] narrower = refl
find-delete_where p q (t ∷ ts) narrower =
    ground (arith, narrower t, find-delete_where p q ts narrower)

-- A ticket hash that was consumed is not found again at the same time or later.
pub consume_ticket-once :
    (hash : List ℕ) (at again now later : Time) (d : Database)
    → at ≤ again
    → (consume_ticket hash again later (consume_ticket hash at now d).1).0 ≡ err not_found
unfolding consume_ticket
consume_ticket-once hash at again now later d le =
    rw
      (find-delete_where (live_ticket hash at) (live_ticket hash again) d.tickets
        (λ t h. ground arith))
      refl
