-- ===== src/Store/Tokens.antt =====
-- access_grant_repository.go and realtime_ticket_repository.go. A hash is a list of bytes.
use ms_go_comment.Base.{
  Bool, List, [], any, conflict, false, find, keep, leb, ltb, not, ok, pos_part, take, text_eq,
  true, ℕ, ℤ, ◌&&◌, ◌++◌, ◌==◌, ◌||◌, ◌∷◌,
}
use ms_go_comment.Domain.Common.{Time, after}
use ms_go_comment.Domain.Grant.{AccessGrant}
use ms_go_comment.Domain.Ticket.{RealtimeTicket}
use ms_go_comment.Store.Database.{Query, affecting, or_not_found, reads}
use ms_go_comment.Store.Rows.{count_where, delete_where, sort_by}

-- `AccessGrantRepository.Store`
unfoldable pub store_grant : AccessGrant → Query (Unit {0})
store_grant item now d =
    affecting (not (any (λ g. text_eq g.grant_hash item.grant_hash) d.grants)) conflict d
      (record d { grants = d.grants ++ item ∷ [] })

-- `AccessGrantRepository.Resolve`
unfoldable pub resolve_grant : List ℕ → Time → Query AccessGrant
resolve_grant hash at =
    reads
      λ d. or_not_found (find (λ g. text_eq g.grant_hash hash && after g.expires_at at) d.grants)

-- The bytes of two hashes in order.
abbrev pub hash_le : List ℕ → List ℕ → Bool
hash_le [] _ = true
hash_le (x ∷ xs) [] = false
hash_le (x ∷ xs) (y ∷ ys) = ltb x y || (x == y && hash_le xs ys)

abbrev pub expired_grants : Time → ℤ → List AccessGrant → List AccessGrant
expired_grants at limit rows = take (pos_part limit) (
    sort_by
      (λ g h.
        ltb g.expires_at h.expires_at
        || (g.expires_at == h.expires_at && hash_le g.grant_hash h.grant_hash))
      (keep (λ g. leb g.expires_at at) rows))

-- `AccessGrantRepository.DeleteExpired`
unfoldable pub delete_expired_grants : Time → ℤ → Query ℕ
unfolding sort_by delete_where count_where
delete_expired_grants at limit now d =
    let doomed = λ (g : AccessGrant).
      any (λ h. text_eq h.grant_hash g.grant_hash) (expired_grants at limit d.grants) in
    (ok (count_where doomed d.grants), record d { grants = delete_where doomed d.grants })

-- `RealtimeTicketRepository.Store`
unfoldable pub store_ticket : RealtimeTicket → Query (Unit {0})
store_ticket item now d =
    affecting (not (any (λ t. text_eq t.ticket_hash item.ticket_hash) d.tickets)) conflict d
      (record d { tickets = d.tickets ++ item ∷ [] })

abbrev pub live_ticket : List ℕ → Time → RealtimeTicket → Bool
live_ticket hash at t = text_eq t.ticket_hash hash && after t.expires_at at

-- `RealtimeTicketRepository.Consume`: the row that is deleted is returned.
unfoldable pub consume_ticket : List ℕ → Time → Query RealtimeTicket
unfolding delete_where
consume_ticket hash at now d = (
  or_not_found (find (live_ticket hash at) d.tickets),
  record d { tickets = delete_where (live_ticket hash at) d.tickets },
)

abbrev pub expired_tickets : Time → ℤ → List RealtimeTicket → List RealtimeTicket
expired_tickets at limit rows = take (pos_part limit) (
    sort_by
      (λ g h.
        ltb g.expires_at h.expires_at
        || (g.expires_at == h.expires_at && hash_le g.ticket_hash h.ticket_hash))
      (keep (λ g. leb g.expires_at at) rows))

-- `RealtimeTicketRepository.DeleteExpired`
unfoldable pub delete_expired_tickets : Time → ℤ → Query ℕ
unfolding sort_by delete_where count_where
delete_expired_tickets at limit now d =
    let doomed = λ (g : RealtimeTicket).
      any (λ h. text_eq h.ticket_hash g.ticket_hash) (expired_tickets at limit d.tickets) in
    (ok (count_where doomed d.tickets), record d { tickets = delete_where doomed d.tickets })
