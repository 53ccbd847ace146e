-- ===== src/Store/Outbox.antt =====
-- outbox_repository.go
use ms_go_comment.Base.{
  Bool, List, Result, Text, [], any, conflict, is_none, keep, leb, ltb, map, not, not_found, ok,
  pos, pos_part, some, take, ℤ, ◌&&◌, ◌++◌, ◌+ℤ◌, ◌==◌, ◌||◌, ◌∷◌,
}
use ms_go_comment.Domain.Common.{Time, Uuid}
use ms_go_comment.Domain.Outbox.{OutboxEvent}
use ms_go_comment.Store.Database.{Database, Query, affecting}
use ms_go_comment.Store.Rows.{sort_by, update_where}

-- `Add`
unfoldable pub add_event : OutboxEvent → Query (Unit {0})
add_event item now d =
    affecting (not (any (λ o. o.id == item.id) d.outbox)) conflict d
      (record d { outbox = d.outbox ++ item ∷ [] })

-- `ORDER BY next_attempt_at, created_at, id`
abbrev pub event_before : OutboxEvent → OutboxEvent → Bool
event_before a b =
    ltb a.next_attempt_at b.next_attempt_at
    || (a.next_attempt_at == b.next_attempt_at
        && (ltb a.created_at b.created_at || (a.created_at == b.created_at && leb a.id b.id)))

abbrev pub lease : Time → OutboxEvent → OutboxEvent
lease until o = record o { next_attempt_at = until }

abbrev pub pending_event : Time → OutboxEvent → Bool
pending_event at o = is_none o.published_at && leb o.next_attempt_at at

abbrev pub claimed : Time → ℤ → List OutboxEvent → List OutboxEvent
claimed at limit rows = take (pos_part limit) (sort_by event_before (keep (pending_event at) rows))

abbrev pub has_id : List OutboxEvent → OutboxEvent → Bool
has_id picked o = any (λ q. q.id == o.id) picked

-- `ClaimPending`: the picked rows, leased, in the order of the selection.
unfoldable pub claim_pending : Time → Time → ℤ → Query (List OutboxEvent)
unfolding sort_by update_where
claim_pending at until limit now d =
    let picked = claimed at limit d.outbox in
    (
      ok (map (lease until) picked),
      record d { outbox = update_where (has_id picked) (lease until) d.outbox },
    )

abbrev pub unpublished : Uuid → OutboxEvent → Bool
unpublished id o = o.id == id && is_none o.published_at

abbrev pub update_events :
    (OutboxEvent → Bool) → (OutboxEvent → OutboxEvent) → Database → Result (Unit {0}) × Database
update_events p f d =
    affecting (any p d.outbox) not_found d (record d { outbox = update_where p f d.outbox })

-- `MarkPublished`
unfoldable pub mark_published : Uuid → Time → Query (Unit {0})
unfolding update_where
mark_published id at now d =
    update_events (unpublished id) (λ o. record o { published_at = some at; last_error = [] }) d

-- `MarkFailed`
unfoldable pub mark_failed : Uuid → Time → Text → Query (Unit {0})
unfolding update_where
mark_failed id next message now d =
    update_events (unpublished id)
      (λ o. record o {
        attempts = o.attempts +ℤ pos 1;
        next_attempt_at = next;
        last_error = message;
      })
      d
