-- ===== src/Usecase/Dispatch/Leases.antt =====
-- `ClaimPending` of outbox_repository.go: the leases of claimed events.
use ms_go_comment.Base.{
  All, List, [], ap, arith, false, map, ok, pos_part, refl, ℤ, ◌<◌, ◌==◌, ◌||◌, ◌∙◌, ◌∷◌, ◌≡◌,
}
use ms_go_comment.Domain.Common.{Time}
use ms_go_comment.Domain.Outbox.{OutboxEvent}
use ms_go_comment.Store.Database.{Database}
use ms_go_comment.Store.Outbox.{claim_pending, claimed, event_before, has_id, lease, pending_event}
use ms_go_comment.Store.Rows.{All-update_where, update_where}
use ms_go_comment.Store.Rows.Sorted.{All-kept, All-sort_by, All-take}

has_id-lease :
    (until : Time) (picked : List OutboxEvent) (o : OutboxEvent)
    → has_id (map (lease until) picked) o ≡ has_id picked o
has_id-lease until [] o = refl
has_id-lease until (q ∷ picked) o = ap (λ b. (q.id == o.id) || b) (has_id-lease until picked o)

abbrev Unpicked : List OutboxEvent → OutboxEvent → Type 0
Unpicked picked o = has_id picked o ≡ false

Unpicked-lease :
    (picked : List OutboxEvent) (u v : Time) (xs : List OutboxEvent)
    → All (Unpicked picked) xs
    → All (Unpicked (map (lease u) picked)) (map (lease v) xs)
Unpicked-lease picked u v [] h = tt
Unpicked-lease picked u v (x ∷ xs) h =
    (has_id-lease u picked (lease v x) ∙ h.0, Unpicked-lease picked u v xs h.1)

any_rows : (rows : List OutboxEvent) → All (λ o. Unit {0}) rows
any_rows [] = tt
any_rows (o ∷ rows) = (tt, any_rows rows)

Unpicked-claim :
    (picked rows : List OutboxEvent) (again until : Time) (limit : ℤ)
    → again < until
    → All (Unpicked picked) (claimed again limit (update_where (has_id picked) (lease until) rows))
Unpicked-claim picked rows again until limit held = All-take _ (pos_part limit) _ (
    All-sort_by _ event_before _ (
      All-kept _ (pending_event again) _ (
        All-update_where (λ o. Unit {0}) _ (has_id picked) (lease until) rows
          (λ o e _ p. absurd (ground arith)) (λ o e _ p. e) (any_rows rows))))

-- Two ClaimPending statements both return rows, and if the second one asks for a time before the
-- end of the lease that the first one gave, it claims no event of the first.
pub claim_pending-exclusive :
    (at again until until' now later : Time) (limit limit' : ℤ) (d : Database)
    → again < until
    → (first : List OutboxEvent) × (others : List OutboxEvent) × ((claim_pending at until limit now
          d).0
        ≡ ok first)
      × ((claim_pending again until' limit' later (claim_pending at until limit now d).1).0
          ≡ ok others)
      × All (λ o. has_id first o ≡ false) others
unfolding claim_pending
claim_pending-exclusive at again until until' now later limit limit' d held = (
  _,
  _,
  refl,
  refl,
  Unpicked-lease (claimed at limit d.outbox) until until' _
      (Unpicked-claim (claimed at limit d.outbox) d.outbox again until limit' held),
)
