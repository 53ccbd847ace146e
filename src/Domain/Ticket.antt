-- ===== src/Domain/Ticket.antt =====
-- internal/domain/realtime_ticket.go
use ms_go_comment.Base.{
  Bool, List, Option, Result, fail_if, false, invalid_realtime_ticket, length, ltb_ℤ, none, not,
  pos, some, ℕ, ℤ, ◌!=◌, ◌==◌, ◌>>◌, ◌||◌,
}
use ms_go_comment.Domain.Common.{Time, Uuid, after}
use ms_go_comment.Domain.Grant.{Permission, beyond_mask, includes, permission_read}

pub record RealtimeTicket : Type 0 where
  pub ticket_hash : List ℕ
  pub user_id : Uuid
  pub thread_id : Uuid
  pub permissions : Permission
  pub requested_last_sequence : Option ℤ
  pub expires_at : Time
  pub created_at : Time

-- `p != nil && *p < 0`
abbrev pub negative_ptr : Option ℤ → Bool
negative_ptr none = false
negative_ptr (some n) = ltb_ℤ n (pos 0)

-- `RealtimeTicket.Validate`
unfoldable pub validate_ticket : RealtimeTicket → Result (Unit {0})
validate_ticket t = do
  fail_if (length t.ticket_hash != 32 || t.user_id == 0 || t.thread_id == 0) invalid_realtime_ticket
  fail_if (beyond_mask t.permissions || not (includes t.permissions permission_read))
      invalid_realtime_ticket
  fail_if (negative_ptr t.requested_last_sequence) invalid_realtime_ticket
  fail_if (not (after t.expires_at t.created_at)) invalid_realtime_ticket
