-- ===== src/Domain/Outbox.antt =====
-- internal/domain/outbox.go
use ms_go_comment.Base.{
  Bool, Option, Result, Text, fail_if, false, invalid_outbox_event, is_blank, ltb_ℤ, not, pos, true,
  ℤ, ◌==◌, ◌>>◌, ◌||◌,
}
use ms_go_comment.Domain.Common.{Time, Uuid}
use ms_go_comment.Domain.Json.{Json, is_object}

pub data EventSubject : Type 0 where
  comment_created comment_updated comment_deleted comment_hidden comment_restored : EventSubject
  attachment_ready attachment_failed thread_updated : EventSubject
  other : Text → EventSubject

-- `EventSubject.Valid`
abbrev pub subject_valid : EventSubject → Bool
subject_valid (EventSubject.other _) = false
subject_valid _ = true

-- The payload is the document that its bytes encode.
pub record OutboxEvent : Type 0 where
  pub id : Uuid
  pub aggregate_type : Text
  pub aggregate_id : Uuid
  pub subject : EventSubject
  pub schema_version : ℤ
  pub payload : Json
  pub attempts : ℤ
  pub next_attempt_at : Time
  pub published_at : Option Time
  pub last_error : Text
  pub created_at : Time

-- `OutboxEvent.Validate`
unfoldable pub validate_event : OutboxEvent → Result (Unit {0})
validate_event e = do
  fail_if (e.id == 0 || e.aggregate_id == 0 || is_blank e.aggregate_type) invalid_outbox_event
  fail_if
      (not (subject_valid e.subject) || ltb_ℤ e.schema_version (pos 1) || ltb_ℤ e.attempts (pos 0))
      invalid_outbox_event
  fail_if (not (is_object e.payload)) invalid_outbox_event
