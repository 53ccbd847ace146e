-- ===== src/Usecase/Discussion/Emit.antt =====
-- `addOutbox`: the lifecycle event of a comment.
use ms_go_comment.Base.{List, [], codes, if◌then◌else◌, none, pos, text_eq, ℤ}
use ms_go_comment.Domain.Attachment.{Attachment, AttachmentStatus}
use ms_go_comment.Domain.Comment.{Comment, CommentStatus}
use ms_go_comment.Domain.Common.{Time, Uuid}
use ms_go_comment.Domain.Content.{Link}
use ms_go_comment.Domain.Json.{
  Fields, Json, arr, end, field, int, items, obj, text, time, uuid, uuid_ptr,
}
use ms_go_comment.Domain.Outbox.{EventSubject, OutboxEvent, validate_event}
use ms_go_comment.Store.Monad.{Env, M, call, lift, new_id, ◌>>=◌, ◌>>◌}
use ms_go_comment.Store.Outbox.{add_event}

-- Field names and event kinds as the source spells them.
abbrev pub status_number : CommentStatus → ℤ
status_number CommentStatus.active = pos 1
status_number CommentStatus.deleted = pos 2
status_number CommentStatus.hidden = pos 3
status_number (CommentStatus.other n) = n

abbrev pub attachment_status_number : AttachmentStatus → ℤ
attachment_status_number AttachmentStatus.pending = pos 1
attachment_status_number AttachmentStatus.processing = pos 2
attachment_status_number AttachmentStatus.ready = pos 3
attachment_status_number AttachmentStatus.failed = pos 4
attachment_status_number AttachmentStatus.deleted = pos 5
attachment_status_number (AttachmentStatus.other n) = n

-- `attachmentPayload` of one attachment.
abbrev pub attachment_json : Attachment → Json
attachment_json a = obj (
    field (codes "id") (uuid a.id) (
      field (codes "status") (int (attachment_status_number a.status)) (
        field (codes "mime_type") (text a.mime_type) (
          field (codes "size_bytes") (int a.size_bytes)
            (field (codes "width") (int a.width) (field (codes "height") (int a.height) end))))))

-- `Link`, whose empty title is left out.
abbrev pub link_json : Link → Json
link_json l =
    let rest = if text_eq l.title [] then end else field (codes "title") (text l.title) end in
    obj (field (codes "url") (text l.url) rest)

-- The payload of `addOutbox`.
abbrev pub comment_payload : Comment → List Attachment → Uuid → Uuid → Time → Fields
comment_payload item attachments event_id actor_id now =
    field (codes "schema_version") (int (pos 1)) (
      field (codes "event_id") (uuid event_id) (
        field (codes "occurred_at") (time now) (
          field (codes "thread_id") (uuid item.thread_id) (
            field (codes "sequence") (int item.sequence) (
              field (codes "comment_id") (uuid item.id) (
                field (codes "parent_id") (uuid_ptr item.parent_id) (
                  field (codes "root_id") (uuid item.root_id) (
                    field (codes "actor_id") (uuid actor_id) (
                      field (codes "author_id") (uuid item.author_id) (
                        field (codes "status") (int (status_number item.status)) (
                          field (codes "version") (int item.version) (
                            field (codes "body") (text item.body) (
                              field (codes "links") (arr (items link_json item.links)) (
                                field (codes "attachments")
                                  (arr (items attachment_json attachments))
                                  (field (codes "direct_replies_count")
                                    (int item.direct_replies_count) end)))))))))))))))

abbrev pub comment_event :
    Comment → List Attachment → EventSubject → Uuid → Uuid → Time → OutboxEvent
comment_event item attachments subject actor_id event_id now = record {
  id = event_id;
  aggregate_type = codes "comment";
  aggregate_id = item.id;
  subject = subject;
  schema_version = pos 1;
  payload = obj (comment_payload item attachments event_id actor_id now);
  attempts = pos 0;
  next_attempt_at = now;
  published_at = none;
  last_error = [];
  created_at = now;
}

module _ (env : Env) where
  -- `event.Validate`, and `Outbox.Add`.
  unfoldable pub add_valid_event : OutboxEvent → M (Unit {0})
  add_valid_event event = do lift (validate_event event); call env (add_event event)

  -- `addOutbox`
  unfoldable pub add_outbox : Comment → List Attachment → EventSubject → Uuid → Time → M (Unit {0})
  unfolding add_valid_event
  add_outbox item attachments subject actor_id now = do
    event_id ← new_id env
    add_valid_event (comment_event item attachments subject actor_id event_id now)
