-- ===== src/Usecase/Admin/Moderation.antt =====
-- `HideComment` and `RestoreComment`.
use ms_go_comment.Base.{
  Bool, List, [], codes, comment_not_found, fail_if, false, if◌then◌else◌, moderation_conflict,
  none, not, pos, space_not_found, thread_not_found, true, validation, ℤ, ◌&&◌, ◌+ℤ◌, ◌==◌, ◌||◌,
}
use ms_go_comment.Domain.Actor.{Actor}
use ms_go_comment.Domain.Attachment.{Attachment}
use ms_go_comment.Domain.Comment.{
  Comment, CommentStatus, is_active_comment, is_deleted_comment, is_hidden_comment, status_eq,
}
use ms_go_comment.Domain.Common.{Time, Uuid}
use ms_go_comment.Domain.Json.{
  Fields, Json, arr, end, field, int, items, obj, text, time, uuid, uuid_ptr,
}
use ms_go_comment.Domain.Outbox.{EventSubject, OutboxEvent}
use ms_go_comment.Store.Attachments.{list_by_comment}
use ms_go_comment.Store.Comments.{get_comment, update_moderation_status}
use ms_go_comment.Store.Monad.{
  Env, M, call, clock, lift, new_id, or_missing, pure, within_transaction, ◌>>=◌, ◌>>◌,
}
use ms_go_comment.Store.Spaces.{get_space}
use ms_go_comment.Store.Threads.{get_thread, next_sequence_any_state}
use ms_go_comment.Usecase.Admin.{require_admin_read}
use ms_go_comment.Usecase.Discussion.{CommentView}
use ms_go_comment.Usecase.Discussion.Emit.{
  add_valid_event, attachment_status_number, link_json, status_number,
}

module _ (env : Env) where
  abbrev pub is_restored : EventSubject → Bool
  is_restored EventSubject.comment_restored = true
  is_restored _ = false

  -- `attachmentPayload` of the administration, for one attachment.
  abbrev pub moderated_attachment : Attachment → Json
  moderated_attachment a = obj (
      field (codes "id") (uuid a.id) (
        field (codes "status") (int (attachment_status_number a.status)) (
          field (codes "mime_type") (text a.mime_type) (
            field (codes "size_bytes") (int a.size_bytes)
              (field (codes "width") (int a.width) (field (codes "height") (int a.height) end))))))

  -- `payload["body"]`, `payload["links"]` and `payload["attachments"]`, which only a restored comment
  -- has.
  abbrev pub restored_members : Comment → List Attachment → Fields
  restored_members item attachments = field (codes "body") (text item.body) (
      field (codes "links") (arr (items link_json item.links))
        (field (codes "attachments") (arr (items moderated_attachment attachments)) end))

  abbrev pub moderation_payload :
      Comment → List Attachment → EventSubject → Uuid → Uuid → Time → Fields
  moderation_payload item attachments subject actor_id event_id now =
      field (codes "schema_version") (int (pos 1)) (
        field (codes "event_id") (uuid event_id) (
          field (codes "occurred_at") (time now) (
            field (codes "thread_id") (uuid item.thread_id) (
              field (codes "sequence") (int item.sequence) (
                field (codes "comment_id") (uuid item.id) (
                  field (codes "parent_id") (uuid_ptr item.parent_id) (
                    field (codes "root_id") (uuid item.root_id) (
                      field (codes "actor_id") (uuid actor_id) (
                        field (codes "author_id") (uuid item.author_id) (
                          field (codes "status") (int (status_number item.status)) (
                            field (codes "version") (int item.version) (
                              field (codes "direct_replies_count") (int item.direct_replies_count) (
                                if is_restored subject
                                then restored_members item attachments
                                else end)))))))))))))

  -- The event of `addModerationOutbox`.
  abbrev pub moderation_event :
      Comment → List Attachment → EventSubject → Uuid → Uuid → Time → OutboxEvent
  moderation_event item attachments subject actor_id event_id now = record {
    id = event_id;
    aggregate_type = codes "comment";
    aggregate_id = item.id;
    subject = subject;
    schema_version = pos 1;
    payload = obj (moderation_payload item attachments subject actor_id event_id now);
    attempts = pos 0;
    next_attempt_at = now;
    published_at = none;
    last_error = [];
    created_at = now;
  }

  -- `addModerationOutbox`
  unfoldable pub add_moderation_outbox :
      Comment → List Attachment → EventSubject → Uuid → Time → M (Unit {0})
  add_moderation_outbox item attachments subject actor_id now = do
    event_id ← new_id env
    add_valid_event env (moderation_event item attachments subject actor_id event_id now)

  abbrev pub moderated : CommentStatus → Comment → ℤ → Time → Comment
  moderated target item sequence now = record item {
    status = target;
    version = item.version +ℤ pos 1;
    sequence = sequence;
    updated_at = now;
  }

  -- The writes of `moderateComment`.
  unfoldable pub write_moderation :
      Actor → Comment → List Attachment → CommentStatus → EventSubject → M CommentView
  unfolding add_moderation_outbox
  write_moderation actor item attachments target subject = do
    sequence ← or_missing thread_not_found (call env (next_sequence_any_state item.thread_id))
    now ← clock env
    call env
        (update_moderation_status (moderated target item sequence now) item.status item.version)
    add_moderation_outbox (moderated target item sequence now) attachments subject actor.user_id now
    pure (record { comment = moderated target item sequence now; attachments = attachments })

  -- `if item.Status == target { return nil }`
  unfoldable pub moderate_if :
      Bool → Actor → Comment → List Attachment → CommentStatus → EventSubject → M CommentView
  unfolding write_moderation
  moderate_if true actor item attachments target subject =
      pure (record { comment = item; attachments = attachments })
  moderate_if false actor item attachments target subject =
      write_moderation actor item attachments target subject

  -- `moderateComment`
  unfoldable pub moderate_comment : Actor → Uuid → CommentStatus → EventSubject → M CommentView
  unfolding moderate_if
  moderate_comment actor id target subject = do
    lift (require_admin_read actor)
    lift (
        fail_if (id == 0 || (not (is_hidden_comment target) && not (is_active_comment target)))
          validation)
    within_transaction env do
      item ← or_missing comment_not_found (call env (get_comment id))
      thread ← or_missing thread_not_found (call env (get_thread item.thread_id))
      space ← or_missing space_not_found (call env (get_space thread.space_id))
      lift (fail_if (is_deleted_comment item.status) moderation_conflict)
      attachments ← call env (list_by_comment item.thread_id item.id)
      moderate_if (status_eq item.status target) actor item attachments target subject

  -- `HideComment`
  unfoldable pub hide_comment : Actor → Uuid → M CommentView
  unfolding moderate_comment
  hide_comment actor id = moderate_comment actor id CommentStatus.hidden EventSubject.comment_hidden

  -- `RestoreComment`
  unfoldable pub restore_comment : Actor → Uuid → M CommentView
  unfolding moderate_comment
  restore_comment actor id =
      moderate_comment actor id CommentStatus.active EventSubject.comment_restored
