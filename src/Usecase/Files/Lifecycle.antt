-- ===== src/Usecase/Files/Lifecycle.antt =====
-- `DeleteAttachment` and `emitAttachmentLifecycle`.
use ms_go_comment.Base.{
  Option, [], attachment_not_found, fail_if, forbidden, if◌then◌else◌, invalid_attachment,
  invalid_comment_content, is_blank, leb, length, none, some, ◌!=◌, ◌&&◌, ◌||◌,
}
use ms_go_comment.Domain.Actor.{Actor, validate}
use ms_go_comment.Domain.Attachment.{Attachment, AttachmentStatus, is_deleted_attachment}
use ms_go_comment.Domain.Comment.{Comment}
use ms_go_comment.Domain.Common.{Time, Uuid}
use ms_go_comment.Domain.Grant.{permission_write}
use ms_go_comment.Domain.Outbox.{EventSubject}
use ms_go_comment.Domain.Thread.{Thread}
use ms_go_comment.Store.Attachments.{get_attachment, list_by_comment, update_status}
use ms_go_comment.Store.Comments.{advance_sequence, get_comment}
use ms_go_comment.Store.Monad.{
  Env, M, attempt, call, clock, lift, or_missing, pure, within_transaction, ◌>>=◌, ◌>>◌,
}
use ms_go_comment.Store.Threads.{next_sequence, next_sequence_any_state}
use ms_go_comment.Usecase.Discussion.{Settings, ThreadContext}
use ms_go_comment.Usecase.Discussion.Context.{load_thread_context, window_closed}
use ms_go_comment.Usecase.Discussion.Emit.{add_outbox}
use ms_go_comment.Usecase.Files.Transfer.{active_or, owner_or}

module _ (env : Env) (s : Settings) where
  abbrev pub marked_deleted : Time → Attachment → Attachment
  marked_deleted now a = record a {
    status = AttachmentStatus.deleted;
    deleted_at = some now;
    delete_next_attempt_at = some now;
    last_error = [];
    updated_at = now;
  }

  -- The block for a bound attachment: the comment it may be taken from.
  unfoldable pub load_owner : Actor → ThreadContext → Time → Option Uuid → M (Option Comment)
  load_owner actor ctx now none = pure none
  load_owner actor ctx now (some comment_id) = do
    found ← attempt (call env (get_comment comment_id))
    item ← lift (active_or env s attachment_not_found found)
    lift (
        fail_if (item.author_id != actor.user_id || window_closed env s ctx.policy now item)
          forbidden)
    attachments ← call env (list_by_comment ctx.thread.id item.id)
    lift (fail_if (is_blank item.body && leb (length attachments) 1) invalid_comment_content)
    pure (some item)

  -- The block that tells of the changed comment.
  unfoldable pub tell_owner : Actor → Thread → Time → Option Comment → M (Unit {0})
  tell_owner actor thread now none = pure tt
  tell_owner actor thread now (some item) = do
    sequence ← call env (next_sequence thread.id)
    updated ← call env (advance_sequence item.id sequence now)
    remaining ← call env (list_by_comment thread.id item.id)
    add_outbox env updated remaining EventSubject.comment_updated actor.user_id now

  -- `DeleteAttachment` behind the tests on the row.
  unfoldable pub remove_attachment : Actor → Attachment → M Attachment
  unfolding load_owner tell_owner
  remove_attachment actor a = do
    ctx ← load_thread_context env s actor a.thread_id permission_write
    now ← clock env
    item ← load_owner actor ctx now a.comment_id
    call env (update_status (marked_deleted now a))
    tell_owner actor ctx.thread now item
    pure (marked_deleted now a)

  -- `DeleteAttachment`
  unfoldable pub delete_attachment : Actor → Uuid → M Attachment
  unfolding remove_attachment
  delete_attachment actor id = do
    lift (validate actor)
    within_transaction env do
      a ← or_missing attachment_not_found (call env (get_attachment id))
      lift (fail_if (a.uploader_id != actor.user_id) forbidden)
      if is_deleted_attachment a.status then pure a else remove_attachment actor a

  -- `emitAttachmentLifecycle`
  unfoldable pub emit_attachment_lifecycle : Attachment → EventSubject → M (Unit {0})
  emit_attachment_lifecycle a subject = do
    comment_id ← lift (owner_or env s invalid_attachment a.comment_id)
    item ← call env (get_comment comment_id)
    sequence ← call env (next_sequence_any_state item.thread_id)
    at ← clock env
    advanced_item ← call env (advance_sequence item.id sequence at)
    attachments ← call env (list_by_comment advanced_item.thread_id advanced_item.id)
    now ← clock env
    add_outbox env advanced_item attachments subject a.uploader_id now
