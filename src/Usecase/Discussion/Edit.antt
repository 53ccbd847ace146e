-- ===== src/Usecase/Discussion/Edit.antt =====
-- `UpdateComment` and `DeleteComment`.
use ms_go_comment.Base.{List, Text, [], length, pos, some, ℤ, ◌+ℤ◌, ◌∷◌}
use ms_go_comment.Domain.Actor.{Actor}
use ms_go_comment.Domain.Attachment.{Attachment, AttachmentStatus}
use ms_go_comment.Domain.Comment.{Comment, CommentStatus}
use ms_go_comment.Domain.Common.{Time}
use ms_go_comment.Domain.Content.{CommentContent, analyze_comment_content, validate_content}
use ms_go_comment.Domain.Outbox.{EventSubject}
use ms_go_comment.Domain.Thread.{Thread}
use ms_go_comment.Store.Attachments.{list_by_comment, update_status}
use ms_go_comment.Store.Comments.{mark_deleted, update_content}
use ms_go_comment.Store.Monad.{Env, M, call, clock, lift, pure, within_transaction, ◌>>=◌, ◌>>◌}
use ms_go_comment.Store.Threads.{next_sequence}
use ms_go_comment.Usecase.Discussion.{CommentView, DeleteCommentInput, Settings, UpdateCommentInput}
use ms_go_comment.Usecase.Discussion.Context.{load_mutable_comment}
use ms_go_comment.Usecase.Discussion.Emit.{add_outbox}

module _ (env : Env) (s : Settings) where
  abbrev pub edited : Comment → CommentContent → ℤ → Time → Comment
  edited item content sequence now = record item {
    body = content.body;
    links = content.links;
    sequence = sequence;
    version = item.version +ℤ pos 1;
    edited_at = some now;
    updated_at = now;
  }

  -- The content of an update: nothing new is attached, what is attached counts.
  abbrev pub updated_content : Text → List Attachment → CommentContent
  updated_content body attachments = record (analyze_comment_content body (pos 0)) {
    existing_attachment_count = pos (length attachments);
  }

  -- The writes of `UpdateComment`.
  unfoldable pub write_update :
      Actor
      → UpdateCommentInput
      → Comment
      → Thread
      → CommentContent
      → List Attachment
      → M CommentView
  write_update actor input item thread content attachments = do
    sequence ← call env (next_sequence thread.id)
    now ← clock env
    call env (update_content (edited item content sequence now) input.expected_version)
    add_outbox env (edited item content sequence now) attachments EventSubject.comment_updated
        actor.user_id now
    pure (record { comment = edited item content sequence now; attachments = attachments })

  -- `UpdateComment`
  unfoldable pub update_comment : Actor → UpdateCommentInput → M CommentView
  unfolding write_update
  update_comment actor input = within_transaction env do
    found ← load_mutable_comment env s actor input.comment_id input.expected_version
    attachments ← call env (list_by_comment found.thread.id found.item.id)
    lift (validate_content env.urls (updated_content input.body attachments) found.policy)
    write_update actor input found.item found.thread (updated_content input.body attachments)
        attachments

  abbrev pub tombstone : Comment → ℤ → Time → Comment
  tombstone item sequence now = record item {
    body = [];
    links = [];
    sequence = sequence;
    status = CommentStatus.deleted;
    version = item.version +ℤ pos 1;
    deleted_at = some now;
    updated_at = now;
  }

  abbrev pub dropped : Time → Attachment → Attachment
  dropped now a = record a {
    status = AttachmentStatus.deleted;
    deleted_at = some now;
    delete_next_attempt_at = some now;
    updated_at = now;
  }

  -- The loop of `DeleteComment` over the attachments.
  unfoldable pub drop_attachments : Time → List Attachment → M (List Attachment)
  drop_attachments now [] = pure []
  drop_attachments now (a ∷ more) = do
    call env (update_status (dropped now a))
    rest ← drop_attachments now more
    pure (dropped now a ∷ rest)

  -- The writes of `DeleteComment`.
  unfoldable pub write_delete : Actor → DeleteCommentInput → Comment → Thread → M CommentView
  unfolding drop_attachments
  write_delete actor input item thread = do
    sequence ← call env (next_sequence thread.id)
    now ← clock env
    call env (mark_deleted (tombstone item sequence now) input.expected_version)
    attachments ← call env (list_by_comment thread.id item.id)
    gone ← drop_attachments now attachments
    add_outbox env (tombstone item sequence now) [] EventSubject.comment_deleted actor.user_id now
    pure (record { comment = tombstone item sequence now; attachments = gone })

  -- `DeleteComment`
  unfoldable pub delete_comment : Actor → DeleteCommentInput → M CommentView
  unfolding write_delete
  delete_comment actor input = within_transaction env do
    found ← load_mutable_comment env s actor input.comment_id input.expected_version
    write_delete actor input found.item found.thread
