-- ===== src/Usecase/Files/Transfer.antt =====
-- `UploadAttachment` and `GetAttachmentSignedURL`.
-- `if s.Files == nil { … }`
use ms_go_comment.Base.{
  Err, Option, Result, [], attachment_not_found, attachment_not_ready, err, fail_if, if◌then◌else◌,
  invalid_comment_content, leb_ℤ, none, not, ok, pos, pos_part, some, unavailable, ◌*◌, ◌+◌,
}
use ms_go_comment.Domain.Actor.{Actor, validate}
use ms_go_comment.Domain.Attachment.{Attachment, AttachmentStatus, is_ready, validate_attachment}
use ms_go_comment.Domain.Comment.{Comment, is_active_comment}
use ms_go_comment.Domain.Common.{Time, Uuid, minute}
use ms_go_comment.Domain.Grant.{permission_read, permission_upload}
use ms_go_comment.Domain.Image.{ImageMetadata, inspect_image}
use ms_go_comment.Store.Attachments.{count_pending_by_uploader, create_attachment, get_attachment}
use ms_go_comment.Store.Comments.{get_comment}
use ms_go_comment.Store.Monad.{
  Answer, Env, M, ask, attempt, call, clock, done, failed, lift, new_id, or_missing, pure, ◌>>=◌,
  ◌>>◌,
}
use ms_go_comment.Usecase.Discussion.{Settings}
use ms_go_comment.Usecase.Discussion.Context.{load_thread_context}
use ms_go_comment.Usecase.Files.{SignedFileUrl, UploadAttachmentInput, ttl_minutes, url_minutes}

module _ (env : Env) (s : Settings) where
  abbrev pub answered : {A : Type 0} → Answer A → Result A
  answered (done a) = ok a
  answered (failed message) = err unavailable

  abbrev pub uploaded : Actor → Uuid → Uuid → Uuid → ImageMetadata → Time → Attachment
  uploaded actor id thread_id file_id m now = record {
    id = id;
    thread_id = thread_id;
    comment_id = none;
    uploader_id = actor.user_id;
    filestorage_id = file_id;
    status = AttachmentStatus.pending;
    mime_type = m.mime_type;
    size_bytes = m.size_bytes;
    width = m.width;
    height = m.height;
    original_filename = m.original_filename;
    expires_at = now + pos_part (ttl_minutes s) * minute;
    activated_at = none;
    deleted_at = none;
    activation_attempts = pos 0;
    activation_next_attempt_at = none;
    delete_attempts = pos 0;
    delete_next_attempt_at = none;
    last_error = [];
    storage_deleted_at = none;
    created_at = now;
    updated_at = now;
  }

  -- `UploadAttachment`
  unfoldable pub upload_attachment : Actor → UploadAttachmentInput → M Attachment
  upload_attachment actor input = do
    lift (validate actor)
    lift (fail_if (not env.files_configured) unavailable)
    ctx ← load_thread_context env s actor input.thread_id permission_upload
    metadata ← lift (inspect_image env.decode input.bytes input.filename ctx.policy)
    now ← clock env
    waiting ← call env (count_pending_by_uploader ctx.thread.id actor.user_id now)
    lift (fail_if (leb_ℤ ctx.policy.max_attachments (pos waiting)) invalid_comment_content)
    id ← new_id env
    answer ← ask env env.upload_at
    file_id ← lift (answered answer)
    lift (validate_attachment (uploaded actor id ctx.thread.id file_id metadata now) ctx.policy)
    call env (create_attachment (uploaded actor id ctx.thread.id file_id metadata now))
    pure (uploaded actor id ctx.thread.id file_id metadata now)

  -- The comment that a ready attachment belongs to.
  abbrev pub owner_or : Err → Option Uuid → Result Uuid
  owner_or e none = err e
  owner_or e (some id) = ok id

  abbrev pub ready_owner : Attachment → Result Uuid
  ready_owner a =
      if not (is_ready a.status)
      then err attachment_not_ready
      else owner_or attachment_not_ready a.comment_id

  abbrev pub active_or : Err → Result Comment → Result Comment
  active_or e (err _) = err e
  active_or e (ok c) = if not (is_active_comment c.status) then err e else ok c

  -- `GetAttachmentSignedURL`
  unfoldable pub get_attachment_signed_url : Actor → Uuid → M SignedFileUrl
  get_attachment_signed_url actor id = do
    lift (validate actor)
    lift (fail_if (not env.files_configured) unavailable)
    a ← or_missing attachment_not_found (call env (get_attachment id))
    comment_id ← lift (ready_owner a)
    found ← attempt (call env (get_comment comment_id))
    item ← lift (active_or attachment_not_found found)
    ctx ← load_thread_context env s actor item.thread_id permission_read
    answer ← ask env env.signed_url_at
    url ← lift (answered answer)
    now ← clock env
    pure (record { url = url; expires_at = now + pos_part (url_minutes s) * minute })
