-- ===== src/Domain/Attachment.antt =====
-- internal/domain/attachment.go
pub mod Bounds
use ms_go_comment.Base.{
  Bool, Option, Result, Text, codes, eq_ℤ, fail_if, false, images_disabled, invalid_attachment,
  is_blank, is_none, ltb_ℤ, not, pos, text_eq, true, ℤ, ◌&&◌, ◌==◌, ◌>>=◌, ◌>>◌, ◌||◌,
}
use ms_go_comment.Domain.Common.{Time, Uuid, after}
use ms_go_comment.Domain.Space.{Policy, outside, validate_policy}

pub data AttachmentStatus : Type 0 where
  pending processing ready failed deleted : AttachmentStatus
  other : ℤ → AttachmentStatus

-- `AttachmentStatus.Valid`
abbrev pub attachment_status_valid : AttachmentStatus → Bool
attachment_status_valid (AttachmentStatus.other _) = false
attachment_status_valid _ = true

abbrev pub is_pending : AttachmentStatus → Bool
is_pending AttachmentStatus.pending = true
is_pending _ = false

abbrev pub is_processing : AttachmentStatus → Bool
is_processing AttachmentStatus.processing = true
is_processing _ = false

abbrev pub is_ready : AttachmentStatus → Bool
is_ready AttachmentStatus.ready = true
is_ready _ = false

abbrev pub is_failed : AttachmentStatus → Bool
is_failed AttachmentStatus.failed = true
is_failed _ = false

abbrev pub is_deleted_attachment : AttachmentStatus → Bool
is_deleted_attachment AttachmentStatus.deleted = true
is_deleted_attachment _ = false

pub record Attachment : Type 0 where
  pub id : Uuid
  pub thread_id : Uuid
  pub comment_id : Option Uuid
  pub uploader_id : Uuid
  pub filestorage_id : Uuid
  pub status : AttachmentStatus
  pub mime_type : Text
  pub size_bytes : ℤ
  pub width : ℤ
  pub height : ℤ
  pub original_filename : Text
  pub expires_at : Time
  pub activated_at : Option Time
  pub deleted_at : Option Time
  pub activation_attempts : ℤ
  pub activation_next_attempt_at : Option Time
  pub delete_attempts : ℤ
  pub delete_next_attempt_at : Option Time
  pub last_error : Text
  pub storage_deleted_at : Option Time
  pub created_at : Time
  pub updated_at : Time

-- `Attachment.Validate`
unfoldable pub validate_attachment : Attachment → Policy → Result (Unit {0})
validate_attachment a p = do
  validate_policy p
  fail_if (not p.allow_images || eq_ℤ p.max_attachments (pos 0)) images_disabled
  fail_if (a.id == 0 || a.thread_id == 0 || a.uploader_id == 0 || a.filestorage_id == 0)
      invalid_attachment
  fail_if (not (attachment_status_valid a.status)) invalid_attachment
  fail_if
      (not (text_eq a.mime_type (codes "image/jpeg"))
        && not (text_eq a.mime_type (codes "image/png"))
        && not (text_eq a.mime_type (codes "image/webp")))
      invalid_attachment
  fail_if (outside a.size_bytes (pos 1) p.max_image_bytes) invalid_attachment
  fail_if (outside a.width (pos 1) (pos 32768) || outside a.height (pos 1) (pos 32768))
      invalid_attachment
  fail_if (is_blank a.original_filename) invalid_attachment
  fail_if (not (after a.expires_at a.created_at)) invalid_attachment
  fail_if (is_ready a.status && (is_none a.comment_id || is_none a.activated_at)) invalid_attachment
  fail_if (is_deleted_attachment a.status && is_none a.deleted_at) invalid_attachment
  fail_if (ltb_ℤ a.activation_attempts (pos 0) || ltb_ℤ a.delete_attempts (pos 0))
      invalid_attachment
