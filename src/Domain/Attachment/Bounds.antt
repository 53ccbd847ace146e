-- ===== src/Domain/Attachment/Bounds.antt =====
-- `Attachment.Validate` of internal/domain/attachment.go.
use ms_go_comment.Base.{
  List, Result-cases, Text, [], any, arith, codes, eq_ℤ_iff, false, is_blank, is_none, ok, pos,
  text_eq, true, ◌<◌, ◌↔◌, ◌∷◌, ◌≡◌, ◌≢◌, ◌≤ℤ◌,
}
use ms_go_comment.Domain.Attachment.{
  Attachment, attachment_status_valid, is_deleted_attachment, is_ready, validate_attachment,
}
use ms_go_comment.Domain.Space.{Policy, validate_policy}
use ms_go_comment.Domain.Space.Bounds.{PolicyIsValid, Within, validate_policy_iff}

abbrev pub image_types : List Text
image_types = codes "image/jpeg" ∷ codes "image/png" ∷ codes "image/webp" ∷ []

pub record AttachmentIsValid (a : Attachment) (p : Policy) : Type 0 where
  pub policy_valid : PolicyIsValid p
  pub images_allowed : p.allow_images ≡ true
  pub any_allowed : p.max_attachments ≢ pos 0
  pub named : (a.id ≢ 0) × (a.thread_id ≢ 0) × (a.uploader_id ≢ 0) × (a.filestorage_id ≢ 0)
  pub status_valid : attachment_status_valid a.status ≡ true
  pub image : any (λ t. text_eq a.mime_type t) image_types ≡ true
  pub size : (pos 1 ≤ℤ a.size_bytes) × (a.size_bytes ≤ℤ p.max_image_bytes)
  pub width : Within a.width 1 32768
  pub height : Within a.height 1 32768
  pub filename : is_blank a.original_filename ≡ false
  pub expires : a.created_at < a.expires_at
  pub ready_bound :
      is_ready a.status ≡ true → (is_none a.comment_id ≡ false) × (is_none a.activated_at ≡ false)
  pub deleted_dated : is_deleted_attachment a.status ≡ true → is_none a.deleted_at ≡ false
  pub attempts : (pos 0 ≤ℤ a.activation_attempts) × (pos 0 ≤ℤ a.delete_attempts)

-- Attachment.Validate accepts exactly the attachments that meet a valid policy with images and the
-- limits on size, dimensions, type, name, expiry and attempts, and whose status agrees with their
-- comment and times.
pub validate_attachment_iff :
    (a : Attachment) (p : Policy) → (validate_attachment a p ≡ ok tt) ↔ AttachmentIsValid a p
unfolding validate_attachment
validate_attachment_iff a p = (
  λ h. ground (
    arith,
    validate_policy_iff p,
    Result-cases (validate_policy p),
    eq_ℤ_iff p.max_attachments (pos 0),
  ),
  λ h. ground (arith, validate_policy_iff p, eq_ℤ_iff p.max_attachments (pos 0)),
)
