-- ===== src/Usecase/Files.antt =====
-- internal/usecase/comment/attachment_service.go: its inputs, results and settings.
pub mod Transfer
pub mod Lifecycle
pub mod Work
pub mod Delays
pub mod Uploads
use ms_go_comment.Base.{
  Err, List, Text, if◌then◌else◌, leb, ltb_ℤ, pos, pos_part, suc, take, zero, ℕ, ℤ, ◌%◌, ◌*◌, ◌-◌,
}
use ms_go_comment.Domain.Common.{Time, Uuid, minute, second}
use ms_go_comment.Store.Monad.{attempt}
use ms_go_comment.Usecase.Discussion.{Settings}

pub record UploadAttachmentInput : Type 0 where
  pub thread_id : Uuid
  pub filename : Text
  pub bytes : List ℕ

pub record SignedFileUrl : Type 0 where
  pub url : Text
  pub expires_at : Time

-- `AttachmentWorkResult` with the errors that the worker joins.
pub record WorkReport : Type 0 where
  pub activated : ℕ
  pub failed : ℕ
  pub deleted : ℕ
  pub errors : List Err

-- A setting, or its default if it is not positive.
abbrev pub positive_or : ℤ → ℤ → ℤ
positive_or fallback v = if ltb_ℤ (pos 0) v then v else fallback

abbrev pub ttl_minutes : Settings → ℤ
ttl_minutes s = positive_or (pos 60) s.attachment_ttl_minutes

abbrev pub url_minutes : Settings → ℤ
url_minutes s = positive_or (pos 5) s.signed_url_minutes

abbrev pub max_attempts : Settings → ℤ
max_attempts s = positive_or (pos 5) s.activation_max_attempts

-- `5*time.Second * time.Duration(1<<k)`, on 64 bits.
abbrev pub doubled : ℕ → ℕ
doubled zero = 5 * second
doubled (suc k) = (2 * doubled k) % 0x10000000000000000

abbrev pub min_ℕ : ℕ → ℕ → ℕ
min_ℕ a b = if leb a b then a else b

-- `attachmentRetryDelay`
unfoldable pub retry_delay : ℤ → ℕ
retry_delay attempt = min_ℕ (doubled (min_ℕ (pos_part attempt - 1) 6)) (5 * minute)

-- `truncateError` on the bytes of the text.
abbrev pub truncate_error : Text → Text
truncate_error message = take 1000 message
