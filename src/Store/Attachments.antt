-- ===== src/Store/Attachments.antt =====
-- attachment_repository.go
pub mod Bound
use ms_go_comment.Base.{
  Bool, Err, List, Option, Result, Text, [], any, conflict, false, find, if◌then◌else◌,
  invalid_comment_content, is_none, keep, leb, leb_ℤ, ltb, none, not, not_found, ok, pos, pos_part,
  some, take, true, ℕ, ℤ, ◌&&◌, ◌++◌, ◌+ℤ◌, ◌==◌, ◌||◌, ◌∷◌,
}
use ms_go_comment.Domain.Attachment.{
  Attachment, AttachmentStatus, is_deleted_attachment, is_pending, is_processing,
}
use ms_go_comment.Domain.Common.{Time, Uuid, after, equal_uuid_ptr}
use ms_go_comment.Store.Database.{Database, Query, affecting, or_not_found, reads}
use ms_go_comment.Store.Rows.{count_where, sort_by, update_where}

-- The primary key and the unique `filestorage_id`.
unfoldable pub create_attachment : Attachment → Query (Unit {0})
create_attachment item now d =
    affecting
      (not (any (λ a. a.id == item.id || a.filestorage_id == item.filestorage_id) d.attachments))
      conflict d (record d { attachments = d.attachments ++ item ∷ [] })

-- `GetByID` and `GetByIDForUpdate`
unfoldable pub get_attachment : Uuid → Query Attachment
get_attachment id = reads λ d. or_not_found (find (λ a. a.id == id) d.attachments)

-- `ORDER BY created_at, id`
abbrev pub attachment_before : Attachment → Attachment → Bool
attachment_before a b =
    ltb a.created_at b.created_at || (a.created_at == b.created_at && leb a.id b.id)

abbrev pub bound_to : Uuid → Uuid → Attachment → Bool
bound_to thread_id comment_id a =
    a.thread_id == thread_id
    && equal_uuid_ptr a.comment_id (some comment_id)
    && not (is_deleted_attachment a.status)

-- `ListByComment`
unfoldable pub list_by_comment : Uuid → Uuid → Query (List Attachment)
unfolding sort_by
list_by_comment thread_id comment_id =
    reads λ d. ok (sort_by attachment_before (keep (bound_to thread_id comment_id) d.attachments))

-- `CountPendingByUploader`
unfoldable pub count_pending_by_uploader : Uuid → Uuid → Time → Query ℕ
unfolding count_where
count_pending_by_uploader thread_id uploader_id at = reads λ d. ok (
    count_where
      (λ a.
        a.thread_id == thread_id
        && a.uploader_id == uploader_id
        && is_pending a.status
        && is_none a.comment_id
        && after a.expires_at at)
      d.attachments)

abbrev pub update_attachments :
    (Attachment → Bool) → (Attachment → Attachment) → Err → Database → Result (Unit {0}) × Database
update_attachments p f e d =
    affecting (any p d.attachments) e d (record d { attachments = update_where p f d.attachments })

abbrev pub bind : Uuid → Time → Attachment → Attachment
bind comment_id now a = record a {
  comment_id = some comment_id;
  status = AttachmentStatus.processing;
  updated_at = now;
}

-- `BindToComment`
unfoldable pub bind_to_comment : Uuid → Uuid → Uuid → Uuid → Query (Unit {0})
unfolding update_where
bind_to_comment id thread_id comment_id uploader_id now d =
    update_attachments
      (λ a.
        a.id == id
        && a.thread_id == thread_id
        && a.uploader_id == uploader_id
        && is_none a.comment_id
        && is_pending a.status
        && after a.expires_at now)
      (bind comment_id now) invalid_comment_content d

abbrev pub set_status : Attachment → Attachment → Attachment
set_status item row = record row {
  status = item.status;
  activated_at = item.activated_at;
  deleted_at = item.deleted_at;
  activation_attempts = item.activation_attempts;
  activation_next_attempt_at = item.activation_next_attempt_at;
  delete_attempts = item.delete_attempts;
  delete_next_attempt_at = item.delete_next_attempt_at;
  last_error = item.last_error;
  storage_deleted_at = item.storage_deleted_at;
  updated_at = item.updated_at;
}

-- `UpdateStatus`
unfoldable pub update_status : Attachment → Query (Unit {0})
unfolding update_where
update_status item now d = update_attachments (λ a. a.id == item.id) (set_status item) not_found d

-- `x IS NULL OR x <= $1`
abbrev pub due : Option Time → Time → Bool
due none at = true
due (some t) at = leb t at

-- `ORDER BY x NULLS FIRST, id`
abbrev pub nulls_first : Option Time → Option Time → ℕ → ℕ → Bool
nulls_first none none i j = leb i j
nulls_first none (some t) i j = true
nulls_first (some s) none i j = false
nulls_first (some s) (some t) i j = ltb s t || (s == t && leb i j)

-- `ListForActivation`
unfoldable pub list_for_activation : Time → ℤ → Query (List Attachment)
unfolding sort_by
list_for_activation at limit = reads λ d. ok (
    take (pos_part limit) (
      sort_by
        (λ a b. nulls_first a.activation_next_attempt_at b.activation_next_attempt_at a.id b.id)
        (keep (λ a. is_processing a.status && due a.activation_next_attempt_at at) d.attachments)))

abbrev pub make_ready : Time → Attachment → Attachment
make_ready at a = record a {
  status = AttachmentStatus.ready;
  activated_at = some at;
  activation_next_attempt_at = none;
  last_error = [];
  updated_at = at;
}

-- `UPDATE … WHERE id=$1 AND p RETURNING`: the row as it was left, or no row.
abbrev pub returning_attachment :
    (Attachment → Bool)
    → (Attachment → Attachment)
    → Option Attachment
    → Database
    → Result (Option Attachment) × Database
returning_attachment p f none d = (ok none, d)
returning_attachment p f (some a) d =
    (ok (some (f a)), record d { attachments = update_where p f d.attachments })

-- `MarkReadyIfProcessing`; `none` for "not updated".
unfoldable pub mark_ready_if_processing : Uuid → Time → Query (Option Attachment)
unfolding update_where
mark_ready_if_processing id at now d =
    let p = λ (a : Attachment). a.id == id && is_processing a.status in
    returning_attachment p (make_ready at) (find p d.attachments) d

abbrev pub fail_activation : Time → Text → ℤ → Time → Attachment → Attachment
fail_activation next message max_attempts now a =
    let terminal = leb_ℤ max_attempts (a.activation_attempts +ℤ pos 1) in
    record a {
      activation_attempts = a.activation_attempts +ℤ pos 1;
      status = if terminal then AttachmentStatus.failed else AttachmentStatus.processing;
      activation_next_attempt_at = if terminal then none else some next;
      last_error = message;
      updated_at = now;
    }

-- `RecordActivationFailure`; the caller reads "became terminal" off the status of the row.
unfoldable pub record_activation_failure : Uuid → Time → Text → ℤ → Query (Option Attachment)
unfolding update_where
record_activation_failure id next message max_attempts now d =
    let p = λ (a : Attachment). a.id == id && is_processing a.status in
    returning_attachment p (fail_activation next message max_attempts now) (find p d.attachments) d

abbrev pub undeleted : Attachment → Bool
undeleted a = is_deleted_attachment a.status && is_none a.storage_deleted_at

-- `ListForDeletion`
unfoldable pub list_for_deletion : Time → ℤ → Query (List Attachment)
unfolding sort_by
list_for_deletion at limit = reads λ d. ok (
    take (pos_part limit) (
      sort_by (λ a b. nulls_first a.delete_next_attempt_at b.delete_next_attempt_at a.id b.id)
        (keep (λ a. undeleted a && due a.delete_next_attempt_at at) d.attachments)))

abbrev pub set_storage_deleted : Time → Attachment → Attachment
set_storage_deleted at a = record a {
  storage_deleted_at = some at;
  delete_next_attempt_at = none;
  last_error = [];
  updated_at = at;
}

-- `MarkStorageDeleted`
unfoldable pub mark_storage_deleted : Uuid → Time → Query (Unit {0})
unfolding update_where
mark_storage_deleted id at now d =
    update_attachments (λ a. a.id == id && undeleted a) (set_storage_deleted at) not_found d

abbrev pub fail_delete : Time → Text → Time → Attachment → Attachment
fail_delete next message now a = record a {
  delete_attempts = a.delete_attempts +ℤ pos 1;
  delete_next_attempt_at = some next;
  last_error = message;
  updated_at = now;
}

-- `RecordDeleteFailure`
unfoldable pub record_delete_failure : Uuid → Time → Text → Query (Unit {0})
unfolding update_where
record_delete_failure id next message now d =
    update_attachments (λ a. a.id == id && undeleted a) (fail_delete next message now) not_found d

-- `ListExpired`
unfoldable pub list_expired : Time → ℤ → Query (List Attachment)
unfolding sort_by
list_expired before limit = reads λ d. ok (
    take (pos_part limit) (
      sort_by
        (λ a b. ltb a.expires_at b.expires_at || (a.expires_at == b.expires_at && leb a.id b.id))
        (keep (λ a. is_pending a.status && ltb a.expires_at before) d.attachments)))
