-- ===== src/Transport/Http/Views.antt =====
-- The documents of handlers/comment.go, handlers/admin.go and handlers/internal.go.
use ms_go_comment.Base.{Option, Text, [], codes, none, some}
use ms_go_comment.Domain.Attachment.{Attachment, AttachmentStatus}
use ms_go_comment.Domain.Comment.{CommentStatus}
use ms_go_comment.Domain.Common.{Time}
use ms_go_comment.Domain.Json.{
  Fields, Json, arr, bool, end, field, int, items, obj, text, time, uuid,
}
use ms_go_comment.Domain.Space.{Policy}
use ms_go_comment.Domain.Thread.{ThreadStatus}
use ms_go_comment.Usecase.Discussion.{CommentView, ThreadView}
use ms_go_comment.Usecase.Discussion.Emit.{link_json}

abbrev pub optional_json {ℓ} : {A : Type ℓ} → (A → Json) → Option A → Option Json
optional_json f none = none
optional_json f (some a) = some (f a)

-- A member with `omitempty`.
abbrev pub optional_member : Text → Option Json → Fields → Fields
optional_member k none rest = rest
optional_member k (some j) rest = field k j rest

abbrev pub time_member : Text → Option Time → Fields → Fields
time_member k t rest = optional_member k (optional_json time t) rest

-- `threadStatus`, `commentStatus` and `attachmentStatus`
unfoldable pub thread_status_name : ThreadStatus → Text
thread_status_name ThreadStatus.opened = codes "open"
thread_status_name ThreadStatus.read_only = codes "read_only"
thread_status_name ThreadStatus.closed = codes "closed"
thread_status_name ThreadStatus.hidden = codes "hidden"
thread_status_name (ThreadStatus.other n) = []

unfoldable pub comment_status_name : CommentStatus → Text
comment_status_name CommentStatus.active = codes "active"
comment_status_name CommentStatus.deleted = codes "deleted"
comment_status_name CommentStatus.hidden = codes "hidden"
comment_status_name (CommentStatus.other n) = []

unfoldable pub attachment_status_name : AttachmentStatus → Text
attachment_status_name AttachmentStatus.pending = codes "pending"
attachment_status_name AttachmentStatus.processing = codes "processing"
attachment_status_name AttachmentStatus.ready = codes "ready"
attachment_status_name AttachmentStatus.failed = codes "failed"
attachment_status_name AttachmentStatus.deleted = codes "deleted"
attachment_status_name (AttachmentStatus.other n) = []

-- `policyResponse`
unfoldable pub project_policy : Policy → Json
project_policy p = obj (
    field (codes "allow_images") (bool p.allow_images) (
      field (codes "allow_links") (bool p.allow_links) (
        field (codes "max_depth") (int p.max_depth) (
          field (codes "max_body_length") (int p.max_body_length) (
            field (codes "max_attachments") (int p.max_attachments) (
              field (codes "max_image_bytes") (int p.max_image_bytes)
                (field (codes "edit_window_seconds") (int p.edit_window_seconds) end)))))))

-- `projectThread`
unfoldable pub project_thread : ThreadView → Json
unfolding project_policy thread_status_name
project_thread view =
    let item = view.thread in
    obj (
      field (codes "id") (uuid item.id) (
        field (codes "space_id") (uuid item.space_id) (
          field (codes "resource_type") (text item.resource.kind) (
            field (codes "resource_id") (text item.resource.id) (
              field (codes "status") (text (thread_status_name item.status)) (
                field (codes "policy") (project_policy view.policy) (
                  field (codes "comment_count") (int item.comment_count) (
                    field (codes "root_comment_count") (int item.root_comment_count) (
                      field (codes "last_sequence") (int item.last_sequence) (
                        time_member (codes "last_comment_at") item.last_comment_at (
                          field (codes "created_at") (time item.created_at)
                            (field (codes "updated_at") (time item.updated_at) end))))))))))))

-- `projectAttachment`
unfoldable pub project_attachment : Attachment → Json
unfolding attachment_status_name
project_attachment a = obj (
    field (codes "id") (uuid a.id) (
      field (codes "status") (text (attachment_status_name a.status)) (
        field (codes "mime_type") (text a.mime_type) (
          field (codes "size_bytes") (int a.size_bytes) (
            field (codes "width") (int a.width) (
              field (codes "height") (int a.height)
                (field (codes "original_filename") (text a.original_filename) end)))))))

-- `projectComment`
unfoldable pub project_comment : CommentView → Json
unfolding project_attachment comment_status_name
project_comment view =
    let item = view.comment in
    obj (
      field (codes "id") (uuid item.id) (
        field (codes "thread_id") (uuid item.thread_id) (
          field (codes "author_id") (uuid item.author_id) (
            optional_member (codes "parent_id") (optional_json uuid item.parent_id) (
              field (codes "root_id") (uuid item.root_id) (
                field (codes "path") (arr (items uuid item.path)) (
                  field (codes "depth") (int item.depth) (
                    field (codes "body") (text item.body) (
                      field (codes "links") (arr (items link_json item.links)) (
                        field (codes "attachments")
                          (arr (items project_attachment view.attachments))
                          (field (codes "status") (text (comment_status_name item.status)) (
                            field (codes "version") (int item.version) (
                              field (codes "sequence") (int item.sequence) (
                                field (codes "direct_replies_count") (int item.direct_replies_count)
                                  (time_member (codes "edited_at") item.edited_at (
                                    time_member (codes "deleted_at") item.deleted_at (
                                      field (codes "created_at") (time item.created_at) (
                                        field (codes "updated_at") (time item.updated_at)
                                          end))))))))))))))))))
