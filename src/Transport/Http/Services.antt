-- ===== src/Transport/Http/Services.antt =====
-- handlers/internal.go, handlers/attachment.go and handlers/realtime.go.
use ms_go_comment.Base.{
  Bool, List, Option, Result, Text, bit_or, codes, err, fail_if, if◌then◌else◌,
  invalid_access_grant, invalid_attachment, invalid_realtime_ticket, length, ltb, none, not, ok,
  pos, pos_part, some, take, validation, ℕ, ℤ, ◌*◌, ◌+◌, ◌||◌,
}
use ms_go_comment.Domain.Actor.{Actor}
use ms_go_comment.Domain.Common.{Uuid, second}
use ms_go_comment.Domain.Grant.{
  Permission, includes, permission_read, permission_upload, permission_write,
}
use ms_go_comment.Domain.Json.{Json, bool, end, field, obj, text, time}
use ms_go_comment.Domain.Space.{max_allowed_image_bytes, outside}
use ms_go_comment.Domain.Thread.{ResourceReference}
use ms_go_comment.Store.Monad.{Env, M, lift, ◌>>=◌, ◌>>◌}
use ms_go_comment.Transport.Http.{Body, IdParser, Response, decode_json, parsed_uuid, respond}
use ms_go_comment.Transport.Http.Discussions.{EnsureThreadRequest, ok_response}
use ms_go_comment.Transport.Http.Views.{project_attachment, project_thread}
use ms_go_comment.Usecase.Discussion.{Authorizer, Settings}
use ms_go_comment.Usecase.Files.Lifecycle.{delete_attachment}
use ms_go_comment.Usecase.Files.Transfer.{get_attachment_signed_url, upload_attachment}
use ms_go_comment.Usecase.Grants.{Codec, create_grant, ensure_private_thread, get_private_thread}
use ms_go_comment.Usecase.Tickets.{mint}

pub record PermissionsRequest : Type 0 where
  pub reading : Bool
  pub writing : Bool
  pub uploading : Bool

pub record CreateGrantRequest : Type 0 where
  pub issuer : Text
  pub user_id : Uuid
  pub space_key : Text
  pub resource_type : Text
  pub resource_id : Text
  pub permissions : PermissionsRequest
  pub expires_in_seconds : ℤ

pub record TicketRequest : Type 0 where
  pub thread_id : Uuid
  pub last_sequence : Option ℤ

abbrev pub bits_if : Bool → Permission → Permission
bits_if b p = if b then p else 0

-- `accessPermissionsRequest.domain`
unfoldable pub requested_permissions : PermissionsRequest → Permission
requested_permissions p =
    bit_or (bit_or (bits_if p.reading permission_read) (bits_if p.writing permission_write))
      (bits_if p.uploading permission_upload)

-- `projectAccessPermissions`
unfoldable pub project_permissions : Permission → Json
project_permissions value = obj (
    field (codes "read") (bool (includes value permission_read)) (
      field (codes "write") (bool (includes value permission_write))
        (field (codes "upload") (bool (includes value permission_upload)) end)))

abbrev pub resource_of : Text → Text → ResourceReference
resource_of kind id = record { kind = kind; id = id }

module _ (env : Env) (codec : Codec) (configured_ttl : ℤ) where
  -- `CreateAccessGrant`
  unfoldable pub handle_create_grant : Body CreateGrantRequest → M Response
  unfolding decode_json requested_permissions project_permissions respond
  handle_create_grant body =
      respond
        (do
          request ← lift (decode_json invalid_access_grant body)
          lift (fail_if (outside request.expires_in_seconds (pos 1) (pos 900)) invalid_access_grant)
          create_grant env codec configured_ttl (record {
            issuer = request.issuer;
            user_id = request.user_id;
            space_key = request.space_key;
            resource = resource_of request.resource_type request.resource_id;
            permissions = requested_permissions request.permissions;
            ttl = pos (pos_part request.expires_in_seconds * second);
          }))
        (λ r. ok_response 201 (
          obj (
            field (codes "grant") (text r.grant) (
              field (codes "expires_at") (time r.expires_at)
                (field (codes "permissions") (project_permissions r.permissions) end)))))

  -- `EnsureThread` of the internal API
  unfoldable pub handle_ensure_private : Body EnsureThreadRequest → M Response
  unfolding decode_json project_thread respond
  handle_ensure_private body =
      respond
        (do
          request ← lift (decode_json validation body)
          ensure_private_thread env codec configured_ttl request.space_key
              (resource_of request.resource_type request.resource_id))
        (λ view. ok_response 200 (project_thread view))

  -- `GetThreadByResource`, by the parameters of the query.
  unfoldable pub handle_private_thread : EnsureThreadRequest → M Response
  unfolding project_thread respond
  handle_private_thread request =
      respond
        (get_private_thread env codec configured_ttl request.space_key
          (resource_of request.resource_type request.resource_id))
        (λ view. ok_response 200 (project_thread view))

module _ (env : Env) (codec : Codec) (access : Option Authorizer) (configured_ttl : ℤ) where
  -- `MintTicket`
  unfoldable pub handle_mint_ticket : Actor → Body TicketRequest → M Response
  unfolding decode_json respond
  handle_mint_ticket actor body =
      respond
        (do
          request ← lift (decode_json invalid_realtime_ticket body)
          mint env codec access configured_ttl actor request.thread_id request.last_sequence)
        (λ r. ok_response 201 (
          obj (
            field (codes "ticket") (text r.ticket) (
              field (codes "expires_at") (time r.expires_at)
                (field (codes "protocol") (text r.protocol) end)))))

-- A multipart request, as the library reads it: whether the form parses, its `thread_id`, and its
-- file with the declared size, the name, and the bytes that a reader gets.
pub record UploadForm : Type 0 where
  pub parses : Bool
  pub thread_id : Text
  pub file : Option (ℤ × Text × Option (List ℕ))

-- The file, read up to one byte more than the limit.
abbrev pub checked_file : Option (ℤ × Text × Option (List ℕ)) → Result (Text × List ℕ)
checked_file none = err invalid_attachment
checked_file (some (size, name, none)) = err invalid_attachment
checked_file (some (size, name, some bytes)) =
    if outside size (pos 1) max_allowed_image_bytes
      || ltb (pos_part max_allowed_image_bytes)
          (length (take (pos_part max_allowed_image_bytes + 1) bytes))
    then err invalid_attachment
    else ok (name, take (pos_part max_allowed_image_bytes + 1) bytes)

module _ (env : Env) (s : Settings) (ids : IdParser) where
  -- `UploadAttachment`
  unfoldable pub handle_upload : Actor → UploadForm → M Response
  unfolding parsed_uuid project_attachment respond
  handle_upload actor form =
      respond
        (do
          lift (fail_if (not form.parses) invalid_attachment)
          thread_id ← lift (parsed_uuid ids form.thread_id)
          file ← lift (checked_file form.file)
          upload_attachment env s actor
              (record { thread_id = thread_id; filename = file.0; bytes = file.1 }))
        (λ a. ok_response 201 (project_attachment a))

  -- `GetAttachmentSignedURL`
  unfoldable pub handle_signed_url : Actor → Text → M Response
  unfolding parsed_uuid respond
  handle_signed_url actor raw_id =
      respond (do id ← lift (parsed_uuid ids raw_id); get_attachment_signed_url env s actor id)
        (λ r. ok_response 200 (
          obj (
            field (codes "url") (text r.url) (field (codes "expires_at") (time r.expires_at) end))))

  -- `DeleteAttachment`
  unfoldable pub handle_delete_attachment : Actor → Text → M Response
  unfolding parsed_uuid project_attachment respond
  handle_delete_attachment actor raw_id =
      respond (do id ← lift (parsed_uuid ids raw_id); delete_attachment env s actor id)
        (λ a. ok_response 200 (project_attachment a))
