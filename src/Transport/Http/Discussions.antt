-- ===== src/Transport/Http/Discussions.antt =====
-- handlers/comment.go: the handlers of the public API.
use ms_go_comment.Base.{
  Bool, List, Option, Result, Text, [], codes, err, false, if◌then◌else◌, length, ltb, ltb_ℤ, none,
  ok, pos, pos_part, some, take, true, validation, ℕ, ℤ, ◌+ℤ◌, ◌∷◌,
}
use ms_go_comment.Domain.Actor.{Actor}
use ms_go_comment.Domain.Comment.{Comment}
use ms_go_comment.Domain.Common.{Uuid}
use ms_go_comment.Domain.Json.{Json, arr, bool, end, field, int, items, null, obj, text}
use ms_go_comment.Store.Monad.{Env, M, lift, pure, ◌>>=◌}
use ms_go_comment.Transport.Http.{
  Body, IdParser, Response, atoi, decode_json, default_string, optional_uuid, parse_limit,
  parsed_uuid, respond,
}
use ms_go_comment.Transport.Http.Cursors.{CursorCodec, decode_cursor, encode_cursor}
use ms_go_comment.Transport.Http.Views.{project_comment, project_thread}
use ms_go_comment.Usecase.Discussion.{CommentView, Settings}
use ms_go_comment.Usecase.Discussion.Create.{create_comment, ensure_thread_view}
use ms_go_comment.Usecase.Discussion.Edit.{delete_comment, update_comment}
use ms_go_comment.Usecase.Discussion.Read.{
  get_comment_view, get_thread_view, list_change_views, list_comment_views,
}

pub record EnsureThreadRequest : Type 0 where
  pub space_key : Text
  pub resource_type : Text
  pub resource_id : Text

pub record CreateCommentRequest : Type 0 where
  pub thread_id : Uuid
  pub parent_id : Option Uuid
  pub body : Text
  pub attachment_ids : List Uuid
  pub idempotency_key : Uuid

pub record UpdateCommentRequest : Type 0 where
  pub body : Text
  pub version : ℤ

-- The query of `ListComments` and of `ListChanges`; a parameter that is not given is empty.
pub record ListQuery : Type 0 where
  pub thread_id : Text
  pub parent_id : Text
  pub limit : Text
  pub cursor : Text

pub record ChangesQuery : Type 0 where
  pub thread_id : Text
  pub after_sequence : Text
  pub limit : Text

-- A page of comments, and where the next one starts.
pub record Page : Type 0 where
  pub views : List CommentView
  pub next : Option Text

pub record ChangesPage : Type 0 where
  pub views : List CommentView
  pub next_after_sequence : ℤ
  pub has_more : Bool

abbrev pub ok_response : ℕ → Json → Response
ok_response status body = record { status = status; body = body }

abbrev pub last_view : CommentView → List CommentView → CommentView
last_view v [] = v
last_view v (w ∷ ws) = last_view w ws

module _ (codec : CursorCodec) where
  abbrev pub cursor_behind : Uuid → Option Uuid → Comment → Text
  cursor_behind thread_id parent_id c =
      encode_cursor codec thread_id parent_id (record { created_at = c.created_at; id = c.id })

  abbrev pub next_of : Uuid → Option Uuid → Bool → List CommentView → Option Text
  next_of thread_id parent_id has_more [] = none
  next_of thread_id parent_id false (v ∷ vs) = none
  next_of thread_id parent_id true (v ∷ vs) =
      some (cursor_behind thread_id parent_id (last_view v vs).comment)

  -- `paginateViews`
  unfoldable pub paginate_views : List CommentView → ℕ → Uuid → Option Uuid → Page
  unfolding encode_cursor
  paginate_views views limit thread_id parent_id =
      let has_more = ltb limit (length views) in
      let shown = if has_more then take limit views else views in
      record { views = shown; next = next_of thread_id parent_id has_more shown }

abbrev pub last_sequence_of : ℤ → List CommentView → ℤ
last_sequence_of from [] = from
last_sequence_of from (v ∷ vs) = (last_view v vs).comment.sequence

-- The page of `ListChanges`.
unfoldable pub changes_page : ℤ → ℕ → List CommentView → ChangesPage
changes_page after_sequence limit views =
    let has_more = ltb limit (length views) in
    let shown = if has_more then take limit views else views in
    record {
      views = shown;
      next_after_sequence = last_sequence_of after_sequence shown;
      has_more = has_more;
    }

abbrev pub text_ptr : Option Text → Json
text_ptr none = null
text_ptr (some t) = text t

unfoldable pub page_response : Page → Response
unfolding project_comment
page_response p = ok_response 200 (
    obj (
      field (codes "items") (arr (items project_comment p.views))
        (field (codes "next_cursor") (text_ptr p.next) end)))

unfoldable pub changes_response : ChangesPage → Response
unfolding project_comment
changes_response p = ok_response 200 (
    obj (
      field (codes "items") (arr (items project_comment p.views)) (
        field (codes "next_after_sequence") (int p.next_after_sequence)
          (field (codes "has_more") (bool p.has_more) end))))

-- `err != nil || afterSequence < 0`
abbrev pub checked_sequence : Option ℤ → Result ℤ
checked_sequence none = err validation
checked_sequence (some n) = if ltb_ℤ n (pos 0) then err validation else ok n

-- A handler is given the actor of its request's context.
module _ (env : Env) (s : Settings) (ids : IdParser) (codec : CursorCodec) where
  -- `EnsureThread`
  unfoldable pub handle_ensure_thread : Actor → Body EnsureThreadRequest → M Response
  unfolding decode_json project_thread respond
  handle_ensure_thread actor body =
      respond
        (do
          request ← lift (decode_json validation body)
          ensure_thread_view env s actor (record {
            space_key = request.space_key;
            resource = record { kind = request.resource_type; id = request.resource_id };
          }))
        (λ view. ok_response 200 (project_thread view))

  -- `GetThread`
  unfoldable pub handle_get_thread : Actor → Text → M Response
  unfolding parsed_uuid project_thread respond
  handle_get_thread actor raw_id =
      respond (do id ← lift (parsed_uuid ids raw_id); get_thread_view env s actor id)
        (λ view. ok_response 200 (project_thread view))

  -- The page that `ListComments` answers with; one comment more than the limit is asked for.
  unfoldable pub list_page : Actor → ListQuery → M Page
  unfolding parsed_uuid optional_uuid parse_limit decode_cursor paginate_views
  list_page actor q = do
    thread_id ← lift (parsed_uuid ids q.thread_id)
    parent_id ← lift (optional_uuid ids q.parent_id)
    limit ← lift (parse_limit q.limit)
    cursor ← lift (decode_cursor codec q.cursor thread_id parent_id)
    views ← list_comment_views env s actor thread_id parent_id cursor (limit +ℤ pos 1)
    pure (paginate_views codec views (pos_part limit) thread_id parent_id)

  -- `ListComments`
  unfoldable pub handle_list_comments : Actor → ListQuery → M Response
  unfolding list_page page_response respond
  handle_list_comments actor q = respond (list_page actor q) page_response

  -- `GetComment`
  unfoldable pub handle_get_comment : Actor → Text → M Response
  unfolding parsed_uuid project_comment respond
  handle_get_comment actor raw_id =
      respond (do id ← lift (parsed_uuid ids raw_id); get_comment_view env s actor id)
        (λ view. ok_response 200 (project_comment view))

  unfoldable pub list_changes_page : Actor → ChangesQuery → M ChangesPage
  unfolding parsed_uuid default_string atoi parse_limit changes_page
  list_changes_page actor q = do
    thread_id ← lift (parsed_uuid ids q.thread_id)
    from ← lift (checked_sequence (atoi (default_string q.after_sequence (codes "0"))))
    limit ← lift (parse_limit q.limit)
    views ← list_change_views env s actor thread_id from (limit +ℤ pos 1)
    pure (changes_page from (pos_part limit) views)

  -- `ListChanges`
  unfoldable pub handle_list_changes : Actor → ChangesQuery → M Response
  unfolding list_changes_page changes_response respond
  handle_list_changes actor q = respond (list_changes_page actor q) changes_response

  -- `CreateComment`: 201 for a new comment, and 200 for a repeated request.
  unfoldable pub handle_create_comment : Actor → Body CreateCommentRequest → M Response
  unfolding decode_json project_comment respond
  handle_create_comment actor body =
      respond
        (do
          request ← lift (decode_json validation body)
          create_comment env s actor (record {
            thread_id = request.thread_id;
            parent_id = request.parent_id;
            body = request.body;
            attachment_ids = request.attachment_ids;
            idempotency_key = request.idempotency_key;
          }))
        (λ r. ok_response (if r.created then 201 else 200) (project_comment r.view))

  -- `UpdateComment`
  unfoldable pub handle_update_comment : Actor → Text → Body UpdateCommentRequest → M Response
  unfolding parsed_uuid decode_json project_comment respond
  handle_update_comment actor raw_id body =
      respond
        (do
          id ← lift (parsed_uuid ids raw_id)
          request ← lift (decode_json validation body)
          update_comment env s actor
              (record { comment_id = id; body = request.body; expected_version = request.version }))
        (λ view. ok_response 200 (project_comment view))

  -- `DeleteComment`; its body holds the version alone.
  unfoldable pub handle_delete_comment : Actor → Text → Body ℤ → M Response
  unfolding parsed_uuid decode_json project_comment respond
  handle_delete_comment actor raw_id body =
      respond
        (do
          id ← lift (parsed_uuid ids raw_id)
          version ← lift (decode_json validation body)
          delete_comment env s actor (record { comment_id = id; expected_version = version }))
        (λ view. ok_response 200 (project_comment view))
