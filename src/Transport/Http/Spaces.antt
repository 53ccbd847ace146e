-- ===== src/Transport/Http/Spaces.antt =====
-- handlers/admin.go: the handlers of the administration.
use ms_go_comment.Base.{Bool, Text, [], fail_if, not, text_eq, validation}
use ms_go_comment.Domain.Actor.{Actor}
use ms_go_comment.Domain.Common.{Uuid}
use ms_go_comment.Domain.Json.{items}
use ms_go_comment.Domain.Space.{Space}
use ms_go_comment.Store.Monad.{Env, M, lift, pure, ◌>>=◌, ◌>>◌}
use ms_go_comment.Transport.Http.{Body, IdParser, Response, decode_json, parsed_uuid, respond}
use ms_go_comment.Transport.Http.Discussions.{ok_response}
use ms_go_comment.Transport.Http.Statuses.{
  AdminPage, AdminQuery, SpaceWriteRequest, ThreadUpdateRequest, admin_limit, admin_offset,
  list_response, optional, parse_access_mode, parse_space_status, parse_thread_status,
  project_space, required,
}
use ms_go_comment.Transport.Http.Views.{project_comment, project_thread}
use ms_go_comment.Usecase.Admin.Moderation.{hide_comment, restore_comment}
use ms_go_comment.Usecase.Admin.Spaces.{
  create_space_as, disable_space, get_space_as, list_spaces_as, update_space_as,
}
use ms_go_comment.Usecase.Admin.Threads.{list_threads_as, update_thread_as}
use ms_go_comment.Usecase.Discussion.{CommentView, ThreadView}

module _ (env : Env) (ids : IdParser) where
  -- `CreateSpace`
  unfoldable pub handle_create_space : Actor → Body SpaceWriteRequest → M Response
  unfolding decode_json parse_access_mode project_space respond
  handle_create_space actor body =
      respond
        (do
          request ← lift (decode_json validation body)
          mode ← lift (required (parse_access_mode request.access_mode))
          lift (fail_if (not (text_eq request.status [])) validation)
          create_space_as env actor (record {
            key = request.key;
            name = request.name;
            access_mode = mode;
            allowed_origins = request.allowed_origins;
            policy = request.policy;
          }))
        (λ item. ok_response 201 (project_space item))

  -- `GetSpace`
  unfoldable pub handle_get_space : Actor → Text → M Response
  unfolding parsed_uuid project_space respond
  handle_get_space actor raw_id =
      respond (do id ← lift (parsed_uuid ids raw_id); get_space_as env actor id)
        (λ item. ok_response 200 (project_space item))

  unfoldable pub list_spaces_page : Actor → AdminQuery → M (AdminPage Space)
  unfolding admin_limit admin_offset parse_space_status
  list_spaces_page actor q = do
    limit ← lift (admin_limit q)
    offset ← lift (admin_offset q)
    status ← lift (optional (λ raw. required (parse_space_status raw)) q.status)
    shown ← list_spaces_as env actor status limit offset
    pure (record { shown = shown; limit = limit; offset = offset })

  -- `ListSpaces`
  unfoldable pub handle_list_spaces : Actor → AdminQuery → M Response
  unfolding list_spaces_page project_space respond
  handle_list_spaces actor q =
      respond (list_spaces_page actor q)
        (λ p. list_response (items project_space p.shown) p.limit p.offset)

  -- `UpdateSpace`
  unfoldable pub handle_update_space : Actor → Text → Body SpaceWriteRequest → M Response
  unfolding parsed_uuid decode_json parse_space_status parse_access_mode project_space respond
  handle_update_space actor raw_id body =
      respond
        (do
          id ← lift (parsed_uuid ids raw_id)
          request ← lift (decode_json validation body)
          status ← lift (required (parse_space_status request.status))
          mode ← lift (required (parse_access_mode request.access_mode))
          lift (fail_if (not (text_eq request.key [])) validation)
          update_space_as env actor (record {
            id = id;
            name = request.name;
            status = status;
            access_mode = mode;
            allowed_origins = request.allowed_origins;
            policy = request.policy;
          }))
        (λ item. ok_response 200 (project_space item))

  -- `DisableSpace`
  unfoldable pub handle_disable_space : Actor → Text → M Response
  unfolding parsed_uuid project_space respond
  handle_disable_space actor raw_id =
      respond (do id ← lift (parsed_uuid ids raw_id); disable_space env actor id)
        (λ item. ok_response 200 (project_space item))

  unfoldable pub list_threads_page : Actor → AdminQuery → M (AdminPage ThreadView)
  unfolding admin_limit admin_offset parsed_uuid parse_thread_status
  list_threads_page actor q = do
    limit ← lift (admin_limit q)
    offset ← lift (admin_offset q)
    space_id ← lift (optional (parsed_uuid ids) q.space_id)
    status ← lift (optional (λ raw. required (parse_thread_status raw)) q.status)
    shown ← list_threads_as env actor space_id status limit offset
    pure (record { shown = shown; limit = limit; offset = offset })

  -- `ListThreads`
  unfoldable pub handle_list_threads : Actor → AdminQuery → M Response
  unfolding list_threads_page project_thread respond
  handle_list_threads actor q =
      respond (list_threads_page actor q)
        (λ p. list_response (items project_thread p.shown) p.limit p.offset)

  -- `UpdateThread`
  unfoldable pub handle_update_thread : Actor → Text → Body ThreadUpdateRequest → M Response
  unfolding parsed_uuid decode_json parse_thread_status project_thread respond
  handle_update_thread actor raw_id body =
      respond
        (do
          id ← lift (parsed_uuid ids raw_id)
          request ← lift (decode_json validation body)
          status ← lift (required (parse_thread_status request.status))
          update_thread_as env actor
              (record { id = id; status = status; overrides = request.policy_overrides }))
        (λ view. ok_response 200 (project_thread view))

  -- `moderateComment` of the handler; `no_body` is the answer of `emptyRequestBody`.
  unfoldable pub handle_moderation :
      Actor → Text → Bool → (Actor → Uuid → M CommentView) → M Response
  unfolding parsed_uuid project_comment respond
  handle_moderation actor raw_id no_body action =
      respond
        (do
          id ← lift (parsed_uuid ids raw_id)
          lift (fail_if (not no_body) validation)
          action actor id)
        (λ view. ok_response 200 (project_comment view))

  -- `HideComment` and `RestoreComment`
  unfoldable pub handle_hide_comment : Actor → Text → Bool → M Response
  unfolding handle_moderation
  handle_hide_comment actor raw_id no_body =
      handle_moderation actor raw_id no_body (hide_comment env)

  unfoldable pub handle_restore_comment : Actor → Text → Bool → M Response
  unfolding handle_moderation
  handle_restore_comment actor raw_id no_body =
      handle_moderation actor raw_id no_body (restore_comment env)
