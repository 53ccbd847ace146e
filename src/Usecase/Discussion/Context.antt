-- ===== src/Usecase/Discussion/Context.antt =====
-- Who may do what in a thread: `authorizeAccess`, `loadThreadContext` and `loadMutableComment`.
use ms_go_comment.Base.{
  Bool, Option, access_required, comment_not_found, edit_conflict, eq_ℤ, err, fail_if, forbidden,
  if◌then◌else◌, ltb_ℤ, ne_ℤ, none, not, pos, pos_part, some, space_not_found, thread_not_found,
  thread_not_writable, validation, ℤ, ◌!=◌, ◌&&◌, ◌*◌, ◌+◌, ◌==◌, ◌||◌,
}
use ms_go_comment.Domain.Actor.{Actor, validate}
use ms_go_comment.Domain.Comment.{Comment, is_active_comment}
use ms_go_comment.Domain.Common.{Time, Uuid, after, second}
use ms_go_comment.Domain.Grant.{Permission, includes, permission_read, permission_write}
use ms_go_comment.Domain.Space.{Policy, Space, is_active_space, is_authenticated, is_context_grant}
use ms_go_comment.Domain.Thread.{ResourceReference, apply_policy, is_hidden_thread, is_open_thread}
use ms_go_comment.Store.Comments.{get_comment}
use ms_go_comment.Store.Monad.{Env, M, call, clock, lift, or_missing, pure, ◌>>=◌, ◌>>◌}
use ms_go_comment.Store.Spaces.{get_space}
use ms_go_comment.Store.Threads.{get_thread}
use ms_go_comment.Usecase.Discussion.{Authorizer, MutableComment, Settings, ThreadContext}

module _ (env : Env) (s : Settings) where
  -- The part of `authorizeAccess` that asks the authorizer.
  unfoldable pub ask_access :
      Option Authorizer → Actor → Space → ResourceReference → Permission → M (Unit {0})
  ask_access none actor space resource required = lift (err access_required)
  ask_access (some access) actor space resource required = do
    permissions ← access actor space resource
    lift (fail_if (not (includes permissions required)) forbidden)

  -- `authorizeAccess`
  unfoldable pub authorize_access : Actor → Space → ResourceReference → Permission → M (Unit {0})
  unfolding ask_access
  authorize_access actor space resource required =
      if not (is_active_space space.status)
      then lift (err space_not_found)
      else if is_authenticated space.access_mode
      then pure tt
      else if not (is_context_grant space.access_mode)
      then lift (err access_required)
      else ask_access s.access actor space resource required

  -- `loadThreadContext`
  unfoldable pub load_thread_context : Actor → Uuid → Permission → M ThreadContext
  load_thread_context actor thread_id required = do
    lift (validate actor)
    thread ← or_missing thread_not_found (call env (get_thread thread_id))
    space ← or_missing space_not_found (call env (get_space thread.space_id))
    authorize_access actor space thread.resource required
    lift (fail_if (is_hidden_thread thread.status) thread_not_found)
    lift (
        fail_if (required != permission_read && not (is_open_thread thread.status))
          thread_not_writable)
    policy ← lift (apply_policy space.policy thread.policy_overrides)
    pure (record { thread = thread; space = space; policy = policy })

  -- `now.After(item.CreatedAt.Add(window))`, or no window at all.
  abbrev pub window_closed : Policy → Time → Comment → Bool
  window_closed policy now item =
      eq_ℤ policy.edit_window_seconds (pos 0)
      || after now (item.created_at + pos_part policy.edit_window_seconds * second)

  -- `loadMutableComment`
  unfoldable pub load_mutable_comment : Actor → Uuid → ℤ → M MutableComment
  load_mutable_comment actor comment_id expected_version = do
    lift (validate actor)
    lift (fail_if (comment_id == 0 || ltb_ℤ expected_version (pos 1)) validation)
    item ← or_missing comment_not_found (call env (get_comment comment_id))
    lift (fail_if (not (is_active_comment item.status)) comment_not_found)
    ctx ← load_thread_context actor item.thread_id permission_write
    lift (fail_if (item.author_id != actor.user_id) forbidden)
    lift (fail_if (ne_ℤ item.version expected_version) edit_conflict)
    now ← clock env
    lift (fail_if (window_closed ctx.policy now item) forbidden)
    pure (record { item = item; thread = ctx.thread; policy = ctx.policy })
