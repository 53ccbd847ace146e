-- ===== src/Usecase/Discussion/Read.antt =====
-- `GetThread`, `GetComment`, `ListComments`, `ListChanges` and the views they return.
use ms_go_comment.Base.{
  List, Option, Result, [], comment_not_found, err, fail_if, if◌then◌else◌, ltb_ℤ, none, ok,
  parent_not_found, pos, some, validation, ℤ, ◌!=◌, ◌+ℤ◌, ◌||◌, ◌∷◌,
}
use ms_go_comment.Domain.Actor.{Actor}
use ms_go_comment.Domain.Comment.{Comment, is_hidden_comment}
use ms_go_comment.Domain.Common.{Uuid}
use ms_go_comment.Domain.Grant.{permission_read}
use ms_go_comment.Domain.Json.{items}
use ms_go_comment.Domain.Space.{outside}
use ms_go_comment.Store.Attachments.{list_by_comment}
use ms_go_comment.Store.Comments.{CommentCursor, get_comment, list_comment_changes, list_comments}
use ms_go_comment.Store.Monad.{Env, M, attempt, call, lift, or_missing, pure, ◌>>=◌, ◌>>◌}
use ms_go_comment.Usecase.Discussion.{CommentView, Settings, ThreadView}
use ms_go_comment.Usecase.Discussion.Context.{load_thread_context}

abbrev pub max_page_limit : ℤ
max_page_limit = pos 100

module _ (env : Env) (s : Settings) where
  -- `GetThread`
  unfoldable pub get_thread_view : Actor → Uuid → M ThreadView
  get_thread_view actor thread_id = do
    ctx ← load_thread_context env s actor thread_id permission_read
    pure (record { thread = ctx.thread; policy = ctx.policy })

  -- `GetComment`
  unfoldable pub get_comment_view : Actor → Uuid → M CommentView
  get_comment_view actor id = do
    item ← or_missing comment_not_found (call env (get_comment id))
    lift (fail_if (is_hidden_comment item.status) comment_not_found)
    ctx ← load_thread_context env s actor item.thread_id permission_read
    attachments ← call env (list_by_comment item.thread_id item.id)
    pure (record { comment = item; attachments = attachments })

  unfoldable pub view_of : Comment → M CommentView
  view_of item = do
    attachments ← call env (list_by_comment item.thread_id item.id)
    pure (record { comment = item; attachments = attachments })

  -- `views`: hidden comments are left out.
  unfoldable pub views : List Comment → M (List CommentView)
  unfolding view_of
  views [] = pure []
  views (item ∷ items) =
      let rest = views items in
      if is_hidden_comment item.status
      then rest
      else do view ← view_of item; more ← rest; pure (view ∷ more)

  -- A hidden comment as `changeViews` shows it.
  abbrev pub redacted : Comment → CommentView
  redacted item = record { comment = record item { body = []; links = [] }; attachments = [] }

  -- `changeViews`: hidden comments are shown without their content.
  unfoldable pub change_views : List Comment → M (List CommentView)
  unfolding view_of
  change_views [] = pure []
  change_views (item ∷ items) = do
    view ← if is_hidden_comment item.status then pure (redacted item) else view_of item
    more ← change_views items
    pure (view ∷ more)

  abbrev pub visible_parent : Uuid → Result Comment → Result (Unit {0})
  visible_parent thread_id (err e) = err parent_not_found
  visible_parent thread_id (ok c) =
      fail_if (c.thread_id != thread_id || is_hidden_comment c.status) parent_not_found

  unfoldable pub check_parent : Uuid → Option Uuid → M (Unit {0})
  check_parent thread_id none = pure tt
  check_parent thread_id (some id) = do
    found ← attempt (call env (get_comment id))
    lift (visible_parent thread_id found)

  -- `ListComments`
  unfoldable pub list_comment_views :
      Actor → Uuid → Option Uuid → Option CommentCursor → ℤ → M (List CommentView)
  unfolding views check_parent
  list_comment_views actor thread_id parent_id cursor limit = do
    lift (fail_if (outside limit (pos 1) (max_page_limit +ℤ pos 1)) validation)
    ctx ← load_thread_context env s actor thread_id permission_read
    check_parent ctx.thread.id parent_id
    comments ← call env (list_comments thread_id parent_id cursor limit)
    views comments

  -- `ListChanges`
  unfoldable pub list_change_views : Actor → Uuid → ℤ → ℤ → M (List CommentView)
  unfolding change_views
  list_change_views actor thread_id after_sequence limit = do
    lift (
        fail_if (ltb_ℤ after_sequence (pos 0) || outside limit (pos 1) (max_page_limit +ℤ pos 1))
          validation)
    ctx ← load_thread_context env s actor thread_id permission_read
    comments ← call env (list_comment_changes thread_id after_sequence limit)
    change_views comments
