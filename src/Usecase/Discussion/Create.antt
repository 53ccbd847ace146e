-- ===== src/Usecase/Discussion/Create.antt =====
-- `CreateComment`, `EnsureThread` and their helpers.
use ms_go_comment.Base.{
  Bool, List, Option, Result, [], err, fail_if, false, idempotency_conflict, if◌then◌else◌,
  images_disabled, invalid_comment_content, is_none, is_some, length, ltb, ltb_ℤ, map, mem, none,
  not, not_found, ok, parent_not_found, pos, some, space_not_found, text_eq, thread_not_found, true,
  validation, ℤ, ◌!=◌, ◌&&◌, ◌==◌, ◌||◌, ◌∷◌,
}
use ms_go_comment.Domain.Actor.{Actor, validate}
use ms_go_comment.Domain.Attachment.{Attachment, AttachmentStatus, is_pending, validate_attachment}
use ms_go_comment.Domain.Comment.{
  Comment, CommentPlacement, CommentStatus, build_comment_placement, is_active_comment,
}
use ms_go_comment.Domain.Common.{Time, Uuid, after, equal_uuid_ptr}
use ms_go_comment.Domain.Content.{CommentContent, analyze_comment_content, validate_content}
use ms_go_comment.Domain.Grant.{permission_read, permission_write}
use ms_go_comment.Domain.Outbox.{EventSubject}
use ms_go_comment.Domain.Space.{Policy, validate_space_key}
use ms_go_comment.Domain.Thread.{
  ThreadStatus, apply_policy, is_hidden_thread, no_overrides, validate_resource,
}
use ms_go_comment.Store.Attachments.{bind_to_comment, get_attachment, list_by_comment}
use ms_go_comment.Store.Comments.{
  create_comment_row, get_by_idempotency_key, get_comment, increment_reply_count,
  lock_idempotency_key,
}
use ms_go_comment.Store.Monad.{
  Env, M, attempt, call, clock, lift, new_id, or_missing, pure, within_transaction, ◌>>=◌, ◌>>◌,
}
use ms_go_comment.Store.Spaces.{get_space, get_space_by_key}
use ms_go_comment.Store.Threads.{ensure_thread, get_thread, next_sequence, record_comment_created}
use ms_go_comment.Usecase.Discussion.{
  CreateCommentInput, CreateCommentResult, EnsureThreadInput, Settings, ThreadView,
}
use ms_go_comment.Usecase.Discussion.Context.{authorize_access, load_thread_context}
use ms_go_comment.Usecase.Discussion.Emit.{add_outbox}
use ms_go_comment.Usecase.Discussion.Sets.{equal_uuid_set}

module _ (env : Env) (s : Settings) where
  -- `EnsureThread`
  unfoldable pub ensure_thread_view : Actor → EnsureThreadInput → M ThreadView
  ensure_thread_view actor input = do
    lift (validate actor)
    lift (validate_resource input.resource)
    lift (validate_space_key input.space_key)
    space ← or_missing space_not_found (call env (get_space_by_key input.space_key))
    authorize_access env s actor space input.resource permission_read
    now ← clock env
    id ← new_id env
    created ← call env (
        ensure_thread (record {
          id = id;
          space_id = space.id;
          resource = input.resource;
          status = ThreadStatus.opened;
          policy_overrides = no_overrides;
          comment_count = pos 0;
          root_comment_count = pos 0;
          last_sequence = pos 0;
          last_comment_at = none;
          created_at = now;
          updated_at = now;
        }))
    policy ← lift (apply_policy space.policy created.policy_overrides)
    pure (record { thread = created; policy = policy })

  -- The test of `validateAttachments` on what was found.
  abbrev pub bindable : Actor → Uuid → Time → Result Attachment → Result Attachment
  bindable actor thread_id now (err e) = err invalid_comment_content
  bindable actor thread_id now (ok a) =
      if a.thread_id != thread_id
        || a.uploader_id != actor.user_id
        || is_some a.comment_id
        || not (is_pending a.status)
        || not (after a.expires_at now)
      then err invalid_comment_content
      else ok a

  -- The loop of `validateAttachments`.
  unfoldable pub check_attachments :
      Actor → Uuid → Policy → List Uuid → List Uuid → M (List Attachment)
  check_attachments actor thread_id policy seen [] = pure []
  check_attachments actor thread_id policy seen (id ∷ ids) = do
    lift (fail_if (id == 0) invalid_comment_content)
    lift (fail_if (mem id seen) invalid_comment_content)
    found ← attempt (call env (get_attachment id))
    now ← clock env
    a ← lift (bindable actor thread_id now found)
    lift (validate_attachment a policy)
    rest ← check_attachments actor thread_id policy (id ∷ seen) ids
    pure (a ∷ rest)

  -- `validateAttachments`
  unfoldable pub validate_attachments : Actor → Uuid → List Uuid → Policy → M (List Attachment)
  unfolding check_attachments
  validate_attachments actor thread_id ids policy = do
    lift (fail_if (ltb_ℤ policy.max_attachments (pos (length ids))) invalid_comment_content)
    lift (fail_if (ltb 0 (length ids) && not policy.allow_images) images_disabled)
    check_attachments actor thread_id policy [] ids

  -- `resolveReplay`
  abbrev pub replay_differs : Comment → List Attachment → CreateCommentInput → Bool
  replay_differs existing attachments input =
      existing.thread_id != input.thread_id
      || not (equal_uuid_ptr existing.parent_id input.parent_id)
      || not (text_eq existing.body input.body)
      || not (equal_uuid_set (map (λ a. a.id) attachments) input.attachment_ids)

  unfoldable pub resolve_replay : Actor → Comment → CreateCommentInput → M CreateCommentResult
  resolve_replay actor existing input = do
    attachments ← call env (list_by_comment existing.thread_id existing.id)
    lift (fail_if (replay_differs existing attachments input) idempotency_conflict)
    thread ← or_missing thread_not_found (call env (get_thread existing.thread_id))
    space ← or_missing space_not_found (call env (get_space thread.space_id))
    authorize_access env s actor space thread.resource permission_write
    lift (fail_if (is_hidden_thread thread.status) thread_not_found)
    pure (record {
      view = record { comment = existing; attachments = attachments };
      created = false;
    })

  abbrev pub usable_parent : Uuid → Result Comment → Result (Option Comment)
  usable_parent thread_id (err e) = err parent_not_found
  usable_parent thread_id (ok c) =
      if c.thread_id != thread_id || not (is_active_comment c.status)
      then err parent_not_found
      else ok (some c)

  -- `if in.ParentID != nil { … }`
  unfoldable pub load_parent : Uuid → Option Uuid → M (Option Comment)
  load_parent thread_id none = pure none
  load_parent thread_id (some id) = do
    found ← attempt (call env (get_comment id))
    lift (usable_parent thread_id found)

  -- The loop that binds the attachments.
  unfoldable pub bind_all : Actor → Comment → Time → List Attachment → M (List Attachment)
  bind_all actor item now [] = pure []
  bind_all actor item now (a ∷ more) = do
    call env (bind_to_comment a.id item.thread_id item.id actor.user_id)
    rest ← bind_all actor item now more
    pure (
        record a {
          comment_id = some item.id;
          status = AttachmentStatus.processing;
          updated_at = now;
        }
        ∷ rest)

  -- `if parent != nil { IncrementReplyCount }`
  unfoldable pub count_reply : Uuid → Option Comment → M (Unit {0})
  count_reply thread_id none = pure tt
  count_reply thread_id (some parent) = call env (increment_reply_count thread_id parent.id)

  abbrev pub new_comment :
      Actor
      → CreateCommentInput
      → Uuid
      → Uuid
      → CommentContent
      → CommentPlacement
      → ℤ
      → Time
      → Comment
  new_comment actor input id thread_id content placement sequence now = record {
    id = id;
    thread_id = thread_id;
    author_id = actor.user_id;
    parent_id = placement.parent_id;
    root_id = placement.root_id;
    path = placement.path;
    depth = placement.depth;
    body = content.body;
    links = content.links;
    status = CommentStatus.active;
    version = pos 1;
    sequence = sequence;
    direct_replies_count = pos 0;
    idempotency_key = input.idempotency_key;
    edited_at = none;
    deleted_at = none;
    created_at = now;
    updated_at = now;
  }

  -- The writes of `CreateComment`, from `Comments.Create` on.
  unfoldable pub store_comment :
      Actor → Comment → List Attachment → Option Comment → Time → M CreateCommentResult
  unfolding bind_all count_reply
  store_comment actor item attachments parent now = do
    call env (create_comment_row item)
    bound ← bind_all actor item now attachments
    call env (record_comment_created item.thread_id (is_none parent))
    count_reply item.thread_id parent
    add_outbox env item bound EventSubject.comment_created actor.user_id now
    pure (record { view = record { comment = item; attachments = bound }; created = true })

  -- The transaction of `CreateComment` when the key is new.
  unfoldable pub create_fresh : Actor → CreateCommentInput → M CreateCommentResult
  unfolding validate_attachments load_parent store_comment
  create_fresh actor input = do
    ctx ← load_thread_context env s actor input.thread_id permission_write
    attachments ← validate_attachments actor ctx.thread.id input.attachment_ids ctx.policy
    let content = analyze_comment_content input.body (pos (length attachments))
    lift (validate_content env.urls content ctx.policy)
    parent ← load_parent ctx.thread.id input.parent_id
    id ← new_id env
    placement ← lift (build_comment_placement id ctx.thread.id parent ctx.policy.max_depth)
    sequence ← call env (next_sequence ctx.thread.id)
    now ← clock env
    store_comment actor (new_comment actor input id ctx.thread.id content placement sequence now)
        attachments parent now

  -- What the lookup of the key leads to.
  unfoldable pub create_or_replay :
      Actor → CreateCommentInput → Result Comment → M CreateCommentResult
  unfolding create_fresh resolve_replay
  create_or_replay actor input (ok existing) = resolve_replay actor existing input
  create_or_replay actor input (err not_found) = create_fresh actor input
  create_or_replay actor input (err e) = lift (err e)

  -- `CreateComment`
  unfoldable pub create_comment : Actor → CreateCommentInput → M CreateCommentResult
  unfolding create_or_replay
  create_comment actor input = do
    lift (validate actor)
    lift (fail_if (input.thread_id == 0 || input.idempotency_key == 0) validation)
    within_transaction env do
      call env (lock_idempotency_key actor.user_id input.idempotency_key)
      found ← attempt (call env (get_by_idempotency_key actor.user_id input.idempotency_key))
      create_or_replay actor input found
