-- ===== src/Usecase/Admin/Threads.antt =====
-- `ListThreads` and `UpdateThread`.
use ms_go_comment.Base.{
  List, Option, [], codes, fail_if, find, none, not, pos, some, space_not_found, thread_not_found,
  validation, ℤ, ◌==◌, ◌∷◌,
}
use ms_go_comment.Domain.Actor.{Actor}
use ms_go_comment.Domain.Common.{Time, Uuid}
use ms_go_comment.Domain.Json.{Json, bool, end, field, int, items, obj, time, uuid}
use ms_go_comment.Domain.Outbox.{EventSubject, OutboxEvent}
use ms_go_comment.Domain.Space.{Policy, Space}
use ms_go_comment.Domain.Thread.{Thread, ThreadStatus, apply_policy, thread_status_valid}
use ms_go_comment.Store.Monad.{
  Env, M, call, clock, lift, new_id, or_missing, pure, within_transaction, ◌>>=◌, ◌>>◌,
}
use ms_go_comment.Store.Spaces.{get_space}
use ms_go_comment.Store.Threads.{get_thread, list_threads, next_sequence_any_state, update_thread}
use ms_go_comment.Usecase.Admin.{
  UpdateThreadInput, require_admin, require_admin_read, validate_page,
}
use ms_go_comment.Usecase.Discussion.{ThreadView}
use ms_go_comment.Usecase.Discussion.Emit.{add_valid_event}

module _ (env : Env) where
  -- The map of spaces that the loop of `ListThreads` fills.
  unfoldable pub cached_space : Uuid → Option Space → M Space
  cached_space id (some space) = pure space
  cached_space id none = or_missing space_not_found (call env (get_space id))

  unfoldable pub thread_views : List Space → List Thread → M (List ThreadView)
  unfolding cached_space
  thread_views spaces [] = pure []
  thread_views spaces (item ∷ more) = do
    space ← cached_space item.space_id (find (λ s. s.id == item.space_id) spaces)
    policy ← lift (apply_policy space.policy item.policy_overrides)
    rest ← thread_views (space ∷ spaces) more
    pure (record { thread = item; policy = policy } ∷ rest)

  -- `ListThreads`
  unfoldable pub list_threads_as :
      Actor → Option Uuid → Option ThreadStatus → ℤ → ℤ → M (List ThreadView)
  unfolding thread_views
  list_threads_as actor space_id status limit offset = do
    lift (require_admin_read actor)
    lift (validate_page limit offset)
    items ← call env (list_threads space_id status limit offset)
    thread_views [] items

  -- `policyPayload`
  abbrev pub policy_json : Policy → Json
  policy_json p = obj (
      field (codes "allow_images") (bool p.allow_images) (
        field (codes "allow_links") (bool p.allow_links) (
          field (codes "max_depth") (int p.max_depth) (
            field (codes "max_body_length") (int p.max_body_length) (
              field (codes "max_attachments") (int p.max_attachments) (
                field (codes "max_image_bytes") (int p.max_image_bytes)
                  (field (codes "edit_window_seconds") (int p.edit_window_seconds) end)))))))

  abbrev pub thread_status_number : ThreadStatus → ℤ
  thread_status_number ThreadStatus.opened = pos 1
  thread_status_number ThreadStatus.read_only = pos 2
  thread_status_number ThreadStatus.closed = pos 3
  thread_status_number ThreadStatus.hidden = pos 4
  thread_status_number (ThreadStatus.other n) = n

  abbrev pub thread_event : Actor → Thread → Policy → ℤ → Uuid → Time → OutboxEvent
  thread_event actor item policy sequence event_id now = record {
    id = event_id;
    aggregate_type = codes "thread";
    aggregate_id = item.id;
    subject = EventSubject.thread_updated;
    schema_version = pos 1;
    payload = obj (
        field (codes "schema_version") (int (pos 1)) (
          field (codes "event_id") (uuid event_id) (
            field (codes "occurred_at") (time now) (
              field (codes "thread_id") (uuid item.id) (
                field (codes "sequence") (int sequence) (
                  field (codes "actor_id") (uuid actor.user_id) (
                    field (codes "status") (int (thread_status_number item.status))
                      (field (codes "policy") (policy_json policy) end))))))));
    attempts = pos 0;
    next_attempt_at = now;
    published_at = none;
    last_error = [];
    created_at = now;
  }

  abbrev pub changed_thread : UpdateThreadInput → Thread → ℤ → Time → Thread
  changed_thread input item sequence now = record item {
    status = input.status;
    policy_overrides = input.overrides;
    updated_at = now;
    last_sequence = sequence;
  }

  -- `UpdateThread`
  unfoldable pub update_thread_as : Actor → UpdateThreadInput → M ThreadView
  update_thread_as actor input = do
    lift (require_admin actor)
    lift (fail_if (not (thread_status_valid input.status)) validation)
    within_transaction env do
      item ← or_missing thread_not_found (call env (get_thread input.id))
      space ← or_missing space_not_found (call env (get_space item.space_id))
      policy ← lift (apply_policy space.policy input.overrides)
      now ← clock env
      sequence ← or_missing thread_not_found (call env (next_sequence_any_state item.id))
      or_missing thread_not_found
          (call env (update_thread (changed_thread input item sequence now)))
      event_id ← new_id env
      add_valid_event env
          (thread_event actor (changed_thread input item sequence now) policy sequence event_id now)
      pure (record { thread = changed_thread input item sequence now; policy = policy })
