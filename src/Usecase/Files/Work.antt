-- ===== src/Usecase/Files/Work.antt =====
-- `ProcessAttachmentWork` and its helpers.
use ms_go_comment.Base.{
  Bool, Err, List, Option, Result, Text, [], err, fail_if, false, if◌then◌else◌, ltb_ℤ, none, not,
  not_found, ok, pos, some, true, unavailable, validation, ℤ, ◌++◌, ◌+ℤ◌, ◌+◌, ◌∷◌,
}
use ms_go_comment.Domain.Attachment.{Attachment, AttachmentStatus, is_failed, is_pending}
use ms_go_comment.Domain.Common.{Time, Uuid, after}
use ms_go_comment.Domain.Json.{items}
use ms_go_comment.Domain.Outbox.{EventSubject}
use ms_go_comment.Store.Attachments.{
  get_attachment, list_expired, list_for_activation, list_for_deletion, mark_ready_if_processing,
  mark_storage_deleted, record_activation_failure, record_delete_failure, update_status,
}
use ms_go_comment.Store.Monad.{
  Answer, Env, M, ask, attempt, call, clock, done, failed, get_flag, lift, pure, set_flag,
  within_transaction, ◌>>=◌, ◌>>◌,
}
use ms_go_comment.Usecase.Discussion.{Settings}
use ms_go_comment.Usecase.Files.{WorkReport, max_attempts, retry_delay, truncate_error}
use ms_go_comment.Usecase.Files.Lifecycle.{emit_attachment_lifecycle}

module _ (env : Env) (s : Settings) where
  -- What `recordActivationFailure` does with the row that it changed.
  unfoldable pub after_failure : Option Attachment → M (Unit {0})
  after_failure none = pure tt
  after_failure (some a) = do
    set_flag (is_failed a.status)
    if is_failed a.status
        then emit_attachment_lifecycle env s a EventSubject.attachment_failed
        else pure tt

  -- `recordActivationFailure`; the flag is its `terminal`.
  unfoldable pub record_failure : Attachment → Text → M (Unit {0})
  unfolding after_failure
  record_failure source message = do
    set_flag false
    within_transaction env do
      now ← clock env
      changed ← call env (
          record_activation_failure source.id
            (now + retry_delay (source.activation_attempts +ℤ pos 1)) (truncate_error message)
            (max_attempts s))
      after_failure changed

  unfoldable pub after_ready : Option Attachment → M Bool
  after_ready none = pure false
  after_ready (some a) = do
    emit_attachment_lifecycle env s a EventSubject.attachment_ready
    pure true

  -- `markAttachmentReady`
  unfoldable pub mark_attachment_ready : Uuid → M Bool
  unfolding after_ready
  mark_attachment_ready id =
      within_transaction env do
        now ← clock env
        changed ← call env (mark_ready_if_processing id now)
        after_ready changed

  abbrev pub expired : Time → Attachment → Attachment
  expired now a = record a {
    status = AttachmentStatus.deleted;
    deleted_at = some now;
    delete_next_attempt_at = some now;
    updated_at = now;
  }

  unfoldable pub expire_if : Bool → Attachment → M (Unit {0})
  expire_if false a = pure tt
  expire_if true a = do now ← clock env; call env (update_status (expired now a))

  -- The clock is read only behind the test on the status.
  unfoldable pub expire_row : Bool → Attachment → M (Unit {0})
  unfolding expire_if
  expire_row false a = pure tt
  expire_row true a = do at ← clock env; expire_if (not (after a.expires_at at)) a

  -- The transaction of `queueExpiredPendingAttachments` for one row.
  unfoldable pub expire_pending : Uuid → M (Unit {0})
  unfolding expire_row
  expire_pending id =
      within_transaction env do a ← call env (get_attachment id); expire_row (is_pending a.status) a

  abbrev pub noted {ℓ} : {A : Type ℓ} → Result A → List Err → List Err
  noted (ok _) es = es
  noted (err e) es = es ++ e ∷ []

  -- The loop of `queueExpiredPendingAttachments`, with the errors so far.
  unfoldable pub expire_all : List Attachment → List Err → M (List Err)
  unfolding expire_pending
  expire_all [] es = pure es
  expire_all (a ∷ more) es =
      if not (is_pending a.status)
      then expire_all more es
      else do r ← attempt (expire_pending a.id); expire_all more (noted r es)

  abbrev pub expire_found : Result (List Attachment) → M (List Err)
  expire_found (err e) = pure (e ∷ [])
  expire_found (ok items) = expire_all items []

  -- `queueExpiredPendingAttachments`
  unfoldable pub queue_expired : ℤ → M (List Err)
  unfolding expire_all
  queue_expired limit = do
    now ← clock env
    found ← attempt (call env (list_expired now limit))
    expire_found found

  abbrev pub count_ready : Result Bool → WorkReport → WorkReport
  count_ready (ok changed) r = if changed then record r { activated = r.activated + 1 } else r
  count_ready (err e) r = record r { errors = r.errors ++ e ∷ [] }

  abbrev pub count_failure : Bool → Result (Unit {0}) → WorkReport → WorkReport
  count_failure terminal result r = record r {
    failed = if terminal then r.failed + 1 else r.failed;
    errors = noted result r.errors;
  }

  -- One round of the loop over `activationItems`.
  unfoldable pub activate_one : Attachment → Answer (Unit {0}) → WorkReport → M WorkReport
  unfolding record_failure mark_attachment_ready
  activate_one a (failed message) r = do
    result ← attempt (record_failure a message)
    terminal ← get_flag
    pure (count_failure terminal result r)
  activate_one a (done _) r = do
    result ← attempt (mark_attachment_ready a.id)
    pure (count_ready result r)

  unfoldable pub activate_all : List Attachment → WorkReport → M WorkReport
  unfolding activate_one
  activate_all [] r = pure r
  activate_all (a ∷ more) r = do
    answer ← ask env env.activate_at
    r' ← activate_one a answer r
    activate_all more r'

  abbrev pub count_deleted : Result (Unit {0}) → WorkReport → WorkReport
  count_deleted (ok _) r = record r { deleted = r.deleted + 1 }
  count_deleted (err not_found) r = record r { deleted = r.deleted + 1 }
  count_deleted (err e) r = record r { errors = r.errors ++ e ∷ [] }

  -- One round of the loop over `deleteItems`.
  unfoldable pub delete_one : Attachment → Answer (Unit {0}) → WorkReport → M WorkReport
  delete_one a (failed message) r = do
    now ← clock env
    result ← attempt (
        call env (
          record_delete_failure a.id (now + retry_delay (a.delete_attempts +ℤ pos 1))
            (truncate_error message)))
    pure (record r { errors = noted result r.errors })
  delete_one a (done _) r = do
    now ← clock env
    result ← attempt (call env (mark_storage_deleted a.id now))
    pure (count_deleted result r)

  unfoldable pub delete_all : List Attachment → WorkReport → M WorkReport
  unfolding delete_one
  delete_all [] r = pure r
  delete_all (a ∷ more) r = do
    answer ← ask env env.delete_at
    r' ← delete_one a answer r
    delete_all more r'

  abbrev pub delete_found : WorkReport → Result (List Attachment) → M WorkReport
  delete_found r (err e) = pure (record r { errors = r.errors ++ e ∷ [] })
  delete_found r (ok items) = delete_all items r

  -- An error here is returned without those of the expired rows.
  unfoldable pub activate_found : ℤ → List Err → Result (List Attachment) → M WorkReport
  unfolding activate_all delete_all
  activate_found limit es (err e) =
      pure (record { activated = 0; failed = 0; deleted = 0; errors = e ∷ [] })
  activate_found limit es (ok items) = do
    r ← activate_all items (record { activated = 0; failed = 0; deleted = 0; errors = es })
    now ← clock env
    found ← attempt (call env (list_for_deletion now limit))
    delete_found r found

  -- `ProcessAttachmentWork`
  unfoldable pub process_attachment_work : ℤ → M WorkReport
  unfolding queue_expired activate_found
  process_attachment_work limit = do
    lift (fail_if (ltb_ℤ limit (pos 1)) validation)
    lift (fail_if (not env.files_configured) unavailable)
    es ← queue_expired limit
    now ← clock env
    found ← attempt (call env (list_for_activation now limit))
    activate_found limit es found
