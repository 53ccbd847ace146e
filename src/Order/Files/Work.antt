-- ===== src/Order/Files/Work.antt =====
-- The order of the changes and `ProcessAttachmentWork` of comment/attachment_service.go.
use ms_go_comment.Base.{
  Bool, Err, List, Option, Result, Text, [], arith, err, false, none, not, ok, some, true, ℤ, ◌∷◌,
}
use ms_go_comment.Domain.Attachment.{Attachment, is_failed, is_pending}
use ms_go_comment.Domain.Common.{Uuid}
use ms_go_comment.Domain.Json.{items}
use ms_go_comment.Domain.Outbox.{EventSubject}
use ms_go_comment.Order.{Sequenced}
use ms_go_comment.Order.Comments.{Owned}
use ms_go_comment.Order.Files.{advance_sequence-Triple, find-owner, next_sequence_any_state-Triple}
use ms_go_comment.Order.Steps.{Sequenced-blind}
use ms_go_comment.Store.Attachments.{
  get_attachment, list_by_comment, list_expired, list_for_activation, list_for_deletion,
  mark_ready_if_processing, mark_storage_deleted, record_activation_failure, record_delete_failure,
  returning_attachment, update_attachments, update_status,
}
use ms_go_comment.Store.Comments.{get_comment}
use ms_go_comment.Store.Database.{Database}
use ms_go_comment.Store.Monad.{Answer, Env, call, done, failed}
use ms_go_comment.Store.Safety.{
  Safe, Safe-ask, Safe-bind, Safe-bind-attempt, Safe-call, Safe-clock, Safe-get_flag, Safe-if,
  Safe-lift, Safe-pure, Safe-set_flag, Safe-within_transaction,
}
use ms_go_comment.Store.Triples.{
  Triple, Triple-bind, Triple-bind-lift, Triple-clock, Triple-if, Triple-keeps, Triple-pure,
  Triple-reads, Triple-set_flag,
}
use ms_go_comment.Usecase.Discussion.{Settings}
use ms_go_comment.Usecase.Discussion.Frames.{add_outbox-Triple, update_attachments-Keeps}
use ms_go_comment.Usecase.Files.{WorkReport}
use ms_go_comment.Usecase.Files.Lifecycle.{emit_attachment_lifecycle}
use ms_go_comment.Usecase.Files.Work.{
  activate_all, activate_found, activate_one, after_failure, after_ready, delete_all, delete_found,
  delete_one, expire_all, expire_found, expire_if, expire_pending, expire_row,
  mark_attachment_ready, process_attachment_work, queue_expired, record_failure,
}

module _ (env : Env) (s : Settings) where
  emit_attachment_lifecycle-Triple :
      (a : Attachment) (subject : EventSubject)
      → Triple Sequenced (emit_attachment_lifecycle env s a subject) (λ u d. Sequenced d)
  unfolding emit_attachment_lifecycle get_comment list_by_comment
  emit_attachment_lifecycle-Triple a subject = Triple-bind-lift _ _ _ λ id bound.
      Triple-bind _ _ (λ c d. Sequenced d × Owned c.id c.thread_id d.comments)
        (Triple-reads env _ _ λ d c p e. (p, (find-owner id d c p (ground arith)).1))
        λ c. Triple-bind _ _ _ (next_sequence_any_state-Triple env c.id c.thread_id) λ q.
          Triple-bind _ _ _ (Triple-clock env) λ at.
            Triple-bind _ _ _ (advance_sequence-Triple env c.id c.thread_id q at) λ changed.
              Triple-bind _ _ (λ l d. Sequenced d) (Triple-reads env _ _ (λ d l p e. p))
                λ rest.
                  Triple-bind _ _ _ (Triple-clock env)
                    λ now. add_outbox-Triple Sequenced Sequenced-blind env _ _ _ _ _

  after_failure-Triple :
      (o : Option Attachment) → Triple Sequenced (after_failure env s o) (λ u d. Sequenced d)
  unfolding after_failure
  after_failure-Triple none = Triple-pure _ _ (λ d p. p)
  after_failure-Triple (some a) = Triple-bind _ _ _ (Triple-set_flag _) λ u.
      Triple-if _ (is_failed a.status) _ _ (λ _. emit_attachment_lifecycle-Triple a _)
        (λ _. Triple-pure _ _ (λ d p. p))

  after_ready-Triple :
      (o : Option Attachment) → Triple Sequenced (after_ready env s o) (λ u d. Sequenced d)
  unfolding after_ready
  after_ready-Triple none = Triple-pure _ _ (λ d p. p)
  after_ready-Triple (some a) =
      Triple-bind _ _ _ (emit_attachment_lifecycle-Triple a _) λ u. Triple-pure _ _ (λ d p. p)

  returning_attachment-Sequenced :
      (p : Attachment → Bool) (f : Attachment → Attachment) (o : Option Attachment) (d : Database)
      → Sequenced d
      → Sequenced (returning_attachment p f o d).1
  returning_attachment-Sequenced p f none d h = h
  returning_attachment-Sequenced p f (some a) d h = Sequenced-blind d _ d.outbox h

  record_failure-Safe :
      (a : Attachment) (message : Text) → Safe Sequenced (record_failure env s a message)
  unfolding record_failure record_activation_failure
  record_failure-Safe a message = Safe-bind _ _ (Safe-set_flag env false) λ u.
      Safe-within_transaction env _ (
        Triple-bind _ _ _ (Triple-clock env) λ now.
          Triple-bind _ _ _
            (Triple-keeps env _ (λ now' d h. returning_attachment-Sequenced _ _ _ d h))
            after_failure-Triple)

  mark_attachment_ready-Safe : (id : Uuid) → Safe Sequenced (mark_attachment_ready env s id)
  unfolding mark_attachment_ready mark_ready_if_processing
  mark_attachment_ready-Safe id = Safe-within_transaction env _ (
      Triple-bind _ _ _ (Triple-clock env) λ now.
        Triple-bind _ _ _
          (Triple-keeps env _ (λ now' d h. returning_attachment-Sequenced _ _ _ d h))
          after_ready-Triple)

  update_status-Triple :
      (a : Attachment) → Triple Sequenced (call env (update_status a)) (λ u d. Sequenced d)
  unfolding update_status
  update_status-Triple a =
      Triple-keeps env _ (λ now d h. update_attachments-Keeps Sequenced Sequenced-blind _ _ _ d h)

  expire_if-Triple :
      (b : Bool) (a : Attachment) → Triple Sequenced (expire_if env s b a) (λ u d. Sequenced d)
  unfolding expire_if
  expire_if-Triple false a = Triple-pure _ _ (λ d p. p)
  expire_if-Triple true a = Triple-bind _ _ _ (Triple-clock env) λ now. update_status-Triple _

  expire_row-Triple :
      (b : Bool) (a : Attachment) → Triple Sequenced (expire_row env s b a) (λ u d. Sequenced d)
  unfolding expire_row
  expire_row-Triple false a = Triple-pure _ _ (λ d p. p)
  expire_row-Triple true a = Triple-bind _ _ _ (Triple-clock env) λ now. expire_if-Triple _ a

  expire_pending-Safe : (id : Uuid) → Safe Sequenced (expire_pending env s id)
  unfolding expire_pending get_attachment
  expire_pending-Safe id = Safe-within_transaction env _ (
      Triple-bind _ _ (λ a d. Sequenced d) (Triple-reads env _ _ (λ d a p e. p))
        λ a. expire_row-Triple _ a)

  expire_all-Safe :
      (items : List Attachment) (es : List Err) → Safe Sequenced (expire_all env s items es)
  unfolding expire_all
  expire_all-Safe [] es = Safe-pure es
  expire_all-Safe (a ∷ more) es =
      Safe-if (not (is_pending a.status)) _ _ (expire_all-Safe more es)
        (Safe-bind-attempt _ _ (expire_pending-Safe a.id) (λ r. expire_all-Safe more _))

  expire_found-Safe : (r : Result (List Attachment)) → Safe Sequenced (expire_found env s r)
  expire_found-Safe (err e) = Safe-pure _
  expire_found-Safe (ok items) = expire_all-Safe items []

  queue_expired-Safe : (limit : ℤ) → Safe Sequenced (queue_expired env s limit)
  unfolding queue_expired list_expired
  queue_expired-Safe limit =
      Safe-bind _ _ (Safe-clock env)
        λ now. Safe-bind-attempt _ _ (Safe-call env _ (λ now' d h. h)) expire_found-Safe

  activate_one-Safe :
      (a : Attachment) (answer : Answer (Unit {0})) (r : WorkReport)
      → Safe Sequenced (activate_one env s a answer r)
  unfolding activate_one
  activate_one-Safe a (failed message) r =
      Safe-bind-attempt _ _ (record_failure-Safe a message)
        λ res. Safe-bind _ _ (Safe-get_flag env) λ terminal. Safe-pure _
  activate_one-Safe a (done _) r =
      Safe-bind-attempt _ _ (mark_attachment_ready-Safe a.id) λ res. Safe-pure _

  activate_all-Safe :
      (items : List Attachment) (r : WorkReport) → Safe Sequenced (activate_all env s items r)
  unfolding activate_all
  activate_all-Safe [] r = Safe-pure r
  activate_all-Safe (a ∷ more) r =
      Safe-bind _ _ (Safe-ask env _)
        λ answer. Safe-bind _ _ (activate_one-Safe a answer r) (activate_all-Safe more)

  attachments-Keeps :
      (p : Attachment → Bool) (f : Attachment → Attachment) (e : Err) (d : Database)
      → Sequenced d
      → Sequenced (update_attachments p f e d).1
  attachments-Keeps = update_attachments-Keeps Sequenced Sequenced-blind

  delete_one-Safe :
      (a : Attachment) (answer : Answer (Unit {0})) (r : WorkReport)
      → Safe Sequenced (delete_one env s a answer r)
  unfolding delete_one record_delete_failure mark_storage_deleted
  delete_one-Safe a (failed message) r = Safe-bind _ _ (Safe-clock env) λ now.
      Safe-bind-attempt _ _ (Safe-call env _ (λ now' d h. attachments-Keeps _ _ _ d h))
        λ res. Safe-pure _
  delete_one-Safe a (done _) r = Safe-bind _ _ (Safe-clock env) λ now.
      Safe-bind-attempt _ _ (Safe-call env _ (λ now' d h. attachments-Keeps _ _ _ d h))
        λ res. Safe-pure _

  delete_all-Safe :
      (items : List Attachment) (r : WorkReport) → Safe Sequenced (delete_all env s items r)
  unfolding delete_all
  delete_all-Safe [] r = Safe-pure r
  delete_all-Safe (a ∷ more) r =
      Safe-bind _ _ (Safe-ask env _)
        λ answer. Safe-bind _ _ (delete_one-Safe a answer r) (delete_all-Safe more)

  delete_found-Safe :
      (r : WorkReport) (found : Result (List Attachment))
      → Safe Sequenced (delete_found env s r found)
  delete_found-Safe r (err e) = Safe-pure _
  delete_found-Safe r (ok items) = delete_all-Safe items r

  activate_found-Safe :
      (limit : ℤ) (es : List Err) (found : Result (List Attachment))
      → Safe Sequenced (activate_found env s limit es found)
  unfolding activate_found list_for_deletion
  activate_found-Safe limit es (err e) = Safe-pure _
  activate_found-Safe limit es (ok items) = Safe-bind _ _ (activate_all-Safe items _) λ r.
      Safe-bind _ _ (Safe-clock env)
        λ now. Safe-bind-attempt _ _ (Safe-call env _ (λ now' d h. h)) (delete_found-Safe r)

  -- A round of ProcessAttachmentWork outside a transaction keeps the order of the changes and
  -- leaves no transaction open, whatever fails in it.
  pub process_attachment_work-Safe :
      (limit : ℤ) → Safe Sequenced (process_attachment_work env s limit)
  unfolding process_attachment_work list_for_activation
  process_attachment_work-Safe limit = Safe-bind _ _ (Safe-lift _) λ u.
      Safe-bind _ _ (Safe-lift _) λ u'. Safe-bind _ _ (queue_expired-Safe limit) λ es.
        Safe-bind _ _ (Safe-clock env) λ now.
          Safe-bind-attempt _ _ (Safe-call env _ (λ now' d h. h)) (activate_found-Safe limit es)
