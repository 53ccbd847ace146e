-- ===== src/Order/Administration.antt =====
-- The order of the changes and internal/usecase/admin/service.go: `moderateComment`, `UpdateThread`.
use ms_go_comment.Base.{
  Bool, List, any, arith, false, int_laws, moderation_conflict, refl, true, ◌==◌, ◌≡◌,
}
use ms_go_comment.Domain.Actor.{Actor}
use ms_go_comment.Domain.Attachment.{Attachment}
use ms_go_comment.Domain.Comment.{Comment, CommentStatus, status_eq}
use ms_go_comment.Domain.Common.{Time, Uuid}
use ms_go_comment.Domain.Outbox.{EventSubject}
use ms_go_comment.Domain.Thread.{Thread}
use ms_go_comment.Order.{Sequenced}
use ms_go_comment.Order.Comments.{Owned}
use ms_go_comment.Order.Files.{find-owner, next_sequence_any_state-Triple}
use ms_go_comment.Order.Steps.{Sequenced-blind, is_version-only, renumber-Triple}
use ms_go_comment.Order.Threads.{next_sequence_any_state-fresh, update_threads-Sequenced}
use ms_go_comment.Store.Attachments.{list_by_comment}
use ms_go_comment.Store.Comments.{get_comment, update_moderation_status}
use ms_go_comment.Store.Monad.{Env, World, call}
use ms_go_comment.Store.Spaces.{get_space}
use ms_go_comment.Store.Threads.{get_thread, next_sequence_any_state, set_thread, update_thread}
use ms_go_comment.Store.Transactions.{checked-Keeps, within_transaction-Keeps}
use ms_go_comment.Store.Triples.{
  Triple, Triple-bind, Triple-bind-lift, Triple-call, Triple-clock, Triple-guard, Triple-keeps,
  Triple-new_id, Triple-or_missing, Triple-pure, Triple-reads, affecting-Keeps,
}
use ms_go_comment.Usecase.Admin.{UpdateThreadInput}
use ms_go_comment.Usecase.Admin.Moderation.{
  add_moderation_outbox, moderate_comment, moderate_if, moderated, write_moderation,
}
use ms_go_comment.Usecase.Admin.Threads.{changed_thread, thread_event, update_thread_as}
use ms_go_comment.Usecase.Discussion.Frames.{add_valid_event-Triple}

module _ (env : Env) where
  add_moderation_outbox-Triple :
      (item : Comment) (attachments : List Attachment) (subject : EventSubject) (actor : Uuid)
      (now : Time)
      → Triple Sequenced
          (add_moderation_outbox env item attachments subject actor now)
          (λ u d. Sequenced d)
  unfolding add_moderation_outbox
  add_moderation_outbox-Triple item attachments subject actor now =
      Triple-bind _ _ _ (Triple-new_id env)
        λ id. add_valid_event-Triple Sequenced Sequenced-blind env _

  write_moderation-Triple :
      (actor : Actor) (item : Comment) (attachments : List Attachment) (target : CommentStatus)
      (subject : EventSubject)
      → Triple
          (λ d. Sequenced d × Owned item.id item.thread_id d.comments)
          (write_moderation env actor item attachments target subject)
          (λ v d. Sequenced d)
  unfolding write_moderation update_moderation_status
  write_moderation-Triple actor item attachments target subject =
      Triple-bind _ _ _
        (Triple-or_missing _ _ _ (next_sequence_any_state-Triple env item.id item.thread_id))
        λ q. Triple-bind _ _ _ (Triple-clock env) λ now.
          Triple-bind _ _ _
            (renumber-Triple env item.id item.thread_id q _ _ moderation_conflict _ (λ now' d. refl)
              (is_version-only item.id item.version (λ s. status_eq s item.status)) (λ x. refl)
              (λ x. refl) (λ x. refl))
            λ u.
              Triple-bind _ _ _
                (add_moderation_outbox-Triple (moderated env target item q now) attachments subject
                  _ now)
                λ u'. Triple-pure _ _ (λ d p. p)

  moderate_if-Triple :
      (same : Bool) (actor : Actor) (item : Comment) (attachments : List Attachment)
      (target : CommentStatus) (subject : EventSubject)
      → Triple
          (λ d. Sequenced d × Owned item.id item.thread_id d.comments)
          (moderate_if env same actor item attachments target subject)
          (λ v d. Sequenced d)
  unfolding moderate_if
  moderate_if-Triple true actor item attachments target subject = Triple-pure _ _ (λ d p. p.0)
  moderate_if-Triple false actor item attachments target subject =
      write_moderation-Triple actor item attachments target subject

  -- A moderation outside a transaction, hiding or restoring, keeps the order of the changes,
  -- whatever its outcome.
  pub moderate_comment-Sequenced :
      (actor : Actor) (id : Uuid) (target : CommentStatus) (subject : EventSubject) (w : World)
      → w.in_tx ≡ false
      → Sequenced w.db
      → Sequenced (moderate_comment env actor id target subject w).1.db
  unfolding moderate_comment get_comment get_thread get_space list_by_comment
  moderate_comment-Sequenced actor id target subject w out h =
      checked-Keeps Sequenced _ _ w h λ u known. checked-Keeps Sequenced _ _ w h λ u' targeted.
        within_transaction-Keeps env Sequenced _
          (Triple-bind _ _ (λ c d. Sequenced d × Owned c.id c.thread_id d.comments)
            (Triple-or_missing _ _ _
              (Triple-reads env _ _ λ d c p e. (p, (find-owner id d c p (ground arith)).1)))
            λ item.
              Triple-bind _ _ (λ t d. Sequenced d × Owned item.id item.thread_id d.comments)
                (Triple-or_missing _ _ _ (Triple-reads env _ _ (λ d t p e. p)))
                λ t.
                  Triple-bind _ _ (λ sp d. Sequenced d × Owned item.id item.thread_id d.comments)
                    (Triple-or_missing _ _ _ (Triple-reads env _ _ (λ d sp p e. p)))
                    λ sp. Triple-guard _ _ _ _ λ left.
                      Triple-bind _ _ (λ l d. Sequenced d × Owned item.id item.thread_id d.comments)
                        (Triple-reads env _ _ (λ d l p e. p))
                        λ l. moderate_if-Triple _ actor item l target subject)
          w out h

  any_state-Triple :
      (id : Uuid) → Triple Sequenced (call env (next_sequence_any_state id)) (λ q d. Sequenced d)
  any_state-Triple id =
      Triple-call env _ _ (λ now d q h e. (next_sequence_any_state-fresh id now d q h e).0)

  update_thread-Triple :
      (t : Thread) → Triple Sequenced (call env (update_thread t)) (λ u d. Sequenced d)
  unfolding update_thread
  update_thread-Triple t = Triple-keeps env _ λ now d h.
      affecting-Keeps Sequenced (any (λ x. x.id == t.id) d.threads) _ d _ h
        (update_threads-Sequenced _ (set_thread t) (λ x. refl) d (λ x. omega int_laws) h)

  -- UpdateThread outside a transaction keeps the order of the changes, whatever its outcome.
  pub update_thread_as-Sequenced :
      (actor : Actor) (input : UpdateThreadInput) (w : World)
      → w.in_tx ≡ false
      → Sequenced w.db
      → Sequenced (update_thread_as env actor input w).1.db
  unfolding update_thread_as get_thread get_space
  update_thread_as-Sequenced actor input w out h = checked-Keeps Sequenced _ _ w h λ u known.
      checked-Keeps Sequenced _ _ w h λ u' valid.
        within_transaction-Keeps env Sequenced _
          (Triple-bind _ _ (λ t d. Sequenced d)
            (Triple-or_missing _ _ _ (Triple-reads env _ _ (λ d t p e. p)))
            λ t.
              Triple-bind _ _ (λ sp d. Sequenced d)
                (Triple-or_missing _ _ _ (Triple-reads env _ _ (λ d t p e. p)))
                λ sp. Triple-bind-lift _ _ _ λ policy applied.
                  Triple-bind _ _ _ (Triple-clock env) λ now.
                    Triple-bind _ _ _ (Triple-or_missing _ _ _ (any_state-Triple t.id)) λ q.
                      Triple-bind _ _ _
                        (Triple-or_missing _ _ _
                          (update_thread-Triple (changed_thread env input t q now)))
                        λ u''. Triple-bind _ _ _ (Triple-new_id env) λ event_id.
                          Triple-bind _ _ _
                            (add_valid_event-Triple Sequenced Sequenced-blind env (
                              thread_event env actor (changed_thread env input t q now) policy q
                                event_id now))
                            λ u'''. Triple-pure _ _ (λ d p. p))
          w out h
