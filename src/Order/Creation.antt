-- ===== src/Order/Creation.antt =====
-- The order of the changes and `CreateComment` of internal/usecase/comment/service.go.
use ms_go_comment.Base.{
  Bool, List, Option, Result, [], any, arith, conflict, err, false, int_laws, length, none, not,
  not_found, ok, pos, refl, some, subst, sym, ◌==◌, ◌∷◌, ◌≡◌,
}
use ms_go_comment.Domain.Actor.{Actor}
use ms_go_comment.Domain.Attachment.{Attachment}
use ms_go_comment.Domain.Comment.{Comment}
use ms_go_comment.Domain.Common.{Time, Uuid}
use ms_go_comment.Domain.Content.{analyze_comment_content}
use ms_go_comment.Domain.Space.{Policy}
use ms_go_comment.Order.{FreshSequence, Sequenced}
use ms_go_comment.Order.Comments.{append-Sequenced}
use ms_go_comment.Order.Replies.{same_number-Sequenced}
use ms_go_comment.Order.Steps.{Sequenced-blind}
use ms_go_comment.Order.Threads.{next_sequence-fresh, update_threads-Sequenced}
use ms_go_comment.Store.Attachments.{get_attachment, list_by_comment}
use ms_go_comment.Store.Comments.{
  add_reply, comment_clashes, create_comment_row, get_by_idempotency_key, get_comment,
  increment_reply_count, lock_idempotency_key,
}
use ms_go_comment.Store.Database.{Database, reads}
use ms_go_comment.Store.Monad.{Env, M, World, attempt, call, ◌>>=◌}
use ms_go_comment.Store.Spaces.{get_space}
use ms_go_comment.Store.Threads.{count_comment, get_thread, next_sequence, record_comment_created}
use ms_go_comment.Store.Transactions.{checked-Keeps, within_transaction-Keeps}
use ms_go_comment.Store.Triples.{
  Triple, Triple-bind, Triple-bind-attempt, Triple-bind-lift, Triple-call, Triple-clock,
  Triple-fail, Triple-guard, Triple-keeps, Triple-lift, Triple-new_id, Triple-or_missing,
  Triple-pure, Triple-reads, Triple-weaken, affecting-Keeps, affecting-eq-ok, call-reads-db,
}
use ms_go_comment.Usecase.Discussion.{CreateCommentInput, Settings}
use ms_go_comment.Usecase.Discussion.Create.{
  check_attachments, count_reply, create_comment, create_fresh, create_or_replay, load_parent,
  new_comment, resolve_replay, store_comment, validate_attachments,
}
use ms_go_comment.Usecase.Discussion.Frames.{add_outbox-Triple, bind_all-Triple}
use ms_go_comment.Usecase.Discussion.Guards.{
  IsQuiet, authorize_access-Triple, load_thread_context-Triple,
}

module _ (env : Env) where
  -- A lookup whose error is looked at leaves the database alone.
  attempted :
      {A B : Type 0} (P : Database → Type 0) (f : Database → Result A) (k : Result A → M B)
      (R : B → Database → Type 0)
      → ((r : Result A) → Triple P (k r) R)
      → Triple P (attempt (call env (reads f)) >>= k) R
  attempted P f k R h = Triple-bind-attempt _ _ _ (λ w p. subst P (sym (call-reads-db env f w)) p) h

  -- The row of a new comment with the number taken.
  create_row-Triple :
      (c : Comment)
      → Triple
          (λ d. Sequenced d × FreshSequence c.thread_id c.sequence d)
          (call env (create_comment_row c))
          (λ u d. Sequenced d)
  unfolding create_comment_row
  create_row-Triple c = Triple-call env _ _ λ now d u h e.
      let (new, changed) =
        affecting-eq-ok (not (any (comment_clashes c) d.comments)) conflict d _ u e in
      subst Sequenced (sym changed) (append-Sequenced d c h.0 h.1 (ground arith))

  counted-Triple :
      (id : Uuid) (root : Bool)
      → Triple Sequenced (call env (record_comment_created id root)) (λ u d. Sequenced d)
  unfolding record_comment_created
  counted-Triple id root = Triple-keeps env _ λ now d s.
      affecting-Keeps Sequenced (any (λ t. t.id == id) d.threads) _ d _ s
        (update_threads-Sequenced _ (count_comment now root) (λ x. refl) d (λ x. omega int_laws) s)

  count_reply-Triple :
      (s : Settings) (id : Uuid) (parent : Option Comment)
      → Triple Sequenced (count_reply env s id parent) (λ u d. Sequenced d)
  unfolding count_reply increment_reply_count
  count_reply-Triple s id none = Triple-pure _ _ (λ d p. p)
  count_reply-Triple s id (some parent) = Triple-keeps env _ λ now d s.
      affecting-Keeps Sequenced _ _ d _ s (
        same_number-Sequenced _ (add_reply now)
          (λ x. record { id = refl; thread_id = refl; sequence = refl }) d s)

  load_parent-Triple :
      (s : Settings) (P : Database → Type 0) (id : Uuid) (parent : Option Uuid)
      → Triple P (load_parent env s id parent) (λ c d. P d)
  unfolding load_parent get_comment
  load_parent-Triple s P id none = Triple-pure _ _ (λ d p. p)
  load_parent-Triple s P id (some c) = attempted P _ _ _ λ r. Triple-lift _ _ (λ a d _ p. p)

module _ (env : Env) (s : Settings) where
  check_attachments-Triple :
      (P : Database → Type 0) (actor : Actor) (id : Uuid) (policy : Policy) (seen ids : List Uuid)
      → Triple P (check_attachments env s actor id policy seen ids) (λ a d. P d)
  unfolding check_attachments get_attachment
  check_attachments-Triple P actor id policy seen [] = Triple-pure _ _ (λ d p. p)
  check_attachments-Triple P actor id policy seen (x ∷ ids) = Triple-guard _ _ _ _ λ named.
      Triple-guard _ _ _ _ λ new. attempted env P _ _ _ λ found.
        Triple-bind _ _ _ (Triple-clock env) λ now. Triple-bind-lift _ _ _ λ a usable.
          Triple-bind-lift _ _ _ λ u valid.
            Triple-bind _ _ _ (check_attachments-Triple P actor id policy (x ∷ seen) ids)
              λ rest. Triple-pure _ _ (λ d p. p)

  validate_attachments-Triple :
      (P : Database → Type 0) (actor : Actor) (id : Uuid) (ids : List Uuid) (policy : Policy)
      → Triple P (validate_attachments env s actor id ids policy) (λ a d. P d)
  unfolding validate_attachments
  validate_attachments-Triple P actor id ids policy =
      Triple-guard _ _ _ _
        λ few. Triple-guard _ _ _ _ λ allowed. check_attachments-Triple P actor id policy [] ids

  store_comment-Triple :
      (actor : Actor) (item : Comment) (attachments : List Attachment) (parent : Option Comment)
      (now : Time)
      → Triple
          (λ d. Sequenced d × FreshSequence item.thread_id item.sequence d)
          (store_comment env s actor item attachments parent now)
          (λ r d. Sequenced d)
  unfolding store_comment
  store_comment-Triple actor item attachments parent now =
      Triple-bind _ _ _ (create_row-Triple env item) λ u.
        Triple-bind _ _ _
          (bind_all-Triple Sequenced Sequenced-blind env s actor item now attachments)
          λ bound. Triple-bind _ _ _ (counted-Triple env _ _) λ u'.
            Triple-bind _ _ _ (count_reply-Triple env s _ parent) λ u''.
              Triple-bind _ _ _ (add_outbox-Triple Sequenced Sequenced-blind env _ _ _ _ _)
                λ u'''. Triple-pure _ _ (λ d p. p)

module _ (env : Env) (s : Settings) (quiet : IsQuiet s) where
  create_fresh-Triple :
      (actor : Actor) (input : CreateCommentInput)
      → Triple Sequenced (create_fresh env s actor input) (λ r d. Sequenced d)
  unfolding create_fresh
  create_fresh-Triple actor input =
      Triple-bind _ _ (λ ctx d. Sequenced d)
        (Triple-weaken _ _ (λ ctx d p. p.0)
          (load_thread_context-Triple env s quiet Sequenced actor _ _))
        λ ctx.
          Triple-bind _ _ _ (validate_attachments-Triple env s Sequenced actor _ _ _) λ attachments.
            Triple-bind-lift _ _ _ λ u valid.
              Triple-bind _ _ _ (load_parent-Triple env s Sequenced _ _) λ parent.
                Triple-bind _ _ _ (Triple-new_id env) λ id.
                  Triple-bind-lift _ _ _ λ placement built.
                    Triple-bind _ _ (λ q d. Sequenced d × FreshSequence ctx.thread.id q d)
                      (Triple-call env (next_sequence ctx.thread.id) _
                        λ now d q h e. next_sequence-fresh ctx.thread.id now d q h e)
                      λ q. Triple-bind _ _ _ (Triple-clock env) λ now.
                        store_comment-Triple env s actor
                          (new_comment env s actor input id ctx.thread.id
                            (analyze_comment_content input.body (pos (length attachments)))
                            placement q now)
                          attachments parent now

  resolve_replay-Triple :
      (P : Database → Type 0) (actor : Actor) (existing : Comment) (input : CreateCommentInput)
      → Triple P (resolve_replay env s actor existing input) (λ r d. P d)
  unfolding resolve_replay list_by_comment get_thread get_space
  resolve_replay-Triple P actor existing input =
      Triple-bind _ _ (λ a d. P d) (Triple-reads env _ _ (λ d a p e. p))
        λ attachments. Triple-guard _ _ _ _ λ same.
          Triple-bind _ _ (λ t d. P d)
            (Triple-or_missing _ _ _ (Triple-reads env _ _ (λ d a p e. p)))
            λ t.
              Triple-bind _ _ (λ sp d. P d)
                (Triple-or_missing _ _ _ (Triple-reads env _ _ (λ d a p e. p)))
                λ sp.
                  Triple-bind _ _ (λ u d. P d)
                    (Triple-weaken _ _ (λ u d p. p.0)
                      (authorize_access-Triple env s quiet P actor sp t.resource _))
                    λ u. Triple-guard _ _ _ _ λ visible. Triple-pure _ _ (λ d p. p)

  create_or_replay-Triple :
      (actor : Actor) (input : CreateCommentInput) (found : Result Comment)
      → Triple Sequenced (create_or_replay env s actor input found) (λ r d. Sequenced d)
  unfolding create_or_replay
  create_or_replay-Triple actor input (ok existing) =
      resolve_replay-Triple Sequenced actor existing input
  create_or_replay-Triple actor input (err not_found) = create_fresh-Triple actor input
  create_or_replay-Triple actor input (err _) = Triple-fail _ _

  -- Where the authorizer changes nothing and the context carries no transaction, CreateComment
  -- keeps, whatever its outcome, that thread identifiers are distinct, that comments differ in
  -- identifier and, within a thread, in sequence number, and that no sequence number exceeds the
  -- last one of its thread.
  pub create_comment-Sequenced :
      (actor : Actor) (input : CreateCommentInput) (w : World)
      → w.in_tx ≡ false
      → Sequenced w.db
      → Sequenced (create_comment env s actor input w).1.db
  unfolding create_comment lock_idempotency_key get_by_idempotency_key
  create_comment-Sequenced actor input w out h = checked-Keeps Sequenced _ _ w h λ u valid.
      checked-Keeps Sequenced _ _ w h λ u' named.
        within_transaction-Keeps env Sequenced _
          (Triple-bind _ _ (λ a d. Sequenced d) (Triple-reads env _ _ (λ d a p e. p))
            λ locked. attempted env Sequenced _ _ _ (create_or_replay-Triple actor input))
          w out h
