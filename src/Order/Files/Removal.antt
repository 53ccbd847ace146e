-- ===== src/Order/Files/Removal.antt =====
-- The order of the changes and `DeleteAttachment` of comment/attachment_service.go.
use ms_go_comment.Base.{
  ==_iff, Bool, Option, Result, ap, arith, attachment_not_found, err, false, find, find-eq-some,
  none, ok, refl, some, subst, sym, unavailable, ◌==◌, ◌∙◌, ◌≡◌, ◌⊎◌,
}
use ms_go_comment.Domain.Actor.{Actor}
use ms_go_comment.Domain.Attachment.{Attachment, is_deleted_attachment}
use ms_go_comment.Domain.Comment.{Comment}
use ms_go_comment.Domain.Common.{Time, Uuid}
use ms_go_comment.Domain.Thread.{Thread}
use ms_go_comment.Order.{Sequenced}
use ms_go_comment.Order.Comments.{Owned}
use ms_go_comment.Order.Files.{AttachmentsHoused, advance_sequence-Triple, find-owner}
use ms_go_comment.Order.Steps.{Sequenced-blind, next_sequence-Triple}
use ms_go_comment.Store.Attachments.{get_attachment, list_by_comment, update_status}
use ms_go_comment.Store.Comments.{get_comment}
use ms_go_comment.Store.Database.{Database, or_not_found}
use ms_go_comment.Store.Monad.{Env, World}
use ms_go_comment.Store.Rows.{All-find}
use ms_go_comment.Store.Transactions.{checked-Keeps, within_transaction-Leads}
use ms_go_comment.Store.Triples.{
  Triple, Triple-attempt-reads, Triple-bind, Triple-bind-lift, Triple-clock, Triple-guard,
  Triple-if, Triple-keeps, Triple-or_missing, Triple-pure, Triple-reads, Triple-weaken,
}
use ms_go_comment.Usecase.Discussion.{Settings, ThreadContext}
use ms_go_comment.Usecase.Discussion.Frames.{IsBlind, add_outbox-Triple, update_attachments-Keeps}
use ms_go_comment.Usecase.Discussion.Guards.{IsQuiet, load_thread_context-Triple}
use ms_go_comment.Usecase.Files.Lifecycle.{
  delete_attachment, load_owner, remove_attachment, tell_owner,
}
use ms_go_comment.Usecase.Files.Transfer.{active_or}

abbrev pub OwnerHoused : Uuid → Option Comment → Database → Type 0
OwnerHoused thread_id none d = Unit
OwnerHoused thread_id (some c) d = Owned c.id thread_id d.comments

abbrev Told : Uuid → Option Comment → Database → Type 0
Told thread_id o d = Sequenced d × OwnerHoused thread_id o d

Told-blind : (thread_id : Uuid) (o : Option Comment) → IsBlind (Told thread_id o)
Told-blind thread_id none d files out h = (Sequenced-blind d files out h.0, tt)
Told-blind thread_id (some c) d files out h = (Sequenced-blind d files out h.0, h.1)

-- A comment that an attachment of the thread names is in the thread.
bound-Owned :
    (a : Attachment) (id thread_id : Uuid) (p : Attachment → Bool) (d : Database) (c : Comment)
    → Sequenced d
    → AttachmentsHoused d
    → find p d.attachments ≡ some a
    → a.comment_id ≡ some id
    → a.thread_id ≡ thread_id
    → find (λ c. c.id == id) d.comments ≡ some c
    → Owned c.id thread_id d.comments
bound-Owned a id thread_id p d c s housed fa named at fc =
    let (same, own) = find-owner id d c s fc in
    let (rows, _) = All-find _ p d.attachments a housed fa in
    let (row, _) = All-find _ _ d.comments c rows fc in
    let there : c.thread_id ≡ thread_id = row (named ∙ ap some (sym same)) ∙ at in
    subst (λ t. Owned c.id t d.comments) there own

-- The row that a lookup finds is found by its own identifier.
find-again :
    (id : Uuid) (d : Database) (a : Attachment)
    → find (λ x. x.id == id) d.attachments ≡ some a
    → find (λ x. x.id == a.id) d.attachments ≡ some a
find-again id d a h =
    subst (λ i. find (λ (x : Attachment). x.id == i) d.attachments ≡ some a)
      (sym ((==_iff a.id id).0 (find-eq-some _ d.attachments a h))) h

usable-eq-some :
    (env : Env) (s : Settings) (found : Result Comment) (o : Option Comment) (c : Comment)
    → active_or env s attachment_not_found found ≡ ok c
    → (found ≡ err unavailable) ⊎ (or_not_found o ≡ found)
    → o ≡ some c
usable-eq-some env s (err e) o c u h = cc
usable-eq-some env s (ok x) none c u h = ground arith
usable-eq-some env s (ok x) (some y) c u h = ground arith

module _ (env : Env) (s : Settings) (quiet : IsQuiet s) where
  -- What is known of an attachment while it is removed.
  abbrev Known : Attachment → ThreadContext → Database → Type 0
  Known a ctx d =
      ((Sequenced d × AttachmentsHoused d) × (find (λ x. x.id == a.id) d.attachments ≡ some a))
      × (a.thread_id ≡ ctx.thread.id)

  load_owner-Triple :
      (actor : Actor) (a : Attachment) (ctx : ThreadContext) (now : Time) (o : Option Uuid)
      → a.comment_id ≡ o
      → Triple
          (Known a ctx)
          (load_owner env s actor ctx now o)
          (λ item d. Told ctx.thread.id item d)
  unfolding load_owner get_comment list_by_comment
  load_owner-Triple actor a ctx now none named = Triple-pure _ _ (λ d h. (h.0.0.0, tt))
  load_owner-Triple actor a ctx now (some id) named = Triple-attempt-reads env _ _ _ λ found.
      Triple-bind-lift _ _ _ λ item usable. Triple-guard _ _ _ _ λ allowed.
        Triple-bind _ _ (λ l d. Told ctx.thread.id (some item) d)
          (Triple-reads env _ _ λ d l h e. (
            h.0.0.0.0,
            bound-Owned a id ctx.thread.id _ d item h.0.0.0.0 h.0.0.0.1 h.0.0.1 named h.0.1
                (usable-eq-some env s found _ item usable h.1),
          ))
          λ attachments. Triple-guard _ _ _ _ λ left. Triple-pure _ _ (λ d h. h)

  tell_owner-Triple :
      (actor : Actor) (thread : Thread) (now : Time) (o : Option Comment)
      → Triple (Told thread.id o) (tell_owner env s actor thread now o) (λ u d. Sequenced d)
  unfolding tell_owner list_by_comment
  tell_owner-Triple actor thread now none = Triple-pure _ _ (λ d h. h.0)
  tell_owner-Triple actor thread now (some c) =
      Triple-bind _ _ _ (next_sequence-Triple env c.id thread.id) λ q.
        Triple-bind _ _ _ (advance_sequence-Triple env c.id thread.id q now) λ changed.
          Triple-bind _ _ (λ l d. Sequenced d) (Triple-reads env _ _ (λ d l p e. p))
            λ rest. add_outbox-Triple Sequenced Sequenced-blind env _ _ _ _ _

  remove_attachment-Triple :
      (actor : Actor) (a : Attachment)
      → Triple
          (λ d.
            (Sequenced d × AttachmentsHoused d) × (find (λ x. x.id == a.id) d.attachments ≡ some a))
          (remove_attachment env s actor a)
          (λ r d. Sequenced d)
  unfolding remove_attachment update_status
  remove_attachment-Triple actor a =
      Triple-bind _ _ (Known a)
        (Triple-weaken _ _
          (λ ctx d h. (
            h.0,
            sym (
                (==_iff ctx.thread.id a.thread_id).0
                  (find-eq-some _ d.threads ctx.thread h.1.found)),
          ))
          (load_thread_context-Triple env s quiet _ actor a.thread_id _))
        λ ctx. Triple-bind _ _ _ (Triple-clock env) λ now.
          Triple-bind _ _ _ (load_owner-Triple actor a ctx now a.comment_id refl) λ item.
            Triple-bind _ _ (λ u d. Told ctx.thread.id item d)
              (Triple-keeps env _ λ now' d h.
                update_attachments-Keeps (Told ctx.thread.id item) (Told-blind ctx.thread.id item) _
                  _ _ d h)
              λ u.
                Triple-bind _ _ _ (tell_owner-Triple actor ctx.thread now item)
                  λ u'. Triple-pure _ _ (λ d p. p)

  -- Where the authorizer changes nothing, the context carries no transaction and a bound attachment
  -- stands in the thread of its comment, DeleteAttachment keeps the order of the changes, whatever
  -- its outcome.
  pub delete_attachment-Sequenced :
      (actor : Actor) (id : Uuid) (w : World)
      → w.in_tx ≡ false
      → Sequenced w.db
      → AttachmentsHoused w.db
      → Sequenced (delete_attachment env s actor id w).1.db
  unfolding delete_attachment get_attachment
  delete_attachment-Sequenced actor id w out h housed = checked-Keeps Sequenced _ _ w h λ u valid.
      within_transaction-Leads env (λ d. Sequenced d × AttachmentsHoused d) Sequenced _ (λ d p. p.0)
        (Triple-bind _ _
          (λ a d.
            (Sequenced d × AttachmentsHoused d) × (find (λ x. x.id == a.id) d.attachments ≡ some a))
          (Triple-or_missing _ _ _
            (Triple-reads env _ _ λ d a p e. (p, find-again id d a (ground arith))))
          λ a. Triple-guard _ _ _ _ λ own.
            Triple-if _ (is_deleted_attachment a.status) _ _ (λ _. Triple-pure _ _ (λ d p. p.0.0))
              (λ _. remove_attachment-Triple actor a))
        w out (h, housed)
