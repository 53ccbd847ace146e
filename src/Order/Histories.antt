-- ===== src/Order/Histories.antt =====
-- Histories of the tables: the operations of internal/usecase one after another.
use ms_go_comment.Base.{List, [], false, ℤ, ◌≡◌}
use ms_go_comment.Domain.Actor.{Actor}
use ms_go_comment.Domain.Attachment.{Attachment}
use ms_go_comment.Domain.Comment.{CommentStatus}
use ms_go_comment.Domain.Common.{Time, Uuid}
use ms_go_comment.Domain.Grant.{AccessGrant}
use ms_go_comment.Domain.Outbox.{EventSubject, OutboxEvent}
use ms_go_comment.Domain.Space.{Space}
use ms_go_comment.Domain.Thread.{Thread}
use ms_go_comment.Domain.Ticket.{RealtimeTicket}
use ms_go_comment.Order.{Sequenced}
use ms_go_comment.Order.Administration.{moderate_comment-Sequenced, update_thread_as-Sequenced}
use ms_go_comment.Order.Creation.{create_comment-Sequenced}
use ms_go_comment.Order.Files.{AttachmentsHoused}
use ms_go_comment.Order.Files.Removal.{delete_attachment-Sequenced}
use ms_go_comment.Order.Files.Work.{process_attachment_work-Safe}
use ms_go_comment.Order.Opening.{ensure_thread-Sequenced}
use ms_go_comment.Order.Steps.{delete_comment-Sequenced, update_comment-Sequenced}
use ms_go_comment.Store.Database.{Database}
use ms_go_comment.Store.Monad.{Env, World}
use ms_go_comment.Store.Threads.{ensure_thread}
use ms_go_comment.Usecase.Admin.{UpdateThreadInput}
use ms_go_comment.Usecase.Admin.Moderation.{moderate_comment}
use ms_go_comment.Usecase.Admin.Threads.{update_thread_as}
use ms_go_comment.Usecase.Discussion.{
  CreateCommentInput, DeleteCommentInput, Settings, UpdateCommentInput,
}
use ms_go_comment.Usecase.Discussion.Create.{create_comment}
use ms_go_comment.Usecase.Discussion.Edit.{delete_comment, update_comment}
use ms_go_comment.Usecase.Discussion.Guards.{IsQuiet}
use ms_go_comment.Usecase.Files.Lifecycle.{delete_attachment}
use ms_go_comment.Usecase.Files.Work.{process_attachment_work}

pub data Step : Database → Database → Type 0 where
  ensured : (item : Thread) (now : Time) (d : Database) → Step d (ensure_thread item now d).1
  created :
      (env : Env) (s : Settings)
      → IsQuiet s
      → (actor : Actor) (input : CreateCommentInput) (w : World) → w.in_tx ≡ false
      → Step w.db (create_comment env s actor input w).1.db
  changed :
      (env : Env) (s : Settings)
      → IsQuiet s
      → (actor : Actor) (input : UpdateCommentInput) (w : World) → w.in_tx ≡ false
      → Step w.db (update_comment env s actor input w).1.db
  removed :
      (env : Env) (s : Settings)
      → IsQuiet s
      → (actor : Actor) (input : DeleteCommentInput) (w : World) → w.in_tx ≡ false
      → Step w.db (delete_comment env s actor input w).1.db
  detached :
      (env : Env) (s : Settings)
      → IsQuiet s
      → (actor : Actor) (id : Uuid) (w : World) → w.in_tx ≡ false
      → AttachmentsHoused w.db
      → Step w.db (delete_attachment env s actor id w).1.db
  worked :
      (env : Env) (s : Settings) (limit : ℤ) (w : World)
      → w.in_tx ≡ false
      → Step w.db (process_attachment_work env s limit w).1.db
  judged :
      (env : Env) (actor : Actor) (id : Uuid) (target : CommentStatus) (subject : EventSubject)
      (w : World)
      → w.in_tx ≡ false
      → Step w.db (moderate_comment env actor id target subject w).1.db
  governed :
      (env : Env) (actor : Actor) (input : UpdateThreadInput) (w : World)
      → w.in_tx ≡ false
      → Step w.db (update_thread_as env actor input w).1.db
  -- Whatever leaves threads and comments alone.
  elsewhere :
      (d : Database) (spaces : List Space) (attachments : List Attachment)
      (outbox : List OutboxEvent) (grants : List AccessGrant) (tickets : List RealtimeTicket)
      → Step d (record d {
        spaces = spaces;
        attachments = attachments;
        outbox = outbox;
        grants = grants;
        tickets = tickets;
      })

abbrev pub no_rows : Database
no_rows = record {
  spaces = [];
  threads = [];
  comments = [];
  attachments = [];
  outbox = [];
  grants = [];
  tickets = [];
}

pub data Reachable : Database → Type 0 where
  empty : Reachable no_rows
  then_step : {d d' : Database} → Reachable d → Step d d' → Reachable d'

-- One step.
Step-Sequenced : {d d' : Database} → Step d d' → Sequenced d → Sequenced d'
Step-Sequenced (ensured item now d) h = ensure_thread-Sequenced item now d h
Step-Sequenced (created env s quiet actor input w out) h =
    create_comment-Sequenced env s quiet actor input w out h
Step-Sequenced (changed env s quiet actor input w out) h =
    update_comment-Sequenced env s quiet actor input w out h
Step-Sequenced (removed env s quiet actor input w out) h =
    delete_comment-Sequenced env s quiet actor input w out h
Step-Sequenced (detached env s quiet actor id w out housed) h =
    delete_attachment-Sequenced env s quiet actor id w out h housed
Step-Sequenced (worked env s limit w out) h =
    ((process_attachment_work-Safe env s limit).at w out h).0
Step-Sequenced (judged env actor id target subject w out) h =
    moderate_comment-Sequenced env actor id target subject w out h
Step-Sequenced (governed env actor input w out) h =
    update_thread_as-Sequenced env actor input w out h
Step-Sequenced (elsewhere d spaces attachments outbox grants tickets) h = record {
  keyed = h.keyed;
  apart = h.apart;
  bounded = h.bounded;
  housed = h.housed;
}

-- In every state that a sequence of operations leads to from empty tables, each with an authorizer
-- that changes nothing and outside a transaction (a thread ensured, a comment created, changed,
-- deleted or moderated, an attachment deleted while bound attachments stand in the threads of their
-- comments, a round of the worker, a thread updated, or any change outside of threads and
-- comments), whatever fails in them, thread identifiers are distinct, comments differ in identifier
-- and, within a thread, in sequence number, no number exceeds the last one of its thread, and every
-- comment has its thread.
pub Reachable-Sequenced : {d : Database} → Reachable d → Sequenced d
Reachable-Sequenced empty = record { keyed = tt; apart = tt; bounded = tt; housed = tt }
Reachable-Sequenced (then_step r step) = Step-Sequenced step (Reachable-Sequenced r)
