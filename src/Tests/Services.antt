-- ===== src/Tests/Services.antt =====
-- The attachment, outbox, grant and ticket services on the sample.
use ms_go_comment.Base.{
  All, List, Text, [], any, arith, codes, equal_fold, err, false, fold_rune, forbidden,
  if◌then◌else◌, is_blank, is_space, length, ltb, mem, min, none, not, not_found, ok, pos, refl,
  to_upper, trim_right, trim_space, true, upper_rune, ◌&&◌, ◌*◌, ◌+◌, ◌<ℤ◌, ◌↔◌, ◌∷◌, ◌≡◌,
}
use ms_go_comment.Domain.Actor.{Actor, validate}
use ms_go_comment.Domain.Comment.{Comment, CommentStatus}
use ms_go_comment.Domain.Common.{Uuid, minute}
use ms_go_comment.Domain.Grant.{
  full_access_permissions, includes, permission_upload, permission_valid, permission_write,
}
use ms_go_comment.Domain.Json.{member, obj}
use ms_go_comment.Domain.Outbox.{EventSubject, OutboxEvent}
use ms_go_comment.Domain.Thread.{ThreadStatus}
use ms_go_comment.Order.{Sequenced}
use ms_go_comment.Order.Administration.{moderate_comment-Sequenced}
use ms_go_comment.Order.Feed.{PageIsFaithful, list_comment_changes-IsFaithful}
use ms_go_comment.Order.Files.Removal.{delete_attachment-Sequenced}
use ms_go_comment.Order.Files.Work.{process_attachment_work-Safe}
use ms_go_comment.Order.Histories.{
  Reachable-Sequenced, created, elsewhere, empty, ensured, no_rows, then_step,
}
use ms_go_comment.Store.Comments.{list_comment_changes}
use ms_go_comment.Store.Database.{Database}
use ms_go_comment.Store.Monad.{Answer, Env, World, done}
use ms_go_comment.Store.Outbox.{claim_pending, has_id}
use ms_go_comment.Store.Safety.{Safe}
use ms_go_comment.Store.Threads.{ensure_thread}
use ms_go_comment.Store.Tokens.{consume_ticket}
use ms_go_comment.Store.Triples.{Triple}
use ms_go_comment.Tests.Samples.{
  author, calm, event, first_comment, image_policy, open_space, open_thread, picture, plain,
  plain-IsQuiet, queued, reply, start, stored, stored-AttachmentsHoused, stored-Sequenced,
}
use ms_go_comment.Usecase.Admin.{require_admin, require_admin_read}
use ms_go_comment.Usecase.Admin.Moderation.{moderate_comment, moderation_event}
use ms_go_comment.Usecase.Admin.Payloads.{
  envelope_of, members_of, moderation_event-stripped, stripped,
}
use ms_go_comment.Usecase.Discussion.{CreateCommentInput}
use ms_go_comment.Usecase.Discussion.Create.{create_comment}
use ms_go_comment.Usecase.Discussion.Emit.{comment_event}
use ms_go_comment.Usecase.Dispatch.{DispatchResult, deliver_all, outbox_retry_delay}
use ms_go_comment.Usecase.Dispatch.Accounts.{Accounted, deliver_all-Accounted}
use ms_go_comment.Usecase.Dispatch.Leases.{claim_pending-exclusive}
use ms_go_comment.Usecase.Dispatch.Marks.{recorded, unsent}
use ms_go_comment.Usecase.Files.{UploadAttachmentInput, retry_delay}
use ms_go_comment.Usecase.Files.Delays.{backoff, retry_delay-backoff}
use ms_go_comment.Usecase.Files.Lifecycle.{delete_attachment}
use ms_go_comment.Usecase.Files.Transfer.{upload_attachment}
use ms_go_comment.Usecase.Files.Uploads.{Uploaded, upload_attachment-Uploaded}
use ms_go_comment.Usecase.Files.Work.{process_attachment_work}
use ms_go_comment.Usecase.Tickets.{minted_permissions}
use ms_go_comment.Usecase.Tickets.Bounded.{minted_permissions-bounded}
use ms_go_comment.Usecase.Tickets.Once.{consume_ticket-once}

process_attachment_work-Safe_example : Safe Sequenced (process_attachment_work calm plain (pos 10))
process_attachment_work-Safe_example = process_attachment_work-Safe calm plain (pos 10)

delete_attachment-Sequenced_example : Sequenced (delete_attachment calm plain author 31 start).1.db
delete_attachment-Sequenced_example =
    delete_attachment-Sequenced calm plain plain-IsQuiet author 31 start refl stored-Sequenced
      stored-AttachmentsHoused

retry_delay-backoff_example :
    (retry_delay (pos 9) ≡ min (backoff 8) (5 * minute))
    × (outbox_retry_delay (pos 9) ≡ min (backoff 8) (5 * minute))
retry_delay-backoff_example = retry_delay-backoff (pos 9)

list_comment_changes-IsFaithful_example :
    (p : List Comment) × (list_comment_changes 3 (pos 0) (pos 10) 100 stored ≡ (ok p, stored))
    × PageIsFaithful 3 (pos 0) stored p
list_comment_changes-IsFaithful_example =
    list_comment_changes-IsFaithful 3 (pos 0) (pos 10) 100 stored stored-Sequenced

abbrev nothing_yet : DispatchResult
nothing_yet = record { published = 0; failed = 0; errors = [] }

-- The first publication is accepted, and the second refused.
abbrev shaky : Env
shaky = record calm { publish_at = λ n. if ltb n 3 then done tt else Answer.failed [] }

abbrev two_events : List OutboxEvent
two_events = event ∷ record event { id = 52 } ∷ []

abbrev busy : World
busy = record start { db = record stored { outbox = two_events } }

-- The first is published, and the second not.
first_recorded : recorded shaky 0 two_events ≡ 51 ∷ []
first_recorded = refl

deliver_all-Accounted_example :
    ((r' : DispatchResult) × ((deliver_all shaky two_events nothing_yet busy).0 ≡ ok r')
      × Accounted 1 1 nothing_yet r'
      × (1 + 1 ≡ length two_events))
    × ((id : Uuid)
        → any (unsent id) (deliver_all shaky two_events nothing_yet busy).1.db.outbox
          ≡ (any (unsent id) two_events && not (mem id (51 ∷ []))))
deliver_all-Accounted_example = deliver_all-Accounted shaky two_events nothing_yet busy

claim_pending-exclusive_example :
    (first : List OutboxEvent) × (others : List OutboxEvent) × ((claim_pending 100 130
        (pos 5)
        100
        queued).0
      ≡ ok first)
    × ((claim_pending 110 140 (pos 5) 110 (claim_pending 100 130 (pos 5) 100 queued).1).0
        ≡ ok others)
    × All (λ o. has_id first o ≡ false) others
claim_pending-exclusive_example =
    claim_pending-exclusive 100 110 130 140 100 110 (pos 5) (pos 5) queued (omega arith)

consume_ticket-once_example :
    (consume_ticket (1 ∷ []) 110 110 (consume_ticket (1 ∷ []) 100 100 stored).1).0 ≡ err not_found
consume_ticket-once_example = consume_ticket-once (1 ∷ []) 100 110 100 110 stored (omega arith)

minted_permissions-bounded_example :
    (permission_valid (minted_permissions ThreadStatus.opened image_policy full_access_permissions)
      ≡ true)
    × ((includes
            (minted_permissions ThreadStatus.opened image_policy full_access_permissions)
            permission_write
          ≡ true)
        ↔ ((includes full_access_permissions permission_write ≡ true)
            × (ThreadStatus.opened ≡ ThreadStatus.opened)))
    × ((includes
            (minted_permissions ThreadStatus.opened image_policy full_access_permissions)
            permission_upload
          ≡ true)
        ↔ ((includes full_access_permissions permission_write ≡ true)
            × (ThreadStatus.opened ≡ ThreadStatus.opened)
            × (includes full_access_permissions permission_upload ≡ true)
            × (image_policy.allow_images ≡ true)
            × (pos 0 <ℤ image_policy.max_attachments)))
minted_permissions-bounded_example =
    minted_permissions-bounded ThreadStatus.opened image_policy full_access_permissions

abbrev moderator : Actor
moderator = record { user_id = 9; role = codes "moderator" }

abbrev admin : Actor
admin = record { user_id = 9; role = codes "Admin" }

moderate_comment-Sequenced_example :
    Sequenced
      (moderate_comment calm moderator 11 CommentStatus.hidden EventSubject.comment_hidden
        start).1.db
moderate_comment-Sequenced_example =
    moderate_comment-Sequenced calm moderator 11 CommentStatus.hidden EventSubject.comment_hidden
      start refl stored-Sequenced

moderation_event-stripped_example :
    ((moderation_event calm first_comment
        (picture ∷ [])
        EventSubject.comment_hidden
        9
        51
        100).payload
      ≡ obj (
          stripped (
            members_of
              (comment_event first_comment
                (picture ∷ [])
                EventSubject.comment_hidden
                9
                51
                100).payload)))
    × ((k : Text)
        → member k (
            members_of
              (moderation_event calm first_comment
                (picture ∷ [])
                EventSubject.comment_restored
                9
                51
                100).payload)
          ≡ member k (
              members_of
                (comment_event first_comment
                  (picture ∷ [])
                  EventSubject.comment_restored
                  9
                  51
                  100).payload))
    × ((subject : EventSubject)
        → envelope_of (moderation_event calm first_comment (picture ∷ []) subject 9 51 100)
          ≡ envelope_of (comment_event first_comment (picture ∷ []) subject 9 51 100))
moderation_event-stripped_example =
    moderation_event-stripped calm first_comment (picture ∷ []) 9 51 100

-- A role that is ADMIN in capitals only, with the dotless i.
abbrev odd_admin : Actor
odd_admin = record { user_id = 9; role = b'a' ∷ b'd' ∷ b'm' ∷ 0x131 ∷ b'n' ∷ [] }

odd_admin_reads : require_admin_read odd_admin ≡ ok tt
unfolding require_admin_read validate to_upper upper_rune trim_space trim_right is_space is_blank
    equal_fold fold_rune
odd_admin_reads = refl

odd_admin_writes_not : require_admin odd_admin ≡ err forbidden
unfolding require_admin require_admin_read validate to_upper upper_rune trim_space trim_right
    is_space is_blank equal_fold fold_rune
odd_admin_writes_not = refl

-- A space, a thread in it, and a first comment.
abbrev spaced : Database
spaced = record no_rows { spaces = open_space ∷ [] }

abbrev begun : World
begun = record start { db = (ensure_thread open_thread 100 spaced).1 }

abbrev question : CreateCommentInput
question = record reply { parent_id = none; attachment_ids = [] }

Reachable-Sequenced_example : Sequenced (create_comment calm plain author question begun).1.db
Reachable-Sequenced_example = Reachable-Sequenced (
    then_step
      (then_step (then_step empty (elsewhere no_rows (open_space ∷ []) [] [] [] []))
        (ensured open_thread 100 spaced))
      (created calm plain plain-IsQuiet author question begun refl))

abbrev sent : UploadAttachmentInput
sent = record { thread_id = 3; filename = codes "a.png"; bytes = 1 ∷ 2 ∷ 3 ∷ [] }

upload_attachment-Uploaded_example :
    Triple
      (λ d. Unit {0})
      (upload_attachment calm plain author sent)
      (λ a d. Uploaded plain author 3 a d)
upload_attachment-Uploaded_example = upload_attachment-Uploaded calm plain plain-IsQuiet author sent
