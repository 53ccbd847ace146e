-- ===== src/Usecase/Admin/Payloads.antt =====
-- The payloads of `addModerationOutbox` beside those of `addOutbox`.
use ms_go_comment.Base.{
  Bool-cases, List, Text, codes, inl, inr, refl, subst, text_eq, text_eq_iff, ◌≡◌,
}
use ms_go_comment.Domain.Attachment.{Attachment}
use ms_go_comment.Domain.Comment.{Comment}
use ms_go_comment.Domain.Common.{Time, Uuid}
use ms_go_comment.Domain.Json.{Fields, Json, end, member, null, obj, without}
use ms_go_comment.Domain.Outbox.{EventSubject, OutboxEvent}
use ms_go_comment.Store.Monad.{Env}
use ms_go_comment.Usecase.Admin.Moderation.{moderation_event}
use ms_go_comment.Usecase.Discussion.Emit.{comment_event}

abbrev pub stripped : Fields → Fields
stripped fs = without (codes "attachments") (without (codes "links") (without (codes "body") fs))

-- The members of a payload that is an object.
abbrev pub members_of : Json → Fields
members_of (obj fs) = fs
members_of _ = end

-- An event but for its payload.
abbrev pub envelope_of : OutboxEvent → OutboxEvent
envelope_of e = record e { payload = null }

-- The payload of the moderation event of a hidden comment is that of its lifecycle event without
-- body, links and attachments, and that of a restored comment has for every key what its lifecycle
-- event has; whatever the subject, both events agree in everything but the payload.
pub moderation_event-stripped :
    (env : Env) (item : Comment) (attachments : List Attachment) (actor id : Uuid) (now : Time)
    → ((moderation_event env item attachments EventSubject.comment_hidden actor id now).payload
        ≡ obj (
            stripped (
              members_of
                (comment_event item attachments EventSubject.comment_hidden actor id now).payload)))
      × ((k : Text)
          → member k (
              members_of
                (moderation_event env item attachments EventSubject.comment_restored actor id
                  now).payload)
            ≡ member k (
                members_of
                  (comment_event item attachments EventSubject.comment_restored actor id
                    now).payload))
      × ((subject : EventSubject)
          → envelope_of (moderation_event env item attachments subject actor id now)
            ≡ envelope_of (comment_event item attachments subject actor id now))
unfolding without member
moderation_event-stripped env item attachments actor id now = (
  refl,
  λ k. elim (Bool-cases (text_eq (codes "direct_replies_count") k)) [
    | inl e ↦
        subst
          (λ t.
            member t (
              members_of
                (moderation_event env item attachments EventSubject.comment_restored actor id
                  now).payload)
            ≡ member t (
                members_of
                  (comment_event item attachments EventSubject.comment_restored actor id
                    now).payload))
          ((text_eq_iff (codes "direct_replies_count") k).0 e) refl
    | inr e ↦ rw e refl
  ],
  λ subject. refl,
)
