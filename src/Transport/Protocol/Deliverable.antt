-- ===== src/Transport/Protocol/Deliverable.antt =====
-- The frames of protocol.go against the events that the services write.
use ms_go_comment.Base.{
  Bool, List, Text, arith, codes, false, if◌then◌else◌, ok, pos, refl, some, true, ℤ, ◌≡◌, ◌≢◌,
  ◌≤ℤ◌,
}
use ms_go_comment.Domain.Actor.{Actor}
use ms_go_comment.Domain.Attachment.{Attachment}
use ms_go_comment.Domain.Comment.{Comment}
use ms_go_comment.Domain.Common.{Time, Uuid}
use ms_go_comment.Domain.Json.{Fields, field, int, member, obj, time, uuid}
use ms_go_comment.Domain.Outbox.{EventSubject, OutboxEvent, subject_valid}
use ms_go_comment.Domain.Space.{Policy}
use ms_go_comment.Domain.Thread.{Thread}
use ms_go_comment.Store.Monad.{Env}
use ms_go_comment.Transport.Protocol.{
  envelope, ephemeral_thread, lifecycle_envelope, max_int64, raw_sequence, raw_time, raw_uuid,
  typing_frame, websocket_type,
}
use ms_go_comment.Usecase.Admin.Moderation.{moderation_event}
use ms_go_comment.Usecase.Admin.Threads.{thread_event}
use ms_go_comment.Usecase.Discussion.Emit.{comment_event}

-- The numbers and identifiers of an event that a frame carries.
pub record Stamped (thread_id event_id : Uuid) (sequence : ℤ) (now : Time) : Type 0 where
  pub thread : thread_id ≢ 0
  pub event : event_id ≢ 0
  pub counted : pos 1 ≤ℤ sequence
  pub bounded : sequence ≤ℤ max_int64
  pub dated : now ≢ 0

-- The envelope of a payload is made, for its thread and with its numbers and its other members.
abbrev pub Framed : EventSubject → Fields → Uuid → Uuid → ℤ → Time → Type 0
Framed subject fs thread_id event_id sequence now =
    (kind : Text) × (websocket_type subject ≡ some kind)
    × (lifecycle_envelope subject (obj fs)
        ≡ ok (thread_id, envelope kind thread_id event_id sequence now fs))

subject_kind :
    (subject : EventSubject)
    → subject_valid subject ≡ true
    → (kind : Text) × (websocket_type subject ≡ some kind)
unfolding websocket_type
subject_kind EventSubject.comment_created h = (_, refl)
subject_kind EventSubject.comment_updated h = (_, refl)
subject_kind EventSubject.comment_deleted h = (_, refl)
subject_kind EventSubject.comment_hidden h = (_, refl)
subject_kind EventSubject.comment_restored h = (_, refl)
subject_kind EventSubject.attachment_ready h = (_, refl)
subject_kind EventSubject.attachment_failed h = (_, refl)
subject_kind EventSubject.thread_updated h = (_, refl)
subject_kind (EventSubject.other t) h = cc

-- The members that every event starts with.
abbrev head_members : Uuid → Uuid → ℤ → Time → Fields → Fields
head_members thread_id event_id sequence now rest = field (codes "schema_version") (int (pos 1)) (
    field (codes "event_id") (uuid event_id) (
      field (codes "occurred_at") (time now) (
        field (codes "thread_id") (uuid thread_id) (field (codes "sequence") (int sequence) rest))))

raw_uuid-eq : (id : Uuid) → id ≢ 0 → raw_uuid (some (uuid id)) ≡ ok id
unfolding raw_uuid
raw_uuid-eq id h = ground arith

raw_sequence-eq : (n : ℤ) → pos 1 ≤ℤ n → n ≤ℤ max_int64 → raw_sequence (some (int n)) ≡ ok n
unfolding raw_sequence
raw_sequence-eq n h k = ground arith

raw_time-eq : (t : Time) → t ≢ 0 → raw_time (some (time t)) ≡ ok t
unfolding raw_time
raw_time-eq t h = ground arith

head_members-Framed :
    (subject : EventSubject) (thread_id event_id : Uuid) (sequence : ℤ) (now : Time) (rest : Fields)
    → subject_valid subject ≡ true
    → Stamped thread_id event_id sequence now
    → Framed subject
        (head_members thread_id event_id sequence now rest)
        thread_id
        event_id
        sequence
        now
unfolding lifecycle_envelope member
head_members-Framed subject thread_id event_id sequence now rest valid s =
    let (kind, e) = subject_kind subject valid in
    (
      kind,
      e,
      rw
          (
            e,
            raw_uuid-eq thread_id s.thread,
            raw_uuid-eq event_id s.event,
            raw_sequence-eq sequence s.counted s.bounded,
            raw_time-eq now s.dated,
          )
          refl,
    )

-- The hub makes the frame of an event, with the event's identifier and time.
pub record Accepted (e : OutboxEvent) (thread_id : Uuid) (sequence : ℤ) : Type 0 where
  pub members : Fields
  pub kind : Text
  pub document : e.payload ≡ obj members
  pub known : websocket_type e.subject ≡ some kind
  pub framed :
      lifecycle_envelope e.subject e.payload
      ≡ ok (thread_id, envelope kind thread_id e.id sequence e.created_at members)

module _ (env : Env) (actor : Actor) (event_id : Uuid) (now : Time) (subject : EventSubject)
    (valid : subject_valid subject ≡ true) where
  -- The events that the services write of a comment, of its moderation and of an update of a
  -- thread, with any of the subjects of the source, are ones that the hub makes a frame of, for the
  -- clients of the thread, with the identifier, the time and the sequence number of the event; so
  -- long as the identifiers and the time are set and the sequence number is at least 1 and fits 64
  -- bits.
  pub events-Accepted :
      (item : Comment) (attachments : List Attachment) (thread : Thread) (policy : Policy)
      (sequence : ℤ)
      → Stamped item.thread_id event_id item.sequence now
      → Stamped thread.id event_id sequence now
      → Accepted
          (comment_event item attachments subject actor.user_id event_id now)
          item.thread_id
          item.sequence
        × Accepted
            (moderation_event env item attachments subject actor.user_id event_id now)
            item.thread_id
            item.sequence
        × Accepted (thread_event env actor thread policy sequence event_id now) thread.id sequence
  events-Accepted item attachments thread policy sequence s t =
      let (kind, known, framed) =
        head_members-Framed subject item.thread_id event_id item.sequence now _ valid s in
      let (kind', known', framed') =
        head_members-Framed subject item.thread_id event_id item.sequence now _ valid s in
      let (kind'', known'', framed'') =
        head_members-Framed EventSubject.thread_updated thread.id event_id sequence now _ refl t in
      (
        record { members = _; kind = kind; document = refl; known = known; framed = framed },
        record { members = _; kind = kind'; document = refl; known = known'; framed = framed' },
        record { members = _; kind = kind''; document = refl; known = known''; framed = framed'' },
      )

-- A typing frame that one instance publishes is one that every hub passes on, to its thread.
pub ephemeral_thread-typing_frame :
    (started : Bool) (thread_id user_id event_id : Uuid) (now : Time)
    → thread_id ≢ 0
    → user_id ≢ 0
    → event_id ≢ 0
    → now ≢ 0
    → ephemeral_thread (
        typing_frame
          (if started then codes "typing.started" else codes "typing.stopped")
          thread_id
          user_id
          event_id
          now)
      ≡ ok thread_id
unfolding ephemeral_thread typing_frame
ephemeral_thread-typing_frame true thread_id user_id event_id now t u e n = ground arith
ephemeral_thread-typing_frame false thread_id user_id event_id now t u e n = ground arith
