-- ===== src/Transport/Protocol.antt =====
-- internal/transport/websocket/protocol.go: the frames of the protocol, as the documents that they
-- encode. The order in which an encoder writes the members of an object is not represented, and a
-- text that the libraries read as an identifier or as a time is one of `Json.uuid` and `Json.time`.
pub mod Deliverable
use ms_go_comment.Base.{
  Err, Option, Result, Text, [], codes, err, fail_if, if◌then◌else◌, ne_ℤ, none, not, ok, pos, some,
  text_eq, unavailable, ℤ, ◌&&◌, ◌==◌, ◌>>=◌, ◌>>◌, ◌||◌,
}
use ms_go_comment.Domain.Common.{Time, Uuid}
use ms_go_comment.Domain.Json.{
  Fields, Json, end, field, int, member, null, obj, text, time, uuid, without,
}
use ms_go_comment.Domain.Outbox.{EventSubject}
use ms_go_comment.Domain.Space.{outside}
use ms_go_comment.Usecase.Tickets.{current_sequence}

abbrev pub protocol_version : ℤ
protocol_version = pos 1

-- `websocketTypes`
unfoldable pub websocket_type : EventSubject → Option Text
websocket_type EventSubject.comment_created = some (codes "comment.created")
websocket_type EventSubject.comment_updated = some (codes "comment.updated")
websocket_type EventSubject.comment_deleted = some (codes "comment.deleted")
websocket_type EventSubject.comment_hidden = some (codes "comment.hidden")
websocket_type EventSubject.comment_restored = some (codes "comment.restored")
websocket_type EventSubject.attachment_ready = some (codes "attachment.ready")
websocket_type EventSubject.attachment_failed = some (codes "attachment.failed")
websocket_type EventSubject.thread_updated = some (codes "thread.updated")
websocket_type (EventSubject.other t) = none

abbrev pub or_fail {ℓ} : {A : Type ℓ} → Option A → Err → Result A
or_fail none e = err e
or_fail (some a) e = ok a

-- `json.Unmarshal` into a map; the document `null` gives a map without members.
abbrev pub object_members : Json → Result Fields
object_members (obj fs) = ok fs
object_members null = ok end
object_members _ = err unavailable

-- `rawUUID`
unfoldable pub raw_uuid : Option Json → Result Uuid
raw_uuid (some (uuid id)) = if id == 0 then err unavailable else ok id
raw_uuid _ = err unavailable

abbrev pub max_int64 : ℤ
max_int64 = pos 9_223_372_036_854_775_807

-- A member read into an `int64`, and at least 1.
unfoldable pub raw_sequence : Option Json → Result ℤ
raw_sequence (some (int n)) = if outside n (pos 1) max_int64 then err unavailable else ok n
raw_sequence _ = err unavailable

-- A member read into a time, and not the zero time.
unfoldable pub raw_time : Option Json → Result Time
raw_time (some (time t)) = if t == 0 then err unavailable else ok t
raw_time _ = err unavailable

-- The members that the envelope takes out of the data.
unfoldable pub data_members : Fields → Fields
unfolding without
data_members fs = without (codes "occurred_at") (
    without (codes "sequence") (
      without (codes "thread_id")
        (without (codes "event_id") (without (codes "schema_version") fs))))

unfoldable pub envelope : Text → Uuid → Uuid → ℤ → Time → Fields → Json
unfolding data_members
envelope kind thread_id event_id sequence occurred_at fs = obj (
    field (codes "v") (int protocol_version) (
      field (codes "type") (text kind) (
        field (codes "thread_id") (uuid thread_id) (
          field (codes "event_id") (uuid event_id) (
            field (codes "sequence") (int sequence) (
              field (codes "occurred_at") (time occurred_at)
                (field (codes "data") (obj (data_members fs)) end)))))))

-- `lifecycleEnvelope`
unfoldable pub lifecycle_envelope : EventSubject → Json → Result (Uuid × Json)
unfolding websocket_type raw_uuid raw_sequence raw_time member envelope
lifecycle_envelope subject payload = do
  kind ← or_fail (websocket_type subject) unavailable
  fs ← object_members payload
  thread_id ← raw_uuid (member (codes "thread_id") fs)
  event_id ← raw_uuid (member (codes "event_id") fs)
  sequence ← raw_sequence (member (codes "sequence") fs)
  occurred_at ← raw_time (member (codes "occurred_at") fs)
  ok (thread_id, envelope kind thread_id event_id sequence occurred_at fs)

-- `readyFrame`
unfoldable pub ready_frame : Uuid → ℤ → Time → Json
ready_frame thread_id current_sequence now = obj (
    field (codes "v") (int protocol_version) (
      field (codes "type") (text (codes "connection.ready")) (
        field (codes "thread_id") (uuid thread_id) (
          field (codes "current_sequence") (int current_sequence)
            (field (codes "occurred_at") (time now) end)))))

-- `resyncFrame`
unfoldable pub resync_frame : Uuid → ℤ → ℤ → Time → Json
resync_frame thread_id requested current now = obj (
    field (codes "v") (int protocol_version) (
      field (codes "type") (text (codes "resync_required")) (
        field (codes "thread_id") (uuid thread_id) (
          field (codes "last_sequence") (int requested) (
            field (codes "current_sequence") (int current)
              (field (codes "occurred_at") (time now) end))))))

-- `errorFrame`
unfoldable pub error_frame : Text → Text → Text → Json
error_frame request_id code message = obj (
    field (codes "v") (int protocol_version) (
      field (codes "type") (text (codes "error")) (
        field (codes "request_id") (text request_id) (
          field (codes "data")
            (obj (field (codes "error") (text code) (field (codes "message") (text message) end)))
            end))))

-- `pingFrame`
unfoldable pub ping_frame : Time → Json
ping_frame now = obj (
    field (codes "v") (int protocol_version)
      (field (codes "type") (text (codes "ping")) (field (codes "occurred_at") (time now) end)))

-- `typingFrame`
unfoldable pub typing_frame : Text → Uuid → Uuid → Uuid → Time → Json
typing_frame kind thread_id user_id event_id now = obj (
    field (codes "v") (int protocol_version) (
      field (codes "type") (text kind) (
        field (codes "event_id") (uuid event_id) (
          field (codes "thread_id") (uuid thread_id) (
            field (codes "occurred_at") (time now)
              (field (codes "data") (obj (field (codes "user_id") (uuid user_id) end)) end))))))

-- The document that `BroadcastEphemeral` of hub.go reads.
pub record EphemeralEvent : Type 0 where
  pub v : ℤ
  pub kind : Text
  pub event_id : Uuid
  pub thread_id : Uuid
  pub occurred_at : Time
  pub user_id : Uuid

-- A member that is missing or `null` leaves the zero value; one of another type is an error.
abbrev pub int_field : Option Json → Result ℤ
int_field none = ok (pos 0)
int_field (some null) = ok (pos 0)
int_field (some (int n)) = ok n
int_field (some _) = err unavailable

abbrev pub text_field : Option Json → Result Text
text_field none = ok []
text_field (some null) = ok []
text_field (some (text t)) = ok t
text_field (some _) = err unavailable

abbrev pub uuid_field : Option Json → Result Uuid
uuid_field none = ok 0
uuid_field (some null) = ok 0
uuid_field (some (uuid id)) = ok id
uuid_field (some _) = err unavailable

abbrev pub time_field : Option Json → Result Time
time_field none = ok 0
time_field (some null) = ok 0
time_field (some (time t)) = ok t
time_field (some _) = err unavailable

abbrev pub object_field : Option Json → Result Fields
object_field none = ok end
object_field (some j) = object_members j

unfoldable pub decode_ephemeral : Json → Result EphemeralEvent
unfolding member
decode_ephemeral payload = do
  fs ← object_members payload
  v ← int_field (member (codes "v") fs)
  kind ← text_field (member (codes "type") fs)
  event_id ← uuid_field (member (codes "event_id") fs)
  thread_id ← uuid_field (member (codes "thread_id") fs)
  occurred_at ← time_field (member (codes "occurred_at") fs)
  inner ← object_field (member (codes "data") fs)
  user_id ← uuid_field (member (codes "user_id") inner)
  ok (record {
    v = v;
    kind = kind;
    event_id = event_id;
    thread_id = thread_id;
    occurred_at = occurred_at;
    user_id = user_id;
  })

-- The test of `BroadcastEphemeral`: the thread of a document that it passes on.
unfoldable pub ephemeral_thread : Json → Result Uuid
unfolding decode_ephemeral
ephemeral_thread payload = do
  e ← decode_ephemeral payload
  fail_if
      (ne_ℤ e.v protocol_version
        || (not (text_eq e.kind (codes "typing.started"))
            && not (text_eq e.kind (codes "typing.stopped")))
        || e.event_id == 0
        || e.thread_id == 0
        || e.user_id == 0
        || e.occurred_at == 0)
      unavailable
  ok e.thread_id
