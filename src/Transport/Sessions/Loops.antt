-- ===== src/Transport/Sessions/Loops.antt =====
-- internal/transport/websocket/handler.go: the rounds of `readLoop` and of `writeLoop`.
use ms_go_comment.Base.{
  Bool, Option, Text, [], ap, arith, codes, false, if_cases, if◌then◌else◌, inl, inr, ne_ℤ, none,
  not, not-eq-false, ok, refl, some, sym, text_eq, true, ℕ, ℤ, ◌∙◌, ◌≡◌, ◌≢◌, ◌⊎◌,
}
use ms_go_comment.Domain.Common.{Time, Uuid}
use ms_go_comment.Domain.Grant.{includes, permission_write}
use ms_go_comment.Domain.Json.{Json, null}
use ms_go_comment.Transport.Hub.{Hub, enqueue, receive}
use ms_go_comment.Transport.Protocol.{
  ephemeral_thread, error_frame, ping_frame, protocol_version, typing_frame,
}
use ms_go_comment.Transport.Protocol.Deliverable.{ephemeral_thread-typing_frame}

-- What `ReadMessage` and the decoder bring: no text frame, a frame that is not one of the protocol,
-- with the request that it names, or a frame.
pub data Incoming : Type 0 where
  binary : Incoming
  undecoded : Text → Incoming
  decoded_frame : ℤ → Text → Text → Incoming

-- What `PublishTyping` answers.
pub data TypingPublisher : Type 0 where
  typing_absent typing_fails typing_works : TypingPublisher

abbrev pub works : TypingPublisher → Bool
works typing_works = true
works _ = false

abbrev pub typing_kind : Text → Option Text
typing_kind kind =
    if text_eq kind (codes "typing.start")
    then some (codes "typing.started")
    else if text_eq kind (codes "typing.stop")
    then some (codes "typing.stopped")
    else none

abbrev pub complain : ℕ → Text → Text → Text → Hub → Hub
complain p request code message h = enqueue p (error_frame request code message) h

abbrev pub delivery_failed : TypingPublisher → Text
delivery_failed typing_absent = codes "typing delivery is unavailable"
delivery_failed _ = codes "typing delivery failed"

-- A typing frame of a client: what is published, and the hub.
unfoldable pub handle_typing :
    ℕ → Text → Text → TypingPublisher → Uuid → Time → Hub → Option Json × Hub
unfolding typing_frame enqueue error_frame
handle_typing p request kind publisher event_id now h =
    let session = (h.clients p).session in
    if not (includes session.permissions permission_write)
    then (none, complain p request (codes "comment_forbidden") (codes "typing is not allowed") h)
    else if works publisher
    then (some (typing_frame kind session.thread_id session.user_id event_id now), h)
    else (none, complain p request (codes "realtime_unavailable") (delivery_failed publisher) h)

abbrev pub handle_kind :
    Option Text → Text → ℕ → Text → TypingPublisher → Uuid → Time → Hub → Option Json × Hub
handle_kind (some started) kind p request publisher event_id now h =
    handle_typing p request started publisher event_id now h
handle_kind none kind p request publisher event_id now h =
    if text_eq kind (codes "pong") then (none, h) else (
      none,
      complain p request (codes "unsupported_message") (codes "message type is not supported") h,
    )

-- One round of `readLoop` with a message that was read.
unfoldable pub read_step : ℕ → Incoming → TypingPublisher → Uuid → Time → Hub → Option Json × Hub
unfolding handle_typing
read_step p binary publisher event_id now h =
    (none, complain p [] (codes "invalid_frame") (codes "only JSON text frames are supported") h)
read_step p (undecoded request) publisher event_id now h =
    (none, complain p request (codes "invalid_frame") (codes "invalid protocol frame") h)
read_step p (decoded_frame v kind request) publisher event_id now h =
    if ne_ℤ v protocol_version
    then (none, complain p request (codes "invalid_frame") (codes "invalid protocol frame") h)
    else handle_kind (typing_kind kind) kind p request publisher event_id now h

-- What `writeLoop` waits for, once it has written the frames that it starts with.
pub data Waited : Type 0 where
  closed_event send_event ping_event : Waited

pub data Written : Type 0 where
  nothing close_message : Written
  text_message : Json → Written

abbrev pub written_of : Option Json → Written
written_of none = nothing
written_of (some payload) = text_message payload

-- One round of the loop of `writeLoop`.
unfoldable pub write_step : ℕ → Waited → Time → Hub → Written × Hub
unfolding receive ping_frame
write_step p closed_event now h = (if (h.clients p).done then close_message else nothing, h)
write_step p send_event now h = (written_of (receive p h).0, (receive p h).1)
write_step p ping_event now h = (text_message (ping_frame now), h)

typing_kind-cases :
    (kind started : Text)
    → typing_kind kind ≡ some started
    → (started ≡ codes "typing.started") ⊎ (started ≡ codes "typing.stopped")
typing_kind-cases kind started h = ground arith

-- What is known of a round that publishes.
abbrev pub Publishes : ℕ → Hub → Option Json × Hub → Type 0
Publishes p h r =
    (published : Json)
    → r.0 ≡ some published
    → (includes (h.clients p).session.permissions permission_write ≡ true)
      × (r.1 ≡ h)
      × (ephemeral_thread published ≡ ok (h.clients p).session.thread_id)

silent-Publishes : (p : ℕ) (h h' : Hub) → Publishes p h (none, h')
silent-Publishes p h h' published r = cc

module _ (p : ℕ) (publisher : TypingPublisher) (event_id : Uuid) (now : Time) (h : Hub)
    (thread_set : (h.clients p).session.thread_id ≢ 0)
    (user_set : (h.clients p).session.user_id ≢ 0) (event_set : event_id ≢ 0)
    (now_set : now ≢ 0) where
  accepted :
      (started : Text)
      → (started ≡ codes "typing.started") ⊎ (started ≡ codes "typing.stopped")
      → ephemeral_thread (
          typing_frame started
            (h.clients p).session.thread_id
            (h.clients p).session.user_id
            event_id
            now)
        ≡ ok (h.clients p).session.thread_id
  accepted started (inl e) =
      ap
        (λ k. ephemeral_thread (
          typing_frame k (h.clients p).session.thread_id (h.clients p).session.user_id event_id
            now))
        e
      ∙ ephemeral_thread-typing_frame true _ _ event_id now thread_set user_set event_set now_set
  accepted started (inr e) =
      ap
        (λ k. ephemeral_thread (
          typing_frame k (h.clients p).session.thread_id (h.clients p).session.user_id event_id
            now))
        e
      ∙ ephemeral_thread-typing_frame false _ _ event_id now thread_set user_set event_set now_set

  handle_typing-Publishes :
      (request started : Text)
      → (started ≡ codes "typing.started") ⊎ (started ≡ codes "typing.stopped")
      → Publishes p h (handle_typing p request started publisher event_id now h)
  unfolding handle_typing
  handle_typing-Publishes request started k =
      if_cases {A = Option Json × Hub} (Publishes p h)
        (not (includes (h.clients p).session.permissions permission_write)) _ _
        (λ e. silent-Publishes p h _)
        λ may.
          if_cases {A = Option Json × Hub} (Publishes p h) (works publisher) _ _
            (λ e published r. (
              not-eq-false _ may,
              refl,
              ap (λ o. ephemeral_thread (value_of o)) (sym r) ∙ accepted started k,
            ))
            (λ e. silent-Publishes p h _)
    where
      value_of : Option Json → Json
      value_of none = null
      value_of (some j) = j

  handle_kind-Publishes :
      (o : Option Text) (kind request : Text)
      → typing_kind kind ≡ o
      → Publishes p h (handle_kind o kind p request publisher event_id now h)
  handle_kind-Publishes (some started) kind request e =
      handle_typing-Publishes request started (typing_kind-cases kind started e)
  handle_kind-Publishes none kind request e =
      if_cases {A = Option Json × Hub} (Publishes p h) (text_eq kind (codes "pong")) _ _
        (λ t. silent-Publishes p h _) (λ t. silent-Publishes p h _)

  read_step-Publishes :
      (message : Incoming) → Publishes p h (read_step p message publisher event_id now h)
  unfolding read_step
  read_step-Publishes binary = silent-Publishes p h _
  read_step-Publishes (undecoded request) = silent-Publishes p h _
  read_step-Publishes (decoded_frame v kind request) =
      if_cases {A = Option Json × Hub} (Publishes p h) (ne_ℤ v protocol_version) _ _
        (λ t. silent-Publishes p h _)
        (λ t. handle_kind-Publishes (typing_kind kind) kind request refl)

  -- Where a round of the read loop publishes a document, the session may write, the hub is as it
  -- was, and the document is one that every hub passes on, to the thread of the session; so long as
  -- the identifiers of the session, the new identifier and the time are set.
  pub read_step-published :
      (message : Incoming) (published : Json)
      → (read_step p message publisher event_id now h).0 ≡ some published
      → (includes (h.clients p).session.permissions permission_write ≡ true)
        × ((read_step p message publisher event_id now h).1 ≡ h)
        × (ephemeral_thread published ≡ ok (h.clients p).session.thread_id)
  read_step-published message published e = read_step-Publishes message published e
