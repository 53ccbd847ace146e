-- ===== src/Transport/Sessions.antt =====
-- internal/transport/websocket/handler.go: a session from its handshake to its frames. A handshake
-- is one run on the hub; the connection itself is the library's, and what it reads and when its
-- timers run are inputs.
pub mod Loops
pub mod Settled
use ms_go_comment.Base.{
  Bool, List, Option, Result, Text, [], any, byte_len, codes, err, false, if◌then◌else◌, leb, ltb_ℤ,
  ne_ℤ, none, not, ok, pos, pos_part, some, text_eq, true, ℕ, ℤ, ◌&&◌, ◌==◌, ◌||◌, ◌∷◌,
}
use ms_go_comment.Domain.Json.{Json}
use ms_go_comment.Store.Monad.{Env, M, attempt, clock, pure, ◌>>=◌, ◌>>◌}
use ms_go_comment.Tests.Samples.{codec}
use ms_go_comment.Transport.Hub.{
  Hub, Registration, activate, connection_limit, register, registered, unregister,
}
use ms_go_comment.Transport.Protocol.{ready_frame, resync_frame}
use ms_go_comment.Usecase.Discussion.{Authorizer}
use ms_go_comment.Usecase.Grants.{Codec}
use ms_go_comment.Usecase.Tickets.{Session, consume, current_sequence}

-- What a handshake brings: the parameters of the query that carry credentials, the subprotocols and
-- the origin.
pub record Handshake : Type 0 where
  pub query_ticket : Text
  pub query_token : Text
  pub protocols : List Text
  pub origin : Text

abbrev pub comment_protocol : Text
comment_protocol = codes "comment.v1"

abbrev pub ticket_prefix : Text
ticket_prefix = codes "ticket."

-- `strings.HasPrefix`, with what stands behind the prefix.
unfoldable pub behind_prefix : Text → Text → Option Text
behind_prefix [] s = some s
behind_prefix (p ∷ ps) [] = none
behind_prefix (p ∷ ps) (c ∷ s) = let rest = behind_prefix ps s in if p == c then rest else none

-- One protocol in the loop of `ticketProtocol`: the ticket so far, and whether the protocol of
-- comments was offered; `none` is the early return for a second ticket.
abbrev pub take_ticket : Option Text → Text → Bool → Option (Text × Bool)
take_ticket none ticket offered = some (ticket, offered)
take_ticket (some []) ticket offered = some (ticket, offered)
take_ticket (some (c ∷ s)) [] offered = some (c ∷ s, offered)
take_ticket (some (c ∷ s)) (t ∷ ts) offered = none

unfoldable pub ticket_step : Text → Text × Bool → Option (Text × Bool)
unfolding behind_prefix
ticket_step protocol (ticket, offered) =
    if text_eq protocol comment_protocol
    then some (ticket, true)
    else take_ticket (behind_prefix ticket_prefix protocol) ticket offered

unfoldable pub ticket_loop : List Text → Text × Bool → Option (Text × Bool)
unfolding ticket_step
ticket_loop [] so_far = some so_far
ticket_loop (p ∷ ps) so_far = elim (ticket_step p so_far) [
  | none ↦ none
  | some r ↦ ticket_loop ps r
]

abbrev pub checked_ticket : Option (Text × Bool) → Option Text
checked_ticket none = none
checked_ticket (some (ticket, offered)) =
    if offered && not (text_eq ticket []) && leb (byte_len ticket) 128 then some ticket else none

-- `ticketProtocol`
unfoldable pub ticket_protocol : List Text → Option Text
unfolding ticket_loop
ticket_protocol protocols = checked_ticket (ticket_loop protocols ([], false))

-- `originAllowed`
unfoldable pub origin_allowed : Text → List Text → Bool
origin_allowed origin allowed = not (text_eq origin []) && any (λ o. text_eq origin o) allowed

-- `maxFrameBytes`, `writeTimeout`, `pongTimeout` and `pingInterval`: a setting, or its default.
unfoldable pub setting_or : ℤ → ℕ → ℕ
setting_or configured fallback = if ltb_ℤ (pos 0) configured then pos_part configured else fallback

-- What `ServeHTTP` comes to before its loops run.
pub data Opening : Type 0 where
  turned_away : ℕ → Opening
  not_upgraded : Opening
  open_session : ℕ → List Json → Opening

-- `http.Error` for a registration that the hub refuses.
abbrev pub refusal_status : Registration → ℕ
refusal_status connection_limit = 429
refusal_status _ = 503

module _ (env : Env) (codec : Codec) (access : Option Authorizer) (configured_ttl : ℤ) where
  abbrev pub resync_now : Session → ℤ → ℤ → M (List Json)
  resync_now session last current = do
    now ← clock env
    pure (resync_frame session.thread_id last current now ∷ [])

  -- `resync_required`, where the client asked for another sequence than the thread has.
  unfoldable pub resync_frames : Option ℤ → Session → ℤ → M (List Json)
  unfolding resync_frame
  resync_frames none session current = pure []
  resync_frames (some last) session current =
      if ne_ℤ last current then resync_now session last current else pure []

  -- Behind the registration: the sequence is read, the connection is upgraded, and the client is
  -- activated; a failure unregisters the client.
  unfoldable pub start_session : Session → ℕ → Bool → Hub → Result ℤ → M (Opening × Hub)
  unfolding resync_frames ready_frame unregister activate
  start_session session p upgraded h (err e) = pure (turned_away 503, unregister p h)
  start_session session p false h (ok current) = pure (not_upgraded, unregister p h)
  start_session session p true h (ok current) = do
    now ← clock env
    more ← resync_frames session.requested_last_sequence session current
    let started = activate p (ready_frame session.thread_id current now ∷ more) h
    pure (open_session p started.0, started.1)

  unfoldable pub enter_hub : Session → Bool → Registration → Hub → M (Opening × Hub)
  unfolding start_session
  enter_hub session upgraded (registered p) h = do
    current ← attempt (current_sequence env codec access configured_ttl session.thread_id)
    start_session session p upgraded h current
  enter_hub session upgraded r h = pure (turned_away (refusal_status r), h)

  -- The part of `ServeHTTP` behind the ticket; `none` is a hub that is not configured.
  unfoldable pub with_session : Text → Bool → Option Hub → Result Session → M (Opening × Option Hub)
  unfolding enter_hub origin_allowed register
  with_session origin upgraded hub (err e) = pure (turned_away 401, hub)
  with_session origin upgraded none (ok session) =
      pure (turned_away (if origin_allowed origin session.allowed_origins then 503 else 403), none)
  with_session origin upgraded (some h) (ok session) =
      if not (origin_allowed origin session.allowed_origins)
      then pure (turned_away 403, some h)
      else do
        entered ← enter_hub session upgraded (register session h).0 (register session h).1
        pure (entered.0, some entered.1)

  unfoldable pub with_ticket : Text → Bool → Option Hub → Option Text → M (Opening × Option Hub)
  unfolding with_session
  with_ticket origin upgraded hub none = pure (turned_away 401, hub)
  with_ticket origin upgraded hub (some ticket) = do
    session ← attempt (consume env codec access configured_ttl ticket)
    with_session origin upgraded hub session

  -- `ServeHTTP` as far as its loops; `upgraded` is the answer of the upgrade.
  unfoldable pub serve_websocket : Handshake → Bool → Option Hub → M (Opening × Option Hub)
  unfolding with_ticket ticket_protocol
  serve_websocket shake upgraded hub =
      if not (text_eq shake.query_ticket []) || not (text_eq shake.query_token [])
      then pure (turned_away 400, hub)
      else with_ticket shake.origin upgraded hub (ticket_protocol shake.protocols)
