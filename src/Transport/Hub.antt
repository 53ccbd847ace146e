-- ===== src/Transport/Hub.antt =====
-- internal/transport/websocket/hub.go: the clients of the threads. A client is a pointer to its
-- state; the nested map of the hub is the list of its pairs of a thread and a client. A step is a
-- call of one of the functions, or the first of the two locked sections of `broadcast`, and a
-- payload is the document that its bytes encode, so that none is empty.
pub mod Counts
pub mod Valid
pub mod Steps
pub mod Reach
pub mod Feeds
pub mod Removals
pub mod Broadcast
pub mod Logs
pub mod Rests
pub mod Posts
pub mod Writers
pub mod Journeys
pub mod Undone
use ms_go_comment.Base.{
  Bool, List, Option, Result, [], any, err, false, if◌then◌else◌, keep, leb, length, ltb, ltb_ℤ,
  none, not, ok, pos, pos_part, some, true, ℕ, ℤ, ◌!=◌, ◌&&◌, ◌++◌, ◌+◌, ◌-◌, ◌==◌, ◌>>=◌, ◌>>◌,
  ◌||◌, ◌∷◌,
}
use ms_go_comment.Domain.Common.{Uuid}
use ms_go_comment.Domain.Grant.{includes, permission_read}
use ms_go_comment.Domain.Json.{Json}
use ms_go_comment.Domain.Outbox.{EventSubject}
use ms_go_comment.Transport.Maps.{put}
use ms_go_comment.Transport.Protocol.{ephemeral_thread, lifecycle_envelope}
use ms_go_comment.Usecase.Tickets.{Session, current_sequence}

pub record Client : Type 0 where
  pub session : Session
  pub send : List Json
  pub done : Bool
  pub active : Bool
  pub pending : List Json
  pub queue_size : ℕ

pub record Hub : Type 0 where
  pub threads : List (Uuid × ℕ)
  pub user_counts : List (Uuid × ℕ)
  pub max_connections_per_user : ℕ
  pub queue_size : ℕ
  pub closed : Bool
  pub clients : ℕ → Client
  pub made : ℕ

-- What stands at a pointer that no client has.
abbrev pub no_session : Session
no_session = record {
  user_id = 0;
  thread_id = 0;
  permissions = 0;
  requested_last_sequence = none;
  current_sequence = pos 0;
  allowed_origins = [];
}

abbrev pub new_client : Session → ℕ → Client
new_client session queue_size = record {
  session = session;
  send = [];
  done = false;
  active = false;
  pending = [];
  queue_size = queue_size;
}

-- `NewHub`
unfoldable pub new_hub : ℤ → ℤ → Hub
new_hub max_connections_per_user queue_size =
    let size : ℕ = if ltb_ℤ queue_size (pos 1) then 64 else pos_part queue_size in
    record {
      threads = [];
      user_counts = [];
      max_connections_per_user =
          if ltb_ℤ max_connections_per_user (pos 1) then 5 else pos_part max_connections_per_user;
      queue_size = size;
      closed = false;
      clients = λ p. new_client no_session size;
      made = 0;
    }

-- `h.userCounts[u]`, where a missing key reads as 0.
abbrev pub count_of : Uuid → List (Uuid × ℕ) → ℕ
count_of u [] = 0
count_of u ((j, n) ∷ m) = if j == u then n else count_of u m

-- A client's state, changed.
abbrev pub store_client : ℕ → Client → Hub → Hub
store_client p c h = record h { clients = λ q. if q == p then c else h.clients q }

pub data Registration : Type 0 where
  invalid_session hub_closed connection_limit : Registration
  registered : ℕ → Registration

-- The part of `register` that adds a client.
unfoldable pub add_client : Session → Hub → Hub
add_client session h = record (store_client h.made (new_client session h.queue_size) h) {
  threads = (session.thread_id, h.made) ∷ h.threads;
  user_counts = put session.user_id (count_of session.user_id h.user_counts + 1) h.user_counts;
  made = h.made + 1;
}

-- The early returns of `register`.
unfoldable pub refusal : Session → Hub → Option Registration
refusal session h =
    if session.user_id == 0
      || session.thread_id == 0
      || not (includes session.permissions permission_read)
    then some invalid_session
    else if h.closed
    then some hub_closed
    else if leb h.max_connections_per_user (count_of session.user_id h.user_counts)
    then some connection_limit
    else none

abbrev pub register_unless : Option Registration → Session → Hub → Registration × Hub
register_unless (some r) session h = (r, h)
register_unless none session h = (registered h.made, add_client session h)

-- `register`
unfoldable pub register : Session → Hub → Registration × Hub
unfolding add_client refusal
register session h = register_unless (refusal session h) session h

abbrev pub is_pair : Uuid → ℕ → Uuid × ℕ → Bool
is_pair t p e = e.0 == t && e.1 == p

-- `h.userCounts[u]--`, and the key deleted where nothing is left.
unfoldable pub count_down : Uuid → List (Uuid × ℕ) → List (Uuid × ℕ)
count_down u counts =
    if leb (count_of u counts) 1
    then keep (λ e. e.0 != u) counts
    else put u (count_of u counts - 1) counts

unfoldable pub remove_client : ℕ → Hub → Hub
unfolding count_down
remove_client p h = record h {
  threads = keep (λ e. not (is_pair (h.clients p).session.thread_id p e)) h.threads;
  user_counts = count_down (h.clients p).session.user_id h.user_counts;
}

-- `closeOnce.Do(func() { close(item.done) })`
abbrev pub close_done : ℕ → Hub → Hub
close_done p h = store_client p (record (h.clients p) { done = true }) h

-- `unregister` of a client that is not nil.
unfoldable pub unregister : ℕ → Hub → Hub
unfolding remove_client
unregister p h =
    close_done p
      (if any (is_pair (h.clients p).session.thread_id p) h.threads then remove_client p h else h)

-- `push`
unfoldable pub push : Json → Client → Bool × Client
push payload c =
    if not c.active
    then if leb c.queue_size (length c.pending)
      then (false, c)
      else (true, record c { pending = c.pending ++ payload ∷ [] })
    else if leb c.queue_size (length c.send)
    then (false, c)
    else (true, record c { send = c.send ++ payload ∷ [] })

-- The first loop of `broadcast`, with the slow clients.
unfoldable pub push_all : Json → List ℕ → Hub → List ℕ × Hub
unfolding push
push_all payload [] h = ([], h)
push_all payload (p ∷ ps) h =
    let (done, c) = push payload (h.clients p) in
    let (slow, h') = push_all payload ps (store_client p c h) in
    (if done then slow else p ∷ slow, h')

abbrev pub unregister_all : List ℕ → Hub → Hub
unregister_all [] h = h
unregister_all (p ∷ ps) h = unregister_all ps (unregister p h)

-- The clients of a thread.
abbrev pub members : Uuid → List (Uuid × ℕ) → List ℕ
members t [] = []
members t ((j, p) ∷ m) = if j == t then p ∷ members t m else members t m

-- The first locked section of `broadcast`, with the clients that are too slow.
abbrev pub push_thread : Uuid → Json → Hub → List ℕ × Hub
push_thread t payload h = push_all payload (members t h.threads) h

-- `broadcast`
unfoldable pub broadcast : Uuid → Json → Hub → Hub
unfolding push_all unregister
broadcast thread_id payload h =
    let (slow, h') = push_all payload (members thread_id h.threads) h in unregister_all slow h'

abbrev pub broadcast_ok : Result (Uuid × Json) → Hub → Hub
broadcast_ok (err e) h = h
broadcast_ok (ok (thread_id, frame)) h = broadcast thread_id frame h

-- `BroadcastLifecycle`
unfoldable pub broadcast_lifecycle : EventSubject → Json → Hub → Hub
unfolding broadcast lifecycle_envelope
broadcast_lifecycle subject payload h = broadcast_ok (lifecycle_envelope subject payload) h

-- `BroadcastEphemeral`
unfoldable pub broadcast_ephemeral : Json → Hub → Hub
unfolding broadcast ephemeral_thread
broadcast_ephemeral payload h =
    broadcast_ok (do thread_id ← ephemeral_thread payload; ok (thread_id, payload)) h

-- `activate`: the frames that the writer starts with.
unfoldable pub activate : ℕ → List Json → Hub → List Json × Hub
activate p initial h = (
  initial ++ (h.clients p).pending,
  store_client p (record (h.clients p) { pending = []; active = true }) h,
)

-- `Close`
unfoldable pub close : Hub → Hub
close h = if h.closed then h else record h {
  closed = true;
  threads = [];
  user_counts = [];
  clients = λ q.
      if any (λ e. e.1 == q) h.threads then record (h.clients q) { done = true } else h.clients q;
}

-- `enqueue` of handler.go: a frame for the client alone.
unfoldable pub enqueue : ℕ → Json → Hub → Hub
unfolding unregister
enqueue p payload h =
    let c = h.clients p in
    if ltb (length c.send) c.queue_size
    then store_client p (record c { send = c.send ++ payload ∷ [] }) h
    else unregister p h

-- `<-item.send`: the next frame that the writer takes.
unfoldable pub receive_from : List Json → ℕ → Hub → Option Json × Hub
receive_from [] p h = (none, h)
receive_from (payload ∷ rest) p h =
    (some payload, store_client p (record (h.clients p) { send = rest }) h)

unfoldable pub receive : ℕ → Hub → Option Json × Hub
unfolding receive_from
receive p h = receive_from (h.clients p).send p h
