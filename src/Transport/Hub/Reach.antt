-- ===== src/Transport/Hub/Reach.antt =====
-- Runs of the hub of hub.go.
use ms_go_comment.Base.{List, Result, err, false, ok, true, ℕ, ℤ, ◌≡◌}
use ms_go_comment.Domain.Common.{Uuid}
use ms_go_comment.Domain.Json.{Json}
use ms_go_comment.Domain.Outbox.{EventSubject}
use ms_go_comment.Transport.Hub.{
  Hub, activate, broadcast_ephemeral, broadcast_lifecycle, broadcast_ok, close, enqueue, members,
  new_hub, push_thread, receive, register, unregister,
}
use ms_go_comment.Transport.Hub.Steps.{
  activate-IsValid, broadcast-IsValid, close-IsValid, enqueue-IsValid, push_all-IsValid,
  receive-IsValid, register-IsValid,
}
use ms_go_comment.Transport.Hub.Valid.{IsValid, new_hub-IsValid, unregister-IsValid}
use ms_go_comment.Transport.Protocol.{lifecycle_envelope}
use ms_go_comment.Usecase.Tickets.{Session}

-- What the server does with a hub.
pub data HubOp : Type 0 where
  op_register : Session → HubOp
  op_unregister : ℕ → HubOp
  op_lifecycle : EventSubject → Json → HubOp
  op_ephemeral : Json → HubOp
  op_activate : ℕ → List Json → HubOp
  op_enqueue : ℕ → Json → HubOp
  op_receive : ℕ → HubOp
  op_close : HubOp

unfoldable pub apply_op : HubOp → Hub → Hub
unfolding register unregister broadcast_lifecycle broadcast_ephemeral activate enqueue receive close
apply_op (op_register session) h = (register session h).1
apply_op (op_unregister p) h = unregister p h
apply_op (op_lifecycle subject payload) h = broadcast_lifecycle subject payload h
apply_op (op_ephemeral payload) h = broadcast_ephemeral payload h
apply_op (op_activate p initial) h = (activate p initial h).1
apply_op (op_enqueue p payload) h = enqueue p payload h
apply_op (op_receive p) h = (receive p h).1
apply_op op_close h = close h

-- A session activates its client once, and sends it frames of its own after that.
abbrev pub Allowed : HubOp → Hub → Type 0
Allowed (op_activate p initial) h = (h.clients p).active ≡ false
Allowed (op_enqueue p payload) h = (h.clients p).active ≡ true
Allowed _ h = Unit

pub data HubReach (max size : ℤ) : Hub → Type 0 where
  opened : HubReach max size (new_hub max size)
  after_op :
      {h : Hub}
      → HubReach max size h
      → (op : HubOp) → Allowed op h
      → HubReach max size (apply_op op h)
  halfway :
      {h : Hub}
      → HubReach max size h
      → (t : Uuid) (payload : Json) → HubReach max size (push_thread t payload h).1

broadcast_ok-IsValid : (r : Result (Uuid × Json)) (h : Hub) → IsValid h → IsValid (broadcast_ok r h)
broadcast_ok-IsValid (err e) h v = v
broadcast_ok-IsValid (ok (t, frame)) h v = broadcast-IsValid t frame h v

apply_op-IsValid : (op : HubOp) (h : Hub) → Allowed op h → IsValid h → IsValid (apply_op op h)
unfolding apply_op broadcast_lifecycle broadcast_ephemeral
apply_op-IsValid (op_register session) h a v = register-IsValid session h v
apply_op-IsValid (op_unregister p) h a v = unregister-IsValid p h v
apply_op-IsValid (op_lifecycle subject payload) h a v =
    broadcast_ok-IsValid (lifecycle_envelope subject payload) h v
apply_op-IsValid (op_ephemeral payload) h a v = broadcast_ok-IsValid _ h v
apply_op-IsValid (op_activate p initial) h a v = activate-IsValid p initial h v
apply_op-IsValid (op_enqueue p payload) h a v = enqueue-IsValid p payload h a v
apply_op-IsValid (op_receive p) h a v = receive-IsValid p h v
apply_op-IsValid op_close h a v = close-IsValid h v

-- In every hub that such steps reach from a new one, also between the pushes of a broadcast and the
-- ends of registrations behind them, the count of a user is the number of the registered clients of
-- the user and at most the limit, every registered client stands once, under its own thread and not
-- closed, the queues of every client are within their bound, all its frames wait in one of them,
-- and a closed hub has no client.
pub HubReach-IsValid : {max size : ℤ} {h : Hub} → HubReach max size h → IsValid h
HubReach-IsValid {max} {size} opened = new_hub-IsValid max size
HubReach-IsValid (after_op {h} r op a) = apply_op-IsValid op h a (HubReach-IsValid r)
HubReach-IsValid (halfway {h} r t payload) =
    push_all-IsValid payload (members t h.threads) h (HubReach-IsValid r)
