-- ===== src/Tests/Network.antt =====
-- What stands between the network and the services, on the sample.
use ms_go_comment.Base.{
  [], arith, codes, if◌then◌else◌, none, ok, pos, pos_part, refl, some, true, ◌*◌, ◌+◌, ◌-◌, ◌==◌,
  ◌∷◌, ◌≡◌, ◌≢◌, ◌≤◌,
}
use ms_go_comment.Domain.Grant.{full_access_permissions, includes, permission_write}
use ms_go_comment.Domain.Outbox.{EventSubject}
use ms_go_comment.Store.Triples.{Triple}
use ms_go_comment.Tests.Samples.{
  author, calm, codec, event, first_comment, image_policy, open_thread,
}
use ms_go_comment.Transport.Hub.{
  Hub, activate, add_client, broadcast, new_hub, push, push_all, push_thread, refusal, register,
}
use ms_go_comment.Transport.Hub.Broadcast.{broadcast_refines}
use ms_go_comment.Transport.Hub.Feeds.{deliver, subscription}
use ms_go_comment.Transport.Hub.Journeys.{Journey, Journey-Agrees, joined, passed, went}
use ms_go_comment.Transport.Hub.Logs.{Agrees, Log, empty_log, log_op, post, posted_by}
use ms_go_comment.Transport.Hub.Reach.{
  HubOp, HubReach-IsValid, after_op, apply_op, halfway, op_activate, op_lifecycle, op_register,
  opened,
}
use ms_go_comment.Transport.Hub.Steps.{register-IsValid}
use ms_go_comment.Transport.Hub.Valid.{IsValid, new_hub-IsValid}
use ms_go_comment.Transport.Limits.{Limiter, allow, new_limiter, token}
use ms_go_comment.Transport.Limits.Fair.{allow-Spends}
use ms_go_comment.Transport.Limits.Levels.{Fair, Spends}
use ms_go_comment.Transport.Limits.Runs.{admitted, new_limiter-admitted}
use ms_go_comment.Transport.Protocol.{ephemeral_thread, typing_frame}
use ms_go_comment.Transport.Protocol.Deliverable.{Accepted, events-Accepted}
use ms_go_comment.Transport.Sessions.{Handshake, serve_websocket}
use ms_go_comment.Transport.Sessions.Loops.{
  Incoming, decoded_frame, handle_typing, read_step, read_step-published, typing_works,
}
use ms_go_comment.Transport.Sessions.Settled.{Settled, serve_websocket-Settled}
use ms_go_comment.Usecase.Admin.Moderation.{moderation_event}
use ms_go_comment.Usecase.Admin.Threads.{thread_event}
use ms_go_comment.Usecase.Discussion.Emit.{comment_event}
use ms_go_comment.Usecase.Tickets.{Session}

-- A reader of the sample's thread.
abbrev guest : Session
guest = record {
  user_id = 7;
  thread_id = 3;
  permissions = full_access_permissions;
  requested_last_sequence = none;
  current_sequence = pos 1;
  allowed_origins = [];
}

abbrev seated : Hub
seated = (register guest (new_hub (pos 2) (pos 4))).1

seated-IsValid : IsValid seated
seated-IsValid = register-IsValid guest (new_hub (pos 2) (pos 4)) (new_hub-IsValid (pos 2) (pos 4))

abbrev awake : Hub
awake = apply_op (op_activate 0 []) seated

awake-Journey : Journey (pos 2) (pos 4) 0 awake (log_op 0 (op_activate 0 []) seated empty_log)
unfolding apply_op register refusal add_client new_hub includes activate
awake-Journey = went (op_activate 0 []) (joined guest opened refl) refl

abbrev told : HubOp
told = op_lifecycle event.subject event.payload

-- The pushes of a broadcast that does not find the reader too slow.
abbrev half : Hub
half = (push_thread 3 event.payload awake).1

abbrev half_log : Log
half_log =
    post (posted_by (ok (3, event.payload)) (awake.clients 0).session.thread_id)
      (log_op 0 (op_activate 0 []) seated empty_log)

half-Journey : Journey (pos 2) (pos 4) 0 half half_log
unfolding apply_op register refusal add_client new_hub includes activate push_all push
half-Journey = passed 3 event.payload awake-Journey refl

Journey-Agrees_example : Agrees 0 (apply_op told half) (log_op 0 told half half_log)
Journey-Agrees_example = Journey-Agrees (went told half-Journey tt)

HubReach-IsValid_example : IsValid (
    apply_op told
      (push_thread 3 event.payload (apply_op (op_register guest) (new_hub (pos 2) (pos 4)))).1)
HubReach-IsValid_example =
    HubReach-IsValid
      (after_op (halfway (after_op opened (op_register guest) tt) 3 event.payload) told tt)

broadcast_refines_example : subscription (broadcast 3 event.payload seated) 0 ≡ (
    if (seated.clients 0).session.thread_id == 3
    then deliver seated.queue_size event.payload (subscription seated 0)
    else subscription seated 0)
broadcast_refines_example = broadcast_refines 3 event.payload seated 0 seated-IsValid

seated_thread : (seated.clients 0).session.thread_id ≢ 0
unfolding register refusal add_client new_hub includes
seated_thread e = cc

seated_user : (seated.clients 0).session.user_id ≢ 0
unfolding register refusal add_client new_hub includes
seated_user e = cc

abbrev writing : Incoming
writing = decoded_frame (pos 1) (codes "typing.start") (codes "r")

writing_published :
    (read_step 0 writing typing_works 51 100 seated).0
    ≡ some (typing_frame (codes "typing.started") 3 7 51 100)
unfolding read_step handle_typing register refusal add_client new_hub includes
writing_published = refl

read_step-published_example :
    (includes (seated.clients 0).session.permissions permission_write ≡ true)
    × ((read_step 0 writing typing_works 51 100 seated).1 ≡ seated)
    × (ephemeral_thread (typing_frame (codes "typing.started") 3 7 51 100)
        ≡ ok (seated.clients 0).session.thread_id)
read_step-published_example =
    read_step-published 0 typing_works 51 100 seated seated_thread seated_user (λ e. cc) (λ e. cc)
      writing (typing_frame (codes "typing.started") 3 7 51 100) writing_published

abbrev shaken : Handshake
shaken = record {
  query_ticket = [];
  query_token = [];
  protocols = codes "comment.v1" ∷ codes "ticket.abc" ∷ [];
  origin = [];
}

serve_websocket-Settled_example :
    Triple
      (λ d. Unit {0})
      (serve_websocket calm codec none (pos 30) shaken true (some seated))
      (λ r d. (h' : Hub) × (r.1 ≡ some h') × Settled seated r.0 h')
serve_websocket-Settled_example =
    serve_websocket-Settled calm codec none (pos 30) shaken true seated seated-IsValid

-- One token each second for the actor 7, who has spent one.
abbrev limiter : Limiter
limiter = record {
  items = (7, record { tokens = token; last = 100; seen = 100 }) ∷ [];
  rate = 1;
  burst = 2;
  maximum = 3;
  idle_expiry = 2 * token;
}

limiter-Fair : Fair limiter 200
limiter-Fair = record {
  sized = omega arith;
  idle = omega arith;
  distinct = (tt, tt);
  kept = ((refl, omega arith, omega arith), tt);
}

allow-Spends_example : Spends 7 200 limiter (allow 7 200 limiter)
allow-Spends_example = allow-Spends 7 200 limiter limiter-Fair (λ e. cc)

abbrev unused : Limiter
unused = record { items = []; rate = 20; burst = 40; maximum = 100; idle_expiry = 300 * token }

unused_made : new_limiter (pos 20) (pos 40) (pos 100) (pos (300 * token)) true ≡ ok unused
unfolding new_limiter
unused_made = refl

new_limiter-admitted_example :
    admitted 7 ((7, 100) ∷ (8, 150) ∷ (7, 200) ∷ []) unused * token
    ≤ pos_part (pos 40) * token + (300 - 50) * pos_part (pos 20)
new_limiter-admitted_example =
    new_limiter-admitted (pos 20) (pos 40) (pos 100) (pos (300 * token)) true unused (omega arith)
      unused_made 7 50 300 ((7, 100) ∷ (8, 150) ∷ (7, 200) ∷ [])
      (omega arith, (omega arith, (omega arith, omega arith)))

events-Accepted_example :
    Accepted (comment_event first_comment [] EventSubject.comment_created 7 51 100) 3 (pos 1)
    × Accepted
        (moderation_event calm first_comment [] EventSubject.comment_created 7 51 100)
        3
        (pos 1)
    × Accepted (thread_event calm author open_thread image_policy (pos 2) 51 100) 3 (pos 2)
events-Accepted_example =
    events-Accepted calm author 51 100 EventSubject.comment_created refl first_comment []
      open_thread image_policy (pos 2)
      (record {
        thread = λ e. cc;
        event = λ e. cc;
        counted = omega arith;
        bounded = omega arith;
        dated = λ e. cc;
      })
      (record {
        thread = λ e. cc;
        event = λ e. cc;
        counted = omega arith;
        bounded = omega arith;
        dated = λ e. cc;
      })
