-- ===== src/Transport/Hub/Broadcast.antt =====
-- `broadcast` of hub.go as each client sees it.
use ms_go_comment.Base.{
  Bool, List, [], any, ap, arith, false, if_cases, if◌then◌else◌, length, ltb, mem, not, refl, sym,
  true, ℕ, ◌&&◌, ◌++◌, ◌==◌, ◌∙◌, ◌∷◌, ◌≡◌,
}
use ms_go_comment.Domain.Common.{Uuid}
use ms_go_comment.Domain.Json.{Json}
use ms_go_comment.Transport.Hub.{
  Client, Hub, broadcast, is_pair, members, push, push_all, push_thread, unregister_all,
}
use ms_go_comment.Transport.Hub.Feeds.{
  Subscription, backlog, deliver, listens, push-backlog, push_all-client, push_all-slow,
  push_all-threads, subscription,
}
use ms_go_comment.Transport.Hub.Removals.{
  mem-members, members-Once, unregister_all-client, unregister_all-listens,
}
use ms_go_comment.Transport.Hub.Steps.{push-Alike}
use ms_go_comment.Transport.Hub.Valid.{IsValid}

-- What the loops do to one client, by whether it is of the thread, listens and has room.
delivered :
    (of_thread listening has_room : Bool) (old new : List Json)
    → ◌≡◌ {A = Subscription}
        (record {
          listening = listening && not ((of_thread && listening) && not has_room);
          frames = if of_thread && listening then if has_room then new else old else old;
        })
        (if of_thread
          then if listening
            then if has_room
              then record { listening = listening; frames = new }
              else record { listening = false; frames = old }
            else record { listening = listening; frames = old }
          else record { listening = listening; frames = old })
delivered true true true old new = refl
delivered true true false old new = refl
delivered true false true old new = refl
delivered true false false old new = refl
delivered false true true old new = refl
delivered false true false old new = refl
delivered false false true old new = refl
delivered false false false old new = refl

same_subscription :
    {a b : Bool} {xs ys : List Json}
    → a ≡ b
    → xs ≡ ys
    → ◌≡◌ {A = Subscription}
        (record { listening = a; frames = xs })
        (record { listening = b; frames = ys })
same_subscription e k = λ i. record { listening = e i; frames = k i }

if_pushed :
    (b : Bool) (c d : Client) (free : Bool) (new old : List Json)
    → backlog c ≡ (if free then new else old)
    → backlog d ≡ old
    → backlog (if b then c else d) ≡ (if b then if free then new else old else old)
if_pushed true c d free new old e k = e
if_pushed false c d free new old e k = k

module _ (t : Uuid) (payload : Json) (h : Hub) (p : ℕ) (v : IsValid h) where
  loop : List ℕ × Hub
  loop = push_all payload (members t h.threads) h

  mine : Uuid
  mine = (h.clients p).session.thread_id

  has_room : Bool
  has_room = ltb (length (backlog (h.clients p))) h.queue_size

  pushed_client :
      loop.1.clients p
      ≡ (if mem p (members t h.threads) then (push payload (h.clients p)).1 else h.clients p)
  unfolding loop
  pushed_client =
      push_all-client payload (members t h.threads) h p (members-Once t h.threads v.once)

  is_member : mem p (members t h.threads) ≡ (mine == t && listens h p)
  unfolding mine
  is_member = mem-members h p t h.threads v.homes

  pushed_session : (loop.1.clients p).session ≡ (h.clients p).session
  pushed_session =
      ap (λ c. c.session) pushed_client
      ∙ if_cases (λ (c : Client). c.session ≡ (h.clients p).session) (mem p (members t h.threads)) _
          _ (λ e. (push-Alike h.queue_size payload (h.clients p) (v.shaped p)).session_kept)
          (λ e. refl)

  pushed_frames : backlog (loop.1.clients p) ≡ (
      if mine == t && listens h p
      then if has_room then backlog (h.clients p) ++ payload ∷ [] else backlog (h.clients p)
      else backlog (h.clients p))
  unfolding has_room
  pushed_frames =
      ap backlog pushed_client
      ∙ if_pushed (mem p (members t h.threads)) (push payload (h.clients p)).1 (h.clients p)
          has_room _ _ (push-backlog h.queue_size payload (h.clients p) (v.shaped p)).1 refl
      ∙ ap
          (λ b.
            if b
            then if has_room then backlog (h.clients p) ++ payload ∷ [] else backlog (h.clients p)
            else backlog (h.clients p))
          is_member

  still_listens :
      any (is_pair mine p) (unregister_all loop.0 loop.1).threads
      ≡ (listens h p && not ((mine == t && listens h p) && not has_room))
  unfolding has_room mine loop
  still_listens =
      unregister_all-listens loop.0 loop.1 p mine (sym (ap (λ s. s.thread_id) pushed_session))
      ∙ ground (
        arith,
        push_all-threads payload (members t h.threads) h,
        ap (λ m. any (is_pair (h.clients p).session.thread_id p) m)
            (push_all-threads payload (members t h.threads) h),
        push_all-slow payload (members t h.threads) h p (members-Once t h.threads v.once),
        is_member,
        (push-backlog h.queue_size payload (h.clients p) (v.shaped p)).0,
      )

  -- In a hub that satisfies the invariant, a broadcast to a thread puts the frame behind the frames
  -- of each registered client of the thread whose queue has room, ends the registration of each
  -- that is full without changing its frames, and leaves the registration and the frames of every
  -- other client as they are.
  pub broadcast_refines : subscription (broadcast t payload h) p ≡ (
      if (h.clients p).session.thread_id == t
      then deliver h.queue_size payload (subscription h p)
      else subscription h p)
  unfolding broadcast loop mine has_room
  broadcast_refines =
      let after = unregister_all-client loop.0 loop.1 p in
      let session : ((unregister_all loop.0 loop.1).clients p).session ≡ (h.clients p).session =
        after.0 ∙ pushed_session in
      let heard : listens (unregister_all loop.0 loop.1) p
          ≡ (listens h p && not ((mine == t && listens h p) && not has_room)) =
        ap (λ s. any (is_pair s.thread_id p) (unregister_all loop.0 loop.1).threads) session
        ∙ still_listens in
      let frames = after.1 ∙ pushed_frames in
      same_subscription heard frames
      ∙ delivered (mine == t) (listens h p) has_room (backlog (h.clients p))
          (backlog (h.clients p) ++ payload ∷ [])

  -- Before the ends of the registrations, for a client that is not one of the slow ones.
  pub pushed_lem :
      mem p (push_thread t payload h).0 ≡ false
      → subscription (push_thread t payload h).1 p ≡ (
          if (h.clients p).session.thread_id == t
          then deliver h.queue_size payload (subscription h p)
          else subscription h p)
  unfolding loop mine has_room
  pushed_lem fast =
      let heard : listens loop.1 p
          ≡ (listens h p && not ((mine == t && listens h p) && not has_room)) =
        ap (λ s. any (is_pair s.thread_id p) loop.1.threads) pushed_session
        ∙ ap (λ m. any (is_pair mine p) m) (push_all-threads payload (members t h.threads) h)
        ∙ ground (
          arith,
          fast,
          push_all-slow payload (members t h.threads) h p (members-Once t h.threads v.once),
          is_member,
          (push-backlog h.queue_size payload (h.clients p) (v.shaped p)).0,
        ) in
      same_subscription heard pushed_frames
      ∙ delivered (mine == t) (listens h p) has_room (backlog (h.clients p))
          (backlog (h.clients p) ++ payload ∷ [])
