-- ===== src/Usecase/Tickets.antt =====
-- internal/usecase/realtime/ticket_service.go
pub mod Once
pub mod Bounded
use ms_go_comment.Base.{
  Bool, List, Option, Result, Text, access_required, bit_and, bit_or, codes, eq_ℤ, err, fail_if,
  forbidden, if◌then◌else◌, invalid_realtime_ticket, leb_ℤ, ltb_ℤ, none, not, ok, pos, pos_part,
  realtime_ticket_invalid, some, space_not_found, thread_not_found, validation, ℕ, ℤ, ◌&&◌, ◌*◌,
  ◌+◌, ◌==◌, ◌||◌,
}
use ms_go_comment.Domain.Actor.{Actor, validate}
use ms_go_comment.Domain.Common.{Time, Uuid, second}
use ms_go_comment.Domain.Grant.{
  Permission, full_access_permissions, includes, permission_read, permission_upload,
  permission_write,
}
use ms_go_comment.Domain.Space.{Policy, Space, is_active_space, is_authenticated, is_context_grant}
use ms_go_comment.Domain.Thread.{
  ResourceReference, ThreadStatus, apply_policy, is_hidden_thread, is_open_thread,
}
use ms_go_comment.Domain.Ticket.{RealtimeTicket, negative_ptr, validate_ticket}
use ms_go_comment.Store.Monad.{
  Env, M, ask, attempt, call, clock, lift, or_missing, pure, ◌>>=◌, ◌>>◌,
}
use ms_go_comment.Store.Spaces.{get_space}
use ms_go_comment.Store.Threads.{get_thread}
use ms_go_comment.Store.Tokens.{consume_ticket, delete_expired_tickets, store_ticket}
use ms_go_comment.Usecase.Discussion.{Authorizer, ThreadContext}
use ms_go_comment.Usecase.Grants.{Codec, drawn, sized}

pub record MintedTicket : Type 0 where
  pub ticket : Text
  pub expires_at : Time
  pub protocol : Text

pub record Session : Type 0 where
  pub user_id : Uuid
  pub thread_id : Uuid
  pub permissions : Permission
  pub requested_last_sequence : Option ℤ
  pub current_sequence : ℤ
  pub allowed_origins : List Text

abbrev pub ticket_bytes : ℕ
ticket_bytes = 32

-- `ttl`
abbrev pub ticket_ttl : ℤ → ℕ
ticket_ttl configured =
    if ltb_ℤ (pos 0) configured && leb_ℤ configured (pos (30 * second))
    then pos_part configured
    else 30 * second

-- The permissions of a new ticket.
abbrev pub images_possible : Policy → Bool
images_possible policy = policy.allow_images && ltb_ℤ (pos 0) policy.max_attachments

unfoldable pub minted_permissions : ThreadStatus → Policy → Permission → Permission
minted_permissions status policy granted =
    if is_open_thread status && includes granted permission_write
    then if includes granted permission_upload && images_possible policy
      then bit_or (bit_or permission_read permission_write) permission_upload
      else bit_or permission_read permission_write
    else permission_read

-- `p &^ RealtimePermissionUpload` on 16 bits.
unfoldable pub without_upload : Permission → Permission
without_upload p = bit_and p 0xFFFB

-- The permissions of a session.
unfoldable pub session_permissions : ThreadStatus → Policy → Permission → Permission
unfolding without_upload
session_permissions status policy p =
    if not (is_open_thread status)
    then permission_read
    else if not policy.allow_images || eq_ℤ policy.max_attachments (pos 0)
    then without_upload p
    else p

module _ (env : Env) (codec : Codec) (access : Option Authorizer) (configured_ttl : ℤ) where
  -- `loadThread`
  unfoldable pub load_live_thread : Uuid → M ThreadContext
  load_live_thread id = do
    thread ← or_missing thread_not_found (call env (get_thread id))
    space ← or_missing space_not_found (call env (get_space thread.space_id))
    lift (
        fail_if (not (is_active_space space.status) || is_hidden_thread thread.status)
          thread_not_found)
    policy ← lift (apply_policy space.policy thread.policy_overrides)
    pure (record { thread = thread; space = space; policy = policy })

  unfoldable pub ask_permissions :
      Option Authorizer → Actor → Space → ResourceReference → M Permission
  ask_permissions none actor space resource = lift (err access_required)
  ask_permissions (some ask_for) actor space resource = do
    permissions ← ask_for actor space resource
    lift (fail_if (not (includes permissions permission_read)) forbidden)
    pure permissions

  -- `accessPermissions`
  unfoldable pub ticket_permissions : Actor → Space → ResourceReference → M Permission
  unfolding ask_permissions
  ticket_permissions actor space resource =
      if is_authenticated space.access_mode
      then pure full_access_permissions
      else if not (is_context_grant space.access_mode)
      then lift (err access_required)
      else ask_permissions access actor space resource

  abbrev pub new_ticket :
      Actor → ThreadContext → Option ℤ → Permission → List ℕ → Time → RealtimeTicket
  new_ticket actor ctx last granted secret now = record {
    ticket_hash = codec.sha256 secret;
    user_id = actor.user_id;
    thread_id = ctx.thread.id;
    permissions = minted_permissions ctx.thread.status ctx.policy granted;
    requested_last_sequence = last;
    expires_at = now + ticket_ttl configured_ttl;
    created_at = now;
  }

  -- `Mint`
  unfoldable pub mint : Actor → Uuid → Option ℤ → M MintedTicket
  unfolding load_live_thread ticket_permissions
  mint actor thread_id last = do
    lift (validate actor)
    lift (fail_if (thread_id == 0 || negative_ptr last) invalid_realtime_ticket)
    ctx ← load_live_thread thread_id
    granted ← ticket_permissions actor ctx.space ctx.thread.resource
    answer ← ask env env.random_at
    secret ← lift (drawn env codec configured_ttl answer)
    now ← clock env
    lift (validate_ticket (new_ticket actor ctx last granted secret now))
    call env (store_ticket (new_ticket actor ctx last granted secret now))
    pure (record {
      ticket = codec.encode secret;
      expires_at = now + ticket_ttl configured_ttl;
      protocol = codes "comment.v1";
    })

  -- The thread that a session needs, or no session.
  abbrev pub session_context : Result ThreadContext → Result ThreadContext
  session_context (err e) = err realtime_ticket_invalid
  session_context (ok ctx) = ok ctx

  -- `Consume`
  unfoldable pub consume : Text → M Session
  unfolding load_live_thread
  consume opaque = do
    secret ← lift (sized realtime_ticket_invalid (codec.decode opaque))
    at ← clock env
    ticket ← or_missing realtime_ticket_invalid (call env (consume_ticket (codec.sha256 secret) at))
    found ← attempt (load_live_thread ticket.thread_id)
    ctx ← lift (session_context found)
    pure (record {
      user_id = ticket.user_id;
      thread_id = ticket.thread_id;
      permissions = session_permissions ctx.thread.status ctx.policy ticket.permissions;
      requested_last_sequence = ticket.requested_last_sequence;
      current_sequence = ctx.thread.last_sequence;
      allowed_origins = ctx.space.allowed_origins;
    })

  -- `CurrentSequence`
  unfoldable pub current_sequence : Uuid → M ℤ
  unfolding load_live_thread
  current_sequence id = do ctx ← load_live_thread id; pure ctx.thread.last_sequence

  -- `DeleteExpired`
  unfoldable pub delete_old_tickets : ℤ → M ℕ
  delete_old_tickets limit = do
    lift (fail_if (ltb_ℤ limit (pos 1)) validation)
    now ← clock env
    call env (delete_expired_tickets now limit)
