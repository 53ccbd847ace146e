-- ===== src/Usecase/Grants.antt =====
-- internal/usecase/access/service.go
pub mod Backed
-- `sha256.Sum256`, and `base64.RawURLEncoding` with `none` for an error.
use ms_go_comment.Base.{
  Bool, Err, List, Option, Result, Text, [], access_required, err, fail_if, if◌then◌else◌,
  invalid_access_grant, is_ok, length, ltb_ℤ, none, not, ok, or_else, pos, pos_part, some,
  space_not_found, text_eq, thread_not_found, unavailable, validation, ℕ, ℤ, ◌!=◌, ◌&&◌, ◌*◌, ◌+◌,
  ◌==◌, ◌||◌,
}
use ms_go_comment.Domain.Actor.{Actor, validate}
use ms_go_comment.Domain.Common.{Time, Uuid, after, minute, second}
use ms_go_comment.Domain.Grant.{
  AccessGrant, Permission, full_access_permissions, permission_valid, validate_grant,
}
use ms_go_comment.Domain.Space.{
  Space, is_active_space, is_authenticated, is_context_grant, validate_space_key,
}
use ms_go_comment.Domain.Thread.{
  ResourceReference, Thread, ThreadStatus, apply_policy, no_overrides, resource_eq,
  validate_resource,
}
use ms_go_comment.Store.Monad.{
  Answer, Env, M, ask, call, clock, lift, new_id, or_missing, pure, ◌>>=◌, ◌>>◌,
}
use ms_go_comment.Store.Spaces.{get_space_by_key}
use ms_go_comment.Store.Threads.{ensure_thread, get_thread_by_resource}
use ms_go_comment.Store.Tokens.{delete_expired_grants, resolve_grant, store_grant}
use ms_go_comment.Usecase.Discussion.{ThreadView}

pub record Codec : Type 0 where
  pub sha256 : List ℕ → List ℕ
  pub encode : List ℕ → Text
  pub decode : Text → Option (List ℕ)

pub record CreateGrantInput : Type 0 where
  pub issuer : Text
  pub user_id : Uuid
  pub space_key : Text
  pub resource : ResourceReference
  pub permissions : Permission
  pub ttl : ℤ

pub record MintedGrant : Type 0 where
  pub grant : Text
  pub expires_at : Time
  pub permissions : Permission

abbrev pub grant_bytes : ℕ
grant_bytes = 32

-- `maximumTTL`
abbrev pub max_ttl : ℤ → ℤ
max_ttl configured = if ltb_ℤ configured (pos second) then pos (5 * minute) else configured

abbrev pub is_private : Space → Bool
is_private space = is_active_space space.status && is_context_grant space.access_mode

abbrev pub opened_thread : Uuid → Uuid → ResourceReference → Time → Thread
opened_thread id space_id resource now = record {
  id = id;
  space_id = space_id;
  resource = resource;
  status = ThreadStatus.opened;
  policy_overrides = no_overrides;
  comment_count = pos 0;
  root_comment_count = pos 0;
  last_sequence = pos 0;
  last_comment_at = none;
  created_at = now;
  updated_at = now;
}

abbrev pub sized : Err → Option (List ℕ) → Result (List ℕ)
sized e none = err e
sized e (some secret) = if length secret != grant_bytes then err e else ok secret

abbrev pub secret_of : Codec → Text → Result (List ℕ)
secret_of codec token = sized access_required (codec.decode token)

module _ (env : Env) (codec : Codec) (configured_ttl : ℤ) where
  abbrev pub drawn : Answer (List ℕ) → Result (List ℕ)
  drawn (Answer.done bytes) = ok bytes
  drawn (Answer.failed _) = err unavailable

  abbrev pub new_grant : CreateGrantInput → Space → List ℕ → Time → AccessGrant
  new_grant input space secret now = record {
    grant_hash = codec.sha256 secret;
    issuer = input.issuer;
    user_id = input.user_id;
    space_id = space.id;
    resource = input.resource;
    permissions = input.permissions;
    expires_at = now + pos_part input.ttl;
    created_at = now;
  }

  -- `CreateGrant`
  unfoldable pub create_grant : CreateGrantInput → M MintedGrant
  create_grant input = do
    lift (
        fail_if
          (input.user_id == 0
            || ltb_ℤ input.ttl (pos second)
            || ltb_ℤ (max_ttl configured_ttl) input.ttl
            || not (permission_valid input.permissions))
          invalid_access_grant)
    lift (or_else (validate_resource input.resource) invalid_access_grant)
    lift (or_else (validate_space_key input.space_key) invalid_access_grant)
    space ← or_missing space_not_found (call env (get_space_by_key input.space_key))
    lift (fail_if (not (is_private space)) space_not_found)
    answer ← ask env env.random_at
    secret ← lift (drawn answer)
    now ← clock env
    lift (validate_grant (new_grant input space secret now))
    call env (store_grant (new_grant input space secret now))
    pure (record {
      grant = codec.encode secret;
      expires_at = now + pos_part input.ttl;
      permissions = input.permissions;
    })

  -- The token that `GrantTokenFromContext` finds, empty ones left out.
  abbrev pub token_or : Option Text → Result Text
  token_or none = err access_required
  token_or (some token) = if text_eq token [] then err access_required else ok token

  -- The test of `Permissions` on the grant.
  abbrev pub grant_differs : Actor → Space → ResourceReference → AccessGrant → Time → Bool
  grant_differs actor space resource g now =
      not (is_ok (validate_grant g))
      || g.user_id != actor.user_id
      || g.space_id != space.id
      || not (resource_eq g.resource resource)
      || not (after g.expires_at now)

  -- The part of `Permissions` that looks the grant up.
  unfoldable pub resolve_permissions :
      Option Text → Actor → Space → ResourceReference → M Permission
  resolve_permissions context_token actor space resource = do
    token ← lift (token_or context_token)
    secret ← lift (secret_of codec token)
    at ← clock env
    g ← or_missing access_required (call env (resolve_grant (codec.sha256 secret) at))
    now ← clock env
    lift (fail_if (grant_differs actor space resource g now) access_required)
    pure g.permissions

  -- `Permissions` behind the tests on the actor and the status of the space.
  unfoldable pub permissions_by_mode :
      Option Text → Actor → Space → ResourceReference → M Permission
  unfolding resolve_permissions
  permissions_by_mode context_token actor space resource =
      if is_authenticated space.access_mode
      then pure full_access_permissions
      else if not (is_context_grant space.access_mode)
      then lift (err access_required)
      else resolve_permissions context_token actor space resource

  -- `Permissions`
  unfoldable pub access_permissions : Option Text → Actor → Space → ResourceReference → M Permission
  unfolding permissions_by_mode
  access_permissions context_token actor space resource = do
    lift (validate actor)
    lift (fail_if (not (is_active_space space.status)) space_not_found)
    permissions_by_mode context_token actor space resource

  -- `privateSpace`
  unfoldable pub private_space : Text → ResourceReference → M Space
  private_space key resource = do
    lift (validate_space_key key)
    lift (validate_resource resource)
    space ← or_missing space_not_found (call env (get_space_by_key key))
    lift (fail_if (not (is_private space)) space_not_found)
    pure space

  -- `EnsureThread`
  unfoldable pub ensure_private_thread : Text → ResourceReference → M ThreadView
  unfolding private_space
  ensure_private_thread key resource = do
    space ← private_space key resource
    now ← clock env
    id ← new_id env
    item ← call env (ensure_thread (opened_thread id space.id resource now))
    policy ← lift (apply_policy space.policy item.policy_overrides)
    pure (record { thread = item; policy = policy })

  -- `GetThreadByResource`
  unfoldable pub get_private_thread : Text → ResourceReference → M ThreadView
  unfolding private_space
  get_private_thread key resource = do
    space ← private_space key resource
    item ← or_missing thread_not_found (call env (get_thread_by_resource space.id resource))
    policy ← lift (apply_policy space.policy item.policy_overrides)
    pure (record { thread = item; policy = policy })

  -- `DeleteExpired`
  unfoldable pub delete_expired : ℤ → M ℕ
  delete_expired limit = do
    lift (fail_if (ltb_ℤ limit (pos 1)) validation)
    now ← clock env
    call env (delete_expired_grants now limit)
