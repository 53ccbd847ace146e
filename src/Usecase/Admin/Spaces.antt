-- ===== src/Usecase/Admin/Spaces.antt =====
-- `CreateSpace`, `GetSpace`, `ListSpaces`, `UpdateSpace` and `DisableSpace`.
use ms_go_comment.Base.{Bool, List, Option, false, not, space_not_found, trim_space, true, ℤ}
use ms_go_comment.Domain.Actor.{Actor}
use ms_go_comment.Domain.Common.{Time, Uuid}
use ms_go_comment.Domain.Space.{Space, SpaceStatus, is_disabled_space, validate_space}
use ms_go_comment.Store.Monad.{Env, M, call, clock, lift, new_id, or_missing, pure, ◌>>=◌, ◌>>◌}
use ms_go_comment.Store.Spaces.{create_space, get_space, list_spaces, update_space}
use ms_go_comment.Usecase.Admin.{
  CreateSpaceInput, UpdateSpaceInput, require_admin, require_admin_read, validate_page,
}

module _ (env : Env) where
  abbrev pub new_space : Actor → CreateSpaceInput → Uuid → Time → Space
  new_space actor input id now = record {
    id = id;
    key = input.key;
    name = trim_space input.name;
    status = SpaceStatus.active;
    access_mode = input.access_mode;
    allowed_origins = input.allowed_origins;
    policy = input.policy;
    created_by = actor.user_id;
    created_at = now;
    updated_at = now;
  }

  -- `CreateSpace`
  unfoldable pub create_space_as : Actor → CreateSpaceInput → M Space
  create_space_as actor input = do
    lift (require_admin actor)
    now ← clock env
    id ← new_id env
    lift (validate_space env.urls (new_space actor input id now))
    call env (create_space (new_space actor input id now))
    pure (new_space actor input id now)

  -- `GetSpace`
  unfoldable pub get_space_as : Actor → Uuid → M Space
  get_space_as actor id = do
    lift (require_admin_read actor)
    or_missing space_not_found (call env (get_space id))

  -- `ListSpaces`
  unfoldable pub list_spaces_as : Actor → Option SpaceStatus → ℤ → ℤ → M (List Space)
  list_spaces_as actor status limit offset = do
    lift (require_admin_read actor)
    lift (validate_page limit offset)
    call env (list_spaces status limit offset)

  abbrev pub changed_space : UpdateSpaceInput → Space → Time → Space
  changed_space input item now = record item {
    name = trim_space input.name;
    status = input.status;
    access_mode = input.access_mode;
    allowed_origins = input.allowed_origins;
    policy = input.policy;
    updated_at = now;
  }

  -- `UpdateSpace`
  unfoldable pub update_space_as : Actor → UpdateSpaceInput → M Space
  update_space_as actor input = do
    lift (require_admin actor)
    item ← or_missing space_not_found (call env (get_space input.id))
    now ← clock env
    lift (validate_space env.urls (changed_space input item now))
    or_missing space_not_found (call env (update_space (changed_space input item now)))
    pure (changed_space input item now)

  unfoldable pub disable_if : Bool → Space → M Space
  disable_if false item = pure item
  disable_if true item = do
    now ← clock env
    or_missing space_not_found
        (call env (update_space (record item { status = SpaceStatus.disabled; updated_at = now })))
    pure (record item { status = SpaceStatus.disabled; updated_at = now })

  -- `DisableSpace`
  unfoldable pub disable_space : Actor → Uuid → M Space
  unfolding disable_if
  disable_space actor id = do
    lift (require_admin actor)
    item ← or_missing space_not_found (call env (get_space id))
    disable_if (not (is_disabled_space item.status)) item
