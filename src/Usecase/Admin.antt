-- ===== src/Usecase/Admin.antt =====
-- internal/usecase/admin/service.go: who may administer, and the operations on spaces.
pub mod Spaces
pub mod Threads
pub mod Moderation
pub mod Payloads
use ms_go_comment.Base.{
  List, Result, Text, codes, equal_fold, fail_if, forbidden, ltb_ℤ, not, pos, text_eq, to_upper,
  trim_space, validation, ℤ, ◌&&◌, ◌>>=◌, ◌>>◌, ◌||◌,
}
use ms_go_comment.Domain.Actor.{Actor, validate}
use ms_go_comment.Domain.Common.{Uuid}
use ms_go_comment.Domain.Space.{AccessMode, Policy, SpaceStatus, outside}
use ms_go_comment.Domain.Thread.{ThreadPolicyOverrides, ThreadStatus}

pub record CreateSpaceInput : Type 0 where
  pub key : Text
  pub name : Text
  pub access_mode : AccessMode
  pub allowed_origins : List Text
  pub policy : Policy

pub record UpdateSpaceInput : Type 0 where
  pub id : Uuid
  pub name : Text
  pub status : SpaceStatus
  pub access_mode : AccessMode
  pub allowed_origins : List Text
  pub policy : Policy

pub record UpdateThreadInput : Type 0 where
  pub id : Uuid
  pub status : ThreadStatus
  pub overrides : ThreadPolicyOverrides

-- `requireAdminRead`
unfoldable pub require_admin_read : Actor → Result (Unit {0})
require_admin_read actor = do
  validate actor
  let role = to_upper (trim_space actor.role)
  fail_if (not (text_eq role (codes "ADMIN")) && not (text_eq role (codes "MODERATOR"))) forbidden

-- `requireAdmin`
unfoldable pub require_admin : Actor → Result (Unit {0})
unfolding require_admin_read
require_admin actor = do
  require_admin_read actor
  fail_if (not (equal_fold (trim_space actor.role) (codes "ADMIN"))) forbidden

-- `validatePage`
abbrev pub validate_page : ℤ → ℤ → Result (Unit {0})
validate_page limit offset =
    fail_if (outside limit (pos 1) (pos 100) || ltb_ℤ offset (pos 0)) validation
