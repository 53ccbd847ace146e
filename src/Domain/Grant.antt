-- ===== src/Domain/Grant.antt =====
-- internal/domain/access_grant.go: permissions and access grants.
pub mod Masks
use ms_go_comment.Base.{
  Bool, List, Result, Text, bit_and, fail_if, invalid_access_grant, length, not, or_else, ℕ, ◌!=◌,
  ◌&&◌, ◌==◌, ◌>>=◌, ◌>>◌, ◌||◌,
}
use ms_go_comment.Domain.Common.{Time, Uuid, after, is_slug}
use ms_go_comment.Domain.Thread.{ResourceReference, validate_resource}

-- An `int16` of permission bits, as its 16-bit pattern.
abbrev pub Permission : Type 0
Permission = ℕ

abbrev pub permission_read : Permission
permission_read = 1

abbrev pub permission_write : Permission
permission_write = 2

abbrev pub permission_upload : Permission
permission_upload = 4

-- `AccessPermission.Includes`, and `RealtimePermission.Includes`
unfoldable pub includes : Permission → Permission → Bool
includes p permission = bit_and p permission == permission

-- `p &^ mask != 0` for the mask 7 of the three permissions
unfoldable pub beyond_mask : Permission → Bool
beyond_mask p = bit_and p 0xFFF8 != 0

-- `AccessPermission.Valid`
unfoldable pub permission_valid : Permission → Bool
unfolding includes beyond_mask
permission_valid p =
    not (beyond_mask p)
    && includes p permission_read
    && (not (includes p permission_upload) || includes p permission_write)

-- `FullAccessPermissions`
abbrev pub full_access_permissions : Permission
full_access_permissions = 7

pub record AccessGrant : Type 0 where
  pub grant_hash : List ℕ
  pub issuer : Text
  pub user_id : Uuid
  pub space_id : Uuid
  pub resource : ResourceReference
  pub permissions : Permission
  pub expires_at : Time
  pub created_at : Time

-- `AccessGrant.Validate`
unfoldable pub validate_grant : AccessGrant → Result (Unit {0})
validate_grant g = do
  fail_if (length g.grant_hash != 32 || g.user_id == 0 || g.space_id == 0) invalid_access_grant
  fail_if (not (is_slug 1 63 g.issuer)) invalid_access_grant
  or_else (validate_resource g.resource) invalid_access_grant
  fail_if (not (permission_valid g.permissions)) invalid_access_grant
  fail_if (not (after g.expires_at g.created_at)) invalid_access_grant
