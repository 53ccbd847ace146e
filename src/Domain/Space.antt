-- ===== src/Domain/Space.antt =====
-- internal/domain/space.go: policies and spaces.
pub mod Bounds
use ms_go_comment.Base.{
  Bool, List, Option, Result, Text, [], any, codes, fail_if, false, invalid_policy,
  invalid_space_key, is_blank, ltb_ℤ, none, not, pos, some, text_eq, true, validation, ℤ, ◌&&◌,
  ◌==◌, ◌>>=◌, ◌>>◌, ◌||◌,
}
use ms_go_comment.Domain.Common.{Time, Uuid, is_slug}

abbrev pub max_allowed_depth : ℤ
max_allowed_depth = pos 32

abbrev pub max_allowed_body_length : ℤ
max_allowed_body_length = pos 100_000

abbrev pub max_allowed_attachments : ℤ
max_allowed_attachments = pos 10

abbrev pub max_allowed_image_bytes : ℤ
max_allowed_image_bytes = pos 26_214_400

abbrev pub max_edit_window_seconds : ℤ
max_edit_window_seconds = pos 604_800

-- `other` is any value that `Valid` refuses.
pub data SpaceStatus : Type 0 where
  disabled active : SpaceStatus
  other : ℤ → SpaceStatus

pub data AccessMode : Type 0 where
  authenticated context_grant : AccessMode
  other : ℤ → AccessMode

abbrev pub is_active_space : SpaceStatus → Bool
is_active_space SpaceStatus.active = true
is_active_space _ = false

abbrev pub is_disabled_space : SpaceStatus → Bool
is_disabled_space SpaceStatus.disabled = true
is_disabled_space _ = false

abbrev pub is_authenticated : AccessMode → Bool
is_authenticated AccessMode.authenticated = true
is_authenticated _ = false

abbrev pub is_context_grant : AccessMode → Bool
is_context_grant AccessMode.context_grant = true
is_context_grant _ = false

-- `SpaceStatus.Valid` and `AccessMode.Valid`
abbrev pub space_status_valid : SpaceStatus → Bool
space_status_valid s = is_disabled_space s || is_active_space s

abbrev pub mode_valid : AccessMode → Bool
mode_valid m = is_authenticated m || is_context_grant m

pub record Policy : Type 0 where
  pub allow_images : Bool
  pub allow_links : Bool
  pub max_depth : ℤ
  pub max_body_length : ℤ
  pub max_attachments : ℤ
  pub max_image_bytes : ℤ
  pub edit_window_seconds : ℤ

abbrev pub default_policy : Policy
default_policy = record {
  allow_images = false;
  allow_links = true;
  max_depth = pos 10;
  max_body_length = pos 10_000;
  max_attachments = pos 4;
  max_image_bytes = pos 5_242_880;
  edit_window_seconds = pos 900;
}

-- `v < lo || v > hi`
abbrev pub outside : ℤ → ℤ → ℤ → Bool
outside v lo hi = ltb_ℤ v lo || ltb_ℤ hi v

-- `Policy.Validate`
unfoldable pub validate_policy : Policy → Result (Unit {0})
validate_policy p = do
  fail_if (outside p.max_depth (pos 1) max_allowed_depth) invalid_policy
  fail_if (outside p.max_body_length (pos 1) max_allowed_body_length) invalid_policy
  fail_if (outside p.max_attachments (pos 0) max_allowed_attachments) invalid_policy
  fail_if (outside p.max_image_bytes (pos 1) max_allowed_image_bytes) invalid_policy
  fail_if (outside p.edit_window_seconds (pos 0) max_edit_window_seconds) invalid_policy

pub record Space : Type 0 where
  pub id : Uuid
  pub key : Text
  pub name : Text
  pub status : SpaceStatus
  pub access_mode : AccessMode
  pub allowed_origins : List Text
  pub policy : Policy
  pub created_by : Uuid
  pub created_at : Time
  pub updated_at : Time

-- `ValidateSpaceKey`
unfoldable pub validate_space_key : Text → Result (Unit {0})
unfolding is_slug
validate_space_key key = fail_if (not (is_slug 1 63 key)) invalid_space_key

-- The parts of a `url.URL` that the source reads.
pub record Url : Type 0 where
  pub scheme : Text
  pub host : Text
  pub path : Text
  pub raw_query : Text
  pub fragment : Text
  pub has_user : Bool

-- `url.Parse` and `url.ParseRequestURI`, with `none` for an error.
pub record UrlParser : Type 0 where
  pub parse : Text → Option Url
  pub parse_request_uri : Text → Option Url

module _ (urls : UrlParser) where
  abbrev pub origin_bad : Option Url → Bool
  origin_bad none = true
  origin_bad (some u) =
      (not (text_eq u.scheme (codes "http")) && not (text_eq u.scheme (codes "https")))
      || text_eq u.host []
      || not (text_eq u.path [])
      || not (text_eq u.raw_query [])
      || not (text_eq u.fragment [])
      || u.has_user

  -- `Space.Validate`
  unfoldable pub validate_space : Space → Result (Unit {0})
  unfolding validate_space_key
  validate_space s = do
    validate_space_key s.key
    fail_if (s.id == 0 || s.created_by == 0 || is_blank s.name) validation
    fail_if (not (space_status_valid s.status) || not (mode_valid s.access_mode)) validation
    fail_if (any (λ o. origin_bad (urls.parse o)) s.allowed_origins) validation
    validate_policy s.policy
