-- ===== src/Domain/Thread.antt =====
-- internal/domain/thread.go: threads, their resources and their policy overrides.
pub mod Policies
use ms_go_comment.Base.{
  Bool, Option, Result, Text, fail_if, false, invalid_resource, is_blank, length, ltb, ltb_ℤ, none,
  not, ok, pos, some, text_eq, true, validation, ℤ, ◌&&◌, ◌==◌, ◌>>=◌, ◌>>◌, ◌||◌,
}
use ms_go_comment.Domain.Common.{Time, Uuid, is_slug}
use ms_go_comment.Domain.Space.{Policy, default_policy, validate_policy}

pub data ThreadStatus : Type 0 where
  opened read_only closed hidden : ThreadStatus
  other : ℤ → ThreadStatus

abbrev pub is_open_thread : ThreadStatus → Bool
is_open_thread ThreadStatus.opened = true
is_open_thread _ = false

abbrev pub is_hidden_thread : ThreadStatus → Bool
is_hidden_thread ThreadStatus.hidden = true
is_hidden_thread _ = false

-- `ThreadStatus.Valid`
abbrev pub thread_status_valid : ThreadStatus → Bool
thread_status_valid (ThreadStatus.other _) = false
thread_status_valid _ = true

pub record ThreadPolicyOverrides : Type 0 where
  pub allow_images : Option Bool
  pub allow_links : Option Bool
  pub max_depth : Option ℤ
  pub max_body_length : Option ℤ
  pub max_attachments : Option ℤ
  pub max_image_bytes : Option ℤ
  pub edit_window_seconds : Option ℤ

abbrev pub no_overrides : ThreadPolicyOverrides
no_overrides = record {
  allow_images = none;
  allow_links = none;
  max_depth = none;
  max_body_length = none;
  max_attachments = none;
  max_image_bytes = none;
  edit_window_seconds = none;
}

-- `if o != nil { v = *o }`
abbrev pub override {ℓ} : {A : Type ℓ} → A → Option A → A
override v none = v
override v (some w) = w

abbrev pub effective : Policy → ThreadPolicyOverrides → Policy
effective base o = record {
  allow_images = override base.allow_images o.allow_images;
  allow_links = override base.allow_links o.allow_links;
  max_depth = override base.max_depth o.max_depth;
  max_body_length = override base.max_body_length o.max_body_length;
  max_attachments = override base.max_attachments o.max_attachments;
  max_image_bytes = override base.max_image_bytes o.max_image_bytes;
  edit_window_seconds = override base.edit_window_seconds o.edit_window_seconds;
}

-- `ApplyPolicy`
unfoldable pub apply_policy : Policy → ThreadPolicyOverrides → Result Policy
apply_policy base o = do validate_policy (effective base o); ok (effective base o)

pub record ResourceReference : Type 0 where
  pub kind : Text
  pub id : Text

abbrev pub resource_eq : ResourceReference → ResourceReference → Bool
resource_eq r s = text_eq r.kind s.kind && text_eq r.id s.id

-- `ResourceReference.Validate`; `kind` is the field `Type`.
unfoldable pub validate_resource : ResourceReference → Result (Unit {0})
unfolding is_slug
validate_resource r = do
  fail_if (not (is_slug 0 63 r.kind)) invalid_resource
  fail_if (is_blank r.id || ltb 512 (length r.id)) invalid_resource

pub record Thread : Type 0 where
  pub id : Uuid
  pub space_id : Uuid
  pub resource : ResourceReference
  pub status : ThreadStatus
  pub policy_overrides : ThreadPolicyOverrides
  pub comment_count : ℤ
  pub root_comment_count : ℤ
  pub last_sequence : ℤ
  pub last_comment_at : Option Time
  pub created_at : Time
  pub updated_at : Time

-- `Thread.Validate`
unfoldable pub validate_thread : Thread → Result (Unit {0})
unfolding validate_resource apply_policy
validate_thread t = do
  fail_if (t.id == 0 || t.space_id == 0) validation
  validate_resource t.resource
  fail_if (not (thread_status_valid t.status)) validation
  fail_if
      (ltb_ℤ t.comment_count (pos 0)
        || ltb_ℤ t.root_comment_count (pos 0)
        || ltb_ℤ t.comment_count t.root_comment_count
        || ltb_ℤ t.last_sequence (pos 0))
      validation
  effective_policy ← apply_policy default_policy t.policy_overrides
  ok tt
