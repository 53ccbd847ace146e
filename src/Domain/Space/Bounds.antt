-- ===== src/Domain/Space/Bounds.antt =====
-- `Policy.Validate` of internal/domain/space.go.
use ms_go_comment.Base.{Err, arith, err, invalid_policy, ok, pos, ℕ, ℤ, ◌↔◌, ◌≡◌, ◌≤ℤ◌}
use ms_go_comment.Domain.Space.{Policy, validate_policy}

pub record Within (v : ℤ) (lo hi : ℕ) : Type 0 where
  pub above : pos lo ≤ℤ v
  pub below : v ≤ℤ pos hi

pub record PolicyIsValid (p : Policy) : Type 0 where
  pub depth : Within p.max_depth 1 32
  pub body : Within p.max_body_length 1 100_000
  pub attachments : Within p.max_attachments 0 10
  pub image_bytes : Within p.max_image_bytes 1 26_214_400
  pub edit_window : Within p.edit_window_seconds 0 604_800

-- Policy.Validate accepts exactly the policies whose five limits are in range.
pub validate_policy_iff : (p : Policy) → (validate_policy p ≡ ok tt) ↔ PolicyIsValid p
unfolding validate_policy
validate_policy_iff p = (λ h. ground arith, λ h. ground arith)

-- What it refuses, it refuses with `ErrInvalidPolicy`.
pub validate_policy-err : (p : Policy) {e : Err} → validate_policy p ≡ err e → e ≡ invalid_policy
unfolding validate_policy
validate_policy-err p h = ground arith
