-- ===== src/Domain/Thread/Policies.antt =====
-- `ApplyPolicy` of internal/domain/thread.go.
use ms_go_comment.Base.{
  Result-cases, arith, err, inl, inr, invalid_policy, ok, ok≢err, sym, ◌∙◌, ◌≡◌, ◌⊎◌,
}
use ms_go_comment.Domain.Space.{Policy, validate_policy}
use ms_go_comment.Domain.Space.Bounds.{PolicyIsValid, validate_policy-err, validate_policy_iff}
use ms_go_comment.Domain.Thread.{ThreadPolicyOverrides, apply_policy, effective}

-- ApplyPolicy returns the overridden policy if it is valid, and ErrInvalidPolicy if it is not.
apply_policy-cases :
    (base : Policy) (o : ThreadPolicyOverrides)
    → ((apply_policy base o ≡ ok (effective base o)) × PolicyIsValid (effective base o))
      ⊎ ((apply_policy base o ≡ err invalid_policy) × ¬ PolicyIsValid (effective base o))
unfolding apply_policy
apply_policy-cases base o = elim (Result-cases (validate_policy (effective base o))) [
  | inl (a, e) ↦ inl (rw e, (validate_policy_iff (effective base o)).0 e)
  | inr (x, e) ↦ inr (
    rw (e, validate_policy-err (effective base o) e),
    λ v. ok≢err (sym ((validate_policy_iff (effective base o)).1 v) ∙ e),
  )
]

-- A policy that `ApplyPolicy` returns passes `Policy.Validate`, whatever the base was.
pub apply_policy-IsValid :
    (base : Policy) (o : ThreadPolicyOverrides) {p : Policy}
    → apply_policy base o ≡ ok p
    → PolicyIsValid p
apply_policy-IsValid base o {p} h = ground (arith, apply_policy-cases base o)
