-- ===== src/Domain/Grant/Masks.antt =====
-- `AccessPermission.Valid` of internal/domain/access_grant.go.
use ms_go_comment.Base.{
  ==_iff, Bool, Bool-cases, arith, both, inl, inr, not, refl, subst, suc, sym, true, zero, ℕ, ◌&&◌,
  ◌<◌, ◌==◌, ◌||◌, ◌↔◌, ◌≡◌, ◌⊎◌,
}
use ms_go_comment.Domain.Grant.{Permission, permission_valid}

-- Every mask below a bound passes a test, by evaluation.
unfoldable table : (Permission → Bool) → ℕ → Bool
table test zero = true
table test (suc k) = test k && table test k

table-eq-true :
    (test : Permission → Bool) (bound : ℕ)
    → table test bound ≡ true
    → (mask : Permission) → mask < bound
    → test mask ≡ true
unfolding table
table-eq-true test zero passed mask small = absurd (omega arith)
table-eq-true test (suc k) passed mask small =
    let parts = both (test k) (table test k) passed in
    elim (Bool-cases (mask == k)) [
      | inl e ↦ subst (λ m. test m ≡ true) (sym ((==_iff mask k).0 e)) parts.0
      | inr e ↦ table-eq-true test k parts.1 mask (ground arith)
    ]

abbrev listed : Permission → Bool
listed p = p == 1 || p == 3 || p == 7

abbrev agrees : Permission → Bool
agrees p = (permission_valid p && listed p) || (not (permission_valid p) && not (listed p))

valid_table : table agrees 0x10000 ≡ true
unfolding table permission_valid
valid_table = refl

-- Of the 16-bit values, AccessPermission.Valid accepts exactly read, read with write, and all
-- three.
permission_valid_iff :
    (p : Permission) → p < 0x10000 → (permission_valid p ≡ true) ↔ ((p ≡ 1) ⊎ (p ≡ 3) ⊎ (p ≡ 7))
permission_valid_iff p h = ground (arith, table-eq-true agrees 0x10000 valid_table p h)
