-- ===== src/Base/Results.antt =====
-- Go's `error` by the sentinel of internal/domain/errors.go that `errors.Is` finds in it, and the
-- pair of a value and an error.
use mathlib.Core.Path.{◌≡◌, refl}
use mathlib.Core.Logic.{◌⊎◌, inl, inr, ◌≢◌}
use mathlib.Core.Bool.{Bool, true, false}

-- The sentinels, and `unavailable` for an error that wraps none of them.
pub data Err : Type 0 where
  validation invalid_space_key invalid_policy invalid_resource invalid_comment_content : Err
  invalid_placement cross_thread_parent max_depth_exceeded images_disabled links_disabled : Err
  invalid_attachment invalid_outbox_event invalid_realtime_ticket invalid_access_grant : Err
  not_found conflict authentication_required internal_authentication rate_limited : Err
  access_required forbidden thread_not_writable edit_conflict moderation_conflict : Err
  idempotency_conflict space_not_found thread_not_found comment_not_found parent_not_found : Err
  attachment_not_found attachment_not_ready realtime_ticket_invalid unavailable : Err

pub data Result {ℓ} (A : Type ℓ) : Type ℓ where
  ok : A → Result A
  err : Err → Result A

infixl 5 ◌>>=◌ ◌>>◌
-- The rest of a function behind `if err != nil { return err }`.
abbrev pub ◌>>=◌ {κ μ} : {X : Type κ} {Y : Type μ} → Result X → (X → Result Y) → Result Y
err x >>= rest = err x
ok x >>= rest = rest x

abbrev pub ◌>>◌ {μ} : {Y : Type μ} → Result (Unit {0}) → Result Y → Result Y
check >> rest = check >>= λ u. rest

-- `if c { return err }`
abbrev pub fail_if : Bool → Err → Result (Unit {0})
fail_if true e = err e
fail_if false e = ok tt

-- `if err := r; err != nil { return e }`
abbrev pub or_else {ℓ} : {A : Type ℓ} → Result A → Err → Result A
or_else (ok a) e = ok a
or_else (err _) e = err e

abbrev pub is_ok {ℓ} : {A : Type ℓ} → Result A → Bool
is_ok (ok a) = true
is_ok (err e) = false

-- What a chain that succeeds went through.
pub >>=-eq-ok {κ μ} :
    {X : Type κ} {Y : Type μ} (r : Result X) (rest : X → Result Y) {y : Y}
    → (r >>= rest) ≡ ok y
    → (x : X) × (r ≡ ok x) × (rest x ≡ ok y)
>>=-eq-ok (err x) rest h = cc
>>=-eq-ok (ok x) rest h = (x, refl, h)

-- A guard that let the run pass was false.
fail_if-eq-ok : (b : Bool) (e : Err) {u : Unit {0}} → fail_if b e ≡ ok u → b ≡ false
fail_if-eq-ok true e h = cc
fail_if-eq-ok false e h = refl

pub Result-cases {ℓ} :
    {A : Type ℓ} (r : Result A) → ((a : A) × (r ≡ ok a)) ⊎ ((e : Err) × (r ≡ err e))
Result-cases (ok a) = inl (a, refl)
Result-cases (err e) = inr (e, refl)

pub ok≢err {ℓ} : {A : Type ℓ} {a : A} {e : Err} → ok a ≢ err e
ok≢err h = cc
