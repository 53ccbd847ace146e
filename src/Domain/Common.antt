-- ===== src/Domain/Common.antt =====
-- What the entities share: identifiers, times, and the texts that the regular expressions of
-- internal/domain/space.go, internal/domain/thread.go and internal/domain/access_grant.go accept.
use ms_go_comment.Base.{
  Bool, Option, Text, [], all, arith, false, is_digit, is_lower, leb, length, ltb, none, refl, some,
  true, ℕ, ◌&&◌, ◌==◌, ◌||◌, ◌↔◌, ◌∷◌, ◌≡◌,
}

-- A UUID as the number of its 128 bits; `uuid.Nil` is 0.
abbrev pub Uuid : Type 0
Uuid = ℕ

-- A `time.Time` in nanoseconds, and a `time.Duration`; the zero time is 0.
abbrev pub Time : Type 0
Time = ℕ

abbrev pub second : ℕ
second = 1_000_000_000

abbrev pub minute : ℕ
minute = 60_000_000_000

-- `t.After(u)`
abbrev pub after : Time → Time → Bool
after t u = ltb u t

-- `*left == *right`, or both nil: `equalUUIDPtr` and `sameOptionalUUID`.
abbrev pub equal_uuid_ptr : Option Uuid → Option Uuid → Bool
equal_uuid_ptr none none = true
equal_uuid_ptr none (some _) = false
equal_uuid_ptr (some _) none = false
equal_uuid_ptr (some a) (some b) = a == b

-- `[a-z0-9]` and `[a-z0-9._-]`
unfoldable pub slug_start : ℕ → Bool
slug_start c = is_lower c || is_digit c

unfoldable pub slug_char : ℕ → Bool
unfolding slug_start
slug_char c = slug_start c || c == b'.' || c == b'_' || c == b'-'

-- `^[a-z0-9][a-z0-9._-]{lo,hi}$`
unfoldable pub is_slug : ℕ → ℕ → Text → Bool
unfolding slug_char
is_slug lo hi [] = false
is_slug lo hi (c ∷ s) = slug_start c && all slug_char s && leb lo (length s) && leb (length s) hi

pub equal_uuid_ptr_iff : (a b : Option Uuid) → (equal_uuid_ptr a b ≡ true) ↔ (a ≡ b)
equal_uuid_ptr_iff none none = (λ h. refl, λ h. refl)
equal_uuid_ptr_iff none (some y) = (λ h. cc, λ h. cc)
equal_uuid_ptr_iff (some x) none = (λ h. cc, λ h. cc)
equal_uuid_ptr_iff (some x) (some y) =
    (λ h. ground arith, λ h. let same : x ≡ y = cc in ground arith)
