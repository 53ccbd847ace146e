-- ===== src/Domain/Actor.antt =====
-- internal/domain/actor.go
use ms_go_comment.Base.{
  Result, Text, authentication_required, codes, equal_fold, fail_if, is_blank, ◌==◌, ◌||◌,
}
use ms_go_comment.Domain.Common.{Uuid}

pub record Actor : Type 0 where
  pub user_id : Uuid
  pub role : Text

-- `Actor.Validate`
unfoldable pub validate : Actor → Result (Unit {0})
validate a =
    fail_if (a.user_id == 0 || is_blank a.role || equal_fold a.role (codes "GUEST"))
      authentication_required
