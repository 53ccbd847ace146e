-- ===== src/Transport/Guards.antt =====
-- internal/transport/http/middleware/auth.go: who a request comes from.
use ms_go_comment.Base.{
  List, Option, Result, Text, [], authentication_required, err, fail_if, internal_authentication,
  none, not, ok, or_else, some, text_eq, to_upper, trim_space, ℕ, ◌>>◌, ◌||◌,
}
use ms_go_comment.Domain.Actor.{Actor, validate}
use ms_go_comment.Domain.Common.{Time, Uuid}
use ms_go_comment.Transport.Http.{IdParser}
use ms_go_comment.Transport.Limits.{Limiter, rate_limit_actor, token}

-- The headers that the middlewares read; a header that is missing is empty.
pub record Headers : Type 0 where
  pub user_id : Text
  pub user_role : Text
  pub internal_token : Text
  pub access_grant : Text

abbrev pub actor_if : Option Uuid → Text → Result Actor
actor_if none role = err authentication_required
actor_if (some id) role = do
  or_else (validate (record { user_id = id; role = role })) authentication_required
  ok (record { user_id = id; role = role })

-- `RequireActor`: the actor that the rest of the chain finds in its context.
unfoldable pub require_actor : IdParser → Headers → Result Actor
require_actor ids h = actor_if (ids.parse_uuid h.user_id) (to_upper (trim_space h.user_role))

-- `CaptureAccessGrant`: the token that the access service finds in its context.
unfoldable pub capture_access_grant : Headers → Text
capture_access_grant h = h.access_grant

-- `RequireInternalToken`, with the hash of `crypto/sha256`.
unfoldable pub require_internal_token : (Text → List ℕ) → Text → Headers → Result (Unit {0})
require_internal_token sha256 token h =
    fail_if (text_eq token [] || not (text_eq (sha256 h.internal_token) (sha256 token)))
      internal_authentication

abbrev pub limited : Actor → Time → Option Limiter → Result Actor × Option Limiter
limited actor now none = (ok actor, none)
limited actor now (some l) = rate_limit_actor (some actor) now (some l)

abbrev pub admit_actor : Result Actor → Time → Option Limiter → Result Actor × Option Limiter
admit_actor (err e) now limiter = (err e, limiter)
admit_actor (ok actor) now limiter = limited actor now limiter

-- The chain of the user API in api/router.go: the actor is required, and held to its rate where a
-- limiter is configured.
unfoldable pub admit_user :
    IdParser → Headers → Time → Option Limiter → Result Actor × Option Limiter
unfolding require_actor rate_limit_actor
admit_user ids h now limiter = admit_actor (require_actor ids h) now limiter
