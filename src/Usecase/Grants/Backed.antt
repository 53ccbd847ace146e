-- ===== src/Usecase/Grants/Backed.antt =====
-- `Permissions` of access/service.go and the grants behind them.
use ms_go_comment.Base.{List, Option, Text, find, ok, some, text_eq, true, ℕ, ◌&&◌, ◌<◌, ◌≡◌, ◌⊎◌}
use ms_go_comment.Domain.Actor.{Actor}
use ms_go_comment.Domain.Common.{after}
use ms_go_comment.Domain.Grant.{AccessGrant, Permission, full_access_permissions, validate_grant}
use ms_go_comment.Domain.Space.{Space, is_active_space, is_authenticated, is_context_grant}
use ms_go_comment.Domain.Thread.{ResourceReference}
use ms_go_comment.Store.Database.{Database}
use ms_go_comment.Store.Monad.{Env}
use ms_go_comment.Usecase.Grants.{Codec}

-- The row that the secret in the token leads to, unexpired at a reading of the clock, as an argument.
pub record Holds (env : Env) (codec : Codec) (context_token : Option Text) (actor : Actor)
    (space : Space) (resource : ResourceReference) (p : Permission) (d : Database) : Type 0 where
  pub grant : AccessGrant
  pub secret : List ℕ
  pub token : Text
  pub carried : context_token ≡ some token
  pub decoded : codec.decode token ≡ some secret
  pub at : ℕ
  pub stored :
      find
        (λ g. text_eq g.grant_hash (codec.sha256 secret) && after g.expires_at (env.now_at at))
        d.grants
      ≡ some grant
  pub hashed : grant.grant_hash ≡ codec.sha256 secret
  pub valid : validate_grant grant ≡ ok tt
  pub own : (grant.user_id ≡ actor.user_id) × (grant.space_id ≡ space.id)
  pub same_resource : (grant.resource.kind ≡ resource.kind) × (grant.resource.id ≡ resource.id)
  pub now : ℕ
  pub live : env.now_at now < grant.expires_at
  pub given : grant.permissions ≡ p

-- All permissions in an open space, or those of a grant in a private one.
abbrev pub Entitled :
    Env → Codec → Option Text → Actor → Space → ResourceReference → Permission → Database → Type 0
Entitled env codec token actor space resource p d =
    (is_active_space space.status ≡ true)
    × (((is_authenticated space.access_mode ≡ true) × (p ≡ full_access_permissions))
        ⊎ ((is_context_grant space.access_mode ≡ true)
            × Holds env codec token actor space resource p d))
