-- ===== src/Usecase/Discussion/Guards.antt =====
-- The checks of `loadThreadContext` and `loadMutableComment` of comment/service.go.
use ms_go_comment.Base.{
  Option, ap, arith, bit_and, codes, equal_fold, false, find, inl, inr, is_blank, none, not, ok,
  pos, pos_part, refl, some, true, ℕ, ℤ, ◌*◌, ◌+◌, ◌==◌, ◌≡◌, ◌≢◌, ◌≤◌, ◌⊎◌,
}
use ms_go_comment.Domain.Actor.{Actor}
use ms_go_comment.Domain.Comment.{CommentStatus}
use ms_go_comment.Domain.Common.{Uuid, second}
use ms_go_comment.Domain.Grant.{Permission, permission_read, permission_write}
use ms_go_comment.Domain.Space.{
  AccessMode, Space, SpaceStatus, is_active_space, is_authenticated, is_context_grant,
}
use ms_go_comment.Domain.Space.Bounds.{PolicyIsValid}
use ms_go_comment.Domain.Thread.{ResourceReference, ThreadStatus, apply_policy}
use ms_go_comment.Domain.Thread.Policies.{apply_policy-IsValid}
use ms_go_comment.Store.Comments.{get_comment}
use ms_go_comment.Store.Database.{Database, or_not_found}
use ms_go_comment.Store.Monad.{Env}
use ms_go_comment.Store.Spaces.{get_space}
use ms_go_comment.Store.Threads.{get_thread}
use ms_go_comment.Store.Triples.{
  Given, IsPassive, Triple, Triple-bind, Triple-bind-lift, Triple-clock, Triple-fail, Triple-given,
  Triple-guard, Triple-if, Triple-lift, Triple-or_missing, Triple-passive, Triple-pure,
  Triple-reads, Triple-weaken, clock_given,
}
use ms_go_comment.Transport.Http.Statuses.{required}
use ms_go_comment.Usecase.Discussion.{Authorizer, MutableComment, Settings, ThreadContext}
use ms_go_comment.Usecase.Discussion.Context.{
  ask_access, authorize_access, load_mutable_comment, load_thread_context,
}
use ms_go_comment.Usecase.Discussion.Facts.{
  active_comment_lem, active_lem, authenticated_lem, context_grant_lem, includes_lem, known_lem,
  opened_lem, shown_thread_lem,
}

-- The authorizer is asked and changes nothing.
abbrev pub IsQuiet : Settings → Type 0
IsQuiet s =
    (access : Authorizer)
    → s.access ≡ some access
    → (actor : Actor) (space : Space) (resource : ResourceReference)
    → IsPassive (access actor space resource)

-- A grant that the authorizer answered with covers what is required.
pub record Granted (s : Settings) (actor : Actor) (space : Space) (resource : ResourceReference)
    (required : Permission) : Type 0 where
  pub access : Authorizer
  pub configured : s.access ≡ some access
  pub permissions : Permission
  pub answered : Given (access actor space resource) permissions
  pub enough : bit_and permissions required ≡ required

-- The space is active, and open to all, or its authorizer has granted what is required.
abbrev pub Permitted : Settings → Actor → Space → ResourceReference → Permission → Type 0
Permitted s actor space resource required =
    (space.status ≡ SpaceStatus.active)
    × ((space.access_mode ≡ AccessMode.authenticated)
        ⊎ ((space.access_mode ≡ AccessMode.context_grant)
            × Granted s actor space resource required))

-- The thread and its space were found, may be seen, and may be changed if that was asked for.
pub record Admitted (s : Settings) (actor : Actor) (id : Uuid) (required : Permission)
    (ctx : ThreadContext) (d : Database) : Type 0 where
  pub actor_known :
      ¬ (actor.user_id ≡ 0)
      × (is_blank actor.role ≡ false)
      × (equal_fold actor.role (codes "GUEST") ≡ false)
  pub found : find (λ t. t.id == id) d.threads ≡ some ctx.thread
  pub housed : find (λ s. s.id == ctx.thread.space_id) d.spaces ≡ some ctx.space
  pub permitted : Permitted s actor ctx.space ctx.thread.resource required
  pub visible : ¬ (ctx.thread.status ≡ ThreadStatus.hidden)
  pub writable : required ≢ permission_read → ctx.thread.status ≡ ThreadStatus.opened
  pub policy : apply_policy ctx.space.policy ctx.thread.policy_overrides ≡ ok ctx.policy
  pub policy_valid : PolicyIsValid ctx.policy

module _ (env : Env) (s : Settings) (quiet : IsQuiet s) where
  ask_access-Triple :
      (P : Database → Type 0) (access : Option Authorizer) (actor : Actor) (space : Space)
      (resource : ResourceReference) (required : Permission)
      → s.access ≡ access
      → Triple P
          (ask_access env s access actor space resource required)
          (λ u d. P d × Granted s actor space resource required)
  unfolding ask_access
  ask_access-Triple P none actor space resource required e = Triple-fail _ _
  ask_access-Triple P (some access) actor space resource required e =
      Triple-bind _ _ (λ a d. P d × Given (access actor space resource) a)
        (Triple-given _ (Triple-passive P _ (quiet access e actor space resource)))
        λ permissions. Triple-lift _ _ λ a d fits p. (
          p.0,
          record {
            access = access;
            configured = e;
            permissions = permissions;
            answered = p.1;
            enough = includes_lem permissions required (ground arith);
          },
        )

  pub authorize_access-Permitted :
      (P : Database → Type 0) (actor : Actor) (space : Space) (resource : ResourceReference)
      (required : Permission)
      → Triple P
          (authorize_access env s actor space resource required)
          (λ u d. P d × Permitted s actor space resource required)
  unfolding authorize_access
  authorize_access-Permitted P actor space resource required =
      Triple-if _ (not (is_active_space space.status)) _ _ (λ _. Triple-fail _ _)
        λ off.
          let active = active_lem space.status off in
          Triple-if _ (is_authenticated space.access_mode) _ _
            (λ e.
              Triple-pure _ _ (λ d p. (p, (active, inl (authenticated_lem space.access_mode e)))))
            λ _.
              Triple-if _ (not (is_context_grant space.access_mode)) _ _ (λ _. Triple-fail _ _)
                λ e.
                  Triple-weaken _ _
                    (λ u d h. (h.0, (active, inr (context_grant_lem space.access_mode e, h.1))))
                    (ask_access-Triple P s.access actor space resource required refl)

  pub authorize_access-Triple :
      (P : Database → Type 0) (actor : Actor) (space : Space) (resource : ResourceReference)
      (required : Permission)
      → Triple P
          (authorize_access env s actor space resource required)
          (λ u d. P d × (is_active_space space.status ≡ true))
  authorize_access-Triple P actor space resource required =
      Triple-weaken _ _ (λ u d h. (h.0, ap is_active_space h.1.0))
        (authorize_access-Permitted P actor space resource required)

  -- If the authorizer changes nothing, a run of loadThreadContext that returns keeps any property
  -- of the database; the actor is known and no guest, the thread of the identifier and its space
  -- are returned as stored, the space is active and either open to all or its authorizer answered
  -- with permissions that cover what is required, the thread is not hidden, is open unless only
  -- reading was required, and the policy, that of the space under the overrides of the thread, is
  -- within the limits of a policy.
  pub load_thread_context-Triple :
      (P : Database → Type 0) (actor : Actor) (id : Uuid) (required : Permission)
      → Triple P
          (load_thread_context env s actor id required)
          (λ ctx d. P d × Admitted s actor id required ctx d)
  unfolding load_thread_context get_thread get_space
  load_thread_context-Triple P actor id required = Triple-bind-lift _ _ _ λ u valid.
      Triple-bind _ _ (λ t d. P d × (or_not_found (find (λ t. t.id == id) d.threads) ≡ ok t))
        (Triple-or_missing _ _ _ (Triple-reads env _ _ (λ d t p e. (p, e))))
        λ t.
          Triple-bind _ _
            (λ sp d.
              (P d × (or_not_found (find (λ t. t.id == id) d.threads) ≡ ok t))
              × (or_not_found (find (λ s. s.id == t.space_id) d.spaces) ≡ ok sp))
            (Triple-or_missing _ _ _ (Triple-reads env _ _ (λ d sp p e. (p, e))))
            λ sp. Triple-bind _ _ _ (authorize_access-Permitted _ actor sp t.resource required) λ _.
              Triple-guard _ _ _ _ λ visible. Triple-guard _ _ _ _ λ writable.
                Triple-bind-lift _ _ _ λ policy applied. Triple-pure _ _ λ d h. (
                  h.0.0.0,
                  record {
                    actor_known = known_lem actor valid;
                    found = ground arith;
                    housed = ground arith;
                    permitted = h.1;
                    visible = shown_thread_lem t.status visible;
                    writable = λ ne. opened_lem t.status (ground arith);
                    policy = applied;
                    policy_valid = apply_policy-IsValid sp.policy t.policy_overrides applied;
                  },
                )

-- What `loadMutableComment` has checked beyond that: the comment is active, the actor's, of the
-- version, and a reading of the clock is within the edit window of the policy of its thread.
pub record Editable (env : Env) (s : Settings) (actor : Actor) (id : Uuid) (version : ℤ)
    (r : MutableComment) (d : Database) : Type 0 where
  pub found : find (λ c. c.id == id) d.comments ≡ some r.item
  pub context : ThreadContext
  pub admitted : Admitted s actor r.item.thread_id permission_write context d
  pub loaded : (r.thread ≡ context.thread) × (r.policy ≡ context.policy)
  pub active : r.item.status ≡ CommentStatus.active
  pub own : r.item.author_id ≡ actor.user_id
  pub current : r.item.version ≡ version
  pub open_thread : r.thread.status ≡ ThreadStatus.opened
  pub window : ¬ (r.policy.edit_window_seconds ≡ pos 0)
  pub read : ℕ
  pub in_time : env.now_at read ≤ r.item.created_at + pos_part r.policy.edit_window_seconds * second

module _ (env : Env) (s : Settings) (quiet : IsQuiet s) where
  -- If the authorizer changes nothing, a run of loadMutableComment that returns keeps any property
  -- of the database, and has found the comment of the identifier; it is active, of the actor and of
  -- the expected version, its thread and policy are those that loadThreadContext finds for a write,
  -- the thread is open, and a reading of the clock was within the edit window of that policy, which
  -- is not 0, after the comment was made.
  pub load_mutable_comment-Triple :
      (P : Database → Type 0) (actor : Actor) (id : Uuid) (version : ℤ)
      → Triple P
          (load_mutable_comment env s actor id version)
          (λ r d. P d × Editable env s actor id version r d)
  unfolding load_mutable_comment get_comment
  load_mutable_comment-Triple P actor id version = Triple-bind-lift _ _ _ λ u valid.
      Triple-guard _ _ _ _ λ named.
        Triple-bind _ _ (λ c d. P d × (or_not_found (find (λ c. c.id == id) d.comments) ≡ ok c))
          (Triple-or_missing _ _ _ (Triple-reads env _ _ (λ d t p e. (p, e))))
          λ c. Triple-guard _ _ _ _ λ active.
            Triple-bind _ _ _
              (load_thread_context-Triple env s quiet _ actor c.thread_id permission_write)
              λ ctx. Triple-guard _ _ _ _ λ own. Triple-guard _ _ _ _ λ current.
                Triple-bind _ _ _ (Triple-given _ (Triple-clock env)) λ now.
                  Triple-guard _ _ _ _ λ window. Triple-pure _ _ λ d h.
                    let (n, e) = clock_given env now h.1 in
                    (
                      h.0.0.0,
                      record {
                        found = ground arith;
                        context = ctx;
                        admitted = h.0.1;
                        loaded = (refl, refl);
                        active = active_comment_lem c.status active;
                        own = ground arith;
                        current = ground arith;
                        open_thread = h.0.1.writable (λ e. ground arith);
                        window = ground arith;
                        read = n;
                        in_time = ground arith;
                      },
                    )
