-- ===== src/Usecase/Discussion/Facts.antt =====
-- What the tests of `authorizeAccess`, `loadThreadContext` and `loadMutableComment` establish.
use ms_go_comment.Base.{
  arith, bit_and, codes, equal_fold, false, is_blank, not, ok, refl, true, ◌≡◌,
}
use ms_go_comment.Domain.Actor.{Actor, validate}
use ms_go_comment.Domain.Comment.{CommentStatus, is_active_comment}
use ms_go_comment.Domain.Grant.{Permission, includes}
use ms_go_comment.Domain.Space.{
  AccessMode, SpaceStatus, is_active_space, is_authenticated, is_context_grant,
}
use ms_go_comment.Domain.Thread.{ThreadStatus, is_hidden_thread, is_open_thread}

pub includes_lem : (p q : Permission) → includes p q ≡ true → bit_and p q ≡ q
unfolding includes
includes_lem p q h = ground arith

pub known_lem :
    (a : Actor)
    → validate a ≡ ok tt
    → ¬ (a.user_id ≡ 0) × (is_blank a.role ≡ false) × (equal_fold a.role (codes "GUEST") ≡ false)
unfolding validate
known_lem a h = (λ e. ground arith, ground arith, ground arith)

pub shown_thread_lem : (s : ThreadStatus) → is_hidden_thread s ≡ false → ¬ (s ≡ ThreadStatus.hidden)
shown_thread_lem ThreadStatus.hidden h e = cc
shown_thread_lem s h e = cc

pub opened_lem : (s : ThreadStatus) → is_open_thread s ≡ true → s ≡ ThreadStatus.opened
opened_lem ThreadStatus.opened h = refl
opened_lem s h = cc

pub active_lem : (s : SpaceStatus) → not (is_active_space s) ≡ false → s ≡ SpaceStatus.active
active_lem SpaceStatus.active h = refl
active_lem s h = cc

pub authenticated_lem : (m : AccessMode) → is_authenticated m ≡ true → m ≡ AccessMode.authenticated
authenticated_lem AccessMode.authenticated h = refl
authenticated_lem m h = cc

pub context_grant_lem :
    (m : AccessMode) → not (is_context_grant m) ≡ false → m ≡ AccessMode.context_grant
context_grant_lem AccessMode.context_grant h = refl
context_grant_lem m h = cc

pub active_comment_lem :
    (s : CommentStatus) → not (is_active_comment s) ≡ false → s ≡ CommentStatus.active
active_comment_lem CommentStatus.active h = refl
active_comment_lem s h = cc
