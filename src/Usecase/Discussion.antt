-- ===== src/Usecase/Discussion.antt =====
-- internal/usecase/comment/service.go: what the service is configured with, its inputs and views.
pub mod Context
pub mod Facts
pub mod Guards
pub mod Emit
pub mod Sets
pub mod Create
pub mod Edit
pub mod Read
pub mod Frames
pub mod Atomic
pub mod Replay
pub mod Redaction
use ms_go_comment.Base.{Bool, List, Option, Text, ℤ}
use ms_go_comment.Domain.Actor.{Actor}
use ms_go_comment.Domain.Attachment.{Attachment}
use ms_go_comment.Domain.Comment.{Comment}
use ms_go_comment.Domain.Common.{Uuid}
use ms_go_comment.Domain.Grant.{Permission}
use ms_go_comment.Domain.Space.{Policy, Space}
use ms_go_comment.Domain.Thread.{ResourceReference, Thread}
use ms_go_comment.Store.Monad.{M}

-- `AccessAuthorizer.Permissions`
abbrev pub Authorizer : Type 0
Authorizer = Actor → Space → ResourceReference → M Permission

-- The fields of `Service` that are not ports; `access` may be nil.
pub record Settings : Type 0 where
  pub access : Option Authorizer
  pub attachment_ttl_minutes : ℤ
  pub signed_url_minutes : ℤ
  pub activation_max_attempts : ℤ

pub record EnsureThreadInput : Type 0 where
  pub space_key : Text
  pub resource : ResourceReference

pub record CreateCommentInput : Type 0 where
  pub thread_id : Uuid
  pub parent_id : Option Uuid
  pub body : Text
  pub attachment_ids : List Uuid
  pub idempotency_key : Uuid

pub record UpdateCommentInput : Type 0 where
  pub comment_id : Uuid
  pub body : Text
  pub expected_version : ℤ

pub record DeleteCommentInput : Type 0 where
  pub comment_id : Uuid
  pub expected_version : ℤ

pub record CommentView : Type 0 where
  pub comment : Comment
  pub attachments : List Attachment

pub record ThreadView : Type 0 where
  pub thread : Thread
  pub policy : Policy

pub record CreateCommentResult : Type 0 where
  pub view : CommentView
  pub created : Bool

-- What `loadThreadContext` and `loadMutableComment` return.
pub record ThreadContext : Type 0 where
  pub thread : Thread
  pub space : Space
  pub policy : Policy

pub record MutableComment : Type 0 where
  pub item : Comment
  pub thread : Thread
  pub policy : Policy
