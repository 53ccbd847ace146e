-- ===== src/Usecase/Discussion/Replay.antt =====
-- `resolveReplay` of comment/service.go.
use ms_go_comment.Base.{arith, false, map, refl, text_eq_iff, ◌≡◌}
use ms_go_comment.Domain.Actor.{Actor}
use ms_go_comment.Domain.Attachment.{Attachment}
use ms_go_comment.Domain.Comment.{Comment}
use ms_go_comment.Domain.Common.{Uuid, equal_uuid_ptr_iff}
use ms_go_comment.Store.Attachments.Bound.{Attached, list_by_comment-Triple}
use ms_go_comment.Store.Database.{Database}
use ms_go_comment.Store.Monad.{Env}
use ms_go_comment.Store.Spaces.{get_space}
use ms_go_comment.Store.Threads.{get_thread}
use ms_go_comment.Store.Triples.{
  Triple, Triple-bind, Triple-guard, Triple-or_missing, Triple-pure, Triple-reads, Triple-weaken,
}
use ms_go_comment.Usecase.Discussion.{CreateCommentInput, CreateCommentResult, Settings}
use ms_go_comment.Usecase.Discussion.Create.{resolve_replay}
use ms_go_comment.Usecase.Discussion.Guards.{IsQuiet, authorize_access-Triple}
use ms_go_comment.Usecase.Discussion.Sets.{count}
use ms_go_comment.Usecase.Discussion.Sets.Multisets.{equal_uuid_set_iff}

pub record Matches (existing : Comment) (input : CreateCommentInput) (r : CreateCommentResult)
    (d : Database) : Type 0 where
  pub not_created : r.created ≡ false
  pub unchanged : r.view.comment ≡ existing
  pub same_thread : existing.thread_id ≡ input.thread_id
  pub same_parent : existing.parent_id ≡ input.parent_id
  pub same_body : existing.body ≡ input.body
  pub attached : Attached existing.thread_id existing.id d r.view.attachments
  pub same_attachments :
      (x : Uuid) → count x (map (λ a. a.id) r.view.attachments) ≡ count x input.attachment_ids

module _ (env : Env) (s : Settings) (quiet : IsQuiet s) where
  -- If the authorizer changes nothing, a run of resolveReplay that returns keeps any property of
  -- the database and returns the stored comment as it is, not as created, with the attachments that
  -- are stored for it and not deleted, no others and none more often than stored; its thread,
  -- parent and body are those of the request, and its attachments are, as often, those asked for.
  pub resolve_replay-Matches :
      (P : Database → Type 0) (actor : Actor) (existing : Comment) (input : CreateCommentInput)
      → Triple P
          (resolve_replay env s actor existing input)
          (λ r d. P d × Matches existing input r d)
  unfolding resolve_replay get_thread get_space
  resolve_replay-Matches P actor existing input =
      Triple-bind _ _ _ (list_by_comment-Triple env P existing.thread_id existing.id) λ attachments.
        Triple-guard _ _ _ _ λ same.
          let Q = λ (d : Database). P d × Attached existing.thread_id existing.id d attachments in
          Triple-bind _ _ (λ t d. Q d)
            (Triple-or_missing _ _ _ (Triple-reads env _ _ (λ d a p e. p)))
            λ t.
              Triple-bind _ _ (λ sp d. Q d)
                (Triple-or_missing _ _ _ (Triple-reads env _ _ (λ d a p e. p)))
                λ sp.
                  Triple-bind _ _ (λ u d. Q d)
                    (Triple-weaken _ _ (λ u d p. p.0)
                      (authorize_access-Triple env s quiet Q actor sp t.resource _))
                    λ u. Triple-guard _ _ _ _ λ visible. Triple-pure _ _ λ d p. (
                      p.0,
                      record {
                        not_created = refl;
                        unchanged = refl;
                        same_thread = ground arith;
                        same_parent =
                            (equal_uuid_ptr_iff existing.parent_id input.parent_id).0
                              (ground arith);
                        same_body = (text_eq_iff existing.body input.body).0 (ground arith);
                        attached = p.1;
                        same_attachments =
                            (equal_uuid_set_iff (map (λ (a : Attachment). a.id) attachments)
                                input.attachment_ids).0
                              (ground arith);
                      },
                    )
