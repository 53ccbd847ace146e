-- ===== src/Usecase/Discussion/Redaction.antt =====
-- `changeViews` of comment/service.go.
use ms_go_comment.Base.{List, [], if◌then◌else◌, refl, ◌∷◌, ◌≡◌}
use ms_go_comment.Domain.Comment.{
  Comment, CommentStatus, hidden_comment_lem, is_hidden_comment, visible_comment_iff,
}
use ms_go_comment.Store.Attachments.Bound.{Attached, list_by_comment-Triple}
use ms_go_comment.Store.Database.{Database}
use ms_go_comment.Store.Monad.{Env, pure}
use ms_go_comment.Store.Triples.{Triple, Triple-bind, Triple-if, Triple-pure}
use ms_go_comment.Usecase.Discussion.{CommentView, Settings}
use ms_go_comment.Usecase.Discussion.Read.{change_views, redacted, view_of}

-- Read at a state of the database.
pub data Shows (c : Comment) (v : CommentView) (d : Database) : Type 0 where
  in_full :
      ¬ (c.status ≡ CommentStatus.hidden)
      → v.comment ≡ c
      → Attached c.thread_id c.id d v.attachments
      → Shows c v d
  without_content :
      c.status ≡ CommentStatus.hidden
      → v.comment ≡ record c { body = []; links = [] }
      → v.attachments ≡ []
      → Shows c v d

abbrev pub AllShown : List Comment → List CommentView → Database → Type 0
AllShown [] [] d = Unit
AllShown [] (_ ∷ _) d = ⊥
AllShown (_ ∷ _) [] d = ⊥
AllShown (c ∷ cs) (v ∷ vs) d = Shows c v d × AllShown cs vs d

module _ (env : Env) (s : Settings) where
  shown :
      (P : Database → Type 0) (c : Comment)
      → Triple P
          (if is_hidden_comment c.status then pure (redacted env s c) else view_of env s c)
          (λ v d. P d × Shows c v d)
  unfolding view_of
  shown P c =
      Triple-if _ (is_hidden_comment c.status) _ _
        (λ e.
          Triple-pure _ _ (λ d p. (p, without_content (hidden_comment_lem c.status e) refl refl)))
        (λ e. Triple-bind _ _ _ (list_by_comment-Triple env P c.thread_id c.id) λ attachments.
          Triple-pure _ _ (λ d h. (h.0, in_full ((visible_comment_iff c.status).0 e) refl h.1)))

  -- A run of changeViews that returns keeps any property of the database and shows the comments one
  -- by one in their order: as they are with the attachments that are stored for them and not
  -- deleted, no others and none more often than stored, or without body, links and attachments if
  -- the comment is hidden.
  pub change_views-AllShown :
      (P : Database → Type 0) (cs : List Comment)
      → Triple P (change_views env s cs) (λ vs d. P d × AllShown cs vs d)
  unfolding change_views
  change_views-AllShown P [] = Triple-pure _ _ (λ d p. (p, tt))
  change_views-AllShown P (c ∷ cs) =
      Triple-bind _ _ (λ v d. P d × Shows c v d) (shown P c)
        λ v.
          Triple-bind _ _ _ (change_views-AllShown (λ d. P d × Shows c v d) cs)
            λ more. Triple-pure _ _ (λ d p. (p.0.0, (p.0.1, p.1)))
