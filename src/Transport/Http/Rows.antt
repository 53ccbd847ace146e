-- ===== src/Transport/Http/Rows.antt =====
-- The rows that a page of `ListComments` in comment/service.go shows.
use ms_go_comment.Base.{
  All, List, Option, [], ap, false, false≢true, keep, none, pos_part, refl, some, subst, sym, take,
  ℤ, ◌∙◌, ◌∷◌, ◌≡◌,
}
use ms_go_comment.Domain.Actor.{Actor}
use ms_go_comment.Domain.Comment.{Comment, is_hidden_comment}
use ms_go_comment.Domain.Common.{Uuid}
use ms_go_comment.Domain.Grant.{permission_read}
use ms_go_comment.Order.Pages.{listed_row}
use ms_go_comment.Order.Walks.{left_behind, left_behind-visible, rows-left_behind}
use ms_go_comment.Store.Attachments.{list_by_comment}
use ms_go_comment.Store.Comments.{CommentCursor, comment_before, get_comment, list_comments}
use ms_go_comment.Store.Database.{Database}
use ms_go_comment.Store.Monad.{Env}
use ms_go_comment.Store.Rows.{sort_by}
use ms_go_comment.Store.Rows.Sorted.{All-take}
use ms_go_comment.Store.Triples.{
  Triple, Triple-attempt-reads, Triple-bind, Triple-fact, Triple-guard, Triple-if, Triple-lift,
  Triple-pure, Triple-reads, Triple-weaken,
}
use ms_go_comment.Usecase.Discussion.{CommentView, Settings}
use ms_go_comment.Usecase.Discussion.Guards.{IsQuiet, load_thread_context-Triple}
use ms_go_comment.Usecase.Discussion.Read.{check_parent, list_comment_views, view_of, views}

abbrev pub comments_of : List CommentView → List Comment
comments_of [] = []
comments_of (v ∷ vs) = v.comment ∷ comments_of vs

module _ (env : Env) (s : Settings) (quiet : IsQuiet s) where
  views-comments :
      (P : Database → Type 0) (cs : List Comment)
      → All (λ c. is_hidden_comment c.status ≡ false) cs
      → Triple P (views env s cs) (λ vs d. P d × (comments_of vs ≡ cs))
  unfolding views view_of list_by_comment
  views-comments P [] shown = Triple-pure _ _ (λ d p. (p, refl))
  views-comments P (c ∷ cs) shown =
      Triple-if _ (is_hidden_comment c.status) _ _ (λ e. absurd (false≢true (sym shown.0 ∙ e)))
        λ e.
          Triple-bind _ _ (λ v d. P d × (v.comment ≡ c))
            (Triple-bind _ _ (λ a d. P d) (Triple-reads env _ _ (λ d a p e. p))
              λ attachments. Triple-pure _ _ (λ d p. (p, refl)))
            λ v.
              Triple-bind _ _ _ (views-comments (λ d. P d × (v.comment ≡ c)) cs shown.1)
                λ more. Triple-pure _ _ (λ d p. (p.0.0, λ i. p.0.1 i ∷ p.1 i))

  check_parent-Triple :
      (P : Database → Type 0) (thread_id : Uuid) (parent_id : Option Uuid)
      → Triple P (check_parent env s thread_id parent_id) (λ u d. P d)
  unfolding check_parent get_comment
  check_parent-Triple P thread_id none = Triple-pure _ _ (λ d p. p)
  check_parent-Triple P thread_id (some id) =
      Triple-attempt-reads env _ _ _ λ r. Triple-lift _ _ (λ a d e p. p.0)

  -- The rows that a page of the service shows.
  pub list_comment_views-Triple :
      (d0 : Database) (actor : Actor) (thread_id : Uuid) (parent_id : Option Uuid)
      (cursor : Option CommentCursor) (limit : ℤ)
      → Triple
          (λ d. d ≡ d0)
          (list_comment_views env s actor thread_id parent_id cursor limit)
          (λ vs d.
            (d ≡ d0)
            × (comments_of vs ≡ take (pos_part limit) (left_behind cursor thread_id parent_id d0)))
  unfolding list_comment_views list_comments
  list_comment_views-Triple d0 actor thread_id parent_id cursor limit =
      Triple-guard _ _ _ _ λ inside.
        Triple-bind _ _ (λ ctx d. d ≡ d0)
          (Triple-weaken _ _ (λ ctx d h. h.0)
            (load_thread_context-Triple env s quiet (λ d. d ≡ d0) actor thread_id permission_read))
          λ ctx. Triple-bind _ _ _ (check_parent-Triple (λ d. d ≡ d0) ctx.thread.id parent_id) λ _.
            Triple-bind _ _
              (λ rows d.
                (d ≡ d0)
                × (rows ≡ take (pos_part limit) (left_behind cursor thread_id parent_id d0)))
              (Triple-reads env _ _ (λ d rows p e. (
                p,
                let same : take (pos_part limit) (
                          sort_by comment_before
                            (keep (listed_row thread_id parent_id cursor) d.comments))
                        ≡ rows =
                      cc in
                    sym same
                    ∙ ap (take (pos_part limit)) (rows-left_behind thread_id parent_id cursor d)
                    ∙ ap (λ e. take (pos_part limit) (left_behind cursor thread_id parent_id e)) p,
              )))
              λ rows.
                Triple-fact
                  (rows ≡ take (pos_part limit) (left_behind cursor thread_id parent_id d0)) _ _
                  λ shown.
                    Triple-weaken _ _ (λ vs d h. (h.0, h.1 ∙ shown))
                      (views-comments (λ d. d ≡ d0) rows
                        (subst (All (λ c. is_hidden_comment c.status ≡ false)) (sym shown) (
                          All-take _ (pos_part limit) _
                            (left_behind-visible cursor thread_id parent_id d0))))
