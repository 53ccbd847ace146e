-- ===== src/Usecase/Discussion/Frames.antt =====
-- What the writes of attachments and events leave alone: any property that does not look at the
-- two tables.
use ms_go_comment.Base.{Bool, Err, List, [], any, conflict, ◌∷◌}
use ms_go_comment.Domain.Actor.{Actor}
use ms_go_comment.Domain.Attachment.{Attachment}
use ms_go_comment.Domain.Comment.{Comment}
use ms_go_comment.Domain.Common.{Time, Uuid}
use ms_go_comment.Domain.Outbox.{EventSubject, OutboxEvent}
use ms_go_comment.Store.Attachments.{bind_to_comment, update_attachments, update_status}
use ms_go_comment.Store.Database.{Database}
use ms_go_comment.Store.Monad.{Env}
use ms_go_comment.Store.Outbox.{add_event}
use ms_go_comment.Store.Triples.{
  Triple, Triple-bind, Triple-bind-lift, Triple-keeps, Triple-new_id, Triple-pure, affecting-Keeps,
}
use ms_go_comment.Usecase.Discussion.{Settings}
use ms_go_comment.Usecase.Discussion.Create.{bind_all}
use ms_go_comment.Usecase.Discussion.Edit.{drop_attachments}
use ms_go_comment.Usecase.Discussion.Emit.{add_outbox, add_valid_event}

abbrev pub IsBlind : (Database → Type 0) → Type 0
IsBlind P =
    (d : Database) (attachments : List Attachment) (outbox : List OutboxEvent)
    → P d
    → P (record d { attachments = attachments; outbox = outbox })

module _ (P : Database → Type 0) (blind : IsBlind P) where
  pub update_attachments-Keeps :
      (p : Attachment → Bool) (f : Attachment → Attachment) (e : Err) (d : Database)
      → P d
      → P (update_attachments p f e d).1
  update_attachments-Keeps p f e d h =
      affecting-Keeps P (any p d.attachments) e d _ h (blind d _ d.outbox h)

  add_event-Keeps :
      (event : OutboxEvent) (now : Time) (d : Database) → P d → P (add_event event now d).1
  unfolding add_event
  add_event-Keeps event now d h = affecting-Keeps P _ conflict d _ h (blind d d.attachments _ h)

  module _ (env : Env) where
    pub add_valid_event-Triple :
        (event : OutboxEvent) → Triple P (add_valid_event env event) (λ u d. P d)
    unfolding add_valid_event
    add_valid_event-Triple event =
        Triple-bind-lift _ _ _ λ u valid. Triple-keeps env _ (add_event-Keeps event)

    pub add_outbox-Triple :
        (item : Comment) (attachments : List Attachment) (subject : EventSubject) (actor : Uuid)
        (now : Time)
        → Triple P (add_outbox env item attachments subject actor now) (λ u d. P d)
    unfolding add_outbox
    add_outbox-Triple item attachments subject actor now =
        Triple-bind _ _ _ (Triple-new_id env) λ id. add_valid_event-Triple _

  module _ (env : Env) (s : Settings) where
    pub bind_all-Triple :
        (actor : Actor) (item : Comment) (now : Time) (items : List Attachment)
        → Triple P (bind_all env s actor item now items) (λ bound d. P d)
    unfolding bind_all bind_to_comment
    bind_all-Triple actor item now [] = Triple-pure _ _ (λ d p. p)
    bind_all-Triple actor item now (a ∷ more) =
        Triple-bind _ _ _ (Triple-keeps env _ (λ now' d p. update_attachments-Keeps _ _ _ d p)) λ u.
          Triple-bind _ _ _ (bind_all-Triple actor item now more) λ rest. Triple-pure _ _ (λ d p. p)

    pub drop_attachments-Triple :
        (now : Time) (items : List Attachment)
        → Triple P (drop_attachments env s now items) (λ gone d. P d)
    unfolding drop_attachments update_status
    drop_attachments-Triple now [] = Triple-pure _ _ (λ d p. p)
    drop_attachments-Triple now (a ∷ more) =
        Triple-bind _ _ _ (Triple-keeps env _ (λ now' d p. update_attachments-Keeps _ _ _ d p)) λ u.
          Triple-bind _ _ _ (drop_attachments-Triple now more) λ rest. Triple-pure _ _ (λ d p. p)
