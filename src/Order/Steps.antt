-- ===== src/Order/Steps.antt =====
-- The order of the changes and `UpdateComment` and `DeleteComment` of comment/service.go.
use ms_go_comment.Base.{
  ap, ==_iff, Bool, Err, List, Option, any, arith, edit_conflict, false, find, find-eq-some, none,
  refl, some, subst, sym, true, ℤ, ◌&&◌, ◌==◌, ◌∙◌, ◌≡◌,
}
use ms_go_comment.Domain.Actor.{Actor}
use ms_go_comment.Domain.Attachment.{Attachment}
use ms_go_comment.Domain.Comment.{Comment, CommentStatus, is_active_comment}
use ms_go_comment.Domain.Common.{Time, Uuid}
use ms_go_comment.Domain.Content.{CommentContent}
use ms_go_comment.Domain.Thread.{Thread, is_open_thread}
use ms_go_comment.Order.{FreshSequence, Sequenced}
use ms_go_comment.Order.Comments.{Owned, find-Owned, renumber-Sequenced}
use ms_go_comment.Order.Threads.{next_sequence-fresh}
use ms_go_comment.Store.Attachments.{list_by_comment}
use ms_go_comment.Store.Comments.{is_version, mark_deleted, update_comments, update_content}
use ms_go_comment.Store.Database.{Database, Query}
use ms_go_comment.Store.Monad.{Env, World, call}
use ms_go_comment.Store.Rows.{All-map}
use ms_go_comment.Store.Threads.{next_sequence, returning}
use ms_go_comment.Store.Transactions.{within_transaction-Keeps}
use ms_go_comment.Store.Triples.{
  Triple, Triple-bind, Triple-bind-lift, Triple-call, Triple-clock, Triple-pure, Triple-reads,
  Triple-weaken, affecting-Keeps,
}
use ms_go_comment.Usecase.Discussion.{
  DeleteCommentInput, MutableComment, Settings, UpdateCommentInput,
}
use ms_go_comment.Usecase.Discussion.Edit.{
  delete_comment, update_comment, updated_content, write_delete, write_update,
}
use ms_go_comment.Usecase.Discussion.Frames.{IsBlind, add_outbox-Triple, drop_attachments-Triple}
use ms_go_comment.Usecase.Discussion.Guards.{Editable, IsQuiet, load_mutable_comment-Triple}

pub Sequenced-blind : IsBlind Sequenced
Sequenced-blind d attachments outbox s = record {
  keyed = s.keyed;
  apart = s.apart;
  bounded = s.bounded;
  housed = s.housed;
}

-- What the writers know between `NextSequence` and their write.
pub record Ready (id thread_id : Uuid) (q : ℤ) (d : Database) : Type 0 where
  pub kept : Sequenced d
  pub fresh : FreshSequence thread_id q d
  pub own : Owned id thread_id d.comments

-- Taking a number changes no comment.
returning-comments :
    (now : Time) (p : Thread → Bool) (e : Err) (o : Option Thread) (d : Database)
    → (returning now p e o d).1.comments ≡ d.comments
returning-comments now p e none d = refl
returning-comments now p e (some t) d = refl

next_sequence-comments :
    (id : Uuid) (now : Time) (d : Database) → (next_sequence id now d).1.comments ≡ d.comments
unfolding next_sequence
next_sequence-comments id now d =
    returning-comments now _ _ (find (λ t. t.id == id && is_open_thread t.status) d.threads) d

module _ (env : Env) where
  pub next_sequence-Triple :
      (id thread_id : Uuid)
      → Triple
          (λ d. Sequenced d × Owned id thread_id d.comments)
          (call env (next_sequence thread_id))
          (λ q d. Ready id thread_id q d)
  next_sequence-Triple id thread_id = Triple-call env _ _ λ now d q h e.
      let (s, r) = next_sequence-fresh thread_id now d q h.0 e in
      record {
        kept = s;
        fresh = r;
        own =
            subst (λ cs. Owned id thread_id cs) (sym (next_sequence-comments thread_id now d)) h.1;
      }

  -- A write of one version of a comment with the number taken.
  pub renumber-Triple :
      (id thread_id : Uuid) (q : ℤ) (p : Comment → Bool) (f : Comment → Comment) (e : Err)
      (query : Query (Unit {0}))
      → ((now : Time) (d : Database) → query now d ≡ update_comments p f e d)
      → ((x : Comment) → p x ≡ true → x.id ≡ id)
      → ((x : Comment) → (f x).id ≡ x.id)
      → ((x : Comment) → (f x).thread_id ≡ x.thread_id)
      → ((x : Comment) → (f x).sequence ≡ q)
      → Triple (Ready id thread_id q) (call env query) (λ u d. Sequenced d)
  renumber-Triple id thread_id q p f e query is only same_id same_thread renumbers =
      Triple-call env query _ λ now d u h _. rw (is now d) (
        affecting-Keeps Sequenced (any p d.comments) e d _ h.kept (
          renumber-Sequenced id thread_id q p f only same_id same_thread renumbers d h.kept h.fresh
            h.own))

-- The rows of one version of a comment.
pub is_version-only :
    (id : Uuid) (version : ℤ) (status : CommentStatus → Bool) (x : Comment)
    → is_version id version status x ≡ true
    → x.id ≡ id
is_version-only id version status x h = ground arith

-- What an editable comment gives the writers.
Editable-Owned :
    {env : Env} {s : Settings} {actor : Actor} {id : Uuid} {version : ℤ} {r : MutableComment}
    {d : Database}
    → Sequenced d
    → Editable env s actor id version r d
    → Owned r.item.id r.thread.id d.comments
Editable-Owned {id = id} {r = r} {d = d} s v =
    let own = find-Owned id d.comments r.item s.apart v.found in
    let same : r.item.id ≡ id =
      (==_iff r.item.id id).0 (find-eq-some _ d.comments r.item v.found) in
    let at : r.thread.id ≡ r.item.thread_id =
      (==_iff r.thread.id r.item.thread_id).0 (
        find-eq-some _ d.threads r.thread (v.admitted.found ∙ ap (λ t. some t) (sym v.loaded.0))) in
    All-map _ _ d.comments (λ c h e. h (e ∙ same) ∙ sym at) own

module _ (env : Env) (s : Settings) (quiet : IsQuiet s) where
  write_update-Triple :
      (actor : Actor) (input : UpdateCommentInput) (item : Comment) (thread : Thread)
      (content : CommentContent) (attachments : List Attachment)
      → Triple
          (λ d. Sequenced d × Owned item.id thread.id d.comments)
          (write_update env s actor input item thread content attachments)
          (λ v d. Sequenced d)
  unfolding write_update update_content
  write_update-Triple actor input item thread content attachments =
      Triple-bind _ _ _ (next_sequence-Triple env item.id thread.id) λ q.
        Triple-bind _ _ _ (Triple-clock env) λ now.
          Triple-bind _ _ _
            (renumber-Triple env item.id thread.id q _ _ edit_conflict _ (λ now' d. refl)
              (is_version-only item.id input.expected_version is_active_comment) (λ x. refl)
              (λ x. refl) (λ x. refl))
            λ u.
              Triple-bind _ _ _ (add_outbox-Triple Sequenced Sequenced-blind env _ _ _ _ _)
                λ u'. Triple-pure _ _ (λ d p. p)

  write_delete-Triple :
      (actor : Actor) (input : DeleteCommentInput) (item : Comment) (thread : Thread)
      → Triple
          (λ d. Sequenced d × Owned item.id thread.id d.comments)
          (write_delete env s actor input item thread)
          (λ v d. Sequenced d)
  unfolding write_delete mark_deleted list_by_comment
  write_delete-Triple actor input item thread =
      Triple-bind _ _ _ (next_sequence-Triple env item.id thread.id) λ q.
        Triple-bind _ _ _ (Triple-clock env) λ now.
          Triple-bind _ _ _
            (renumber-Triple env item.id thread.id q _ _ edit_conflict _ (λ now' d. refl)
              (is_version-only item.id input.expected_version is_active_comment) (λ x. refl)
              (λ x. refl) (λ x. refl))
            λ u.
              Triple-bind _ _ (λ a d. Sequenced d) (Triple-reads env _ _ (λ d a p e. p))
                λ attachments.
                  Triple-bind _ _ _ (drop_attachments-Triple Sequenced Sequenced-blind env s _ _)
                    λ gone.
                      Triple-bind _ _ _ (add_outbox-Triple Sequenced Sequenced-blind env _ _ _ _ _)
                        λ u'. Triple-pure _ _ (λ d p. p)

  -- Where the authorizer changes nothing and the context carries no transaction, UpdateComment
  -- keeps the order of the changes, whatever its outcome.
  pub update_comment-Sequenced :
      (actor : Actor) (input : UpdateCommentInput) (w : World)
      → w.in_tx ≡ false
      → Sequenced w.db
      → Sequenced (update_comment env s actor input w).1.db
  unfolding update_comment list_by_comment
  update_comment-Sequenced actor input w out =
      within_transaction-Keeps env Sequenced _
        (Triple-bind _ _ _ (load_mutable_comment-Triple env s quiet Sequenced actor _ _) λ found.
          Triple-bind _ _ (λ a d. Sequenced d × Owned found.item.id found.thread.id d.comments)
            (Triple-reads env _ _ (λ d a p e. (p.0, Editable-Owned p.0 p.1)))
            λ attachments. Triple-bind-lift _ _ _ λ u valid.
              write_update-Triple actor input found.item found.thread
                (updated_content env s input.body attachments) attachments)
        w out

  -- Where the authorizer changes nothing and the context carries no transaction, DeleteComment
  -- keeps the order of the changes, whatever its outcome.
  pub delete_comment-Sequenced :
      (actor : Actor) (input : DeleteCommentInput) (w : World)
      → w.in_tx ≡ false
      → Sequenced w.db
      → Sequenced (delete_comment env s actor input w).1.db
  unfolding delete_comment
  delete_comment-Sequenced actor input w out =
      within_transaction-Keeps env Sequenced _
        (Triple-bind _ _ _
          (Triple-weaken _ (λ r d. Sequenced d × Owned r.item.id r.thread.id d.comments)
            (λ r d p. (p.0, Editable-Owned p.0 p.1))
            (load_mutable_comment-Triple env s quiet Sequenced actor _ _))
          λ found. write_delete-Triple actor input found.item found.thread)
        w out
