-- ===== src/Usecase/Discussion/Atomic.antt =====
-- The errors of `CreateComment`, `UpdateComment` and `DeleteComment`.
use ms_go_comment.Base.{Err, Result, err, false, ok, refl, ◌≡◌}
use ms_go_comment.Domain.Actor.{Actor}
use ms_go_comment.Store.Database.{Database}
use ms_go_comment.Store.Monad.{Env, World}
use ms_go_comment.Store.Transactions.{checked-atomic, within_transaction-atomic}
use ms_go_comment.Tests.Samples.{change}
use ms_go_comment.Usecase.Discussion.{
  CreateCommentInput, DeleteCommentInput, Settings, UpdateCommentInput,
}
use ms_go_comment.Usecase.Discussion.Create.{create_comment}
use ms_go_comment.Usecase.Discussion.Edit.{delete_comment, update_comment}

-- The database that a run is to leave behind: the old one where it fails.
abbrev pub kept_on_error : {A : Type 0} → Database → Result A × World → Database
kept_on_error old (ok a, w) = w.db
kept_on_error old (err e, w) = old

kept_lem :
    {A : Type 0} (old : Database) (r : Result A × World)
    → ((e : Err) → r.0 ≡ err e → r.1.db ≡ old)
    → r.1.db ≡ kept_on_error old r
kept_lem old (ok a, w) h = refl
kept_lem old (err e, w) h = h e refl

module _ (env : Env) (s : Settings) where
  -- A CreateComment outside a transaction that returns an error leaves the database as it was.
  create_comment-atomic :
      (actor : Actor) (input : CreateCommentInput) (w : World) {e : Err}
      → w.in_tx ≡ false
      → (create_comment env s actor input w).0 ≡ err e
      → (create_comment env s actor input w).1.db ≡ w.db
  unfolding create_comment
  create_comment-atomic actor input w out =
      checked-atomic _ _ w
        λ u. checked-atomic _ _ w λ u'. within_transaction-atomic env (λ d. Unit) _ w out

  -- An UpdateComment outside a transaction that returns an error leaves the database as it was.
  update_comment-atomic :
      (actor : Actor) (input : UpdateCommentInput) (w : World) {e : Err}
      → w.in_tx ≡ false
      → (update_comment env s actor input w).0 ≡ err e
      → (update_comment env s actor input w).1.db ≡ w.db
  unfolding update_comment
  update_comment-atomic actor input w out = within_transaction-atomic env (λ d. Unit) _ w out

  -- A DeleteComment outside a transaction that returns an error leaves the database as it was.
  delete_comment-atomic :
      (actor : Actor) (input : DeleteCommentInput) (w : World) {e : Err}
      → w.in_tx ≡ false
      → (delete_comment env s actor input w).0 ≡ err e
      → (delete_comment env s actor input w).1.db ≡ w.db
  unfolding delete_comment
  delete_comment-atomic actor input w out = within_transaction-atomic env (λ d. Unit) _ w out

  -- A CreateComment, UpdateComment or DeleteComment outside a transaction that returns an error
  -- leaves the database as it was.
  pub writes-atomic :
      (actor : Actor) (creation : CreateCommentInput) (change : UpdateCommentInput)
      (deletion : DeleteCommentInput) (w : World)
      → w.in_tx ≡ false
      → ((create_comment env s actor creation w).1.db
          ≡ kept_on_error w.db (create_comment env s actor creation w))
        × ((update_comment env s actor change w).1.db
            ≡ kept_on_error w.db (update_comment env s actor change w))
        × ((delete_comment env s actor deletion w).1.db
            ≡ kept_on_error w.db (delete_comment env s actor deletion w))
  writes-atomic actor creation change deletion w out = (
    kept_lem w.db _ (λ e. create_comment-atomic actor creation w out),
    kept_lem w.db _ (λ e. update_comment-atomic actor change w out),
    kept_lem w.db _ (λ e. delete_comment-atomic actor deletion w out),
  )
