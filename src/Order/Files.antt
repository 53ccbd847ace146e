-- ===== src/Order/Files.antt =====
-- The operations on attachments and the order of the changes: what they share.
pub mod Removal
pub mod Work
-- A bound attachment stands in the thread of its comment: the foreign key of `thread_id` and
-- `comment_id` in db/migrations/001_init.up.sql.
use ms_go_comment.Base.{
  ==_iff, All, Bool, Err, Option, find, find-eq-some, none, refl, some, subst, sym, ℤ, ◌==◌, ◌∙◌,
  ◌≡◌,
}
use ms_go_comment.Domain.Comment.{Comment}
use ms_go_comment.Domain.Common.{Time, Uuid}
use ms_go_comment.Domain.Thread.{Thread}
use ms_go_comment.Order.{Sequenced}
use ms_go_comment.Order.Comments.{Owned, find-Owned, renumber-Sequenced}
use ms_go_comment.Order.Steps.{Ready}
use ms_go_comment.Order.Threads.{next_sequence_any_state-fresh}
use ms_go_comment.Store.Comments.{advance_row, advance_sequence, set_sequence}
use ms_go_comment.Store.Database.{Database}
use ms_go_comment.Store.Monad.{Env, call}
use ms_go_comment.Store.Rows.{All-map}
use ms_go_comment.Store.Threads.{next_sequence_any_state, returning}
use ms_go_comment.Store.Triples.{Triple, Triple-call}

abbrev pub AttachmentsHoused : Database → Type 0
AttachmentsHoused d =
    All (λ a. All (λ c. a.comment_id ≡ some c.id → c.thread_id ≡ a.thread_id) d.comments)
      d.attachments

-- The row that a lookup by identifier finds has it.
pub find-owner :
    (id : Uuid) (d : Database) (c : Comment)
    → Sequenced d
    → find (λ c. c.id == id) d.comments ≡ some c
    → (c.id ≡ id) × Owned c.id c.thread_id d.comments
find-owner id d c s e =
    let same : c.id ≡ id = (==_iff c.id id).0 (find-eq-some _ d.comments c e) in
    (same, All-map _ _ d.comments (λ x h k. h (k ∙ same)) (find-Owned id d.comments c s.apart e))

advance_row-Sequenced :
    (id thread_id : Uuid) (q : ℤ) (at : Time) (o : Option Comment) (d : Database)
    → Ready id thread_id q d
    → Sequenced (advance_row id q at o d).1
advance_row-Sequenced id thread_id q at none d r = r.kept
advance_row-Sequenced id thread_id q at (some c) d r =
    renumber-Sequenced id thread_id q _ (set_sequence q at) (λ x h. (==_iff x.id id).0 h)
      (λ x. refl) (λ x. refl) (λ x. refl) d r.kept r.fresh r.own

returning-same_comments :
    (now : Time) (p : Thread → Bool) (e : Err) (o : Option Thread) (d : Database)
    → (returning now p e o d).1.comments ≡ d.comments
returning-same_comments now p e none d = refl
returning-same_comments now p e (some t) d = refl

module _ (env : Env) where
  -- `AdvanceSequence` with the number taken.
  pub advance_sequence-Triple :
      (id thread_id : Uuid) (q : ℤ) (at : Time)
      → Triple (Ready id thread_id q) (call env (advance_sequence id q at)) (λ c d. Sequenced d)
  unfolding advance_sequence
  advance_sequence-Triple id thread_id q at =
      Triple-call env _ _ λ now d c r e. advance_row-Sequenced id thread_id q at _ d r

  pub next_sequence_any_state-Triple :
      (id thread_id : Uuid)
      → Triple
          (λ d. Sequenced d × Owned id thread_id d.comments)
          (call env (next_sequence_any_state thread_id))
          (λ q d. Ready id thread_id q d)
  unfolding next_sequence_any_state
  next_sequence_any_state-Triple id thread_id = Triple-call env _ _ λ now d q h e.
      let (s, r) = next_sequence_any_state-fresh thread_id now d q h.0 e in
      record {
        kept = s;
        fresh = r;
        own =
            subst (λ cs. Owned id thread_id cs)
              (sym (returning-same_comments now _ _ (find (λ t. t.id == thread_id) d.threads) d))
              h.1;
      }
