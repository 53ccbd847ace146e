-- ===== src/Store/Comments.antt =====
-- comment_repository.go
use ms_go_comment.Base.{
  Bool, Err, List, Option, Result, [], any, conflict, edit_conflict, eq_ℤ, err, find, keep, leb,
  leb_ℤ, ltb, ltb_ℤ, moderation_conflict, none, not, not_found, ok, pos, pos_part, some, take, true,
  ℤ, ◌&&◌, ◌++◌, ◌+ℤ◌, ◌==◌, ◌||◌, ◌∷◌,
}
use ms_go_comment.Domain.Comment.{
  Comment, CommentStatus, is_active_comment, is_hidden_comment, status_eq,
}
use ms_go_comment.Domain.Common.{Time, Uuid, equal_uuid_ptr}
use ms_go_comment.Store.Database.{Database, Query, affecting, or_not_found, reads}
use ms_go_comment.Store.Rows.{sort_by, update_where}

-- The primary key and the unique pair of author and idempotency key.
abbrev pub comment_clashes : Comment → Comment → Bool
comment_clashes item c =
    c.id == item.id || (c.author_id == item.author_id && c.idempotency_key == item.idempotency_key)

unfoldable pub create_comment_row : Comment → Query (Unit {0})
create_comment_row item now d =
    affecting (not (any (comment_clashes item) d.comments)) conflict d
      (record d { comments = d.comments ++ item ∷ [] })

-- `GetByID` and `GetByIDForUpdate`; the lock of the latter orders transactions, which here run one
-- after the other.
unfoldable pub get_comment : Uuid → Query Comment
get_comment id = reads λ d. or_not_found (find (λ c. c.id == id) d.comments)

unfoldable pub get_by_idempotency_key : Uuid → Uuid → Query Comment
get_by_idempotency_key author key =
    reads
      λ d. or_not_found (find (λ c. c.author_id == author && c.idempotency_key == key) d.comments)

-- `LockIdempotencyKey`: an advisory lock, held to the end of the transaction.
unfoldable pub lock_idempotency_key : Uuid → Uuid → Query (Unit {0})
lock_idempotency_key author key = reads λ d. ok tt

pub record CommentCursor : Type 0 where
  pub created_at : Time
  pub id : Uuid

-- `(created_at, id)` as a pair, in order.
abbrev pub comment_before : Comment → Comment → Bool
comment_before a b =
    ltb a.created_at b.created_at || (a.created_at == b.created_at && leb a.id b.id)

abbrev pub behind_cursor : Option CommentCursor → Comment → Bool
behind_cursor none c = true
behind_cursor (some k) c =
    ltb k.created_at c.created_at || (k.created_at == c.created_at && ltb k.id c.id)

-- `List`
unfoldable pub list_comments : Uuid → Option Uuid → Option CommentCursor → ℤ → Query (List Comment)
unfolding sort_by
list_comments thread_id parent_id cursor limit = reads λ d. ok (
    take (pos_part limit) (
      sort_by comment_before (
        keep
          (λ c.
            c.thread_id == thread_id
            && equal_uuid_ptr c.parent_id parent_id
            && not (is_hidden_comment c.status)
            && behind_cursor cursor c)
          d.comments)))

-- `ORDER BY sequence`
abbrev pub sequence_before : Comment → Comment → Bool
sequence_before a b = leb_ℤ a.sequence b.sequence

-- `ListChanges`
unfoldable pub list_comment_changes : Uuid → ℤ → ℤ → Query (List Comment)
unfolding sort_by
list_comment_changes thread_id after_sequence limit = reads λ d. ok (
    take (pos_part limit) (
      sort_by sequence_before
        (keep (λ c. c.thread_id == thread_id && ltb_ℤ after_sequence c.sequence) d.comments)))

-- The rows that a statement with `version=$ AND status=` touches.
abbrev pub is_version : Uuid → ℤ → (CommentStatus → Bool) → Comment → Bool
is_version id version status c = c.id == id && eq_ℤ c.version version && status c.status

abbrev pub update_comments :
    (Comment → Bool) → (Comment → Comment) → Err → Database → Result (Unit {0}) × Database
update_comments p f e d =
    affecting (any p d.comments) e d (record d { comments = update_where p f d.comments })

abbrev pub set_content : Comment → Comment → Comment
set_content item row = record row {
  body = item.body;
  links = item.links;
  version = item.version;
  sequence = item.sequence;
  edited_at = item.edited_at;
  updated_at = item.updated_at;
}

-- `UpdateContent`
unfoldable pub update_content : Comment → ℤ → Query (Unit {0})
unfolding update_where
update_content item expected now d =
    update_comments (is_version item.id expected is_active_comment) (set_content item) edit_conflict
      d

abbrev pub set_deleted : Comment → Comment → Comment
set_deleted item row = record row {
  body = [];
  links = [];
  status = item.status;
  version = item.version;
  sequence = item.sequence;
  deleted_at = item.deleted_at;
  updated_at = item.updated_at;
}

-- `MarkDeleted`
unfoldable pub mark_deleted : Comment → ℤ → Query (Unit {0})
unfolding update_where
mark_deleted item expected now d =
    update_comments (is_version item.id expected is_active_comment) (set_deleted item) edit_conflict
      d

abbrev pub set_moderated : Comment → Comment → Comment
set_moderated item row = record row {
  status = item.status;
  version = item.version;
  sequence = item.sequence;
  updated_at = item.updated_at;
}

-- `UpdateModerationStatus`
unfoldable pub update_moderation_status : Comment → CommentStatus → ℤ → Query (Unit {0})
unfolding update_where
update_moderation_status item expected_status expected_version now d =
    update_comments (is_version item.id expected_version (λ s. status_eq s expected_status))
      (set_moderated item) moderation_conflict d

abbrev pub add_reply : Time → Comment → Comment
add_reply now c = record c {
  direct_replies_count = c.direct_replies_count +ℤ pos 1;
  updated_at = now;
}

-- `IncrementReplyCount`
unfoldable pub increment_reply_count : Uuid → Uuid → Query (Unit {0})
unfolding update_where
increment_reply_count thread_id id now d =
    update_comments (λ c. c.thread_id == thread_id && c.id == id) (add_reply now) not_found d

abbrev pub set_sequence : ℤ → Time → Comment → Comment
set_sequence sequence at c = record c {
  sequence = sequence;
  version = c.version +ℤ pos 1;
  updated_at = at;
}

abbrev pub advance_row : Uuid → ℤ → Time → Option Comment → Database → Result Comment × Database
advance_row id sequence at none d = (err not_found, d)
advance_row id sequence at (some c) d = (
  ok (set_sequence sequence at c),
  record d { comments = update_where (λ c. c.id == id) (set_sequence sequence at) d.comments },
)

-- `AdvanceSequence`
unfoldable pub advance_sequence : Uuid → ℤ → Time → Query Comment
unfolding update_where
advance_sequence id sequence at now d =
    advance_row id sequence at (find (λ c. c.id == id) d.comments) d
