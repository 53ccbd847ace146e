-- ===== src/Order/Pages.antt =====
-- `List` of comment_repository.go.
use ms_go_comment.Base.{
  ==_iff, All, Bool, Bool-cases, List, Option, [], any, arith, inl, inr, keep, length,
  length-take_le, ltb, none, not, ok, pos_part, refl, some, take, true, ℤ, ◌&&◌, ◌<◌, ◌==◌, ◌↔◌,
  ◌∷◌, ◌≡◌, ◌≤◌, ◌⊎◌,
}
use ms_go_comment.Domain.Comment.{Comment, CommentStatus, is_hidden_comment, visible_comment_iff}
use ms_go_comment.Domain.Common.{Time, Uuid, equal_uuid_ptr, equal_uuid_ptr_iff}
use ms_go_comment.Store.Comments.{CommentCursor, behind_cursor, comment_before, list_comments}
use ms_go_comment.Store.Database.{Database}
use ms_go_comment.Store.Rows.{All-map, sort_by}
use ms_go_comment.Store.Rows.Sorted.{
  All-kept, All-of_kept, All-of_sorted, All-sort_by, All-take, Ordered, sort_by-Ordered,
  take-Ordered, take-covers,
}

abbrev pub listed_row : Uuid → Option Uuid → Option CommentCursor → Comment → Bool
listed_row thread_id parent_id cursor c =
    c.thread_id == thread_id
    && equal_uuid_ptr c.parent_id parent_id
    && not (is_hidden_comment c.status)
    && behind_cursor cursor c

-- The order of a list: by time, and then by identifier.
abbrev pub Earlier : Comment → Comment → Type 0
Earlier a b = (a.created_at < b.created_at) ⊎ ((a.created_at ≡ b.created_at) × (a.id ≤ b.id))

-- Strictly behind the row that a cursor names.
abbrev pub Behind : Option CommentCursor → Comment → Type 0
Behind none c = Unit
Behind (some k) c = (k.created_at < c.created_at) ⊎ ((k.created_at ≡ c.created_at) × (k.id < c.id))

pub record Listed (thread_id : Uuid) (parent_id : Option Uuid) (cursor : Option CommentCursor)
    (c : Comment) : Type 0 where
  pub of_thread : c.thread_id ≡ thread_id
  pub below : c.parent_id ≡ parent_id
  pub visible : ¬ (c.status ≡ CommentStatus.hidden)
  pub behind : Behind cursor c

abbrev pub InTime : List Comment → Type 0
InTime [] = Unit
InTime (x ∷ xs) = All (Earlier x) xs × InTime xs

-- What a page of comments promises: sorted, as asked for, and a missing row is behind all of it.
pub record PageIsSorted (P : Comment → Type 0) (d : Database) (rows : List Comment) : Type 0 where
  pub ordered : InTime rows
  pub asked_for : All P rows
  pub complete :
      All
        (λ c. P c → (any (λ x. c.id == x.id) rows ≡ true) ⊎ All (λ x. Earlier x c) rows)
        d.comments

before-Earlier : (a b : Comment) → comment_before a b ≡ true → Earlier a b
before-Earlier a b h = elim (Bool-cases (ltb a.created_at b.created_at)) [
  | inl e ↦ inl (ground arith)
  | inr e ↦ inr (ground arith, ground arith)
]

Ordered-InTime : (xs : List Comment) → Ordered comment_before xs → InTime xs
Ordered-InTime [] h = tt
Ordered-InTime (x ∷ xs) h =
    (All-map _ _ xs (λ y e. before-Earlier x y e) h.0, Ordered-InTime xs h.1)

behind_iff :
    (cursor : Option CommentCursor) (c : Comment)
    → (behind_cursor cursor c ≡ true) ↔ Behind cursor c
behind_iff none c = (λ h. tt, λ h. refl)
behind_iff (some k) c = (
  λ h. elim (Bool-cases (ltb k.created_at c.created_at)) [
    | inl e ↦ inl (ground arith)
    | inr e ↦ inr (ground arith, ground arith)
  ],
  λ h. elim h [ inl e ↦ ground arith | inr e ↦ ground arith ],
)

Listed-iff :
    (thread_id : Uuid) (parent_id : Option Uuid) (cursor : Option CommentCursor) (c : Comment)
    → (listed_row thread_id parent_id cursor c ≡ true) ↔ Listed thread_id parent_id cursor c
Listed-iff thread_id parent_id cursor c = (
  λ h. record {
    of_thread = ground arith;
    below = (equal_uuid_ptr_iff c.parent_id parent_id).0 (ground arith);
    visible = (visible_comment_iff c.status).0 (ground arith);
    behind = (behind_iff cursor c).0 (ground arith);
  },
  λ v. ground (
    arith,
    v.of_thread,
    (equal_uuid_ptr_iff c.parent_id parent_id).1 v.below,
    (visible_comment_iff c.status).1 v.visible,
    (behind_iff cursor c).1 v.behind,
  ),
)

-- ListComments returns at most the limit of comments, in the order of their times and then of their
-- identifiers, all of the thread and parent asked for, none hidden, and each strictly behind the
-- cursor in time or, at the same time, in identifier; such a comment that the page lacks comes
-- after every comment of the page.
pub list_comments-IsSorted :
    (thread_id : Uuid) (parent_id : Option Uuid) (cursor : Option CommentCursor) (limit : ℤ)
    (now : Time) (d : Database)
    → (rows : List Comment) × (list_comments thread_id parent_id cursor limit now d ≡ (ok rows, d))
      × PageIsSorted (Listed thread_id parent_id cursor) d rows
      × (length rows ≤ pos_part limit)
unfolding list_comments
list_comments-IsSorted thread_id parent_id cursor limit now d = (
  take (pos_part limit) sorted,
  refl,
  record {
    ordered = Ordered-InTime _ (take-Ordered comment_before (pos_part limit) sorted in_order);
    asked_for = All-take _ (pos_part limit) sorted (
        All-sort_by _ comment_before (keep test d.comments)
          (All-kept _ test d.comments (itself d.comments)));
    complete =
        All-map _ _ d.comments
          (λ c found v. elim (found ((Listed-iff thread_id parent_id cursor c).1 v)) [
            | inl e ↦ inl e
            | inr e ↦ inr (All-map _ _ _ (λ x k. before-Earlier x c k) e)
          ])
          (All-of_kept _ test d.comments (
            All-of_sorted _ comment_before (keep test d.comments) (
              take-covers comment_before (λ c x. c.id == x.id) (λ x. (==_iff x.id x.id).1 refl)
                (pos_part limit) sorted in_order)));
  },
  length-take_le (pos_part limit) sorted,
)
  where
    test : Comment → Bool
    test = listed_row thread_id parent_id cursor

    sorted : List Comment
    sorted = sort_by comment_before (keep test d.comments)

    in_order : Ordered comment_before sorted
    in_order =
        sort_by-Ordered comment_before (λ x y h. ground arith) (λ x y z h k. ground arith)
          (keep test d.comments)

    itself : (ys : List Comment) → All (λ x. test x ≡ true → Listed thread_id parent_id cursor x) ys
    itself [] = tt
    itself (y ∷ ys) = ((Listed-iff thread_id parent_id cursor y).0, itself ys)
