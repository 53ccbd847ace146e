-- ===== src/Order/Walks.antt =====
-- The list of comments that the cursors of comment_repository.go walk through.
use ms_go_comment.Base.{
  All, Bool, List, Option, [], ap, arith, drop, false, keep, last_from, none, refl, some, subst,
  sym, take, true, ℕ, ◌&&◌, ◌∙◌, ◌∷◌, ◌≡◌, ◌≢◌,
}
use ms_go_comment.Domain.Comment.{Comment, is_hidden_comment}
use ms_go_comment.Domain.Common.{Uuid}
use ms_go_comment.Order.{AllApart}
use ms_go_comment.Order.Listing.{
  All-last, Follows, Pairwise, Pairwise-keep, Pairwise-sort, keep-drop, keep-keep, keep-same,
  sort-keep,
}
use ms_go_comment.Order.Pages.{listed_row}
use ms_go_comment.Store.Comments.{CommentCursor, behind_cursor, comment_before}
use ms_go_comment.Store.Database.{Database}
use ms_go_comment.Store.Rows.{All-keep, All-map, All-zip, sort_by}
use ms_go_comment.Store.Rows.Sorted.{All-kept, All-sort_by, Ordered, sort_by-Ordered}

-- All that a list of comments shows, in its order.
abbrev pub listing : Uuid → Option Uuid → Database → List Comment
listing thread_id parent_id d =
    sort_by comment_before (keep (listed_row thread_id parent_id none) d.comments)

abbrev pub cursor_at : Comment → CommentCursor
cursor_at c = record { created_at = c.created_at; id = c.id }

abbrev pub behind_row : Comment → Comment → Bool
behind_row k c = behind_cursor (some (cursor_at k)) c

-- What is left of a list behind a cursor.
abbrev pub left_behind : Option CommentCursor → Uuid → Option Uuid → Database → List Comment
left_behind cursor thread_id parent_id d =
    keep (behind_cursor cursor) (listing thread_id parent_id d)

total_before : (x y : Comment) → comment_before x y ≡ false → comment_before y x ≡ true
total_before x y h = ground arith

chain_before :
    (x y z : Comment)
    → comment_before x y ≡ true
    → comment_before y z ≡ true
    → comment_before x z ≡ true
chain_before x y z h k = ground arith

-- The rows that a page is cut from.
pub rows-left_behind :
    (thread_id : Uuid) (parent_id : Option Uuid) (cursor : Option CommentCursor) (d : Database)
    → sort_by comment_before (keep (listed_row thread_id parent_id cursor) d.comments)
      ≡ left_behind cursor thread_id parent_id d
rows-left_behind thread_id parent_id cursor d =
    ap (sort_by comment_before) (
      keep-same (listed_row thread_id parent_id cursor) _ d.comments (λ c. ground arith)
      ∙ sym (keep-keep (listed_row thread_id parent_id none) (behind_cursor cursor) d.comments))
    ∙ sort-keep comment_before total_before chain_before (behind_cursor cursor)
        (keep (listed_row thread_id parent_id none) d.comments)

abbrev pub Distinct : Comment → Comment → Type 0
Distinct x y = x.id ≢ y.id

AllApart-Distinct : (cs : List Comment) → AllApart cs → Pairwise Distinct cs
AllApart-Distinct [] a = tt
AllApart-Distinct (c ∷ cs) a = (All-map _ _ cs (λ x h. h.0) a.0, AllApart-Distinct cs a.1)

irreflexive_row : (x : Comment) → behind_row x x ≡ false
irreflexive_row x = ground arith

abbrev pub Strict : List Comment → Type 0
Strict = Pairwise (Follows behind_row)

Ordered-Strict : (cs : List Comment) → Ordered comment_before cs → Pairwise Distinct cs → Strict cs
Ordered-Strict [] o d = tt
Ordered-Strict (c ∷ cs) o d = (
  All-map _ _ cs (λ x h. (ground arith, ground arith)) (All-zip _ _ cs o.0 d.0),
  Ordered-Strict cs o.1 d.1,
)

-- On rows with identifiers of their own the order of a list is strict.
pub listing-Strict :
    (thread_id : Uuid) (parent_id : Option Uuid) (d : Database)
    → AllApart d.comments
    → Strict (listing thread_id parent_id d)
listing-Strict thread_id parent_id d a =
    Ordered-Strict (listing thread_id parent_id d)
      (sort_by-Ordered comment_before total_before chain_before _)
      (Pairwise-sort comment_before Distinct _ (λ x y h e. h (sym e))
        (Pairwise-keep Distinct (listed_row thread_id parent_id none) d.comments
          (AllApart-Distinct d.comments a)))

chain_cursor :
    (cursor : Option CommentCursor) (k c : Comment)
    → behind_cursor cursor k ≡ true
    → behind_row k c ≡ (behind_cursor cursor c && behind_row k c)
chain_cursor none k c h = refl
chain_cursor (some q) k c h = ground arith

kept_all {ℓ} : {A : Type ℓ} (p : A → Bool) (xs : List A) → All (λ x. p x ≡ true) (keep p xs)
kept_all {A = A} p xs = All-kept _ p xs (each xs)
  where
    each : (ys : List A) → All (λ x. p x ≡ true → p x ≡ true) ys
    each [] = tt
    each (y ∷ ys) = (λ h. h, each ys)

-- The cursor of a page's last row leaves what the page lacks.
pub left_behind-last :
    (L : List Comment) (cursor : Option CommentCursor) (n : ℕ) (x : Comment) (xs : List Comment)
    → Strict L
    → keep (behind_cursor cursor) L ≡ x ∷ xs
    → keep (behind_row (last_from x (take n xs))) L ≡ drop n xs
left_behind-last L cursor n x xs strict e =
    let k : Comment = last_from x (take n xs) in
    let at : behind_cursor cursor k ≡ true =
      All-last (λ c. behind_cursor cursor c ≡ true) n x xs
        (subst (All (λ c. behind_cursor cursor c ≡ true)) e (kept_all (behind_cursor cursor) L)) in
    let rest : Strict (x ∷ xs) =
      subst Strict e (Pairwise-keep (Follows behind_row) (behind_cursor cursor) L strict) in
    keep-same (behind_row k) _ L (λ c. chain_cursor cursor k c at)
    ∙ sym (keep-keep (behind_cursor cursor) (behind_row k) L)
    ∙ ap (keep (behind_row k)) e
    ∙ keep-drop behind_row irreflexive_row n x xs rest

-- A list shows no hidden comment.
pub left_behind-visible :
    (cursor : Option CommentCursor) (thread_id : Uuid) (parent_id : Option Uuid) (d : Database)
    → All (λ c. is_hidden_comment c.status ≡ false) (left_behind cursor thread_id parent_id d)
left_behind-visible cursor thread_id parent_id d = All-keep _ (behind_cursor cursor) _ (
    All-sort_by _ comment_before _ (
      All-map _ _ _ (λ c h. ground arith)
        (kept_all (listed_row thread_id parent_id none) d.comments)))
