-- ===== src/Domain/Comment.antt =====
-- internal/domain/comment.go: comments and their place in the tree of a thread.
pub mod Placement
use ms_go_comment.Base.{
  Bool, List, Option, Result, Text, [], cross_thread_parent, eq_ℤ, fail_if, false,
  invalid_placement, last_from, length, ltb_ℤ, max_depth_exceeded, ne_ℤ, none, not, ok, or_else,
  pos, refl, some, true, ℤ, ◌!=◌, ◌++◌, ◌+ℤ◌, ◌==◌, ◌>>=◌, ◌>>◌, ◌||◌, ◌↔◌, ◌∷◌, ◌≡◌,
}
use ms_go_comment.Domain.Common.{Time, Uuid}
use ms_go_comment.Domain.Content.{Link}
use ms_go_comment.Domain.Space.{max_allowed_depth}

pub data CommentStatus : Type 0 where
  active deleted hidden : CommentStatus
  other : ℤ → CommentStatus

-- `CommentStatus.Valid`
abbrev pub comment_status_valid : CommentStatus → Bool
comment_status_valid (CommentStatus.other _) = false
comment_status_valid _ = true

abbrev pub is_active_comment : CommentStatus → Bool
is_active_comment CommentStatus.active = true
is_active_comment _ = false

abbrev pub is_deleted_comment : CommentStatus → Bool
is_deleted_comment CommentStatus.deleted = true
is_deleted_comment _ = false

abbrev pub is_hidden_comment : CommentStatus → Bool
is_hidden_comment CommentStatus.hidden = true
is_hidden_comment _ = false

-- `s == t`
abbrev pub status_eq : CommentStatus → CommentStatus → Bool
status_eq CommentStatus.active t = is_active_comment t
status_eq CommentStatus.deleted t = is_deleted_comment t
status_eq CommentStatus.hidden t = is_hidden_comment t
status_eq (CommentStatus.other a) (CommentStatus.other b) = eq_ℤ a b
status_eq (CommentStatus.other a) _ = false

pub record Comment : Type 0 where
  pub id : Uuid
  pub thread_id : Uuid
  pub author_id : Uuid
  pub parent_id : Option Uuid
  pub root_id : Uuid
  pub path : List Uuid
  pub depth : ℤ
  pub body : Text
  pub links : List Link
  pub status : CommentStatus
  pub version : ℤ
  pub sequence : ℤ
  pub direct_replies_count : ℤ
  pub idempotency_key : Uuid
  pub edited_at : Option Time
  pub deleted_at : Option Time
  pub created_at : Time
  pub updated_at : Time

pub record CommentPlacement : Type 0 where
  pub parent_id : Option Uuid
  pub root_id : Uuid
  pub path : List Uuid
  pub depth : ℤ

-- `c.Path[0] != c.RootID || c.Path[len(c.Path)-1] != c.ID`; the empty path is refused before.
abbrev pub endpoints_bad : List Uuid → Uuid → Uuid → Bool
endpoints_bad [] root id = true
endpoints_bad (p ∷ ps) root id = p != root || last_from p ps != id

-- The test on a root, and on a reply.
abbrev pub shape_bad : Option Uuid → ℤ → Uuid → Uuid → Bool
shape_bad none depth root id = ne_ℤ depth (pos 0) || root != id
shape_bad (some _) depth root id = eq_ℤ depth (pos 0) || root == id

-- `Comment.ValidatePlacement`
unfoldable pub validate_placement : Comment → Result (Unit {0})
validate_placement c = do
  fail_if (c.id == 0 || c.thread_id == 0 || c.root_id == 0) invalid_placement
  fail_if
      (ltb_ℤ c.depth (pos 0)
        || ltb_ℤ max_allowed_depth c.depth
        || ne_ℤ (pos (length c.path)) (c.depth +ℤ pos 1))
      invalid_placement
  fail_if (endpoints_bad c.path c.root_id c.id) invalid_placement
  fail_if (shape_bad c.parent_id c.depth c.root_id c.id) invalid_placement

abbrev pub root_placement : Uuid → CommentPlacement
root_placement id = record { parent_id = none; root_id = id; path = id ∷ []; depth = pos 0 }

abbrev pub reply_placement : Uuid → Comment → CommentPlacement
reply_placement id parent = record {
  parent_id = some parent.id;
  root_id = parent.root_id;
  path = parent.path ++ id ∷ [];
  depth = parent.depth +ℤ pos 1;
}

-- What `BuildCommentPlacement` does once the identifiers are checked.
unfoldable pub place : Uuid → Uuid → Option Comment → ℤ → Result CommentPlacement
place id thread_id none max_depth = ok (root_placement id)
place id thread_id (some parent) max_depth = do
  fail_if (parent.thread_id != thread_id) cross_thread_parent
  fail_if (not (is_active_comment parent.status)) invalid_placement
  or_else (validate_placement parent) invalid_placement
  fail_if (ltb_ℤ max_depth (parent.depth +ℤ pos 1)) max_depth_exceeded
  ok (reply_placement id parent)

-- `BuildCommentPlacement`
unfoldable pub build_comment_placement : Uuid → Uuid → Option Comment → ℤ → Result CommentPlacement
unfolding place
build_comment_placement id thread_id parent max_depth = do
  fail_if
      (id == 0 || thread_id == 0 || ltb_ℤ max_depth (pos 1) || ltb_ℤ max_allowed_depth max_depth)
      invalid_placement
  place id thread_id parent max_depth

pub visible_comment_iff :
    (s : CommentStatus) → (is_hidden_comment s ≡ false) ↔ (¬ (s ≡ CommentStatus.hidden))
visible_comment_iff CommentStatus.hidden = (λ h. cc, λ h. absurd (h refl))
visible_comment_iff s = (λ h e. cc, λ h. refl)

pub hidden_comment_lem : (s : CommentStatus) → is_hidden_comment s ≡ true → s ≡ CommentStatus.hidden
hidden_comment_lem CommentStatus.hidden h = refl
hidden_comment_lem s h = cc
