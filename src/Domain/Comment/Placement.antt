-- ===== src/Domain/Comment/Placement.antt =====
-- `BuildCommentPlacement` and `ValidatePlacement` of internal/domain/comment.go.
use ms_go_comment.Base.{
  +ℤ_parts, List, Option, Result-cases, [], ap, arith, eq_of_parts, eq_ℤ_iff, false, inl, inr,
  int_laws, is_some, last_from, last_from-append, length, length-append, neg_part, none, ok, pos,
  pos_part, refl, some, true, ℤ, ◌++◌, ◌+ℤ◌, ◌↔◌, ◌∙◌, ◌∷◌, ◌≡◌, ◌≢◌, ◌≤ℤ◌, ◌⊎◌,
}
use ms_go_comment.Domain.Comment.{
  Comment, CommentPlacement, build_comment_placement, endpoints_bad, is_active_comment, place,
  reply_placement, root_placement, shape_bad, validate_placement,
}
use ms_go_comment.Domain.Common.{Uuid}

-- The comment at a place of its own.
abbrev pub placed : Comment → CommentPlacement → Comment
placed c q = record c {
  parent_id = q.parent_id;
  root_id = q.root_id;
  path = q.path;
  depth = q.depth;
}

-- What a valid placement is: its path runs from the root to the comment, and it is a root, or a
-- reply with another root.
pub record PlacementIsValid (c : Comment) : Type 0 where
  pub identified : (c.id ≢ 0) × (c.thread_id ≢ 0) × (c.root_id ≢ 0)
  pub counted : pos 0 ≤ℤ c.depth
  pub shallow : c.depth ≤ℤ pos 32
  pub measured : pos (length c.path) ≡ c.depth +ℤ pos 1
  pub starts : (rest : List Uuid) × (c.path ≡ c.root_id ∷ rest)
  pub ends : (front : List Uuid) × (c.path ≡ front ++ c.id ∷ [])
  pub shape :
      ((c.parent_id ≡ none) × (c.depth ≡ pos 0) × (c.root_id ≡ c.id))
      ⊎ ((parent : Uuid) × (c.parent_id ≡ some parent) × (c.depth ≢ pos 0) × (c.root_id ≢ c.id))

-- The same with the tests of the code.
record Checked (c : Comment) : Type 0 where
  identified : (c.id ≢ 0) × (c.thread_id ≢ 0) × (c.root_id ≢ 0)
  counted : pos 0 ≤ℤ c.depth
  shallow : c.depth ≤ℤ pos 32
  measured : pos (length c.path) ≡ c.depth +ℤ pos 1
  ends : endpoints_bad c.path c.root_id c.id ≡ false
  shape : shape_bad c.parent_id c.depth c.root_id c.id ≡ false

last_split :
    (p : Uuid) (ps : List Uuid) → (front : List Uuid) × (p ∷ ps ≡ front ++ last_from p ps ∷ [])
last_split p [] = ([], refl)
last_split p (q ∷ qs) = let (front, e) = last_split q qs in (p ∷ front, ap (λ l. p ∷ l) e)

abbrev last_or : Uuid → List Uuid → Uuid
last_or d [] = d
last_or d (x ∷ xs) = last_from x xs

last_or-append : (d id : Uuid) (front : List Uuid) → last_or d (front ++ id ∷ []) ≡ id
last_or-append d id [] = refl
last_or-append d id (x ∷ xs) = last_from-append x id xs

endpoints_iff :
    (path : List Uuid) (root id : Uuid)
    → (endpoints_bad path root id ≡ false) ↔ (
        ((rest : List Uuid) × (path ≡ root ∷ rest))
        × ((front : List Uuid) × (path ≡ front ++ id ∷ [])))
endpoints_iff [] root id = (λ h. cc, λ h. let never = h.0.1 in cc)
endpoints_iff (p ∷ ps) root id = (
  λ h.
      let first : p ≡ root = ground arith in
      let last : last_from p ps ≡ id = ground arith in
      let (front, e) = last_split p ps in
      ((ps, ap (λ x. x ∷ ps) first), (front, e ∙ ap (λ x. front ++ x ∷ []) last)),
  λ h.
      let first : p ≡ root = ap (head_or 0) h.0.1 in
      let last : last_from p ps ≡ id = ap (last_or 0) h.1.1 ∙ last_or-append 0 id h.1.0 in
      ground (arith, first, last),
)
  where
    head_or : Uuid → List Uuid → Uuid
    head_or d [] = d
    head_or d (x ∷ xs) = x

shape_iff :
    (parent : Option Uuid) (depth : ℤ) (root id : Uuid)
    → (shape_bad parent depth root id ≡ false) ↔ (
        ((parent ≡ none) × (depth ≡ pos 0) × (root ≡ id))
        ⊎ ((p : Uuid) × (parent ≡ some p) × (depth ≢ pos 0) × (root ≢ id)))
shape_iff none depth root id = (
  λ h. inl (refl, ground (arith, eq_ℤ_iff depth (pos 0)), ground arith),
  λ h. elim h [ inl r ↦ ground (arith, eq_ℤ_iff depth (pos 0), r) | inr r ↦ let never = r.1 in cc ],
)
shape_iff (some q) depth root id = (
  λ h. inr (q, refl, λ z. ground (arith, eq_ℤ_iff depth (pos 0)), λ z. ground arith),
  λ h. elim h [
    | inl r ↦ let never = r.0 in cc
    | inr r ↦ ground (arith, eq_ℤ_iff depth (pos 0), r.2, r.3)
  ],
)

Checked-iff : (c : Comment) → Checked c ↔ PlacementIsValid c
Checked-iff c = (
  λ k.
      let e = (endpoints_iff c.path c.root_id c.id).0 k.ends in
      record {
        identified = k.identified;
        counted = k.counted;
        shallow = k.shallow;
        measured = k.measured;
        starts = e.0;
        ends = e.1;
        shape = (shape_iff c.parent_id c.depth c.root_id c.id).0 k.shape;
      },
  λ v. record {
    identified = v.identified;
    counted = v.counted;
    shallow = v.shallow;
    measured = v.measured;
    ends = (endpoints_iff c.path c.root_id c.id).1 (v.starts, v.ends);
    shape = (shape_iff c.parent_id c.depth c.root_id c.id).1 v.shape;
  },
)

validate_placement-Checked : (c : Comment) → (validate_placement c ≡ ok tt) ↔ Checked c
unfolding validate_placement
validate_placement-Checked c = (
  λ h. ground (arith, eq_ℤ_iff (pos (length c.path)) (c.depth +ℤ pos 1)),
  λ v. ground (arith, eq_ℤ_iff (pos (length c.path)) (c.depth +ℤ pos 1)),
)

-- ValidatePlacement accepts exactly the comments whose identifiers are set, whose depth is 0 to 32
-- and one less than the length of the path, whose path starts with the root and ends with the
-- comment, and that either have no parent, depth 0 and themselves as root, or a parent, another
-- depth and another root.
pub validate_placement_iff : (c : Comment) → (validate_placement c ≡ ok tt) ↔ PlacementIsValid c
validate_placement_iff c = (
  λ h. (Checked-iff c).0 ((validate_placement-Checked c).0 h),
  λ v. (validate_placement-Checked c).1 ((Checked-iff c).1 v),
)

-- What `BuildCommentPlacement` checks before it places a comment.
pub record Admits (id thread_id : Uuid) (max_depth : ℤ) : Type 0 where
  pub named : (id ≢ 0) × (thread_id ≢ 0)
  pub bounded : (pos 1 ≤ℤ max_depth) × (max_depth ≤ℤ pos 32)

build-Admits :
    (id thread_id : Uuid) (parent : Option Comment) (max_depth : ℤ) {q : CommentPlacement}
    → build_comment_placement id thread_id parent max_depth ≡ ok q
    → Admits id thread_id max_depth × (place id thread_id parent max_depth ≡ ok q)
unfolding build_comment_placement
build-Admits id thread_id parent max_depth {q} h = (ground arith, ground arith)

-- A reply is placed only below an active, valid parent of the same thread, and directly below it.
place-reply :
    (id thread_id : Uuid) (parent : Comment) (max_depth : ℤ) {q : CommentPlacement}
    → place id thread_id (some parent) max_depth ≡ ok q
    → (parent.thread_id ≡ thread_id)
      × (is_active_comment parent.status ≡ true)
      × Checked parent
      × (parent.depth +ℤ pos 1 ≤ℤ max_depth)
      × (q ≡ reply_placement id parent)
unfolding place
place-reply id thread_id parent max_depth {q} h = elim (Result-cases (validate_placement parent)) [
  | inl (u, e) ↦ ground (arith, (validate_placement-Checked parent).0 e)
  | inr (x, e) ↦ absurd (ground arith)
]

-- A root is placed at depth 0, as its own root.
place-root :
    (id thread_id : Uuid) (max_depth : ℤ) {q : CommentPlacement}
    → place id thread_id none max_depth ≡ ok q
    → q ≡ root_placement id
unfolding place
place-root id thread_id max_depth {q} h = ground arith

root-Checked :
    (c : Comment) (max_depth : ℤ)
    → Admits c.id c.thread_id max_depth
    → Checked (placed c (root_placement c.id))
unfolding ◌+ℤ◌
root-Checked c max_depth a = ground arith

last_from_path :
    (path : List Uuid) (root parent id : Uuid)
    → endpoints_bad path root parent ≡ false
    → endpoints_bad (path ++ id ∷ []) root id ≡ false
last_from_path [] root parent id h = cc
last_from_path (p ∷ ps) root parent id h = ground (arith, last_from-append p id ps)

reply-Checked :
    (c : Comment) (parent : Comment) (max_depth : ℤ)
    → Admits c.id c.thread_id max_depth
    → Checked parent
    → parent.depth +ℤ pos 1 ≤ℤ max_depth
    → c.id ≢ parent.root_id
    → Checked (placed c (reply_placement c.id parent))
reply-Checked c parent max_depth a v deep fresh = record {
  identified = (a.named.0, a.named.1, v.identified.2);
  counted = omega (int_laws, v.counted);
  shallow = omega (int_laws, a.bounded.1);
  measured = eq_of_parts _ _ (
      omega (
        int_laws,
        length-append parent.path (c.id ∷ []),
        ap pos_part v.measured,
        ap neg_part v.measured,
        v.counted,
      ));
  ends = last_from_path parent.path parent.root_id parent.id c.id v.ends;
  shape = ground (arith, +ℤ_parts parent.depth (pos 1));
}

-- A comment placed as BuildCommentPlacement says passes ValidatePlacement, if a reply has another
-- identifier than the root of its parent.
pub build_comment_placement-IsValid :
    (c : Comment) (parent : Option Comment) (max_depth : ℤ) {q : CommentPlacement}
    → build_comment_placement c.id c.thread_id parent max_depth ≡ ok q
    → (is_some parent ≡ true → c.id ≢ q.root_id)
    → PlacementIsValid (placed c q)
build_comment_placement-IsValid c none max_depth {q} h fresh =
    let (a, p) = build-Admits c.id c.thread_id none max_depth h in
    (Checked-iff (placed c q)).0
      (rw (place-root c.id c.thread_id max_depth p) (root-Checked c max_depth a))
build_comment_placement-IsValid c (some parent) max_depth {q} h fresh =
    let (a, p) = build-Admits c.id c.thread_id (some parent) max_depth h in
    let (_, _, v, deep, e) = place-reply c.id c.thread_id parent max_depth p in
    (Checked-iff (placed c q)).0
      (rw e (reply-Checked c parent max_depth a v deep (rw e at (fresh refl))))
