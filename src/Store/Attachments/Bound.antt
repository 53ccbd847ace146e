-- ===== src/Store/Attachments/Bound.antt =====
-- `ListByComment` of attachment_repository.go, which gives a comment its attachments.
use mathlib.Core.List.{Mem, mem-cons_of_mem, mem-cons_self}
use ms_go_comment.Base.{
  All, Bool, List, [], arith, false, if◌then◌else◌, keep, ok, refl, some, subst, true, ℕ, ◌+◌, ◌↔◌,
  ◌∷◌, ◌≡◌, ◌≤◌,
}
use ms_go_comment.Domain.Attachment.{Attachment, AttachmentStatus, is_deleted_attachment}
use ms_go_comment.Domain.Common.{Time, Uuid, equal_uuid_ptr_iff}
use ms_go_comment.Store.Attachments.{attachment_before, bound_to, list_by_comment}
use ms_go_comment.Store.Database.{Database}
use ms_go_comment.Store.Monad.{Env, call}
use ms_go_comment.Store.Rows.{All-map, insert_by, sort_by}
use ms_go_comment.Store.Rows.Sorted.{All-kept, All-of_kept, All-of_sorted, All-sort_by}
use ms_go_comment.Store.Triples.{Triple, Triple-reads}

-- Bound to the comment in the thread, and not deleted.
pub record OfComment (thread_id comment_id : Uuid) (a : Attachment) : Type 0 where
  pub in_thread : a.thread_id ≡ thread_id
  pub of_comment : a.comment_id ≡ some comment_id
  pub present : ¬ (a.status ≡ AttachmentStatus.deleted)

-- The rows that pass a test.
abbrev pub number : {A : Type 0} → (A → Bool) → List A → ℕ
number q [] = 0
number q (x ∷ xs) = (if q x then 1 else 0) + number q xs

-- The rows are all stored attachments of a comment, no others, and none more often than stored.
pub record Attached (thread_id comment_id : Uuid) (d : Database) (rows : List Attachment)
    : Type 0 where
  pub ours : All (λ a. Mem a d.attachments × OfComment thread_id comment_id a) rows
  pub complete : All (λ a. OfComment thread_id comment_id a → Mem a rows) d.attachments
  pub once : (q : Attachment → Bool) → number q rows ≤ number q d.attachments

module _ {A : Type 0} where
  All-Mem : (xs ys : List A) → ((a : A) → Mem a xs → Mem a ys) → All (λ a. Mem a ys) xs
  All-Mem [] ys f = tt
  All-Mem (x ∷ xs) ys f = (f x mem-cons_self, All-Mem xs ys (λ a m. f a (mem-cons_of_mem x m)))

  number-keep : (q p : A → Bool) (xs : List A) → number q (keep p xs) ≤ number q xs
  number-keep q p [] = omega arith
  number-keep q p (x ∷ xs) = ground (arith, number-keep q p xs)

  number-insert_by :
      (q : A → Bool) (before : A → A → Bool) (x : A) (ys : List A)
      → number q (insert_by before x ys) ≡ (if q x then 1 else 0) + number q ys
  unfolding insert_by
  number-insert_by q before x [] = refl
  number-insert_by q before x (y ∷ ys) = ground (arith, number-insert_by q before x ys)

  number-sort_by :
      (q : A → Bool) (before : A → A → Bool) (xs : List A)
      → number q (sort_by before xs) ≡ number q xs
  unfolding sort_by
  number-sort_by q before [] = refl
  number-sort_by q before (x ∷ xs) =
      omega (arith, number-insert_by q before x (sort_by before xs), number-sort_by q before xs)

present_iff :
    (s : AttachmentStatus) → (is_deleted_attachment s ≡ false) ↔ (¬ (s ≡ AttachmentStatus.deleted))
present_iff AttachmentStatus.deleted = (λ h. cc, λ h. absurd (h refl))
present_iff s = (λ h e. cc, λ h. refl)

bound_to_iff :
    (thread_id comment_id : Uuid) (a : Attachment)
    → (bound_to thread_id comment_id a ≡ true) ↔ OfComment thread_id comment_id a
bound_to_iff thread_id comment_id a = (
  λ h. record {
    in_thread = ground arith;
    of_comment = (equal_uuid_ptr_iff a.comment_id (some comment_id)).0 (ground arith);
    present = (present_iff a.status).0 (ground arith);
  },
  λ o. ground (
    arith,
    o.in_thread,
    (equal_uuid_ptr_iff a.comment_id (some comment_id)).1 o.of_comment,
    (present_iff a.status).1 o.present,
  ),
)

list_by_comment-Attached :
    (thread_id comment_id : Uuid) (now : Time) (d : Database) (rows : List Attachment)
    → (list_by_comment thread_id comment_id now d).0 ≡ ok rows
    → Attached thread_id comment_id d rows
unfolding list_by_comment
list_by_comment-Attached thread_id comment_id now d rows e =
    let p = bound_to thread_id comment_id in
    let kept = sort_by attachment_before (keep p d.attachments) in
    let same : kept ≡ rows = cc in
    subst (Attached thread_id comment_id d) same (record {
      ours = All-sort_by _ attachment_before (keep p d.attachments) (
          All-kept _ p d.attachments (
            All-map _ _ d.attachments (λ a m h. (m, (bound_to_iff thread_id comment_id a).0 h))
              (All-Mem d.attachments d.attachments (λ a m. m))));
      complete =
          All-map _ _ d.attachments (λ a f o. f ((bound_to_iff thread_id comment_id a).1 o))
            (All-of_kept _ p d.attachments (
              All-of_sorted _ attachment_before (keep p d.attachments)
                (All-Mem kept kept (λ a m. m))));
      once = λ q. omega (
        arith,
        number-sort_by q attachment_before (keep p d.attachments),
        number-keep q p d.attachments,
      );
    })

-- The rows of a read, in an action that keeps `P`.
pub list_by_comment-Triple :
    (env : Env) (P : Database → Type 0) (thread_id comment_id : Uuid)
    → Triple P
        (call env (list_by_comment thread_id comment_id))
        (λ rows d. P d × Attached thread_id comment_id d rows)
unfolding list_by_comment
list_by_comment-Triple env P thread_id comment_id =
    Triple-reads env _ _
      (λ d rows p e. (p, list_by_comment-Attached thread_id comment_id 0 d rows e))
