-- ===== src/Order/Comments.antt =====
-- The statements on comments under the order: a new row and a changed row with a fresh number.
use ms_go_comment.Base.{
  ==_iff, All, All-append, Bool, Bool-cases, List, [], any, ap, arith, false, false≢true, find,
  if◌then◌else◌, inl, inr, neg_part, pos_part, some, sym, true, ℤ, ◌++◌, ◌<ℤ◌, ◌==◌, ◌∙◌, ◌∷◌, ◌≡◌,
}
use ms_go_comment.Domain.Comment.{Comment}
use ms_go_comment.Domain.Common.{Uuid}
use ms_go_comment.Order.{AllApart, Apart, Bounded, FreshSequence, Sequenced}
use ms_go_comment.Store.Comments.{comment_clashes}
use ms_go_comment.Store.Database.{Database}
use ms_go_comment.Store.Rows.{All-map, All-of_not_any, All-update_where, All-zip, update_where}

-- The rows with the identifier `id` stand in the thread `thread_id`.
abbrev pub Owned : Uuid → Uuid → List Comment → Type 0
Owned id thread_id cs = All (λ c. c.id ≡ id → c.thread_id ≡ thread_id) cs

-- The row that a lookup finds is the only one with its identifier.
pub find-Owned :
    (id : Uuid) (cs : List Comment) (x : Comment)
    → AllApart cs
    → find (λ c. c.id == id) cs ≡ some x
    → Owned id x.thread_id cs
find-Owned id [] x k h = tt
find-Owned id (c ∷ cs) x k h = elim (Bool-cases (c.id == id)) [
  | inl e ↦
      let cx : c ≡ x = ground arith in
      (
        λ _. ap (λ (u : Comment). u.thread_id) cx,
        All-map _ _ cs (λ u a same. absurd (a.0 ((==_iff c.id id).0 e ∙ sym same))) k.0,
      )
  | inr e ↦ (
    λ same. absurd (false≢true (sym e ∙ (==_iff c.id id).1 same)),
    find-Owned id cs x k.1 (rw e at h),
  )
]

-- An update that gives the rows of one comment a fresh number.
module _ (id thread_id : Uuid) (q : ℤ) (p : Comment → Bool) (f : Comment → Comment)
    (only : (x : Comment) → p x ≡ true → x.id ≡ id) (same_id : (x : Comment) → (f x).id ≡ x.id)
    (same_thread : (x : Comment) → (f x).thread_id ≡ x.thread_id)
    (renumbers : (x : Comment) → (f x).sequence ≡ q) where
  abbrev Known : Comment → Type 0
  Known y = (y.id ≡ id → y.thread_id ≡ thread_id) × (y.thread_id ≡ thread_id → y.sequence <ℤ q)

  Apart-changed : (x y : Comment) → p x ≡ true → Known x → Known y → Apart x y → Apart (f x) y
  Apart-changed x y e kx ky a = (
    λ h. a.0 (sym (same_id x) ∙ h),
    λ t g.
        let lt = ky.1 (sym t ∙ same_thread x ∙ kx.0 (only x e)) in
        let g' = sym (renumbers x) ∙ g in omega (arith, lt, ap pos_part g', ap neg_part g'),
  )

  Apart-from_changed : (x y : Comment) → p y ≡ true → Known x → Known y → Apart x y → Apart x (f y)
  Apart-from_changed x y e kx ky a = (
    λ h. a.0 (h ∙ same_id y),
    λ t g.
        let lt = kx.1 (t ∙ same_thread y ∙ ky.0 (only y e)) in
        let g' = g ∙ renumbers y in omega (arith, lt, ap pos_part g', ap neg_part g'),
  )

  row-Apart :
      (x : Comment) (cs : List Comment)
      → Known x
      → All Known cs
      → All (Apart x) cs
      → All (Apart (if p x then f x else x)) (update_where p f cs)
  row-Apart x cs kx ks a = elim (Bool-cases (p x)) [
    | inl e ↦ rw e (
        All-update_where (λ y. Apart x y × Known y) _ p f cs
          (λ y py h. absurd (h.0.0 (only x e ∙ sym (only y py))))
          (λ y out h. Apart-changed x y e kx h.1 h.0) (All-zip _ _ cs a ks))
    | inr e ↦ rw e (
        All-update_where (λ y. Apart x y × Known y) _ p f cs
          (λ y py h. Apart-from_changed x y py kx h.1 h.0) (λ y out h. h.0) (All-zip _ _ cs a ks))
  ]

  renumber-AllApart :
      (cs : List Comment) → All Known cs → AllApart cs → AllApart (update_where p f cs)
  unfolding update_where
  renumber-AllApart [] ks a = tt
  renumber-AllApart (c ∷ cs) ks a = (row-Apart c cs ks.0 ks.1 a.0, renumber-AllApart cs ks.1 a.1)

  -- A changed comment keeps the order, if its number is fresh in its thread.
  pub renumber-Sequenced :
      (d : Database)
      → Sequenced d
      → FreshSequence thread_id q d
      → Owned id thread_id d.comments
      → Sequenced (record d { comments = update_where p f d.comments })
  renumber-Sequenced d s r own = record {
    keyed = s.keyed;
    apart = renumber-AllApart d.comments (All-zip _ _ d.comments own r.below) s.apart;
    bounded =
        All-update_where (λ c. Bounded d.threads c × (c.id ≡ id → c.thread_id ≡ thread_id)) _ p f
          d.comments
          (λ c e h.
            All-map _ _ d.threads
              (λ t room same. rw (renumbers c) (room (same ∙ same_thread c ∙ h.1 (only c e))))
              r.room)
          (λ c out h. h.0) (All-zip _ _ d.comments s.bounded own);
    housed =
        All-update_where _ _ p f d.comments (λ c e h. rw (same_thread c) h) (λ c out h. h) s.housed;
  }

append-AllApart :
    (cs : List Comment) (c : Comment)
    → AllApart cs
    → All (λ x. x.thread_id ≡ c.thread_id → x.sequence <ℤ c.sequence) cs
    → All (λ x. comment_clashes c x ≡ false) cs
    → AllApart (cs ++ c ∷ [])
append-AllApart [] c a b n = (tt, tt)
append-AllApart (x ∷ cs) c a b n =
    (All-append _ cs (c ∷ []) a.0 (last_apart x c b.0 n.0, tt), append-AllApart cs c a.1 b.1 n.1)
  where
    last_apart :
        (x c : Comment)
        → (x.thread_id ≡ c.thread_id → x.sequence <ℤ c.sequence)
        → comment_clashes c x ≡ false
        → Apart x c
    last_apart x c b n = (ground arith, λ e g. omega (arith, b e, ap pos_part g, ap neg_part g))

-- A new comment keeps the order, if its number is fresh in its thread and its identifier is new.
pub append-Sequenced :
    (d : Database) (c : Comment)
    → Sequenced d
    → FreshSequence c.thread_id c.sequence d
    → any (comment_clashes c) d.comments ≡ false
    → Sequenced (record d { comments = d.comments ++ c ∷ [] })
append-Sequenced d c s r new = record {
  keyed = s.keyed;
  apart = append-AllApart d.comments c s.apart r.below (All-of_not_any _ d.comments new);
  bounded =
      All-append _ d.comments (c ∷ []) s.bounded
        (All-map _ _ d.threads (λ t room same. room same) r.room, tt);
  housed = All-append _ d.comments (c ∷ []) s.housed (r.exists, tt);
}
