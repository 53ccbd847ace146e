-- ===== src/Order/Feed.antt =====
-- `ListChanges` of comment_repository.go.
use ms_go_comment.Base.{
  ==_iff, All, Bool, List, [], any, arith, eq_of_parts, false, false≢true, inl, inr, keep, ltb_ℤ,
  ok, pos_part, refl, sym, take, true, ℤ, ◌&&◌, ◌<ℤ◌, ◌==◌, ◌∙◌, ◌∷◌, ◌≡◌, ◌≢◌, ◌⊎◌,
}
use ms_go_comment.Domain.Comment.{Comment}
use ms_go_comment.Domain.Common.{Time, Uuid}
use ms_go_comment.Order.{AllApart, Apart, Sequenced}
use ms_go_comment.Store.Comments.{list_comment_changes, sequence_before}
use ms_go_comment.Store.Database.{Database}
use ms_go_comment.Store.Rows.{All-keep, All-map, All-of_not_any, All-zip, sort_by}
use ms_go_comment.Store.Rows.Sorted.{
  All-kept, All-of_kept, All-of_sorted, All-sort_by, All-take, Ordered, sort_by-Ordered,
  take-Ordered, take-covers,
}

abbrev pub Loose : Comment → Comment → Type 0
Loose x y = (x.id ≡ y.id) ⊎ Apart x y

Loose-swap : (x y : Comment) → Apart x y → Loose y x
Loose-swap x y a = inr (λ e. a.0 (sym e), λ t q. a.1 (sym t) (sym q))

pairwise : (cs : List Comment) → AllApart cs → All (λ x. All (Loose x) cs) cs
pairwise [] a = tt
pairwise (c ∷ cs) a = (
  (inl refl, All-map _ _ cs (λ y h. inr h) a.0),
  All-map _ _ cs (λ x h. (Loose-swap c x h.0, h.1)) (All-zip _ _ cs a.0 (pairwise cs a.1)),
)

-- The rows that `ListChanges` is asked for.
abbrev pub wanted : Uuid → ℤ → Comment → Bool
wanted id from c = c.thread_id == id && ltb_ℤ from c.sequence

abbrev pub page : Uuid → ℤ → ℤ → List Comment → List Comment
page id from limit cs = take (pos_part limit) (sort_by sequence_before (keep (wanted id from) cs))

abbrev pub in_page : List Comment → Comment → Bool
in_page p c = any (λ x. c.id == x.id) p

-- Every row of a page stands in it by one of the wanted rows.
page-wanted :
    (id : Uuid) (from limit : ℤ) (cs : List Comment)
    → All (λ x. wanted id from x ≡ true) (page id from limit cs)
page-wanted id from limit cs = All-take _ (pos_part limit) _ (
    All-sort_by _ sequence_before (keep (wanted id from) cs)
      (All-kept _ (wanted id from) cs (every cs)))
  where
    every : (ys : List Comment) → All (λ x. wanted id from x ≡ true → wanted id from x ≡ true) ys
    every [] = tt
    every (y ∷ ys) = (λ h. h, every ys)

page-Ordered :
    (id : Uuid) (from limit : ℤ) (cs : List Comment)
    → Ordered sequence_before (page id from limit cs)
page-Ordered id from limit cs = take-Ordered sequence_before (pos_part limit) _ (
    sort_by-Ordered sequence_before (λ x y h. ground arith) (λ x y z h k. ground arith)
      (keep (wanted id from) cs))

behind :
    (id : Uuid) (from : ℤ) (c x : Comment)
    → wanted id from c ≡ true
    → wanted id from x ≡ true
    → sequence_before x c ≡ true
    → (c.id == x.id) ≡ false
    → Loose c x
    → x.sequence <ℤ c.sequence
behind id from c x wc wx le ne (inl e) = absurd (false≢true (sym ne ∙ (==_iff c.id x.id).1 e))
behind id from c x wc wx le ne (inr a) =
    let differ : c.sequence ≢ x.sequence = a.1 (ground arith) in
    ground (arith, eq_of_parts c.sequence x.sequence)

-- A wanted row that a page lacks is behind all of the page, by its number.
page_complete :
    (id : Uuid) (from limit : ℤ) (cs : List Comment)
    → AllApart cs
    → All
        (λ c.
          wanted id from c ≡ true
          → in_page (page id from limit cs) c ≡ false
          → All (λ x. x.sequence <ℤ c.sequence) (page id from limit cs))
        cs
page_complete id from limit cs apart =
    All-map _ _ cs
      (λ c h w out. elim (h.0 w) [
        | inl e ↦ absurd (false≢true (sym out ∙ e))
        | inr b ↦
            All-map _ _ shown (λ x k. behind id from c x w k.1.1 k.0 k.1.0.0 k.1.0.1)
              (All-zip _ _ shown b (
                All-zip _ _ shown (All-zip _ _ shown (All-of_not_any _ shown out) (loose c h.1))
                  (page-wanted id from limit cs)))
      ])
      (All-zip _ _ cs covered (pairwise cs apart))
  where
    shown : List Comment
    shown = page id from limit cs

    loose : (c : Comment) → All (Loose c) cs → All (Loose c) shown
    loose c h =
        All-take _ (pos_part limit) _
          (All-sort_by _ sequence_before (keep (wanted id from) cs) (All-keep _ _ cs h))

    covered :
        All
          (λ c.
            wanted id from c ≡ true
            → (in_page shown c ≡ true) ⊎ All (λ x. sequence_before x c ≡ true) shown)
          cs
    covered = All-of_kept _ (wanted id from) cs (
        All-of_sorted _ sequence_before (keep (wanted id from) cs) (
          take-covers sequence_before (λ c x. c.id == x.id) (λ x. (==_iff x.id x.id).1 refl)
            (pos_part limit) (sort_by sequence_before (keep (wanted id from) cs))
            (sort_by-Ordered sequence_before (λ x y h. ground arith) (λ x y z h k. ground arith)
              (keep (wanted id from) cs))))

-- What a page of the feed promises.
pub record PageIsFaithful (id : Uuid) (from : ℤ) (d : Database) (p : List Comment) : Type 0 where
  pub ordered : Ordered sequence_before p
  pub asked_for : All (λ x. wanted id from x ≡ true) p
  pub complete :
      All
        (λ c. wanted id from c ≡ true → in_page p c ≡ false → All (λ x. x.sequence <ℤ c.sequence) p)
        d.comments

-- On an ordered database ListChanges returns a page that is sorted by sequence number, holds only
-- comments of the thread behind the number asked for, and loses none: such a comment that the page
-- lacks has a greater number than every comment of the page.
pub list_comment_changes-IsFaithful :
    (id : Uuid) (from limit : ℤ) (now : Time) (d : Database)
    → Sequenced d
    → (p : List Comment) × (list_comment_changes id from limit now d ≡ (ok p, d))
      × PageIsFaithful id from d p
unfolding list_comment_changes
list_comment_changes-IsFaithful id from limit now d s = (
  page id from limit d.comments,
  refl,
  record {
    ordered = page-Ordered id from limit d.comments;
    asked_for = page-wanted id from limit d.comments;
    complete = page_complete id from limit d.comments s.apart;
  },
)
