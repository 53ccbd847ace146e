-- ===== src/Order/Replies.antt =====
-- Updates of comments that change no identifier, thread or sequence number.
-- The same row for the order of the changes.
use ms_go_comment.Base.{
  Bool, Bool-cases, List, [], if◌then◌else◌, inl, inr, refl, sym, ◌∙◌, ◌∷◌, ◌≡◌,
}
use ms_go_comment.Domain.Comment.{Comment}
use ms_go_comment.Order.{AllApart, Apart, Sequenced}
use ms_go_comment.Store.Database.{Database}
use ms_go_comment.Store.Rows.{All-update_where, update_where}

pub record SameNumber (x y : Comment) : Type 0 where
  pub id : y.id ≡ x.id
  pub thread_id : y.thread_id ≡ x.thread_id
  pub sequence : y.sequence ≡ x.sequence

Apart-same : (x x' y y' : Comment) → SameNumber x x' → SameNumber y y' → Apart x y → Apart x' y'
Apart-same x x' y y' s t a = (
  λ e. a.0 (sym s.id ∙ e ∙ t.id),
  λ e g. a.1 (sym s.thread_id ∙ e ∙ t.thread_id) (sym s.sequence ∙ g ∙ t.sequence),
)

module _ (p : Comment → Bool) (f : Comment → Comment)
    (same : (x : Comment) → SameNumber x (f x)) where
  same_if : (x : Comment) → SameNumber x (if p x then f x else x)
  same_if x = elim (Bool-cases (p x)) [
    | inl e ↦ rw e (same x)
    | inr e ↦ rw e (record { id = refl; thread_id = refl; sequence = refl })
  ]

  same_number-AllApart : (cs : List Comment) → AllApart cs → AllApart (update_where p f cs)
  unfolding update_where
  same_number-AllApart [] a = tt
  same_number-AllApart (c ∷ cs) a = (
    All-update_where _ _ p f cs (λ x e h. Apart-same c _ x _ (same_if c) (same x) h)
        (λ x e h.
          Apart-same c _ x x (same_if c) (record { id = refl; thread_id = refl; sequence = refl })
            h)
        a.0,
    same_number-AllApart cs a.1,
  )

  -- Such an update keeps the order.
  pub same_number-Sequenced :
      (d : Database) → Sequenced d → Sequenced (record d { comments = update_where p f d.comments })
  same_number-Sequenced d s = record {
    keyed = s.keyed;
    apart = same_number-AllApart d.comments s.apart;
    bounded =
        All-update_where _ _ p f d.comments (λ c e h. rw ((same c).thread_id, (same c).sequence) h)
          (λ c e h. h) s.bounded;
    housed =
        All-update_where _ _ p f d.comments (λ c e h. rw ((same c).thread_id) h) (λ c e h. h)
          s.housed;
  }
