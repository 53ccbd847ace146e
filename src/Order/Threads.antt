-- ===== src/Order/Threads.antt =====
-- The order of the changes and the statements of thread_repository.go.
use ms_go_comment.Base.{
  ==_iff, All, Bool, Bool-cases, Err, List, Option, [], ap, arith, false≢true, find, inl, inr,
  int_laws, neg_part, none, ok, pos, pos_part, refl, some, sym, true, ℕ, ℤ, ◌&&◌, ◌+ℤ◌, ◌==◌, ◌∙◌,
  ◌∷◌, ◌≡◌, ◌≤ℤ◌,
}
use ms_go_comment.Domain.Common.{Time, Uuid}
use ms_go_comment.Domain.Thread.{Thread, is_open_thread}
use ms_go_comment.Order.{FreshSequence, Sequenced, ThreadsKeyed}
use ms_go_comment.Store.Database.{Database}
use ms_go_comment.Store.Rows.{
  All-find, All-map, All-update_where, any-of_find, any-update_where, update_where,
}
use ms_go_comment.Store.Threads.{
  advance, advanced, next_sequence, next_sequence_any_state, returning,
}

-- Under distinct identifiers, the row that a statement finds is the only one with its identifier.
find-keyed :
    (p : Thread → Bool) (id : Uuid) (ts : List Thread) (t : Thread)
    → ((x : Thread) → p x ≡ true → x.id ≡ id)
    → ThreadsKeyed ts
    → find p ts ≡ some t
    → All (λ u. u.id ≡ id → u ≡ t) ts
find-keyed p id [] t only k h = tt
find-keyed p id (x ∷ xs) t only k h = elim (Bool-cases (p x)) [
  | inl e ↦
      let xt : x ≡ t = ground arith in
      (λ _. xt, All-map _ _ xs (λ u ne same. absurd (ne (same ∙ sym (only x e)))) k.0)
  | inr e ↦
      let h' : find p xs ≡ some t = rw e at h in
      let (ne, pt) = All-find _ p xs t k.0 h' in
      (λ same. absurd (ne (only t pt ∙ sym same)), find-keyed p id xs t only k.1 h')
]

-- An update that keeps the identifiers keeps them distinct.
update_where-ThreadsKeyed :
    (p : Thread → Bool) (f : Thread → Thread) (ts : List Thread)
    → ((x : Thread) → (f x).id ≡ x.id)
    → ThreadsKeyed ts
    → ThreadsKeyed (update_where p f ts)
unfolding update_where
update_where-ThreadsKeyed p f [] same k = tt
update_where-ThreadsKeyed p f (x ∷ xs) same k = (
  All-update_where _ _ p f xs (λ y _ ne e. ne (ground (arith, same x, same y)))
      (λ y _ ne e. ne (ground (arith, same x))) k.0,
  update_where-ThreadsKeyed p f xs same k.1,
)

module _ (p : Thread → Bool) (f : Thread → Thread) (same : (x : Thread) → (f x).id ≡ x.id) where
  -- Such an update that lowers no last sequence number keeps the order of the comments.
  pub update_threads-Sequenced :
      (d : Database)
      → ((x : Thread) → x.last_sequence ≤ℤ (f x).last_sequence)
      → Sequenced d
      → Sequenced (record d { threads = update_where p f d.threads })
  update_threads-Sequenced d grows s = record {
    keyed = update_where-ThreadsKeyed p f d.threads same s.keyed;
    apart = s.apart;
    bounded =
        All-map _ _ d.comments
          (λ c b.
            All-update_where _ _ p f d.threads
              (λ t _ h e. omega (arith, h (sym (same t) ∙ e), grows t)) (λ t _ h. h) b)
          s.bounded;
    housed =
        All-map _ _ d.comments
          (λ c h.
            any-update_where (λ t. t.id == c.thread_id) p f d.threads
              (λ t. ap (λ (i : ℕ). i == c.thread_id) (same t))
            ∙ h)
          s.housed;
  }

advance_grows : (now : Time) (x : Thread) → x.last_sequence ≤ℤ (advance now x).last_sequence
advance_grows now x = omega int_laws

module _ (p : Thread → Bool) (id : Uuid) (only : (x : Thread) → p x ≡ true → x.id ≡ id) where
  fresh-advanced :
      (now : Time) (d : Database) (t : Thread)
      → Sequenced d
      → find p d.threads ≡ some t
      → FreshSequence id (t.last_sequence +ℤ pos 1) (advanced now p d)
  fresh-advanced now d t s e =
      let same = find-keyed p id d.threads t only s.keyed e in
      let (_, pt) = All-find _ p d.threads t same e in
      record {
        below =
            All-map _ _ d.comments
              (λ c b h.
                let (bt, _) = All-find _ p d.threads t b e in
                omega (int_laws, bt (only t pt ∙ sym h)))
              s.bounded;
        room =
            All-update_where _ _ p (advance now) d.threads
              (λ x _ h k. omega (
                int_laws,
                ap (λ (u : Thread). pos_part u.last_sequence) (h k),
                ap (λ (u : Thread). neg_part u.last_sequence) (h k),
              ))
              (λ x out h k. absurd (false≢true (sym out ∙ ap p (h k) ∙ pt))) same;
        exists =
            any-update_where (λ t. t.id == id) p (advance now) d.threads (λ x. refl)
            ∙ any-of_find (λ t. t.id == id) p d.threads t e ((==_iff t.id id).1 (only t pt));
      }

  returning-Taken :
      (now : Time) (e : Err) (o : Option Thread) (d : Database) (q : ℤ)
      → Sequenced d
      → find p d.threads ≡ o
      → (returning now p e o d).0 ≡ ok q
      → Sequenced (returning now p e o d).1 × FreshSequence id q (returning now p e o d).1
  returning-Taken now e none d q s f h = cc
  returning-Taken now e (some t) d q s f h =
      let e' : t.last_sequence +ℤ pos 1 ≡ q = ground arith in
      (
        update_threads-Sequenced p (advance now) (λ x. refl) d (advance_grows now) s,
        rw (← e') (fresh-advanced now d t s f),
      )

-- On an ordered database, a NextSequence that returns a number keeps the order, and the number is
-- above those of all comments of the thread, which exists and has counted up to it.
pub next_sequence-fresh :
    (id : Uuid) (now : Time) (d : Database) (q : ℤ)
    → Sequenced d
    → (next_sequence id now d).0 ≡ ok q
    → Sequenced (next_sequence id now d).1 × FreshSequence id q (next_sequence id now d).1
unfolding next_sequence
next_sequence-fresh id now d q s h =
    returning-Taken (λ t. t.id == id && is_open_thread t.status) id (λ x e. ground arith) now _ _ d
      q s refl h

-- So does `NextSequenceAnyState`.
pub next_sequence_any_state-fresh :
    (id : Uuid) (now : Time) (d : Database) (q : ℤ)
    → Sequenced d
    → (next_sequence_any_state id now d).0 ≡ ok q
    → Sequenced (next_sequence_any_state id now d).1
      × FreshSequence id q (next_sequence_any_state id now d).1
unfolding next_sequence_any_state
next_sequence_any_state-fresh id now d q s h =
    returning-Taken (λ t. t.id == id) id (λ x e. ground arith) now _ _ d q s refl h
