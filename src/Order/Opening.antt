-- ===== src/Order/Opening.antt =====
-- The order of the changes and `ThreadRepository.Ensure`.
use ms_go_comment.Base.{
  All, All-append, Bool-cases, List, Option, [], any, arith, false, false≢true, inl, inr, none,
  some, subst, sym, true, ◌++◌, ◌==◌, ◌∙◌, ◌∷◌, ◌≡◌, ◌≢◌,
}
use ms_go_comment.Domain.Comment.{Comment}
use ms_go_comment.Domain.Common.{Time, Uuid}
use ms_go_comment.Domain.Thread.{Thread}
use ms_go_comment.Order.{Housed, Sequenced, ThreadsKeyed}
use ms_go_comment.Store.Database.{Database}
use ms_go_comment.Store.Rows.{All-map, All-of_not_any, All-zip, any-append}
use ms_go_comment.Store.Threads.{ensure_row, ensure_thread, fresh_thread}

append-ThreadsKeyed :
    (ts : List Thread) (t : Thread)
    → ThreadsKeyed ts
    → All (λ u. (u.id == t.id) ≡ false) ts
    → ThreadsKeyed (ts ++ t ∷ [])
append-ThreadsKeyed [] t k new = (tt, tt)
append-ThreadsKeyed (x ∷ ts) t k new =
    (All-append _ ts (t ∷ []) k.0 (λ e. ground arith, tt), append-ThreadsKeyed ts t k.1 new.1)

-- No comment stands in a thread that does not exist.
unhoused :
    (ts : List Thread) (c : Comment) (id : Uuid)
    → Housed ts c
    → any (λ t. t.id == id) ts ≡ false
    → id ≢ c.thread_id
unhoused ts c id h new e =
    false≢true (sym new ∙ subst (λ i. any (λ (t : Thread). t.id == i) ts ≡ true) (sym e) h)

append_thread-Sequenced :
    (d : Database) (t : Thread)
    → Sequenced d
    → any (λ u. u.id == t.id) d.threads ≡ false
    → Sequenced (record d { threads = d.threads ++ t ∷ [] })
append_thread-Sequenced d t s new = record {
  keyed = append-ThreadsKeyed d.threads t s.keyed (All-of_not_any _ d.threads new);
  apart = s.apart;
  bounded =
      All-map _ _ d.comments
        (λ c h.
          All-append _ d.threads (t ∷ []) h.0
            (λ e. absurd (unhoused d.threads c t.id h.1 new e), tt))
        (All-zip _ _ d.comments s.bounded s.housed);
  housed =
      All-map _ _ d.comments
        (λ c h. any-append (λ u. u.id == c.thread_id) d.threads (t ∷ []) ∙ ground arith) s.housed;
}

ensure_row-Sequenced :
    (item : Thread) (o : Option Thread) (d : Database)
    → Sequenced d
    → Sequenced (ensure_row item o d).1
ensure_row-Sequenced item (some row) d s = s
ensure_row-Sequenced item none d s = elim (Bool-cases (any (λ t. t.id == item.id) d.threads)) [
  | inl e ↦ rw e s
  | inr e ↦ rw e (append_thread-Sequenced d (fresh_thread item) s e)
]

-- The statement of ThreadRepository.Ensure keeps the order of the changes, whether it finds the
-- thread, adds it or fails.
pub ensure_thread-Sequenced :
    (item : Thread) (now : Time) (d : Database)
    → Sequenced d
    → Sequenced (ensure_thread item now d).1
unfolding ensure_thread
ensure_thread-Sequenced item now d s = ensure_row-Sequenced item _ d s
