-- ===== src/Store/Threads.antt =====
-- thread_repository.go
use ms_go_comment.Base.{
  Bool, Err, List, Option, Result, [], any, conflict, drop, eq_ℤ, err, false, find, if◌then◌else◌,
  keep, leb, ltb, ltb_ℤ, none, not_found, ok, pos, pos_part, some, take, thread_not_writable, true,
  ℤ, ◌&&◌, ◌++◌, ◌+ℤ◌, ◌==◌, ◌||◌, ◌∷◌,
}
use ms_go_comment.Domain.Common.{Time, Uuid}
use ms_go_comment.Domain.Thread.{
  ResourceReference, Thread, ThreadStatus, is_open_thread, no_overrides, resource_eq,
}
use ms_go_comment.Store.Database.{Database, Query, affecting, or_not_found, reads}
use ms_go_comment.Store.Rows.{sort_by, update_where}

abbrev pub same_resource : Thread → Thread → Bool
same_resource a b = a.space_id == b.space_id && resource_eq a.resource b.resource

-- The columns that `Ensure` inserts; the others have the defaults of the table.
abbrev pub fresh_thread : Thread → Thread
fresh_thread item = record item {
  policy_overrides = no_overrides;
  comment_count = pos 0;
  root_comment_count = pos 0;
  last_sequence = pos 0;
  last_comment_at = none;
}

-- `INSERT … ON CONFLICT (space_id, resource_type, resource_id) DO UPDATE … RETURNING`
abbrev pub ensure_row : Thread → Option Thread → Database → Result Thread × Database
ensure_row item (some row) d = (ok row, d)
ensure_row item none d =
    if any (λ t. t.id == item.id) d.threads
    then (err conflict, d)
    else (ok (fresh_thread item), record d { threads = d.threads ++ fresh_thread item ∷ [] })

unfoldable pub ensure_thread : Thread → Query Thread
ensure_thread item now d = ensure_row item (find (λ t. same_resource t item) d.threads) d

unfoldable pub get_thread : Uuid → Query Thread
get_thread id = reads λ d. or_not_found (find (λ t. t.id == id) d.threads)

unfoldable pub get_thread_by_resource : Uuid → ResourceReference → Query Thread
get_thread_by_resource space_id resource = reads λ d.
    or_not_found (find (λ t. t.space_id == space_id && resource_eq t.resource resource) d.threads)

abbrev pub set_thread : Thread → Thread → Thread
set_thread item row = record row {
  status = item.status;
  policy_overrides = item.policy_overrides;
  updated_at = item.updated_at;
}

unfoldable pub update_thread : Thread → Query (Unit {0})
unfolding update_where
update_thread item now d =
    affecting (any (λ t. t.id == item.id) d.threads) not_found d
      (record d { threads = update_where (λ t. t.id == item.id) (set_thread item) d.threads })

-- `SET last_sequence=last_sequence+1, updated_at=NOW()`
abbrev pub advance : Time → Thread → Thread
advance now t = record t { last_sequence = t.last_sequence +ℤ pos 1; updated_at = now }

abbrev pub advanced : Time → (Thread → Bool) → Database → Database
advanced now p d = record d { threads = update_where p (advance now) d.threads }

-- `RETURNING last_sequence`, and what the caller does without a row.
abbrev pub returning : Time → (Thread → Bool) → Err → Option Thread → Database → Result ℤ × Database
returning now p e none d = (err e, d)
returning now p e (some t) d = (ok (t.last_sequence +ℤ pos 1), advanced now p d)

-- `NextSequence`: the thread has to be open.
unfoldable pub next_sequence : Uuid → Query ℤ
unfolding update_where
next_sequence id now d =
    let p = λ (t : Thread). t.id == id && is_open_thread t.status in
    returning now p (if any (λ t. t.id == id) d.threads then thread_not_writable else not_found)
      (find p d.threads) d

-- `NextSequenceAnyState`
unfoldable pub next_sequence_any_state : Uuid → Query ℤ
unfolding update_where
next_sequence_any_state id now d =
    let p = λ (t : Thread). t.id == id in returning now p not_found (find p d.threads) d

abbrev pub count_comment : Time → Bool → Thread → Thread
count_comment now root t = record t {
  comment_count = t.comment_count +ℤ pos 1;
  root_comment_count = t.root_comment_count +ℤ (if root then pos 1 else pos 0);
  last_comment_at = some now;
  updated_at = now;
}

-- `RecordCommentCreated`
unfoldable pub record_comment_created : Uuid → Bool → Query (Unit {0})
unfolding update_where
record_comment_created id root now d =
    affecting (any (λ t. t.id == id) d.threads) not_found d
      (record d { threads = update_where (λ t. t.id == id) (count_comment now root) d.threads })

-- `ORDER BY created_at, id`
abbrev pub thread_before : Thread → Thread → Bool
thread_before a b = ltb a.created_at b.created_at || (a.created_at == b.created_at && leb a.id b.id)

-- `column = $1`, or no test without a value.
abbrev pub filter_ptr {ℓ} : {A : Type ℓ} → (A → Bool) → Option A → Bool
filter_ptr p none = true
filter_ptr p (some a) = p a

abbrev pub thread_status_eq : ThreadStatus → ThreadStatus → Bool
thread_status_eq ThreadStatus.opened ThreadStatus.opened = true
thread_status_eq ThreadStatus.read_only ThreadStatus.read_only = true
thread_status_eq ThreadStatus.closed ThreadStatus.closed = true
thread_status_eq ThreadStatus.hidden ThreadStatus.hidden = true
thread_status_eq (ThreadStatus.other a) (ThreadStatus.other b) = eq_ℤ a b
thread_status_eq _ _ = false

unfoldable pub list_threads : Option Uuid → Option ThreadStatus → ℤ → ℤ → Query (List Thread)
unfolding sort_by
list_threads space_id status limit offset = reads λ d.
    let limit' = if ltb_ℤ limit (pos 1) then pos 20 else limit in
    ok (
      take (pos_part limit') (
        drop (pos_part offset) (
          sort_by thread_before (
            keep
              (λ t.
                filter_ptr (λ id. t.space_id == id) space_id
                && filter_ptr (thread_status_eq t.status) status)
              d.threads))))
