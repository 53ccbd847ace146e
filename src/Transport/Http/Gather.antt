-- ===== src/Transport/Http/Gather.antt =====
-- A client that follows the cursors of `ListComments` in handlers/comment.go.
use ms_go_comment.Base.{
  All, Bool-cases, List, Option, Text, [], ap, arith, drop, inl, inr, keep, last_from, leb, length,
  none, pos, pos_part, refl, some, subst, suc, sym, take, true, zero, ℕ, ◌++◌, ◌+ℤ◌, ◌<◌, ◌∙◌, ◌∷◌,
  ◌≡◌, ◌≤◌,
}
use ms_go_comment.Domain.Actor.{Actor}
use ms_go_comment.Domain.Comment.{Comment}
use ms_go_comment.Domain.Common.{Uuid}
use ms_go_comment.Order.{Sequenced}
use ms_go_comment.Order.Feed.{page}
use ms_go_comment.Order.Listing.{All-last}
use ms_go_comment.Order.Walks.{
  Strict, cursor_at, left_behind, left_behind-last, listing, listing-Strict,
}
use ms_go_comment.Store.Comments.{CommentCursor, behind_cursor, comment_before}
use ms_go_comment.Store.Database.{Database}
use ms_go_comment.Store.Monad.{Env, M, pure, ◌>>=◌}
use ms_go_comment.Store.Rows.{All-keep}
use ms_go_comment.Store.Rows.Sorted.{All-sort_by}
use ms_go_comment.Store.Triples.{Triple, Triple-bind, Triple-fact, Triple-pure}
use ms_go_comment.Transport.Http.{IdParser}
use ms_go_comment.Transport.Http.Cursors.{CursorCodec, IsFaithful, decode_cursor-encode_cursor}
use ms_go_comment.Transport.Http.Cuts.{PageShows, paginate_views-PageShows, take_all}
use ms_go_comment.Transport.Http.Discussions.{
  ListQuery, Page, cursor_behind, list_page, paginate_views,
}
use ms_go_comment.Transport.Http.Following.{Asks, Identified, follow, gather, put_before}
use ms_go_comment.Transport.Http.Pieces.{
  List-cases, comments_of-append, length-drop_le, lift-ok, nothing_over, same_list, size_over,
  take-drop,
}
use ms_go_comment.Transport.Http.Rows.{comments_of, list_comment_views-Triple}
use ms_go_comment.Usecase.Discussion.{CommentView, Settings}
use ms_go_comment.Usecase.Discussion.Guards.{IsQuiet}
use ms_go_comment.Usecase.Discussion.Read.{list_comment_views, views}

keep-true {ℓ} : {A : Type ℓ} (xs : List A) → keep (λ x. true) xs ≡ xs
keep-true [] = refl
keep-true (x ∷ xs) = ap (λ ys. x ∷ ys) (keep-true xs)

module _ (env : Env) (s : Settings) (quiet : IsQuiet s) (ids : IdParser) (codec : CursorCodec)
    (actor : Actor) (d0 : Database) (thread_id : Uuid) (parent_id : Option Uuid) (n : ℕ) where
  abbrev Shown : Option CommentCursor → Page → Database → Type 0
  Shown cursor page d =
      (d ≡ d0)
      × PageShows codec thread_id parent_id (suc n) (left_behind cursor thread_id parent_id d0) page

  one_more : pos_part (pos (suc n) +ℤ pos 1) ≡ suc (suc n)
  unfolding ◌+ℤ◌
  one_more = ground arith

  abbrev after_checks : Option CommentCursor → M Page
  after_checks cursor = do
    views ← list_comment_views env s actor thread_id parent_id cursor (pos (suc n) +ℤ pos 1)
    pure (paginate_views codec views (suc n) thread_id parent_id)

  list_page-checks :
      (q : ListQuery) (cursor : Option CommentCursor)
      → Asks ids codec q thread_id parent_id n cursor
      → list_page env s ids codec actor q ≡ after_checks cursor
  unfolding list_page
  list_page-checks q cursor a =
      lift-ok _ thread_id _ a.for_thread
      ∙ lift-ok _ parent_id _ a.for_parent
      ∙ lift-ok _ (pos (suc n)) _ a.for_limit
      ∙ lift-ok _ cursor _ a.for_cursor

  list_page-Triple :
      (q : ListQuery) (cursor : Option CommentCursor)
      → Asks ids codec q thread_id parent_id n cursor
      → Triple (λ d. d ≡ d0) (list_page env s ids codec actor q) (Shown cursor)
  list_page-Triple q cursor a =
      let R : List Comment = left_behind cursor thread_id parent_id d0 in
      subst (λ m. Triple (λ d. d ≡ d0) m (Shown cursor)) (sym (list_page-checks q cursor a))
        (Triple-bind _ _
          (λ views d. (d ≡ d0) × (comments_of views ≡ take (pos_part (pos (suc n) +ℤ pos 1)) R))
          (list_comment_views-Triple env s quiet d0 actor thread_id parent_id cursor
            (pos (suc n) +ℤ pos 1))
          λ views. Triple-pure (Shown cursor) _ λ d h. (
            h.0,
            paginate_views-PageShows codec thread_id parent_id views (suc n) R
                (h.1 ∙ ap (λ k. take k R) one_more),
          ))

  abbrev Gathered : Option CommentCursor → Option (List CommentView) → Database → Type 0
  Gathered cursor o d =
      (d ≡ d0)
      × ((vs : List CommentView) × (o ≡ some vs)
          × (comments_of vs ≡ left_behind cursor thread_id parent_id d0))

  -- The last page.
  stop-Gathered :
      (cursor : Option CommentCursor) (page : Page) (more : Text → M (Option (List CommentView)))
      → length (left_behind cursor thread_id parent_id d0) ≤ suc n
      → PageShows codec thread_id parent_id (suc n) (left_behind cursor thread_id parent_id d0) page
      → Triple (λ d. d ≡ d0) (follow env s ids codec page.views page.next more) (Gathered cursor)
  stop-Gathered cursor page more h shows =
      subst (λ o. Triple (λ d. d ≡ d0) (follow env s ids codec page.views o more) (Gathered cursor))
        (sym (shows.stops h))
        (Triple-pure (Gathered cursor) _
          λ d e. (e, (page.views, refl, shows.shown ∙ take_all (suc n) _ h)))

  -- A page behind which there is another one.
  go-Gathered :
      (cursor : Option CommentCursor) (page : Page) (more : Text → M (Option (List CommentView)))
      (x : Comment) (xs : List Comment)
      → left_behind cursor thread_id parent_id d0 ≡ x ∷ xs
      → suc n < length (x ∷ xs)
      → Strict (listing thread_id parent_id d0)
      → PageShows codec thread_id parent_id (suc n) (left_behind cursor thread_id parent_id d0) page
      → Triple
          (λ d. d ≡ d0)
          (more (cursor_behind codec thread_id parent_id (last_from x (take n xs))))
          (Gathered (some (cursor_at (last_from x (take n xs)))))
      → Triple (λ d. d ≡ d0) (follow env s ids codec page.views page.next more) (Gathered cursor)
  go-Gathered cursor page more x xs r lt strict shows rest =
      subst (λ o. Triple (λ d. d ≡ d0) (follow env s ids codec page.views o more) (Gathered cursor))
        (sym (shows.goes n x xs refl r (subst (λ l. suc n < length l) (sym r) lt)))
        (Triple-bind _ _ (Gathered (some (cursor_at (last_from x (take n xs))))) rest λ o.
          Triple-pure (Gathered cursor) _ λ d g.
            let (vs, e, rows) = g.1 in
            (
              g.0,
              (
                page.views ++ vs,
                ap (put_before page.views) e,
                comments_of-append page.views vs
                    ∙ ap (λ cs. cs ++ comments_of vs) (shows.shown ∙ ap (take (suc n)) r)
                    ∙ ap (λ cs. x ∷ (take n xs ++ cs))
                        (rows
                          ∙ left_behind-last (listing thread_id parent_id d0) cursor n x xs strict
                              r)
                    ∙ ap (λ cs. x ∷ cs) (take-drop n xs)
                    ∙ sym r,
              ),
            ))

  left_behind-Identified :
      (cursor : Option CommentCursor)
      → All Identified d0.comments
      → All Identified (left_behind cursor thread_id parent_id d0)
  left_behind-Identified cursor h =
      All-keep Identified (behind_cursor cursor) _
        (All-sort_by Identified comment_before _ (All-keep Identified _ d0.comments h))

  -- The cursor of a page is read back as the place of its last row.
  next-Asks :
      (q : ListQuery) (cursor : Option CommentCursor) (k : Comment)
      → IsFaithful codec
      → Identified k
      → Asks ids codec q thread_id parent_id n cursor
      → Asks ids codec
          (record q { cursor = cursor_behind codec thread_id parent_id k })
          thread_id
          parent_id
          n
          (some (cursor_at k))
  next-Asks q cursor k faithful named a = record {
    for_thread = a.for_thread;
    for_parent = a.for_parent;
    for_limit = a.for_limit;
    for_cursor =
        decode_cursor-encode_cursor codec thread_id parent_id (cursor_at k) thread_id parent_id
          faithful named.0 named.1
        ∙ rw (same_list thread_id parent_id) refl;
  }

  -- A page takes at least one comment.
  shrinks :
      (cursor : Option CommentCursor) (x : Comment) (xs : List Comment) (fuel : ℕ)
      → Strict (listing thread_id parent_id d0)
      → left_behind cursor thread_id parent_id d0 ≡ x ∷ xs
      → length (left_behind cursor thread_id parent_id d0) < suc fuel
      → length (left_behind (some (cursor_at (last_from x (take n xs)))) thread_id parent_id d0)
        < fuel
  shrinks cursor x xs fuel strict r enough =
      let rest : left_behind (some (cursor_at (last_from x (take n xs)))) thread_id parent_id d0
          ≡ drop n xs =
        left_behind-last (listing thread_id parent_id d0) cursor n x xs strict r in
      let had : length (x ∷ xs) < suc fuel = subst (λ l. length l < suc fuel) r enough in
      subst (λ l. length l < fuel) (sym rest) (omega (arith, length-drop_le n xs))

  -- Following the cursors that ListComments hands out, from any of them on, a client with more fuel
  -- than there are comments left gets all of them.
  gather-Gathered :
      (fuel : ℕ) (q : ListQuery) (cursor : Option CommentCursor)
      → IsFaithful codec
      → Strict (listing thread_id parent_id d0)
      → All Identified d0.comments
      → Asks ids codec q thread_id parent_id n cursor
      → length (left_behind cursor thread_id parent_id d0) < fuel
      → Triple (λ d. d ≡ d0) (gather env s ids codec fuel actor q) (Gathered cursor)
  unfolding gather
  gather-Gathered zero q cursor faithful strict identified a enough = absurd (omega arith)
  gather-Gathered (suc fuel) q cursor faithful strict identified a enough =
      Triple-bind _ _ (Shown cursor) (list_page-Triple q cursor a) λ page.
        Triple-fact _ _ (Gathered cursor) λ shows.
          elim (Bool-cases (leb (length (left_behind cursor thread_id parent_id d0)) (suc n))) [
            | inl fits ↦ stop-Gathered cursor page _ (ground arith) shows
            | inr over ↦ elim (List-cases (left_behind cursor thread_id parent_id d0)) [
              | inl none_left ↦ absurd (nothing_over _ n none_left over)
              | inr (x, xs, r) ↦
                  let k : Comment = last_from x (take n xs) in
                  let named : Identified k =
                    All-last Identified n x xs
                      (subst (All Identified) r (left_behind-Identified cursor identified)) in
                  let next : Asks ids codec
                      (record q { cursor = cursor_behind codec thread_id parent_id k }) thread_id
                      parent_id n (some (cursor_at k)) =
                    next-Asks q cursor k faithful named a in
                  go-Gathered cursor page _ x xs r (size_over _ n _ r over) strict shows (
                    gather-Gathered fuel
                      (record q { cursor = cursor_behind codec thread_id parent_id k })
                      (some (cursor_at k)) faithful strict identified next
                      (shrinks cursor x xs fuel strict r enough))
            ]
          ]

  everything :
      keep (behind_cursor none) (listing thread_id parent_id d0) ≡ listing thread_id parent_id d0
  everything = keep-true (listing thread_id parent_id d0)

  -- On a database that is ordered, whose comments have identifiers and times, and that does not
  -- change in between, a client that asks ListComments for a thread and parent with any admitted
  -- limit and follows the cursors to the last page, with more fuel for its requests than the list
  -- has comments, does not run out of it: unless a request fails, it has every visible comment of
  -- the thread and parent exactly once, in the order of their times and identifiers; so long as the
  -- codec of the cursors gives back what it was given and the authorizer changes nothing.
  pub gather_all :
      (fuel : ℕ) (q : ListQuery)
      → IsFaithful codec
      → Sequenced d0
      → All Identified d0.comments
      → Asks ids codec q thread_id parent_id n none
      → length (listing thread_id parent_id d0) < fuel
      → Triple
          (λ d. d ≡ d0)
          (gather env s ids codec fuel actor q)
          (λ o d.
            (d ≡ d0)
            × ((vs : List CommentView) × (o ≡ some vs)
                × (comments_of vs ≡ listing thread_id parent_id d0)))
  gather_all fuel q faithful sequenced identified a enough =
      subst
        (λ l.
          Triple (λ d. d ≡ d0) (gather env s ids codec fuel actor q)
            (λ o d. (d ≡ d0) × ((vs : List CommentView) × (o ≡ some vs) × (comments_of vs ≡ l))))
        everything
        (gather-Gathered fuel q none faithful
          (listing-Strict thread_id parent_id d0 sequenced.apart) identified a
          (subst (λ l. length l < fuel) (sym everything) enough))
