-- ===== src/Transport/Http/Cuts.antt =====
-- `paginateViews` of handlers/comment.go, against the rows that it cuts a page from.
use ms_go_comment.Base.{
  Bool-cases, List, Option, [], ap, arith, false, inl, inr, last_from, length, ltb, none, refl,
  some, suc, sym, take, true, zero, ℕ, ◌<◌, ◌↔◌, ◌∙◌, ◌∷◌, ◌≡◌, ◌≤◌,
}
use ms_go_comment.Domain.Comment.{Comment}
use ms_go_comment.Domain.Common.{Uuid}
use ms_go_comment.Transport.Http.Cursors.{CursorCodec}
use ms_go_comment.Transport.Http.Discussions.{
  Page, cursor_behind, last_view, next_of, paginate_views,
}
use ms_go_comment.Transport.Http.Rows.{comments_of}
use ms_go_comment.Usecase.Discussion.{CommentView}
use ms_go_comment.Usecase.Discussion.Read.{views}

take-comments_of :
    (n : ℕ) (vs : List CommentView) → comments_of (take n vs) ≡ take n (comments_of vs)
take-comments_of zero vs = refl
take-comments_of (suc n) [] = refl
take-comments_of (suc n) (v ∷ vs) = ap (λ cs. v.comment ∷ cs) (take-comments_of n vs)

length-comments_of : (vs : List CommentView) → length (comments_of vs) ≡ length vs
length-comments_of [] = refl
length-comments_of (v ∷ vs) = ap suc (length-comments_of vs)

module _ {ℓ} {A : Type ℓ} where
  take-take : (n : ℕ) (xs : List A) → take n (take (suc n) xs) ≡ take n xs
  take-take zero xs = refl
  take-take (suc n) [] = refl
  take-take (suc n) (x ∷ xs) = ap (λ ys. x ∷ ys) (take-take n xs)

  pub take_all : (n : ℕ) (xs : List A) → length xs ≤ n → take n xs ≡ xs
  take_all zero [] h = refl
  take_all zero (x ∷ xs) h = absurd (omega arith)
  take_all (suc n) [] h = refl
  take_all (suc n) (x ∷ xs) h = ap (λ ys. x ∷ ys) (take_all n xs (omega arith))

  -- One row more than a page tells whether there is another page.
  length-take-suc : (n : ℕ) (xs : List A) → (n < length (take (suc n) xs)) ↔ (n < length xs)
  length-take-suc zero [] = (λ h. h, λ h. h)
  length-take-suc zero (x ∷ xs) = (λ h. omega arith, λ h. omega arith)
  length-take-suc (suc n) [] = (λ h. h, λ h. h)
  length-take-suc (suc n) (x ∷ xs) =
      let ih = length-take-suc n xs in
      (λ h. omega (arith, ih.0 (omega arith)), λ h. omega (arith, ih.1 (omega arith)))

  fits_of : (n : ℕ) (xs : List A) → length (take (suc n) xs) ≤ n → length xs ≤ n
  fits_of zero [] h = h
  fits_of zero (x ∷ xs) h = absurd (omega arith)
  fits_of (suc n) [] h = omega arith
  fits_of (suc n) (x ∷ xs) h = let ih = fits_of n xs (omega arith) in omega (arith, ih)

last_view-comment :
    (v : CommentView) (vs : List CommentView)
    → (last_view v vs).comment ≡ last_from v.comment (comments_of vs)
last_view-comment v [] = refl
last_view-comment v (w ∷ ws) = last_view-comment w ws

module _ (codec : CursorCodec) (thread_id : Uuid) (parent_id : Option Uuid) where
  -- The page of a limit from the rows that are left.
  pub record PageShows (limit : ℕ) (rows : List Comment) (p : Page) : Type 0 where
    pub shown : comments_of p.views ≡ take limit rows
    pub stops : length rows ≤ limit → p.next ≡ none
    pub goes :
        (n : ℕ) (x : Comment) (xs : List Comment)
        → limit ≡ suc n
        → rows ≡ x ∷ xs
        → limit < length rows
        → p.next ≡ some (cursor_behind codec thread_id parent_id (last_from x (take n xs)))

  next-cursor :
      (vs : List CommentView) (n : ℕ) (x : Comment) (xs : List Comment)
      → comments_of vs ≡ take (suc n) (x ∷ xs)
      → next_of codec thread_id parent_id true vs
        ≡ some (cursor_behind codec thread_id parent_id (last_from x (take n xs)))
  next-cursor [] n x xs e = let no : [] ≡ x ∷ take n xs = e in absurd (cc)
  next-cursor (v ∷ vs) n x xs e =
      ap (λ c. some (cursor_behind codec thread_id parent_id c))
        (last_view-comment v vs ∙ ap (λ cs. last_of cs) e)
    where
      last_of : List Comment → Comment
      last_of [] = x
      last_of (c ∷ cs) = last_from c cs

  no-cursor : (vs : List CommentView) → next_of codec thread_id parent_id false vs ≡ none
  no-cursor [] = refl
  no-cursor (v ∷ vs) = refl

  pub paginate_views-PageShows :
      (views : List CommentView) (limit : ℕ) (rows : List Comment)
      → comments_of views ≡ take (suc limit) rows
      → PageShows limit rows (paginate_views codec views limit thread_id parent_id)
  unfolding paginate_views
  paginate_views-PageShows views limit rows e =
      let size : length views ≡ length (take (suc limit) rows) =
        sym (length-comments_of views) ∙ ap length e in
      elim (Bool-cases (ltb limit (length views))) [
        | inl t ↦
            let more : limit < length rows = (length-take-suc limit rows).0 (ground arith) in
            let shown : comments_of (take limit views) ≡ take limit rows =
              take-comments_of limit views ∙ ap (take limit) e ∙ take-take limit rows in
            rw t (record {
              shown = shown;
              stops = λ h. absurd (omega arith);
              goes = λ n x xs l r lt.
                  next-cursor (take limit views) n x xs
                    (shown ∙ ap (λ k. take k rows) l ∙ ap (take (suc n)) r);
            })
        | inr f ↦
            let fits : length rows ≤ limit = fits_of limit rows (ground arith) in
            rw f (record {
              shown = e ∙ take_all (suc limit) rows (omega arith) ∙ sym (take_all limit rows fits);
              stops = λ h. no-cursor views;
              goes = λ n x xs l r lt. absurd (omega arith);
            })
      ]
