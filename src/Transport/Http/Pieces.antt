-- ===== src/Transport/Http/Pieces.antt =====
-- Lists cut in two, and the loop of a client of `ListComments` in handlers/comment.go.
use ms_go_comment.Base.{
  List, Option, Result, [], ap, arith, drop, false, inl, inr, leb, length, none, ok, refl, some,
  subst, suc, take, true, zero, ℕ, ◌&&◌, ◌++◌, ◌<◌, ◌==◌, ◌∷◌, ◌≡◌, ◌≤◌, ◌⊎◌,
}
use ms_go_comment.Domain.Common.{Uuid, equal_uuid_ptr}
use ms_go_comment.Store.Monad.{M, World, continue, lift, ◌>>=◌}
use ms_go_comment.Transport.Http.Rows.{comments_of}
use ms_go_comment.Usecase.Discussion.{CommentView}

pub lift-ok : {A B : Type 0} (r : Result A) (a : A) (f : A → M B) → r ≡ ok a → (lift r >>= f) ≡ f a
unfolding ◌>>=◌
lift-ok r a f e = ap (λ x. λ (w : World). continue x f w) e

pub comments_of-append :
    (vs ws : List CommentView) → comments_of (vs ++ ws) ≡ comments_of vs ++ comments_of ws
comments_of-append [] ws = refl
comments_of-append (v ∷ vs) ws = ap (λ cs. v.comment ∷ cs) (comments_of-append vs ws)

pub take-drop {ℓ} : {A : Type ℓ} (n : ℕ) (xs : List A) → take n xs ++ drop n xs ≡ xs
take-drop zero xs = refl
take-drop (suc n) [] = refl
take-drop (suc n) (x ∷ xs) = ap (λ ys. x ∷ ys) (take-drop n xs)

pub length-drop_le {ℓ} : {A : Type ℓ} (n : ℕ) (xs : List A) → length (drop n xs) ≤ length xs
length-drop_le zero xs = omega arith
length-drop_le (suc n) [] = omega arith
length-drop_le (suc n) (x ∷ xs) = omega (arith, length-drop_le n xs)

pub List-cases {ℓ} :
    {A : Type ℓ} (xs : List A) → (xs ≡ []) ⊎ ((x : A) × (ys : List A) × (xs ≡ x ∷ ys))
List-cases [] = inl refl
List-cases (x ∷ xs) = inr (x, xs, refl)

pub nothing_over {ℓ} :
    {A : Type ℓ} (xs : List A) (n : ℕ) → xs ≡ [] → leb (length xs) (suc n) ≡ false → ⊥
nothing_over [] n e h = ground arith
nothing_over (x ∷ xs) n e h = cc

pub size_over {ℓ} :
    {A : Type ℓ} (xs : List A) (n : ℕ) (ys : List A)
    → xs ≡ ys
    → leb (length xs) (suc n) ≡ false
    → suc n < length ys
size_over xs n ys e h = subst (λ l. suc n < length l) e (ground arith)

pub same_list : (t : Uuid) (p : Option Uuid) → (t == t && equal_uuid_ptr p p) ≡ true
same_list t none = ground arith
same_list t (some p) = ground arith
