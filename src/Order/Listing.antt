-- ===== src/Order/Listing.antt =====
-- The pages of a list of comments, cut by cursors: `List` of comment_repository.go.
use ms_go_comment.Base.{
  All, Bool, Bool-cases, List, [], ap, drop, false, if◌then◌else◌, inl, inr, keep, last_from, refl,
  suc, sym, take, true, zero, ℕ, ◌&&◌, ◌∙◌, ◌∷◌, ◌≡◌,
}
use ms_go_comment.Store.Rows.{All-keep, All-map, insert_by, sort_by}
use ms_go_comment.Store.Rows.Sorted.{All-insert_by, All-sort_by, Ordered, sort_by-Ordered}

module _ {ℓ} {A : Type ℓ} where
  -- Every element is related to all that follow it.
  abbrev pub Pairwise : (A → A → Type 0) → List A → Type ℓ
  Pairwise R [] = Unit
  Pairwise R (x ∷ xs) = All (R x) xs × Pairwise R xs

  pub keep-keep : (p q : A → Bool) (xs : List A) → keep q (keep p xs) ≡ keep (λ x. p x && q x) xs
  keep-keep p q [] = refl
  keep-keep p q (x ∷ xs) = elim (Bool-cases (p x)) [
    | inl e ↦ elim (Bool-cases (q x)) [
      | inl f ↦ rw (e, f) (ap (λ ys. x ∷ ys) (keep-keep p q xs))
      | inr f ↦ rw (e, f) (keep-keep p q xs)
    ]
    | inr e ↦ rw e (keep-keep p q xs)
  ]

  pub keep-same : (p q : A → Bool) (xs : List A) → ((x : A) → p x ≡ q x) → keep p xs ≡ keep q xs
  keep-same p q [] h = refl
  keep-same p q (x ∷ xs) h = rw (h x) (rw (keep-same p q xs h) refl)

  pub Pairwise-keep :
      (R : A → A → Type 0) (p : A → Bool) (xs : List A) → Pairwise R xs → Pairwise R (keep p xs)
  Pairwise-keep R p [] h = tt
  Pairwise-keep R p (x ∷ xs) h = elim (Bool-cases (p x)) [
    | inl e ↦ rw e (All-keep (R x) p xs h.0, Pairwise-keep R p xs h.1)
    | inr e ↦ rw e (Pairwise-keep R p xs h.1)
  ]

  module _ (before : A → A → Bool) where
    insert_first :
        (x : A) (ys : List A) → All (λ y. before x y ≡ true) ys → insert_by before x ys ≡ x ∷ ys
    unfolding insert_by
    insert_first x [] h = refl
    insert_first x (y ∷ ys) h = rw (h.0) refl

    Pairwise-insert :
        (R : A → A → Type 0) (x : A) (ys : List A)
        → ((y : A) → R x y → R y x)
        → All (R x) ys
        → Pairwise R ys
        → Pairwise R (insert_by before x ys)
    unfolding insert_by
    Pairwise-insert R x [] swap h k = (tt, tt)
    Pairwise-insert R x (y ∷ ys) swap h k = elim (Bool-cases (before x y)) [
      | inl e ↦ rw e (h, k)
      | inr e ↦
          rw e
            (All-insert_by (R y) before x ys (swap y h.0) k.0, Pairwise-insert R x ys swap h.1 k.1)
    ]

    pub Pairwise-sort :
        (R : A → A → Type 0) (xs : List A)
        → ((x y : A) → R x y → R y x)
        → Pairwise R xs
        → Pairwise R (sort_by before xs)
    unfolding sort_by
    Pairwise-sort R [] swap h = tt
    Pairwise-sort R (x ∷ xs) swap h =
        Pairwise-insert R x (sort_by before xs) (swap x) (All-sort_by (R x) before xs h.0)
          (Pairwise-sort R xs swap h.1)

    module _ (total : (x y : A) → before x y ≡ false → before y x ≡ true)
        (chain : (x y z : A) → before x y ≡ true → before y z ≡ true → before x z ≡ true) where
      keep-insert :
          (q : A → Bool) (x : A) (ys : List A)
          → Ordered before ys
          → keep q (insert_by before x ys)
            ≡ (if q x then insert_by before x (keep q ys) else keep q ys)
      unfolding insert_by
      keep-insert q x [] h = refl
      keep-insert q x (y ∷ ys) h = elim (Bool-cases (before x y)) [
        | inl e ↦
            let behind : All (λ z. before x z ≡ true) (y ∷ ys) =
              (e, All-map _ _ ys (λ z k. chain x y z e k) h.0) in
            rw e (
              ap (λ zs. if q x then zs else keep q (y ∷ ys))
                (sym (insert_first x (keep q (y ∷ ys)) (All-keep _ q (y ∷ ys) behind))))
        | inr e ↦
            let ih = keep-insert q x ys h.1 in
            elim (Bool-cases (q y)) [
              | inl f ↦ elim (Bool-cases (q x)) [
                | inl g ↦ rw (e, f, g, e) (ap (λ zs. y ∷ zs) (ih ∙ rw g refl))
                | inr g ↦ rw (e, f, g) (ap (λ zs. y ∷ zs) (ih ∙ rw g refl))
              ]
              | inr f ↦ rw (e, f) ih
            ]
      ]

      -- Filtering and sorting commute.
      pub sort-keep :
          (q : A → Bool) (xs : List A) → sort_by before (keep q xs) ≡ keep q (sort_by before xs)
      unfolding sort_by
      sort-keep q [] = refl
      sort-keep q (x ∷ xs) = elim (Bool-cases (q x)) [
        | inl e ↦ rw e (
            ap (insert_by before x) (sort-keep q xs)
            ∙ sym (
                keep-insert q x (sort_by before xs) (sort_by-Ordered before total chain xs)
                ∙ rw e refl))
        | inr e ↦ rw e (
            sort-keep q xs
            ∙ sym (
                keep-insert q x (sort_by before xs) (sort_by-Ordered before total chain xs)
                ∙ rw e refl))
      ]

pub All-last {ℓ} :
    {A : Type ℓ} (P : A → Type 0) (n : ℕ) (x : A) (xs : List A)
    → All P (x ∷ xs)
    → P (last_from x (take n xs))
All-last P zero x xs h = h.0
All-last P (suc n) x [] h = h.0
All-last P (suc n) x (y ∷ xs) h = All-last P n y xs h.1

-- One row is behind the other, and not the other way round.
abbrev pub Follows {ℓ} : {A : Type ℓ} → (A → A → Bool) → A → A → Type 0
Follows behind x y = (behind x y ≡ true) × (behind y x ≡ false)

keep_all {ℓ} : {A : Type ℓ} (p : A → Bool) (xs : List A) → All (λ x. p x ≡ true) xs → keep p xs ≡ xs
keep_all p [] h = refl
keep_all p (x ∷ xs) h = rw (h.0) (ap (λ ys. x ∷ ys) (keep_all p xs h.1))

-- Behind the last row of a page stand the rows that the page lacks.
pub keep-drop {ℓ} :
    {A : Type ℓ} (behind : A → A → Bool)
    → ((x : A) → behind x x ≡ false)
    → (n : ℕ) (x : A) (xs : List A) → Pairwise (Follows behind) (x ∷ xs)
    → keep (behind (last_from x (take n xs))) (x ∷ xs) ≡ drop n xs
keep-drop behind irreflexive zero x xs h =
    rw (irreflexive x) (keep_all (behind x) xs (All-map _ _ xs (λ y k. k.0) h.0))
keep-drop behind irreflexive (suc n) x [] h = rw (irreflexive x) refl
keep-drop {A = A} behind irreflexive (suc n) x (y ∷ xs) h =
    let k : A = last_from y (take n xs) in
    let off : behind k x ≡ false = (All-last (Follows behind x) n y xs h.0).1 in
    rw off (keep-drop behind irreflexive n y xs h.1)
