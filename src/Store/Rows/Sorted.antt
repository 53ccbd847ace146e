-- ===== src/Store/Rows/Sorted.antt =====
-- `ORDER BY` and `LIMIT` on the rows of a table.
use ms_go_comment.Base.{
  All, Bool, Bool-cases, List, [], any, arith, false, false≢true, inl, inr, keep, suc, sym, take,
  true, zero, ℕ, ◌∙◌, ◌∷◌, ◌≡◌, ◌⊎◌,
}
use ms_go_comment.Store.Rows.{All-map, All-zip, insert_by, sort_by}

module _ {ℓ κ} {A : Type ℓ} (P : A → Type κ) where
  pub All-take : (n : ℕ) (xs : List A) → All P xs → All P (take n xs)
  All-take zero xs h = tt
  All-take (suc n) [] h = tt
  All-take (suc n) (x ∷ xs) h = (h.0, All-take n xs h.1)

  -- What `keep` keeps passes its test.
  pub All-kept : (p : A → Bool) (xs : List A) → All (λ x. p x ≡ true → P x) xs → All P (keep p xs)
  All-kept p [] h = tt
  All-kept p (x ∷ xs) h = elim (Bool-cases (p x)) [
    | inl e ↦ rw e (h.0 e, All-kept p xs h.1)
    | inr e ↦ rw e (All-kept p xs h.1)
  ]

  pub All-of_kept :
      (p : A → Bool) (xs : List A) → All P (keep p xs) → All (λ x. p x ≡ true → P x) xs
  All-of_kept p [] h = tt
  All-of_kept p (x ∷ xs) h = elim (Bool-cases (p x)) [
    | inl e ↦ let (a, b) : P x × All P (keep p xs) = rw e at h in (λ _. a, All-of_kept p xs b)
    | inr e ↦
        let b : All P (keep p xs) = rw e at h in
        (λ t. absurd (false≢true (sym e ∙ t)), All-of_kept p xs b)
  ]

  module _ (before : A → A → Bool) where
    pub All-insert_by : (x : A) (ys : List A) → P x → All P ys → All P (insert_by before x ys)
    unfolding insert_by
    All-insert_by x [] a h = (a, tt)
    All-insert_by x (y ∷ ys) a h = elim (Bool-cases (before x y)) [
      | inl e ↦ rw e (a, h)
      | inr e ↦ rw e (h.0, All-insert_by x ys a h.1)
    ]

    All-of_inserted : (x : A) (ys : List A) → All P (insert_by before x ys) → P x × All P ys
    unfolding insert_by
    All-of_inserted x [] h = (h.0, tt)
    All-of_inserted x (y ∷ ys) h = elim (Bool-cases (before x y)) [
      | inl e ↦ let k : P x × (P y × All P ys) = rw e at h in (k.0, (k.1.0, k.1.1))
      | inr e ↦
          let k : P y × All P (insert_by before x ys) = rw e at h in
          let (a, b) = All-of_inserted x ys k.1 in (a, (k.0, b))
    ]

    pub All-sort_by : (xs : List A) → All P xs → All P (sort_by before xs)
    unfolding sort_by
    All-sort_by [] h = tt
    All-sort_by (x ∷ xs) h = All-insert_by x (sort_by before xs) h.0 (All-sort_by xs h.1)

    pub All-of_sorted : (xs : List A) → All P (sort_by before xs) → All P xs
    unfolding sort_by
    All-of_sorted [] h = tt
    All-of_sorted (x ∷ xs) h =
        let (a, b) = All-of_inserted x (sort_by before xs) h in (a, All-of_sorted xs b)

module _ {ℓ} {A : Type ℓ} (before : A → A → Bool) where
  -- Every row comes before all that follow it.
  abbrev pub Ordered : List A → Type 0
  Ordered [] = Unit
  Ordered (x ∷ xs) = All (λ y. before x y ≡ true) xs × Ordered xs

  module _ (total : (x y : A) → before x y ≡ false → before y x ≡ true)
      (chain : (x y z : A) → before x y ≡ true → before y z ≡ true → before x z ≡ true) where
    insert_by-Ordered : (x : A) (ys : List A) → Ordered ys → Ordered (insert_by before x ys)
    unfolding insert_by
    insert_by-Ordered x [] h = (tt, tt)
    insert_by-Ordered x (y ∷ ys) h = elim (Bool-cases (before x y)) [
      | inl e ↦ rw e ((e, All-map _ _ ys (λ z k. chain x y z e k) h.0), h)
      | inr e ↦ rw e (All-insert_by _ before x ys (total x y e) h.0, insert_by-Ordered x ys h.1)
    ]

    pub sort_by-Ordered : (xs : List A) → Ordered (sort_by before xs)
    unfolding sort_by
    sort_by-Ordered [] = tt
    sort_by-Ordered (x ∷ xs) = insert_by-Ordered x (sort_by before xs) (sort_by-Ordered xs)

  pub take-Ordered : (n : ℕ) (xs : List A) → Ordered xs → Ordered (take n xs)
  take-Ordered zero xs h = tt
  take-Ordered (suc n) [] h = tt
  take-Ordered (suc n) (x ∷ xs) h = (All-take _ n xs h.0, take-Ordered n xs h.1)

  -- A row is within the limit, or behind everything within it.
  pub take-covers :
      (same : A → A → Bool)
      → ((x : A) → same x x ≡ true)
      → (n : ℕ) (xs : List A) → Ordered xs
      → All (λ y. (any (same y) (take n xs) ≡ true) ⊎ All (λ x. before x y ≡ true) (take n xs)) xs
  take-covers same reflexive zero xs h = always xs
    where
      always :
          (ys : List A)
          → All
              (λ y. (any (same y) (take 0 xs) ≡ true) ⊎ All (λ x. before x y ≡ true) (take 0 xs))
              ys
      always [] = tt
      always (y ∷ ys) = (inr tt, always ys)
  take-covers same reflexive (suc n) [] h = tt
  take-covers same reflexive (suc n) (x ∷ xs) h = (
    inl (ground (arith, reflexive x)),
    All-map _ _ xs (λ y k. elim k.1 [ inl e ↦ inl (ground arith) | inr b ↦ inr (k.0, b) ])
        (All-zip _ _ xs h.0 (take-covers same reflexive n xs h.1)),
  )
