-- ===== src/Transport/Maps.antt =====
-- Association lists keyed by native numbers, for Go's maps: a key stands at most once in a map that
-- `put` and `keep` build.
use ms_go_comment.Base.{
  All, Bool, Bool-cases, List, Option, [], ap, arith, false, if◌then◌else◌, inl, inr, is_some, keep,
  length, none, refl, some, subst, suc, sym, true, ℕ, ◌==◌, ◌∙◌, ◌∷◌, ◌≡◌, ◌≢◌,
}
use ms_go_comment.Store.Rows.{All-keep}

module _ {ℓ} {A : Type ℓ} where
  -- `m[k]`
  abbrev pub lookup : ℕ → List (ℕ × A) → Option A
  lookup k [] = none
  lookup k ((j, v) ∷ m) = if j == k then some v else lookup k m

  -- `m[k] = v`
  abbrev pub put : ℕ → A → List (ℕ × A) → List (ℕ × A)
  put k v [] = (k, v) ∷ []
  put k v ((j, w) ∷ m) = if j == k then (k, v) ∷ m else (j, w) ∷ put k v m

  -- No entry has this key.
  abbrev pub Absent : ℕ → List (ℕ × A) → Type 0
  Absent k m = All (λ e. e.0 ≢ k) m

  abbrev pub DistinctKeys : List (ℕ × A) → Type 0
  DistinctKeys [] = Unit
  DistinctKeys ((j, v) ∷ m) = Absent j m × DistinctKeys m

  pub lookup-put :
      (i k : ℕ) (v : A) (m : List (ℕ × A))
      → lookup i (put k v m) ≡ (if k == i then some v else lookup i m)
  lookup-put i k v [] = refl
  lookup-put i k v ((j, w) ∷ m) = ground (arith, lookup-put i k v m)

  pub length-put :
      (k : ℕ) (v : A) (m : List (ℕ × A))
      → length (put k v m) ≡ (if is_some (lookup k m) then length m else suc (length m))
  length-put k v [] = refl
  length-put k v ((j, w) ∷ m) = ground (arith, length-put k v m)

  pub All-put {κ} :
      (P : ℕ × A → Type κ) (k : ℕ) (v : A) (m : List (ℕ × A))
      → All P m
      → P (k, v)
      → All P (put k v m)
  All-put P k v [] h p = (p, tt)
  All-put P k v ((j, w) ∷ m) h p = elim (Bool-cases (j == k)) [
    | inl e ↦ rw e (p, h.1)
    | inr e ↦ rw e (h.0, All-put P k v m h.1 p)
  ]

  Absent-put : (i k : ℕ) (v : A) (m : List (ℕ × A)) → Absent i m → k ≢ i → Absent i (put k v m)
  Absent-put i k v m h ne = All-put (λ e. e.0 ≢ i) k v m h ne

  pub put-DistinctKeys :
      (k : ℕ) (v : A) (m : List (ℕ × A)) → DistinctKeys m → DistinctKeys (put k v m)
  put-DistinctKeys k v [] h = (tt, tt)
  put-DistinctKeys k v ((j, w) ∷ m) h = elim (Bool-cases (j == k)) [
    | inl e ↦ let same : j ≡ k = ground arith in rw e (subst (λ i. Absent i m) same h.0, h.1)
    | inr e ↦ rw e (Absent-put j k v m h.0 (λ same. ground arith), put-DistinctKeys k v m h.1)
  ]

  pub keep-DistinctKeys :
      (p : ℕ × A → Bool) (m : List (ℕ × A)) → DistinctKeys m → DistinctKeys (keep p m)
  keep-DistinctKeys p [] h = tt
  keep-DistinctKeys p ((j, w) ∷ m) h = elim (Bool-cases (p (j, w))) [
    | inl e ↦ rw e (All-keep _ p m h.0, keep-DistinctKeys p m h.1)
    | inr e ↦ rw e (keep-DistinctKeys p m h.1)
  ]

  lookup-Absent : (k : ℕ) (m : List (ℕ × A)) → Absent k m → lookup k m ≡ none
  lookup-Absent k [] h = refl
  lookup-Absent k ((j, w) ∷ m) h = ground (arith, lookup-Absent k m)

  abbrev pub only : (ℕ × A → Bool) → ℕ → Option A → Option A
  only p k none = none
  only p k (some v) = if p (k, v) then some v else none

  -- What a key finds after a filter.
  pub lookup-keep :
      (p : ℕ × A → Bool) (k : ℕ) (m : List (ℕ × A))
      → DistinctKeys m
      → lookup k (keep p m) ≡ only p k (lookup k m)
  lookup-keep p k [] h = refl
  lookup-keep p k ((j, w) ∷ m) h = elim (Bool-cases (j == k)) [
    | inl e ↦
        let same : j ≡ k = ground arith in
        let gone : Absent k (keep p m) =
          subst (λ i. Absent i (keep p m)) same (All-keep _ p m h.0) in
        elim (Bool-cases (p (j, w))) [
          | inl t ↦
              let t' : p (k, w) ≡ true = ap (λ i. p (i, w)) (sym same) ∙ t in rw (t, e, t') refl
          | inr t ↦
              let t' : p (k, w) ≡ false = ap (λ i. p (i, w)) (sym same) ∙ t in
              rw (t, e, t') (lookup-Absent k (keep p m) gone)
        ]
    | inr e ↦ elim (Bool-cases (p (j, w))) [
      | inl t ↦ rw (t, e) (lookup-keep p k m h.1)
      | inr t ↦ rw (t, e) (lookup-keep p k m h.1)
    ]
  ]

  -- An entry that a lookup finds satisfies what all do.
  pub lookup-All {κ} :
      (P : ℕ × A → Type κ) (k : ℕ) (m : List (ℕ × A)) (v : A)
      → All P m
      → lookup k m ≡ some v
      → P (k, v)
  lookup-All P k [] v h e = cc
  lookup-All P k ((j, w) ∷ m) v h e = elim (Bool-cases (j == k)) [
    | inl t ↦
        let same : j ≡ k = ground arith in
        let value : w ≡ v = ground arith in
        subst (λ u. P (k, u)) value (subst (λ i. P (i, w)) same h.0)
    | inr t ↦ lookup-All P k m v h.1 (ground arith)
  ]
