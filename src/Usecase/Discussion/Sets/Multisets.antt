-- ===== src/Usecase/Discussion/Sets/Multisets.antt =====
-- `equalUUIDSet` beside the counts of its arguments.
use ms_go_comment.Base.{
  ==_iff, Bool-cases, List, [], arith, eq_of_parts, false≢true, if◌then◌else◌, inl, inr, int_laws,
  length, ltb_ℤ, negsuc, pos, refl, subst, suc, sym, true, ℕ, ◌!=◌, ◌+ℤ◌, ◌+◌, ◌<◌, ◌==◌, ◌↔◌, ◌∙◌,
  ◌∷◌, ◌≡◌, ◌≤ℤ◌, ◌≤◌,
}
use ms_go_comment.Domain.Common.{Uuid}
use ms_go_comment.Usecase.Discussion.Sets.{
  Counts, bump, count, count_all, drain, equal_uuid_set, no_counts,
}

count_all-adds :
    (counts : Counts) (l : List Uuid) (x : Uuid)
    → count_all counts l x ≡ counts x +ℤ pos (count x l)
unfolding count_all
count_all-adds counts [] x = omega int_laws
count_all-adds counts (y ∷ l) x =
    let ih = count_all-adds (bump y (pos 1) counts) l x in
    elim (Bool-cases (x == y)) [
      | inl e ↦
          let ih' : count_all (bump y (pos 1) counts) l x ≡ (counts x +ℤ pos 1) +ℤ pos (count x l) =
            rw e at ih in
          rw e (ih' ∙ eq_of_parts _ _ (omega int_laws))
      | inr e ↦
          let ih' : count_all (bump y (pos 1) counts) l x ≡ counts x +ℤ pos (count x l) =
            rw e at ih in
          rw e ih'
    ]

abbrev NonNegative : Counts → Type 0
NonNegative counts = (x : Uuid) → pos 0 ≤ℤ counts x

abbrev Covered : List Uuid → Counts → Type 0
Covered r counts = (x : Uuid) → pos (count x r) ≤ℤ counts x

-- A count less one, as the second loop leaves it.
bump_covers :
    (counts : Counts) (x y : Uuid) (k : ℕ)
    → (pos k ≤ℤ bump y (negsuc 0) counts x) ↔ (pos (if x == y then suc k else k) ≤ℤ counts x)
bump_covers counts x y k = elim (Bool-cases (x == y)) [
  | inl e ↦ rw e (λ h. omega int_laws, λ h. omega int_laws)
  | inr e ↦ rw e (λ h. h, λ h. h)
]

drain_iff :
    (counts : Counts) (r : List Uuid)
    → NonNegative counts
    → (drain counts r ≡ true) ↔ Covered r counts
unfolding drain
drain_iff counts [] nn = (λ h x. nn x, λ h. refl)
drain_iff counts (y ∷ r) nn = elim (Bool-cases (ltb_ℤ (bump y (negsuc 0) counts y) (pos 0))) [
  | inl e ↦ rw e (
    λ h. absurd (false≢true h),
    λ h. absurd (ground (arith, (bump_covers counts y y (count y r)).1 (h y))),
  )
  | inr e ↦
      let ih = drain_iff (bump y (negsuc 0) counts) r (λ x. elim (Bool-cases (x == y)) [
        | inl k ↦
            subst (λ z. pos 0 ≤ℤ bump y (negsuc 0) counts z) (sym ((==_iff x y).0 k)) (ground arith)
        | inr k ↦ rw k (nn x)
      ]) in
      rw e (
        λ h x. (bump_covers counts x y (count x r)).0 (ih.0 h x),
        λ h. ih.1 (λ x. (bump_covers counts x y (count x r)).1 (h x)),
      )
]

abbrev remove_one : Uuid → List Uuid → List Uuid
remove_one y [] = []
remove_one y (z ∷ l) = if y == z then l else z ∷ remove_one y l

length-remove_one :
    (y : Uuid) (l : List Uuid) → 0 < count y l → length l ≡ suc (length (remove_one y l))
length-remove_one y [] h = absurd (omega arith)
length-remove_one y (z ∷ l) h = ground (arith, length-remove_one y l)

count-remove_one :
    (y x : Uuid) (l : List Uuid)
    → 0 < count y l
    → count x l ≡ count x (remove_one y l) + (if x == y then 1 else 0)
count-remove_one y x [] h = absurd (omega arith)
count-remove_one y x (z ∷ l) h = ground (arith, count-remove_one y x l)

count_le_length : (x : Uuid) (l : List Uuid) → count x l ≤ length l
count_le_length x [] = omega arith
count_le_length x (y ∷ l) = ground (arith, count_le_length x l)

-- A list that covers another one is at least as long, and as long only with equal counts.
covers :
    (r l : List Uuid)
    → ((x : Uuid) → count x r ≤ count x l)
    → (length r ≤ length l) × (length l ≡ length r → (x : Uuid) → count x l ≡ count x r)
covers [] l h = (omega arith, λ e x. omega (arith, count_le_length x l, e))
covers (y ∷ r) l h =
    let at_y : 0 < count y l = ground (arith, h y) in
    let (le, same) =
      covers r (remove_one y l) (λ x. ground (arith, h x, count-remove_one y x l at_y)) in
    (
      omega (arith, length-remove_one y l at_y, le),
      λ e x. ground (
        arith,
        count-remove_one y x l at_y,
        same (omega (arith, length-remove_one y l at_y, e)) x,
      ),
    )

all_of : (l : List Uuid) (x : Uuid) → count_all no_counts l x ≡ pos (count x l)
all_of l x = count_all-adds no_counts l x ∙ eq_of_parts _ _ (omega (int_laws))

-- equalUUIDSet accepts two lists exactly when every identifier occurs equally often in both.
pub equal_uuid_set_iff :
    (left right : List Uuid)
    → (equal_uuid_set left right ≡ true) ↔ ((x : Uuid) → count x left ≡ count x right)
unfolding equal_uuid_set
equal_uuid_set_iff left right = elim (Bool-cases (length left != length right)) [
  | inl e ↦ rw e (
    λ h. absurd (false≢true h),
    λ h.
        let (a, _) = covers left right (λ x. omega (arith, h x)) in
        let (b, _) = covers right left (λ x. omega (arith, h x)) in ground arith,
  )
  | inr e ↦
      let drained =
        drain_iff (count_all no_counts left) right (λ x. rw (all_of left x) (omega arith)) in
      rw e (
        λ h x.
            (covers right left (λ y.
                omega
                  (arith, subst (λ z. pos (count y right) ≤ℤ z) (all_of left y) (drained.0 h y)))).1
              (ground arith) x,
        λ h. drained.1 (λ x. rw (all_of left x) (omega (arith, h x))),
      )
]
