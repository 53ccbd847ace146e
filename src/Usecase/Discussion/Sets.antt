-- ===== src/Usecase/Discussion/Sets.antt =====
-- `equalUUIDSet`: two lists of identifiers as multisets, compared through a map of counts.
pub mod Multisets
use ms_go_comment.Base.{
  Bool, List, [], false, if◌then◌else◌, length, ltb_ℤ, negsuc, pos, suc, true, ℕ, ℤ, ◌!=◌, ◌+ℤ◌,
  ◌==◌, ◌∷◌,
}
use ms_go_comment.Domain.Common.{Uuid}

abbrev pub Counts : Type 0
Counts = Uuid → ℤ

abbrev pub no_counts : Counts
no_counts x = pos 0

-- `counts[id] += k`
abbrev pub bump : Uuid → ℤ → Counts → Counts
bump id k counts x = if x == id then counts x +ℤ k else counts x

-- `for _, id := range left { counts[id]++ }`
unfoldable pub count_all : Counts → List Uuid → Counts
count_all counts [] = counts
count_all counts (x ∷ xs) = count_all (bump x (pos 1) counts) xs

-- The second loop: false as soon as a count falls below 0.
unfoldable pub drain : Counts → List Uuid → Bool
drain counts [] = true
drain counts (x ∷ xs) =
    let counts' = bump x (negsuc 0) counts in
    let rest = drain counts' xs in if ltb_ℤ (counts' x) (pos 0) then false else rest

unfoldable pub equal_uuid_set : List Uuid → List Uuid → Bool
unfolding count_all drain
equal_uuid_set left right =
    if length left != length right then false else drain (count_all no_counts left) right

-- How often an identifier stands in a list.
abbrev pub count : Uuid → List Uuid → ℕ
count x [] = 0
count x (y ∷ ys) = if x == y then suc (count x ys) else count x ys
