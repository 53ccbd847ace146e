-- ===== src/Transport/Hub/Counts.antt =====
-- The connection counts of hub.go against the clients that its threads hold.
use ms_go_comment.Base.{
  All, Bool, Bool-cases, List, [], any, arith, if◌then◌else◌, inl, inr, keep, leb, not, refl, subst,
  true, ℕ, ◌!=◌, ◌+◌, ◌-◌, ◌==◌, ◌∷◌, ◌≡◌, ◌≢◌,
}
use ms_go_comment.Domain.Common.{Uuid}
use ms_go_comment.Store.Rows.{All-keep}
use ms_go_comment.Transport.Hub.{Client, count_down, count_of, is_pair}
use ms_go_comment.Transport.Maps.{put}

-- The registered clients of a user.
abbrev pub is_of : (ℕ → Client) → Uuid → Uuid × ℕ → Bool
is_of clients u e = (clients e.1).session.user_id == u

abbrev pub number : (ℕ → Client) → Uuid → List (Uuid × ℕ) → ℕ
number clients u [] = 0
number clients u (e ∷ m) = (if is_of clients u e then 1 else 0) + number clients u m

abbrev pub ApartFrom : ℕ → List (Uuid × ℕ) → Type 0
ApartFrom p m = All (λ e. e.1 ≢ p) m

-- Every client stands once.
abbrev pub Once : List (Uuid × ℕ) → Type 0
Once [] = Unit
Once (e ∷ m) = ApartFrom e.1 m × Once m

pub count_of-put :
    (i k n : ℕ) (m : List (Uuid × ℕ))
    → count_of i (put k n m) ≡ (if k == i then n else count_of i m)
count_of-put i k n [] = refl
count_of-put i k n ((j, w) ∷ m) = ground (arith, count_of-put i k n m)

count_of-without :
    (i k : ℕ) (m : List (Uuid × ℕ))
    → count_of i (keep (λ e. e.0 != k) m) ≡ (if k == i then 0 else count_of i m)
count_of-without i k [] = ground arith
count_of-without i k ((j, w) ∷ m) = ground (arith, count_of-without i k m)

-- One connection less.
pub count_of-count_down :
    (i u : ℕ) (m : List (Uuid × ℕ))
    → count_of i (count_down u m) ≡ (if u == i then count_of u m - 1 else count_of i m)
unfolding count_down
count_of-count_down i u m = elim (Bool-cases (leb (count_of u m) 1)) [
  | inl t ↦ rw t (ground (arith, count_of-without i u m))
  | inr t ↦ rw t (ground (arith, count_of-put i u (count_of u m - 1) m))
]

pub keep_apart :
    (t : Uuid) (p : ℕ) (m : List (Uuid × ℕ)) → ApartFrom p m → keep (λ e. not (is_pair t p e)) m ≡ m
keep_apart t p [] h = refl
keep_apart t p ((j, q) ∷ m) h = ground (arith, keep_apart t p m)

-- A client that stands once is counted once.
pub number-removed :
    (clients : ℕ → Client) (u t : Uuid) (p : ℕ) (m : List (Uuid × ℕ))
    → Once m
    → any (is_pair t p) m ≡ true
    → number clients u (keep (λ e. not (is_pair t p e)) m)
        + (if (clients p).session.user_id == u then 1 else 0)
      ≡ number clients u m
number-removed clients u t p [] o h = cc
number-removed clients u t p ((j, q) ∷ m) o h = elim (Bool-cases (is_pair t p (j, q))) [
  | inl e ↦
      let same : q ≡ p = ground arith in
      let rest = keep_apart t p m (subst (λ i. ApartFrom i m) same o.0) in
      rw (e, rest, same) (omega arith)
  | inr e ↦ rw e (ground (arith, number-removed clients u t p m o.1))
]

ApartFrom-keep :
    (q : ℕ) (f : Uuid × ℕ → Bool) (m : List (Uuid × ℕ)) → ApartFrom q m → ApartFrom q (keep f m)
ApartFrom-keep q f m h = All-keep (λ e. e.1 ≢ q) f m h

pub Once-keep : (f : Uuid × ℕ → Bool) (m : List (Uuid × ℕ)) → Once m → Once (keep f m)
Once-keep f [] h = tt
Once-keep f (e ∷ m) h = elim (Bool-cases (f e)) [
  | inl t ↦ rw t (ApartFrom-keep e.1 f m h.0, Once-keep f m h.1)
  | inr t ↦ rw t (Once-keep f m h.1)
]

-- Counting looks at the sessions only.
pub number-sessions :
    (c d : ℕ → Client) (u : Uuid) (m : List (Uuid × ℕ))
    → All (λ e. (c e.1).session.user_id ≡ (d e.1).session.user_id) m
    → number c u m ≡ number d u m
number-sessions c d u [] h = refl
number-sessions c d u (e ∷ m) h = ground (arith, h.0, number-sessions c d u m h.1)
