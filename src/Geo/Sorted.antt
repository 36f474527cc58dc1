-- ===== src/Geo/Sorted.antt =====
-- internal/mycel/geo.go: the order of a store's precisions.
use mycorrhizal.Base.{ℕ, ◌≤◌, ◌≡◌, true, Bool-cases, inl, inr, List, [], ◌∷◌, All, arith, leb}
use mycorrhizal.Geo.{last_or, has, insert_asc, sort_asc}

abbrev pub IsAscending : List ℕ → Type 0
IsAscending [] = Unit
IsAscending (p ∷ ps) = All (λ q. p ≤ q) ps × IsAscending ps

has-insert_asc : (p q : ℕ) (ps : List ℕ) → has p (insert_asc q ps) ≡ has p (q ∷ ps)
unfolding has insert_asc
has-insert_asc p q [] = ground arith
has-insert_asc p q (v ∷ vs) = ground (arith, has-insert_asc p q vs)

-- Sorting keeps the set of precisions.
pub has-sort_asc : (p : ℕ) (ps : List ℕ) → has p (sort_asc ps) ≡ has p ps
unfolding sort_asc has
has-sort_asc p [] = ground arith
has-sort_asc p (q ∷ ps) = ground (arith, has-insert_asc p q (sort_asc ps), has-sort_asc p ps)

All-le : (p q : ℕ) (ps : List ℕ) → p ≤ q → All (λ r. q ≤ r) ps → All (λ r. p ≤ r) ps
All-le p q [] h a = tt
All-le p q (v ∷ vs) h a = (omega (arith, a.0), All-le p q vs h a.1)

All-insert_asc :
    (p q : ℕ) (ps : List ℕ) → p ≤ q → All (λ r. p ≤ r) ps → All (λ r. p ≤ r) (insert_asc q ps)
unfolding insert_asc
All-insert_asc p q [] h a = (h, tt)
All-insert_asc p q (v ∷ vs) h a = elim (Bool-cases (leb q v)) [
  | inl e ↦ rw e (h, a)
  | inr e ↦ rw e (a.0, All-insert_asc p q vs h a.1)
]

insert_asc-IsAscending : (q : ℕ) (ps : List ℕ) → IsAscending ps → IsAscending (insert_asc q ps)
unfolding insert_asc
insert_asc-IsAscending q [] a = (tt, tt)
insert_asc-IsAscending q (v ∷ vs) a = elim (Bool-cases (leb q v)) [
  | inl e ↦ let h : q ≤ v = ground arith in rw e ((h, All-le q v vs h a.0), a)
  | inr e ↦
      let h : v ≤ q = ground arith in
      rw e (All-insert_asc v q vs h a.0, insert_asc-IsAscending q vs a.1)
]

pub sort_asc-IsAscending : (ps : List ℕ) → IsAscending (sort_asc ps)
unfolding sort_asc
sort_asc-IsAscending [] = tt
sort_asc-IsAscending (p ∷ ps) = insert_asc-IsAscending p (sort_asc ps) (sort_asc-IsAscending ps)

le-last_or : (d : ℕ) (ps : List ℕ) → IsAscending (d ∷ ps) → d ≤ last_or d ps
unfolding last_or
le-last_or d [] a = omega arith
le-last_or d (p ∷ ps) a = omega (arith, a.0.0, le-last_or p ps a.1)

-- No precision of a sorted list is above the last one.
pub has-le-last_or : (p d : ℕ) (ps : List ℕ) → IsAscending ps → has p ps ≡ true → p ≤ last_or d ps
unfolding has last_or
has-le-last_or p d [] a h = ground arith
has-le-last_or p d (q ∷ ps) a h = ground (arith, le-last_or q ps a, has-le-last_or p q ps a.1)
