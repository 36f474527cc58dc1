-- ===== src/Lru/Order.antt =====
-- Lists of node addresses, and what stands before and behind an address in one.
use mycorrhizal.Base.{
  ℕ, suc, ◌≡◌, ◌≢◌, refl, sym, Bool, true, false, ◌||◌, Bool-cases, inl, inr, List, [], ◌∷◌, length,
  ◌==◌, if◌then◌else◌, arith,
}

abbrev pub Ptr : Type 0
Ptr = ℕ

abbrev pub nil : Ptr
nil = 0

abbrev pub has : Ptr → List Ptr → Bool
has p [] = false
has p (x ∷ xs) = (x == p) || has p xs

abbrev pub Distinct : List Ptr → Type 0
Distinct [] = Unit
Distinct (x ∷ xs) = (has x xs ≡ false) × Distinct xs

-- the first address, or nil
abbrev pub hd : List Ptr → Ptr
hd [] = nil
hd (x ∷ xs) = x

-- the last address, or `b`
abbrev pub last_or : Ptr → List Ptr → Ptr
last_or b [] = b
last_or b (x ∷ xs) = last_or x xs

-- what stands behind `p`, or nil
abbrev pub succ_in : List Ptr → Ptr → Ptr
succ_in [] p = nil
succ_in (x ∷ xs) p = if x == p then hd xs else succ_in xs p

-- what stands before `p` in a list that follows `b`
abbrev pub pred_in : Ptr → List Ptr → Ptr → Ptr
pred_in b [] p = nil
pred_in b (x ∷ xs) p = if x == p then b else pred_in x xs p

abbrev pub without : Ptr → List Ptr → List Ptr
without p [] = []
without p (x ∷ xs) = if x == p then xs else x ∷ without p xs

pub has-hd : (xs : List Ptr) → hd xs ≢ nil → has (hd xs) xs ≡ true
has-hd [] h = absurd (h refl)
has-hd (x ∷ xs) h = ground arith

pub has-succ_in : (xs : List Ptr) (p : Ptr) → succ_in xs p ≢ nil → has (succ_in xs p) xs ≡ true
has-succ_in [] p h = absurd (h refl)
has-succ_in (x ∷ xs) p h = ground (arith, has-succ_in xs p, has-hd xs)

pub has-pred_in :
    (b : Ptr) (xs : List Ptr) (p : Ptr)
    → has p xs ≡ true
    → hd xs ≢ p
    → has (pred_in b xs p) xs ≡ true
has-pred_in b [] p m h = cc
has-pred_in b (x ∷ []) p m h = ground arith
has-pred_in b (x ∷ y ∷ xs) p m h = ground (arith, has-pred_in x (y ∷ xs) p)

pub last_or-eq :
    (b : Ptr) (xs : List Ptr) (p : Ptr)
    → Distinct xs
    → has nil xs ≡ false
    → has p xs ≡ true
    → succ_in xs p ≡ nil
    → last_or b xs ≡ p
last_or-eq b [] p d z m e = cc
last_or-eq b (x ∷ []) p d z m e = ground arith
last_or-eq b (x ∷ y ∷ xs) p d z m e = ground (arith, last_or-eq x (y ∷ xs) p)

pub has-last_or : (y : Ptr) (xs : List Ptr) → has (last_or y xs) (y ∷ xs) ≡ true
has-last_or y [] = ground arith
has-last_or y (x ∷ xs) = ground (arith, has-last_or x xs)

pub succ_in-last_or : (b : Ptr) (xs : List Ptr) → Distinct xs → succ_in xs (last_or b xs) ≡ nil
succ_in-last_or b [] d = refl
succ_in-last_or b (x ∷ []) d = ground arith
succ_in-last_or b (x ∷ y ∷ xs) d = ground (arith, succ_in-last_or x (y ∷ xs), has-last_or y xs)

pub pred_in-succ_in :
    (b : Ptr) (xs : List Ptr) (p : Ptr)
    → Distinct xs
    → has p xs ≡ true
    → succ_in xs p ≢ nil
    → pred_in b xs (succ_in xs p) ≡ p
pred_in-succ_in b [] p d m e = cc
pred_in-succ_in b (x ∷ []) p d m e = ground arith
pred_in-succ_in b (x ∷ y ∷ xs) p d m e =
    ground (arith, pred_in-succ_in x (y ∷ xs) p, has-succ_in (y ∷ xs) p)

pub succ_in-pred_in :
    (b : Ptr) (xs : List Ptr) (p : Ptr)
    → Distinct xs
    → has p xs ≡ true
    → hd xs ≢ p
    → succ_in xs (pred_in b xs p) ≡ p
succ_in-pred_in b [] p d m e = cc
succ_in-pred_in b (x ∷ []) p d m e = ground arith
succ_in-pred_in b (x ∷ y ∷ xs) p d m e =
    ground (arith, succ_in-pred_in x (y ∷ xs) p, has-pred_in x (y ∷ xs) p)

pub has-without :
    (n p : Ptr) (xs : List Ptr)
    → Distinct xs
    → has p (without n xs) ≡ (if p == n then false else has p xs)
has-without n p [] d = ground arith
has-without n p (x ∷ xs) d = ground (arith, has-without n p xs)

pub length-without :
    (n : Ptr) (xs : List Ptr) → has n xs ≡ true → suc (length (without n xs)) ≡ length xs
length-without n [] m = cc
length-without n (x ∷ xs) m = ground (arith, length-without n xs)

pub without-absent : (n : Ptr) (xs : List Ptr) → has n xs ≡ false → without n xs ≡ xs
without-absent n [] m = refl
without-absent n (x ∷ xs) m = ground (arith, without-absent n xs)

pub Distinct-without : (n : Ptr) (xs : List Ptr) → Distinct xs → Distinct (without n xs)
Distinct-without n [] d = tt
Distinct-without n (x ∷ xs) d = elim (Bool-cases (x == n)) [
  | inl e ↦ rw e d.1
  | inr e ↦ rw e (rw (has-without n x xs d.1) (ground arith), Distinct-without n xs d.1)
]

pub hd-without :
    (n : Ptr) (xs : List Ptr) → hd (without n xs) ≡ (if hd xs == n then succ_in xs n else hd xs)
hd-without n [] = ground arith
hd-without n (x ∷ xs) = ground arith

pub last_or-without :
    (b n : Ptr) (xs : List Ptr)
    → Distinct xs
    → has n xs ≡ true
    → last_or b (without n xs) ≡ (if last_or b xs == n then pred_in b xs n else last_or b xs)
last_or-without b n [] d m = cc
last_or-without b n (x ∷ []) d m = ground arith
last_or-without b n (x ∷ y ∷ xs) d m =
    ground (arith, last_or-without x n (y ∷ xs), has-last_or y xs)

pub succ_in-without :
    (n p : Ptr) (xs : List Ptr)
    → Distinct xs
    → p ≢ n
    → n ≢ nil
    → succ_in (without n xs) p ≡ (if succ_in xs p == n then succ_in xs n else succ_in xs p)
succ_in-without n p [] d e z = ground arith
succ_in-without n p (x ∷ []) d e z = ground arith
succ_in-without n p (x ∷ y ∷ xs) d e z =
    ground (arith, succ_in-without n p (y ∷ xs), has-succ_in (y ∷ xs) p)

pub pred_in-without :
    (b n p : Ptr) (xs : List Ptr)
    → Distinct xs
    → p ≢ n
    → n ≢ b
    → has p xs ≡ true
    → pred_in b (without n xs) p ≡ (if pred_in b xs p == n then pred_in b xs n else pred_in b xs p)
pred_in-without b n p [] d e z m = cc
pred_in-without b n p (x ∷ []) d e z m = ground arith
pred_in-without b n p (x ∷ y ∷ xs) d e z m =
    ground (arith, pred_in-without x n p (y ∷ xs), has-pred_in x (y ∷ xs) p)

pub succ_in-ne :
    (xs : List Ptr) (p : Ptr) → Distinct xs → has p xs ≡ true → p ≢ nil → succ_in xs p ≢ p
succ_in-ne [] p d m z = cc
succ_in-ne (x ∷ []) p d m z = ground arith
succ_in-ne (x ∷ y ∷ xs) p d m z = ground (arith, succ_in-ne (y ∷ xs) p)

pub pred_in-ne :
    (b : Ptr) (xs : List Ptr) (p : Ptr)
    → Distinct xs
    → has p xs ≡ true
    → hd xs ≢ p
    → pred_in b xs p ≢ p
pred_in-ne b [] p d m e = cc
pred_in-ne b (x ∷ []) p d m e = ground arith
pred_in-ne b (x ∷ y ∷ xs) p d m e = ground (arith, pred_in-ne x (y ∷ xs) p)

pub pred_in-hd : (b : Ptr) (xs : List Ptr) (p : Ptr) → hd xs ≡ p → p ≢ nil → pred_in b xs p ≡ b
pred_in-hd b [] p e z = absurd (z (sym e))
pred_in-hd b (x ∷ xs) p e z = ground arith

pub cons-without : (n : Ptr) (xs : List Ptr) → hd xs ≡ n → n ≢ nil → n ∷ without n xs ≡ xs
cons-without n [] e z = absurd (z (sym e))
cons-without n (x ∷ xs) e z = ground arith
