-- ===== src/Lru/Invariant.antt =====
-- When a bucket and a heap hold the list of nodes `xs`, the most recently used first.
use mycorrhizal.Base.{
  ℕ, zero, suc, ◌≤◌, ◌<◌, ◌≡◌, Bool-cases, inl, inr, true, false, List, [], ◌∷◌, length, arith,
}
use mycorrhizal.Base.Int.{pos}
use mycorrhizal.Lru.{Heap, LruBucket}
use mycorrhizal.Lru.Order.{
  Ptr, nil, has, Distinct, hd, last_or, succ_in, pred_in, without, has-without, length-without,
  Distinct-without,
}

pub record IsBucket {A : Type 0} (l : LruBucket) (h : Heap A) (xs : List Ptr) : Type 0 where
  pub distinct : Distinct xs
  pub not_nil : has nil xs ≡ false
  pub head : l.head ≡ hd xs
  pub tail : l.tail ≡ last_or nil xs
  pub len : l.len ≡ pos (length xs)
  pub nexts : (p : Ptr) → has p xs ≡ true → h.next p ≡ succ_in xs p
  pub prevs : (p : Ptr) → has p xs ≡ true → h.prev p ≡ pred_in nil xs p
  pub used : (p : Ptr) → has p xs ≡ true → p < h.fresh

-- a node that is in no bucket
pub record IsDetached {A : Type 0} (h : Heap A) (n : Ptr) : Type 0 where
  pub no_next : h.next n ≡ nil
  pub no_prev : h.prev n ≡ nil

-- `g` has the keys, values and expiry times of `h`
pub record SameNodes {A : Type 0} (h g : Heap A) : Type 0 where
  pub same_key : g.key ≡ h.key
  pub same_contents : g.contents ≡ h.contents
  pub same_expires_at : g.expires_at ≡ h.expires_at
  pub same_fresh : g.fresh ≡ h.fresh

-- Distinct addresses below `n` are at most `n`.
pub length-le-bound :
    (n : ℕ) (xs : List Ptr) → Distinct xs → ((p : Ptr) → has p xs ≡ true → p < n) → length xs ≤ n
length-le-bound zero [] d h = omega arith
length-le-bound zero (x ∷ xs) d h = absurd (ground (arith, h x))
length-le-bound (suc n) xs d h = elim (Bool-cases (has n xs)) [
  | inl m ↦ omega (
    arith,
    length-without n xs m,
    length-le-bound n (without n xs) (Distinct-without n xs d)
        (λ p k. ground (arith, h p, has-without n p xs d)),
  )
  | inr m ↦
      let below : length xs ≤ n = length-le-bound n xs d (λ p k. ground (arith, h p)) in omega arith
]

-- so the walk over a bucket has fuel to spare
pub length-lt-fresh :
    {A : Type 0} {l : LruBucket} {h : Heap A} {xs : List Ptr}
    → IsBucket l h xs
    → 0 < h.fresh
    → length xs < h.fresh
length-lt-fresh {h} {xs} b z =
    length-le-bound h.fresh (nil ∷ xs) (b.not_nil, b.distinct) λ p m. ground (arith, b.used p)
