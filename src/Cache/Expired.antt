-- ===== src/Cache/Expired.antt =====
-- internal/mycel/task.go: what the TTL task collects, on a well-formed bucket.
use mycorrhizal.Base.{
  Listed, ℕ, zero, suc, ◌<◌, ◌≡◌, sym, ◌↔◌, refl, inl, inr, Bool-cases, true, false, some, List, [],
  ◌∷◌, ◌++◌, append_assoc, ◌∙◌, length, arith, ◌==◌,
}
use mycorrhizal.Base.Bytes.{Bytes}
use mycorrhizal.Lru.{LruBucket, Heap}
use mycorrhizal.Lru.Order.{Ptr, nil, has, hd}
use mycorrhizal.Lru.Invariant.{IsBucket, length-lt-fresh}
use mycorrhizal.Lru.Delete.{IsChain, has-middle, succ_in-middle}
use mycorrhizal.Cache.Walk.{walk, nodes_of}
use mycorrhizal.Cache.Expiry.{is_expired, expired_keys}

walk-chain :
    {A : Type 0} {h : Heap A} (fuel : ℕ) (pre rest : List Ptr)
    → IsChain h (pre ++ rest)
    → length rest < fuel
    → walk fuel (hd rest) h ≡ some rest
unfolding walk
walk-chain zero pre rest b f = absurd (omega arith)
walk-chain (suc fuel) pre [] b f = refl
walk-chain {h} (suc fuel) pre (x ∷ rest) b f =
    let next : h.next x ≡ hd rest =
      b.nexts x (has-middle pre x rest) ∙ succ_in-middle pre x rest b.distinct in
    let more = walk-chain {h = h} fuel (pre ++ x ∷ []) rest (rw append_assoc b) (omega arith) in
    let there : (x == nil) ≡ false = ground (arith, b.not_nil, has-middle pre x rest) in
    rw (there, next, more) refl

-- On a well-formed bucket a walk ends and visits exactly the bucket's nodes, in their order.
pub nodes_of-IsBucket :
    {A : Type 0} {h : Heap A} {l : LruBucket} {xs : List Ptr}
    → IsBucket l h xs
    → 0 < h.fresh
    → nodes_of l h ≡ some xs
unfolding nodes_of
nodes_of-IsBucket {h = h} {xs = xs} b z = rw b.head (
    walk-chain h.fresh [] xs
      (record { distinct = b.distinct; not_nil = b.not_nil; nexts = b.nexts })
      (length-lt-fresh b z))

module _ {A : Type 0} (now : ℕ) (h : Heap A) where
  -- an expired node of the list with this key
  abbrev pub IsDue : Bytes → List Ptr → Type 0
  IsDue k ns =
      (p : Ptr) × (has p ns ≡ true) × (is_expired now (h.expires_at p) ≡ true) × (h.key p ≡ k)

  IsDue-cons : (k : Bytes) (n : Ptr) (ns : List Ptr) → IsDue k ns → IsDue k (n ∷ ns)
  IsDue-cons k n ns (p, m, e, f) = (p, ground arith, e, f)

  expired_keys-IsDue : (k : Bytes) (ns : List Ptr) → Listed k (expired_keys now h ns) → IsDue k ns
  unfolding expired_keys
  expired_keys-IsDue k [] m = elim m [ ]
  expired_keys-IsDue k (n ∷ ns) m = elim (Bool-cases (is_expired now (h.expires_at n))) [
    | inl e ↦
        let m' : Listed k (h.key n ∷ expired_keys now h ns) = rw (e, expired_keys) at m in
        elim m' [
          | inl f ↦ (n, ground arith, e, sym f)
          | inr q ↦ IsDue-cons k n ns (expired_keys-IsDue k ns q)
        ]
    | inr e ↦
        let m' : Listed k (expired_keys now h ns) = rw (e, expired_keys) at m in
        IsDue-cons k n ns (expired_keys-IsDue k ns m')
  ]

  IsDue-expired_keys : (k : Bytes) (ns : List Ptr) → IsDue k ns → Listed k (expired_keys now h ns)
  unfolding expired_keys
  IsDue-expired_keys k [] (p, m, e, f) = ground arith
  IsDue-expired_keys k (n ∷ ns) (p, m, e, f) = elim (Bool-cases (n == p)) [
    | inl d ↦ let q : p ≡ n = ground arith in rw (← q, e, expired_keys) (inl (sym f))
    | inr d ↦
        let rest = IsDue-expired_keys k ns (p, ground arith, e, f) in
        elim (Bool-cases (is_expired now (h.expires_at n))) [
          | inl t ↦ rw (t, expired_keys) (inr rest)
          | inr t ↦ rw (t, expired_keys) rest
        ]
  ]

  -- On a well-formed bucket the walk of the TTL task ends, and it collects exactly the keys of the
  -- bucket's expired nodes.
  pub expired_keys-IsBucket :
      {l : LruBucket} {xs : List Ptr}
      → IsBucket l h xs
      → 0 < h.fresh
      → (ns : List Ptr) × (nodes_of l h ≡ some ns)
        × ((k : Bytes) → Listed k (expired_keys now h ns) ↔ IsDue k xs)
  expired_keys-IsBucket {l} {xs} b z =
      (xs, nodes_of-IsBucket b z, λ k. (expired_keys-IsDue k xs, IsDue-expired_keys k xs))
