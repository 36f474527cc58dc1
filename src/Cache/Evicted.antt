-- ===== src/Cache/Evicted.antt =====
-- internal/mycel/local.go: the pointers of a bucket after the eviction in `setLocal`.
use mycorrhizal.Base.{
  ◌≡◌, ◌<◌, ◌≢◌, refl, ◌∙◌, Bool, true, false, some, List, ◌∷◌, arith, ◌==◌, length,
}
use mycorrhizal.Lru.{LruBucket, Heap, delete, unlink}
use mycorrhizal.Lru.Order.{
  Ptr, nil, has, last_or, has-last_or, pred_in, pred_in-ne, succ_in-pred_in, succ_in-last_or,
  has-pred_in,
}
use mycorrhizal.Lru.Invariant.{IsBucket, length-lt-fresh}
use mycorrhizal.Lru.Delete.{IsChain, find_key, deleted, delete-chain, find_key-same}
use mycorrhizal.Cache.Local.{evict_tail}

module _ {A : Type 0} {l : LruBucket} {h : Heap A} {x y : Ptr} {xs : List Ptr}
    (b : IsBucket l h (x ∷ y ∷ xs)) where
  abbrev evicted : Ptr
  evicted = last_or y xs

  evicted-member : has evicted (x ∷ y ∷ xs) ≡ true
  evicted-member = ground (arith, has-last_or y xs)

  hd-ne : x ≢ evicted
  hd-ne e = ground (arith, has-last_or y xs, b.distinct.0)

  -- After an eviction the `next` pointer of the new tail is not nil: it leads to the evicted node.
  pub next-evict_tail : (evict_tail l h).1.next (evict_tail l h).0.tail ≡ evicted
  unfolding evict_tail
  next-evict_tail = ground (
    arith,
    b.tail,
    b.prevs evicted evicted-member,
    b.nexts (pred_in nil (x ∷ y ∷ xs) evicted)
        (has-pred_in nil (x ∷ y ∷ xs) evicted evicted-member hd-ne),
    succ_in-pred_in nil (x ∷ y ∷ xs) evicted b.distinct evicted-member hd-ne,
    pred_in-ne nil (x ∷ y ∷ xs) evicted b.distinct evicted-member hd-ne,
  )

  next-kept : (p : Ptr) → has p (x ∷ y ∷ xs) ≡ true → (evict_tail l h).1.next p ≡ h.next p
  unfolding evict_tail
  next-kept p m = ground (arith, b.tail, b.nexts p m, succ_in-last_or nil (x ∷ y ∷ xs) b.distinct)

  evict_tail-IsChain : IsChain (evict_tail l h).1 (x ∷ y ∷ xs)
  evict_tail-IsChain = record {
    distinct = b.distinct;
    not_nil = b.not_nil;
    nexts = λ p m. next-kept p m ∙ b.nexts p m;
  }

  -- After an eviction from a bucket of two nodes or more, a `Delete` of the evicted node's key, if no
  -- other node has it, reports a removal and leaves the bucket without head and tail.
  pub delete-evict_tail :
      find_key h (h.key evicted) (x ∷ y ∷ xs) ≡ evicted
      → (r : Bool × LruBucket × Heap A) × (delete
            (h.key evicted)
            (evict_tail l h).0
            (evict_tail l h).1
          ≡ some r)
        × (r.0 ≡ true)
        × (r.1.head ≡ nil)
        × (r.1.tail ≡ nil)
  unfolding deleted
  delete-evict_tail only =
      let l₁ = (evict_tail l h).0 in
      let h₁ = (evict_tail l h).1 in
      let at : find_key h₁ (h.key evicted) (x ∷ y ∷ xs) ≡ evicted =
        find_key-same h h₁ (h.key evicted) (x ∷ y ∷ xs) (λ p. unfold evict_tail in refl) ∙ only in
      let z : length (x ∷ y ∷ xs) < h₁.fresh =
        unfold evict_tail in length-lt-fresh b (ground (arith, b.used x)) in
      let there : (evicted == nil) ≡ false = ground (arith, b.not_nil, has-last_or y xs) in
      (
        (true, (unlink evicted l₁ h₁).0, (unlink evicted l₁ h₁).1),
        rw (
          delete-chain l₁ (h.key evicted) evict_tail-IsChain (unfold evict_tail in b.head) z,
          at,
          deleted,
          there,
        ),
        refl,
        unfold evict_tail unlink in ground (arith, b.tail),
        unfold evict_tail unlink in ground (arith, b.tail),
      )
