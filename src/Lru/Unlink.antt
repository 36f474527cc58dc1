-- ===== src/Lru/Unlink.antt =====
-- The part of `Delete` that takes the node it found out of the bucket.
use mycorrhizal.Base.{◌≡◌, ◌≢◌, true, List, arith, ◌==◌, if◌then◌else◌}
use mycorrhizal.Lru.{Heap, LruBucket, unlink}
use mycorrhizal.Lru.Order.{
  Ptr, nil, has, without, hd-without, length-without, last_or-without, last_or-eq, succ_in-last_or,
  succ_in-ne, pred_in-ne, pred_in-hd, has-pred_in,
}
use mycorrhizal.Lru.Invariant.{IsBucket, IsDetached}
use mycorrhizal.Lru.Without.{IsBucket-without}

module _ {A : Type 0} (n : Ptr) (l : LruBucket) (h : Heap A) where
  unlink-next :
      (q : Ptr)
      → q ≢ n
      → q ≢ nil
      → h.prev n ≢ n
      → (unlink n l h).1.next q ≡ (if q == h.prev n then h.next n else h.next q)
  unfolding unlink
  unlink-next q e z w = ground arith

  unlink-prev :
      (q : Ptr)
      → q ≢ n
      → q ≢ nil
      → h.next n ≢ n
      → n ≢ nil
      → h.prev n ≢ n
      → (unlink n l h).1.prev q ≡ (if q == h.next n then h.prev n else h.prev q)
  unfolding unlink
  unlink-prev q e z w u v = ground arith

  pub unlink-IsDetached : IsDetached (unlink n l h).1 n
  unfolding unlink
  unlink-IsDetached = ground arith

module _ {A : Type 0} {l : LruBucket} {h : Heap A} {xs : List Ptr} (n : Ptr) (b : IsBucket l h xs)
    (m : has n xs ≡ true) where
  member-not-nil : n ≢ nil
  member-not-nil = ground (arith, b.not_nil)

  prev-ne : h.prev n ≢ n
  prev-ne e =
      ground
        (arith, member-not-nil, b.prevs n m, pred_in-hd nil xs n, pred_in-ne nil xs n b.distinct m)

  next-ne : h.next n ≢ n
  next-ne e = ground (arith, member-not-nil, b.nexts n m, succ_in-ne xs n b.distinct m)

  -- The bucket loses exactly the node, and the order of the others is kept.
  pub unlink-IsBucket : IsBucket (unlink n l h).0 (unlink n l h).1 (without n xs)
  unlink-IsBucket =
      IsBucket-without b m member-not-nil _ _
        (unfold unlink in
          ground (
            arith,
            b.head,
            b.nexts n m,
            b.prevs n m,
            hd-without n xs,
            b.not_nil,
            has-pred_in nil xs n m,
            pred_in-hd nil xs n,
          ))
        (unfold unlink in
          ground (
            arith,
            b.tail,
            b.nexts n m,
            b.prevs n m,
            last_or-without nil n xs b.distinct m,
            last_or-eq nil xs n b.distinct b.not_nil m,
            succ_in-last_or nil xs b.distinct,
          ))
        (unfold unlink in ground (arith, b.len, length-without n xs m))
        (λ p u v. rw (← b.prevs n m, ← b.nexts n m) (unlink-next n l h p v u prev-ne))
        (λ p u v.
          rw (← b.prevs n m, ← b.nexts n m)
            (unlink-prev n l h p v u next-ne member-not-nil prev-ne))
        (unfold unlink in ground arith)
