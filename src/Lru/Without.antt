-- ===== src/Lru/Without.antt =====
-- A bucket without one of its nodes, once the links of the neighbours go round that node.
use mycorrhizal.Base.{◌≡◌, ◌≢◌, true, List, length, arith, ◌==◌, if◌then◌else◌}
use mycorrhizal.Base.Int.{pos}
use mycorrhizal.Lru.{Heap, LruBucket}
use mycorrhizal.Lru.Order.{
  Ptr, nil, has, hd, last_or, succ_in, pred_in, without, has-without, Distinct-without,
  succ_in-without, pred_in-without, pred_in-succ_in, succ_in-pred_in, pred_in-hd,
}
use mycorrhizal.Lru.Invariant.{IsBucket}

module _ {A : Type 0} {l : LruBucket} {h : Heap A} {n : Ptr} {xs : List Ptr} (b : IsBucket l h xs)
    (m : has n xs ≡ true) (z : n ≢ nil) where
  pub IsBucket-without :
      (k : LruBucket) (g : Heap A)
      → k.head ≡ hd (without n xs)
      → k.tail ≡ last_or nil (without n xs)
      → k.len ≡ pos (length (without n xs))
      → ((p : Ptr)
          → p ≢ nil
          → p ≢ n
          → g.next p ≡ (if p == pred_in nil xs n then succ_in xs n else h.next p))
      → ((p : Ptr)
          → p ≢ nil
          → p ≢ n
          → g.prev p ≡ (if p == succ_in xs n then pred_in nil xs n else h.prev p))
      → g.fresh ≡ h.fresh
      → IsBucket k g (without n xs)
  IsBucket-without k g head last len nexts prevs fresh = record {
    distinct = Distinct-without n xs b.distinct;
    not_nil = ground (arith, b.not_nil, has-without n nil xs b.distinct);
    head = head;
    tail = last;
    len = len;
    nexts = λ p k. ground (
      arith,
      nexts p,
      b.nexts p,
      b.not_nil,
      has-without n p xs b.distinct,
      succ_in-without n p xs b.distinct,
      succ_in-pred_in nil xs n b.distinct m,
      pred_in-succ_in nil xs p b.distinct,
      pred_in-hd nil xs n,
    );
    prevs = λ p k. ground (
      arith,
      prevs p,
      b.prevs p,
      b.not_nil,
      has-without n p xs b.distinct,
      pred_in-without nil n p xs b.distinct,
      pred_in-succ_in nil xs n b.distinct m,
      succ_in-pred_in nil xs p b.distinct,
      pred_in-hd nil xs p,
    );
    used = λ p k. ground (arith, b.used p, has-without n p xs b.distinct);
  }
