-- ===== src/Cache/Holds.antt =====
-- When the cache of a node holds a bucket whose nodes are `xs`, the most recently used first, and
-- its index leads from the keys of the bucket to exactly these nodes.
use mycorrhizal.Base.{◌≡◌, ◌<◌, inl, true, some, List, ◌∷◌, ◌++◌, arith}
use mycorrhizal.Base.Bytes.{Bytes}
use mycorrhizal.Base.Maps.{lookup, lookup-put_self}
use mycorrhizal.Lru.{LruBucket, Heap, push}
use mycorrhizal.Lru.Order.{Ptr, has, without, has-without}
use mycorrhizal.Lru.Invariant.{IsBucket}
use mycorrhizal.Lru.Push.{push-IsBucket, push-SameNodes}
use mycorrhizal.Cache.{Cache, set_bucket}

pub record Holds {A : Type 0} (c : Cache A) (bucket : Bytes) (b : LruBucket) (xs : List Ptr)
    : Type 0 where
  pub stored : lookup bucket c.lru_buckets ≡ some b
  pub chain : IsBucket b c.heap xs
  pub indexed : (p : Ptr) → has p xs ≡ true → c.key_val (bucket ++ c.heap.key p) ≡ some p
  pub found : (key : Bytes) (n : Ptr) → c.key_val (bucket ++ key) ≡ some n → has n xs ≡ true
  pub named : (key : Bytes) (n : Ptr) → c.key_val (bucket ++ key) ≡ some n → c.heap.key n ≡ key
  pub started : 0 < c.heap.fresh

module _ {A : Type 0} {c : Cache A} {bucket : Bytes} {b : LruBucket} {xs : List Ptr}
    (h : Holds c bucket b xs) where
  -- `Push` of a node of the bucket, in a heap `g` with the same keys
  pub Holds-push :
      {n : Ptr} (g : Heap A)
      → has n xs ≡ true
      → g.next ≡ c.heap.next
      → g.prev ≡ c.heap.prev
      → g.key ≡ c.heap.key
      → g.fresh ≡ c.heap.fresh
      → Holds
          (set_bucket bucket (push n b g).0 (push n b g).1 c)
          bucket
          (push n b g).0
          (n ∷ without n xs)
  Holds-push {n} g m en ep ek ef = record {
    stored = lookup-put_self bucket (push n b g).0 c.lru_buckets;
    chain =
        push-IsBucket
          (record {
            distinct = h.chain.distinct;
            not_nil = h.chain.not_nil;
            head = h.chain.head;
            tail = h.chain.tail;
            len = h.chain.len;
            nexts = λ p k. rw en (h.chain.nexts p k);
            prevs = λ p k. rw ep (h.chain.prevs p k);
            used = λ p k. rw ef (h.chain.used p k);
          })
          (ground (arith, h.chain.not_nil)) (rw ef (h.chain.used n m)) (inl m);
    indexed = λ p k.
        rw ((push-SameNodes n b g).same_key, ek)
          (h.indexed p (ground (arith, has-without n p xs h.chain.distinct)));
    found = λ key p k. ground (arith, h.found key p k, has-without n p xs h.chain.distinct);
    named = λ key p k. rw ((push-SameNodes n b g).same_key, ek) (h.named key p k);
    started = rw ((push-SameNodes n b g).same_fresh, ef) h.started;
  }
