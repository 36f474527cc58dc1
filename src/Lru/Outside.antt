-- ===== src/Lru/Outside.antt =====
-- internal/mycel/ds.go: the links of the nodes outside a bucket, which its operations leave.
use mycorrhizal.Base.{◌≡◌, ◌≢◌, refl, inl, inr, Bool-cases, true, false, List, [], ◌∷◌, ◌==◌, arith}
use mycorrhizal.Lru.{Heap, LruBucket, push, detach, attach, unlink}
use mycorrhizal.Lru.Order.{Ptr, nil, has, hd, has-hd, pred_in, has-succ_in, has-pred_in}
use mycorrhizal.Lru.Invariant.{IsBucket, IsDetached}

-- the links of the node `p` are the same in both heaps
pub record SameLinks {A : Type 0} (h g : Heap A) (p : Ptr) : Type 0 where
  pub same_next : g.next p ≡ h.next p
  pub same_prev : g.prev p ≡ h.prev p

module _ {A : Type 0} (n p : Ptr) (l : LruBucket) (h : Heap A) (z : p ≢ nil) (other : p ≢ n)
    (next : p ≢ h.next n) (prev : p ≢ h.prev n) where
  unlink-SameLinks : SameLinks h (unlink n l h).1 p
  unfolding unlink
  unlink-SameLinks = record { same_next = ground arith; same_prev = ground arith }

  push-SameLinks : p ≢ l.head → SameLinks h (push n l h).1 p
  unfolding push detach attach
  push-SameLinks head = record { same_next = ground arith; same_prev = ground arith }

pred_in-hd : (xs : List Ptr) (n : Ptr) → hd xs ≡ n → pred_in nil xs n ≡ nil
pred_in-hd [] n e = refl
pred_in-hd (x ∷ xs) n e = ground arith

module _ {A : Type 0} {l : LruBucket} {h : Heap A} {xs : List Ptr} (b : IsBucket l h xs) (n p : Ptr)
    (m : has n xs ≡ true) (z : p ≢ nil) (apart : has p xs ≡ false) where
  outside-next : p ≢ h.next n
  outside-next = ground (arith, b.nexts n m, has-succ_in xs n)

  outside-prev : p ≢ h.prev n
  outside-prev = elim (Bool-cases (hd xs == n)) [
    | inl e ↦ ground (arith, b.prevs n m, pred_in-hd xs n)
    | inr e ↦ ground (arith, b.prevs n m, has-pred_in nil xs n m)
  ]

  outside-ne : p ≢ n
  outside-ne = ground arith

  outside-head : p ≢ l.head
  outside-head = ground (arith, b.head, has-hd xs)

  -- the delete and the push of a node of the bucket
  pub unlink-outside : SameLinks h (unlink n l h).1 p
  unlink-outside = unlink-SameLinks n p l h z outside-ne outside-next outside-prev

  -- `g` is `h` with other contents
  pub push-outside : (g : Heap A) → g.next ≡ h.next → g.prev ≡ h.prev → SameLinks h (push n l g).1 p
  push-outside g en ep =
      let s =
        push-SameLinks n p l g z outside-ne (ground (arith, outside-next, en))
          (ground (arith, outside-prev, ep)) outside-head in
      record {
        same_next = ground (arith, s.same_next, en);
        same_prev = ground (arith, s.same_prev, ep);
      }

-- the push of a node of no bucket
pub push_new-outside :
    {A : Type 0} {l : LruBucket} {h : Heap A} {xs : List Ptr} {n p : Ptr}
    → IsBucket l h xs
    → IsDetached h n
    → p ≢ nil
    → p ≢ n
    → has p xs ≡ false
    → SameLinks h (push n l h).1 p
push_new-outside {l = l} {h = h} {xs = xs} {n = n} {p = p} b d z other apart =
    push-SameLinks n p l h z other (ground (arith, d.no_next)) (ground (arith, d.no_prev))
      (ground (arith, b.head, has-hd xs))
