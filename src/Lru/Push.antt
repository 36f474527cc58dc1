-- ===== src/Lru/Push.antt =====
-- internal/mycel/ds.go: `Push` on a well-formed bucket.
use mycorrhizal.Base.{
  suc, ◌<◌, ◌≡◌, ◌≢◌, ◌⊎◌, inl, inr, Bool-cases, refl, ap, ◌∙◌, ◌&&◌, true, false, List, [], ◌∷◌,
  length, arith, ◌==◌,
}
use mycorrhizal.Base.Int.{pos, increment}
use mycorrhizal.Lru.{Heap, LruBucket, set_next, set_prev, push, detach, attach}
use mycorrhizal.Lru.Order.{
  Ptr, nil, has, hd, succ_in, pred_in, without, has-without, length-without, without-absent,
  hd-without, last_or-without, succ_in-ne, pred_in-ne, cons-without, has-hd, has-pred_in,
  last_or-eq, succ_in-last_or,
}
use mycorrhizal.Lru.Without.{IsBucket-without}
use mycorrhizal.Lru.Invariant.{IsBucket, IsDetached, SameNodes}

-- the list that `attach` finds: the bucket less the node, whose length is counted already
record IsReady {A : Type 0} (n : Ptr) (l : LruBucket) (h : Heap A) (ys : List Ptr) : Type 0 where
  base : IsBucket (record l { len = pos (length ys) }) h ys
  counted : l.len ≡ pos (suc (length ys))
  apart : has n ys ≡ false
  unlinked : ys ≡ [] → IsDetached h n

module _ {A : Type 0} {l : LruBucket} {h : Heap A} {n : Ptr} where
  attach-IsBucket :
      (ys : List Ptr)
      → n ≢ nil
      → n < h.fresh
      → IsReady n l h ys
      → IsBucket (attach n l h).0 (attach n l h).1 (n ∷ ys)
  unfolding attach
  attach-IsBucket [] z u r = record {
    distinct = ground arith;
    not_nil = ground arith;
    head = ground arith;
    tail = ground arith;
    len = ground arith;
    nexts = λ p m. ground (arith, r.unlinked);
    prevs = λ p m. ground (arith, r.unlinked);
    used = λ p m. ground arith;
  }
  attach-IsBucket (y ∷ ys) z u r = record {
    distinct = ground arith;
    not_nil = ground arith;
    head = ground arith;
    tail = ground arith;
    len = ground arith;
    nexts = λ p m. ground (arith, r.base.nexts p);
    prevs = λ p m. ground (arith, r.base.prevs p);
    used = λ p m. ground (arith, r.base.used p);
  }

module _ {A : Type 0} (l : LruBucket) (h : Heap A) (n : Ptr) where
  detach-between :
      (p s : Ptr)
      → h.prev n ≡ p
      → h.next n ≡ s
      → p ≢ nil
      → s ≢ nil
      → p ≢ n
      → s ≢ n
      → detach n l h ≡ (l, set_next p s (set_prev s p h))
  unfolding detach
  detach-between p s e f z w u v = rw (e, f) (ground arith)

  detach-last :
      (p : Ptr)
      → h.prev n ≡ p
      → h.next n ≡ nil
      → p ≢ nil
      → p ≢ n
      → detach n l h ≡ (record l { tail = p }, set_next p nil h)
  unfolding detach
  detach-last p e f z u = rw (e, f) (ground arith)

  detach-new : IsDetached h n → detach n l h ≡ (l, h)
  unfolding detach
  detach-new d = ground arith

module _ {A : Type 0} {l : LruBucket} {h : Heap A} {n : Ptr} {xs : List Ptr} (b : IsBucket l h xs)
    (m : has n xs ≡ true) (other : hd xs ≢ n) (z : n ≢ nil) where
  pred-not-nil : pred_in nil xs n ≢ nil
  pred-not-nil e = ground (arith, b.not_nil, has-pred_in nil xs n m other)

  not-only : without n xs ≢ []
  not-only e = ground (
    arith,
    ap (has (pred_in nil xs n)) e,
    has-without n (pred_in nil xs n) xs b.distinct,
    has-pred_in nil xs n m other,
    pred_in-ne nil xs n b.distinct m other,
  )

  hd-kept : l.head ≡ hd (without n xs)
  hd-kept = ground (arith, b.head, hd-without n xs)

  IsReady-without :
      {k : LruBucket} {g : Heap A}
      → IsBucket (record k { len = pos (length (without n xs)) }) g (without n xs)
      → k.len ≡ l.len
      → IsReady n k g (without n xs)
  IsReady-without r e = record {
    base = r;
    counted = ground (arith, b.len, length-without n xs m);
    apart = ground (arith, has-without n n xs b.distinct);
    unlinked = λ none_left. absurd (not-only none_left);
  }

  detach-IsReady : IsReady n (detach n l h).0 (detach n l h).1 (without n xs)
  detach-IsReady = elim (Bool-cases (succ_in xs n == nil)) [
    | inl e ↦
        rw
          (detach-last l h n (pred_in nil xs n) (b.prevs n m) (ground (arith, b.nexts n m))
            pred-not-nil (pred_in-ne nil xs n b.distinct m other))
          (IsReady-without
            (IsBucket-without b m z _ _ hd-kept
              (ground (
                arith,
                last_or-without nil n xs b.distinct m,
                last_or-eq nil xs n b.distinct b.not_nil m,
              ))
              refl (λ p u v. ground arith) (λ p u v. ground arith) refl)
            refl)
    | inr e ↦
        rw
          (detach-between l h n (pred_in nil xs n) (succ_in xs n) (b.prevs n m) (b.nexts n m)
            pred-not-nil (ground arith) (pred_in-ne nil xs n b.distinct m other)
            (succ_in-ne xs n b.distinct m z))
          (IsReady-without
            (IsBucket-without b m z _ _ hd-kept
              (ground (
                arith,
                b.tail,
                last_or-without nil n xs b.distinct m,
                succ_in-last_or nil xs b.distinct,
              ))
              refl (λ p u v. ground arith) (λ p u v. ground arith) refl)
            refl)
  ]

-- a node in the bucket that is not its head yet
push-other :
    {A : Type 0} {l : LruBucket} {h : Heap A} {n : Ptr} {xs : List Ptr}
    → IsBucket l h xs
    → has n xs ≡ true
    → hd xs ≢ n
    → n ≢ nil
    → IsBucket (push n l h).0 (push n l h).1 (n ∷ without n xs)
unfolding push
push-other {l} {h} {n} {xs} b m other z =
    let r = detach-IsReady b m other z in
    let not_head : (l.head == n) ≡ false = ground (arith, b.head) in
    let linked : (h.prev n == nil) ≡ false =
      ground (arith, b.prevs n m, pred-not-nil b m other z) in
    let old : (h.next n == nil) && (h.prev n == nil) ≡ false = ground arith in
    let grown : (detach n l h).1.fresh ≡ h.fresh = unfold detach in ground arith in
    rw (not_head, old) (attach-IsBucket (without n xs) z (rw grown (b.used n m)) r)

pub push-new :
    {A : Type 0} {l : LruBucket} {h : Heap A} {n : Ptr} {xs : List Ptr}
    → IsBucket l h xs
    → has n xs ≡ false
    → IsDetached h n
    → n ≢ nil
    → n < h.fresh
    → IsBucket (push n l h).0 (push n l h).1 (n ∷ xs)
unfolding push
push-new {l} {h} {n} {xs} b m d z u =
    let not_head : (l.head == n) ≡ false = ground (arith, b.head, has-hd xs) in
    let new : (h.next n == nil) && (h.prev n == nil) ≡ true = ground arith in
    let l₁ = record l { len = increment l.len } in
    rw (not_head, new, detach-new l₁ h n d)
      (attach-IsBucket xs z u (record {
        base = record {
          distinct = b.distinct;
          not_nil = b.not_nil;
          head = b.head;
          tail = b.tail;
          len = refl;
          nexts = b.nexts;
          prevs = b.prevs;
          used = b.used;
        };
        counted = ground (arith, b.len);
        apart = m;
        unlinked = λ e. d;
      }))

push-head : {A : Type 0} (l : LruBucket) (h : Heap A) (n : Ptr) → l.head ≡ n → push n l h ≡ (l, h)
unfolding push
push-head l h n e = ground arith

-- On a well-formed bucket, `Push` of a node of the bucket, or of a used address without links that is
-- not in it, leaves a well-formed bucket with that node first and the others in their order.
pub push-IsBucket :
    {A : Type 0} {l : LruBucket} {h : Heap A} {n : Ptr} {xs : List Ptr}
    → IsBucket l h xs
    → n ≢ nil
    → n < h.fresh
    → (has n xs ≡ true) ⊎ ((has n xs ≡ false) × IsDetached h n)
    → IsBucket (push n l h).0 (push n l h).1 (n ∷ without n xs)
push-IsBucket {n} {xs} b z u (inr (m, d)) = rw (without-absent n xs m) (push-new b m d z u)
push-IsBucket {l} {h} {n} {xs} b z u (inl m) = elim (Bool-cases (hd xs == n)) [
  | inl e ↦
      let front : hd xs ≡ n = ground arith in
      rw (cons-without n xs front z, push-head l h n (b.head ∙ front)) b
  | inr e ↦ push-other b m (ground arith) z
]

-- `Push` changes links only.
pub push-SameNodes :
    {A : Type 0} (n : Ptr) (l : LruBucket) (h : Heap A) → SameNodes h (push n l h).1
unfolding push detach attach
push-SameNodes n l h = ground arith
