-- ===== src/Cache/Stale.antt =====
-- internal/mycel/local.go: the end of a bucket after the eviction in `setLocal`, which leaves the
-- evicted node behind the new tail.
use mycorrhizal.Base.{
  ℕ, ◌≡◌, ◌≢◌, ◌≤◌, ◌<◌, refl, ap, true, false, Option, none, some, List, [], ◌∷◌, ◌++◌, ok, arith,
  length, ◌==◌,
}
use mycorrhizal.Base.Bytes.{Bytes}
use mycorrhizal.Base.Int.{increment, ltb_ℤ}
use mycorrhizal.Base.Maps.{insert, remove, lookup}
use mycorrhizal.Base.Time.{Duration}
use mycorrhizal.Lru.{LruBucket, Heap, push, detach, attach}
use mycorrhizal.Lru.Order.{
  Ptr, nil, has, last_or, succ_in, pred_in, Distinct, hd, has-last_or, has-pred_in, pred_in-ne,
  succ_in-pred_in,
}
use mycorrhizal.Lru.Invariant.{IsBucket}
use mycorrhizal.Lru.Push.{push-SameNodes}
use mycorrhizal.Cache.{Cache, get_bucket, set_bucket, returns}
use mycorrhizal.Cache.Local.{set_local, expiry, new_node, evict, evict_tail}

-- the tail of a bucket still has a node behind it
pub record IsStale {A : Type 0} (b : LruBucket) (h : Heap A) (t : Ptr) : Type 0 where
  pub tail : b.tail ≡ t
  pub not_nil : t ≢ nil
  pub behind : h.next t ≢ nil
  pub before : h.prev t ≢ nil
  pub before_other : h.prev t ≢ t
  pub head_some : b.head ≢ nil
  pub head_other : b.head ≢ t
  pub used : t < h.fresh

module _ {A : Type 0} {b : LruBucket} {h : Heap A} {t : Ptr} (stale : IsStale b h t) where
  -- `Push` of such a tail makes it the head and leaves it the tail
  pub push-stale : (push t b h).0 ≡ record b { head = t }
  unfolding push detach attach
  push-stale =
      ground
        (arith, stale.behind, stale.before, stale.before_other, stale.head_some, stale.head_other)

-- `Push` of a new node of a bucket that is not empty
push-fresh :
    {A : Type 0} (b : LruBucket) (h : Heap A) (key : Bytes) (value : Option A) (now : ℕ)
    (ttl : Duration)
    → b.head ≢ nil
    → b.head ≢ h.fresh
    → (push h.fresh b (new_node key value (expiry now ttl) h)).0
      ≡ record b { head = h.fresh; len = increment b.len }
unfolding push detach attach new_node
push-fresh b h key value now ttl z e = ground arith

module _ {A : Type 0} (bucket : Bytes) (c : Cache A) (b : LruBucket) where
  -- a bucket that is full, with entries
  pub record IsLast : Type 0 where
    pub stored : lookup bucket c.lru_buckets ≡ some b
    pub not_nil : b.tail ≢ nil
    pub used : b.tail < c.heap.fresh
    pub head_some : b.head ≢ nil
    pub head_used : b.head ≢ c.heap.fresh
    pub full : ltb_ℤ b.max_len (increment b.len) ≡ true

  module _ (now : ℕ) (key : Bytes) (value : Option A) (ttl : Duration) where
    abbrev heap_new : Heap A
    heap_new = (push c.heap.fresh b (new_node key value (expiry now ttl) c.heap)).1

    key-heap_new : b.tail ≢ c.heap.fresh → heap_new.key b.tail ≡ c.heap.key b.tail
    unfolding new_node
    key-heap_new e =
        rw (push-SameNodes c.heap.fresh b (new_node key value (expiry now ttl) c.heap)).same_key
          (ground arith)

    -- a write of a new key evicts the tail
    pub set_local-evicts :
        IsLast
        → c.key_val (bucket ++ key) ≡ none
        → (c' : Cache A) × (set_local now bucket key value ttl c ≡ returns (ok tt, c'))
          × (c'.key_val (bucket ++ c.heap.key b.tail) ≡ none)
    unfolding set_local evict get_bucket
    set_local-evicts l new =
        let pushed = push-fresh b c.heap key value now ttl l.head_some l.head_used in
        let there : (b.tail == nil) ≡ false = ground (arith, l.not_nil) in
        let same = key-heap_new (λ e. omega (arith, l.used)) in
        let b' : LruBucket = record b { head = c.heap.fresh; len = increment b.len } in
        (
          record (set_bucket bucket (evict_tail b' heap_new).0 (evict_tail b' heap_new).1 c) {
            key_val =
                remove (bucket ++ heap_new.key b.tail)
                  (insert (bucket ++ key) c.heap.fresh c.key_val);
            node_score_hash_map = remove (bucket ++ key) c.node_score_hash_map;
          },
          rw (l.stored, set_local, new, evict, pushed, l.full, there) refl,
          rw same (ground arith),
        )

has-ne-nil : (xs : List Ptr) → has nil xs ≡ false → (p : Ptr) → has p xs ≡ true → p ≢ nil
has-ne-nil xs z p m e = ground (arith, ap (λ (q : Ptr). has q xs) e)

last_or-ne-hd : (f : Ptr) (xs : List Ptr) → Distinct xs → 2 ≤ length xs → last_or f xs ≢ hd xs
last_or-ne-hd f [] d l e = omega arith
last_or-ne-hd f (x ∷ []) d l e = omega arith
last_or-ne-hd f (x ∷ y ∷ xs) d l e = ground (arith, has-last_or y xs)

pub last_or-same : (a b : Ptr) (xs : List Ptr) → 2 ≤ length xs → last_or a xs ≡ last_or b xs
last_or-same a b [] l = absurd (omega arith)
last_or-same a b (x ∷ xs) l = refl

pub pred_in-last :
    (f : Ptr) (xs : List Ptr)
    → Distinct (f ∷ xs)
    → 2 ≤ length xs
    → pred_in nil (f ∷ xs) (last_or f xs) ≡ pred_in nil xs (last_or nil xs)
pred_in-last f [] d l = absurd (omega arith)
pred_in-last f (x ∷ []) d l = absurd (omega arith)
pred_in-last f (x ∷ y ∷ xs) d l = ground (arith, has-last_or y xs)

-- the last two of three addresses or more
module _ (f : Ptr) (xs : List Ptr) (distinct : Distinct (f ∷ xs)) (long : 2 ≤ length xs) where
  abbrev pub last : Ptr
  last = last_or f xs

  abbrev pub kept : Ptr
  kept = pred_in nil (f ∷ xs) last

  pub last-ne-front : f ≢ last
  last-ne-front e = go xs distinct long e
    where
      go : (ys : List Ptr) → Distinct (f ∷ ys) → 2 ≤ length ys → f ≢ last_or f ys
      go [] d l e' = omega arith
      go (y ∷ ys) d l e' = ground (arith, has-last_or y ys)

  pub kept-has : has kept (f ∷ xs) ≡ true
  kept-has = has-pred_in nil (f ∷ xs) last (has-last_or f xs) last-ne-front

  succ_in-kept : succ_in (f ∷ xs) kept ≡ last
  succ_in-kept = succ_in-pred_in nil (f ∷ xs) last distinct (has-last_or f xs) last-ne-front

  pub kept-ne-front : f ≢ kept
  kept-ne-front e = last_or-ne-hd f xs distinct.1 long (ground (arith, succ_in-kept))

  pub kept-ne-last : kept ≢ last
  kept-ne-last = pred_in-ne nil (f ∷ xs) last distinct (has-last_or f xs) last-ne-front

  before-has : has (pred_in nil (f ∷ xs) kept) (f ∷ xs) ≡ true
  before-has = has-pred_in nil (f ∷ xs) kept kept-has kept-ne-front

  before-ne-kept : pred_in nil (f ∷ xs) kept ≢ kept
  before-ne-kept = pred_in-ne nil (f ∷ xs) kept distinct kept-has kept-ne-front

-- the eviction of the last of three nodes or more
module _ {A : Type 0} {b : LruBucket} {h : Heap A} {f : Ptr} {xs : List Ptr}
    (chain : IsBucket b h (f ∷ xs)) (long : 2 ≤ length xs) where
  abbrev pub left : Ptr
  left = kept f xs chain.distinct long

  prev-tail : h.prev b.tail ≡ left
  prev-tail = rw chain.tail (chain.prevs (last_or f xs) (has-last_or f xs))

  pub evict_tail-IsStale : IsStale (evict_tail b h).0 (evict_tail b h).1 left
  unfolding evict_tail
  evict_tail-IsStale =
      let m = kept-has f xs chain.distinct long in
      let z = has-ne-nil (f ∷ xs) chain.not_nil in
      record {
        tail = prev-tail;
        not_nil = z left m;
        behind = ground (
          arith,
          chain.tail,
          chain.nexts left m,
          succ_in-kept f xs chain.distinct long,
          kept-ne-last f xs chain.distinct long,
          z (last_or f xs) (has-last_or f xs),
        );
        before = ground (
          arith,
          chain.tail,
          chain.prevs left m,
          kept-ne-last f xs chain.distinct long,
          z (pred_in nil (f ∷ xs) left) (before-has f xs chain.distinct long),
        );
        before_other = ground (
          arith,
          chain.tail,
          chain.prevs left m,
          kept-ne-last f xs chain.distinct long,
          before-ne-kept f xs chain.distinct long,
        );
        head_some = ground (arith, chain.head, chain.not_nil);
        head_other = ground (arith, chain.head, kept-ne-front f xs chain.distinct long);
        used = chain.used left m;
      }
