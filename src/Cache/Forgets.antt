-- ===== src/Cache/Forgets.antt =====
-- internal/mycel/local.go: a write that evicts, a read of the entry at the end, and another write.
use mycorrhizal.Base.{
  ℕ, suc, ◌≡◌, ◌≢◌, ◌≤◌, refl, sym, ap, ◌∙◌, true, Option, none, some, List, ◌∷◌, ◌++◌, ok, arith,
  length,
}
use mycorrhizal.Base.Bytes.{Bytes}
use mycorrhizal.Base.Int.{pos, decrement, ltb_ℤ}
use mycorrhizal.Base.Maps.{lookup, lookup-put_self}
use mycorrhizal.Base.Time.{Duration}
use mycorrhizal.Lru.{LruBucket, Heap, push}
use mycorrhizal.Lru.Order.{Ptr, nil, has, last_or, has-last_or, pred_in}
use mycorrhizal.Lru.Push.{push-SameNodes}
use mycorrhizal.Cache.{Cache, get_bucket, set_bucket, returns}
use mycorrhizal.Cache.Local.{get_local, set_local, evict_tail}
use mycorrhizal.Cache.Holds.{Holds}
use mycorrhizal.Cache.Writes.{
  heap_with, bucket_with, cache_with, cache_with-Holds, cache_evicted, set_local-full, same_max_len,
  counted, key-heap_with, contents-heap_with, append-cancel,
}
use mycorrhizal.Cache.Stale.{
  IsStale, push-stale, IsLast, set_local-evicts, left, evict_tail-IsStale, kept-has, kept-ne-last,
  kept-ne-front, last_or-same, pred_in-last, last-ne-front,
}

module _ {A : Type 0} {c : Cache A} {bucket : Bytes} {b : LruBucket} {xs : List Ptr}
    (h : Holds c bucket b xs) (limit : b.max_len ≡ pos (length xs)) (long : 2 ≤ length xs) (now : ℕ)
    (key : Bytes) (value : Option A) (ttl : Duration) (new : c.key_val (bucket ++ key) ≡ none) where
  abbrev full : Cache A
  full = cache_with h now key value ttl new

  abbrev heap_full : Heap A
  heap_full = heap_with h now key value ttl new

  full-Holds : Holds full bucket (bucket_with h now key value ttl new) (c.heap.fresh ∷ xs)
  full-Holds = cache_with-Holds h now key value ttl new

  -- the node that the eviction makes the tail
  abbrev end : Ptr
  end = left full-Holds.chain long

  abbrev cut : LruBucket × Heap A
  cut = evict_tail (bucket_with h now key value ttl new) heap_full

  cut-IsStale : IsStale cut.0 cut.1 end
  cut-IsStale = evict_tail-IsStale full-Holds.chain long

  end-has : has end (c.heap.fresh ∷ xs) ≡ true
  end-has = kept-has c.heap.fresh xs full-Holds.chain.distinct long

  end-indexed :
      (cache_evicted h now key value ttl new).key_val (bucket ++ heap_full.key end) ≡ some end
  end-indexed = ground (
    arith,
    full-Holds.indexed end end-has,
    full-Holds.indexed (last_or c.heap.fresh xs) (has-last_or c.heap.fresh xs),
    full-Holds.chain.tail,
    kept-ne-last c.heap.fresh xs full-Holds.chain.distinct long,
  )

  -- the bucket and the heap after the read of that node
  abbrev again : LruBucket × Heap A
  again = push end cut.0 cut.1

  abbrev cache_read : Cache A
  cache_read = set_bucket bucket again.0 again.1 (cache_evicted h now key value ttl new)

  get_local-end :
      get_local bucket (heap_full.key end) (cache_evicted h now key value ttl new)
      ≡ (ok (again.1.contents end), cache_read)
  unfolding get_local get_bucket
  get_local-end =
      let s = lookup-put_self bucket cut.0 c.lru_buckets in rw (end-indexed, get_local, s) refl

  end-old : end ≢ c.heap.fresh
  end-old e = kept-ne-front c.heap.fresh xs full-Holds.chain.distinct long (sym e)

  key-end : heap_full.key end ≡ c.heap.key end
  key-end = rw (key-heap_with h now key value ttl new) (ground (arith, end-old))

  contents-end : again.1.contents end ≡ c.heap.contents end
  unfolding evict_tail
  contents-end =
      rw
        ((push-SameNodes end cut.0 cut.1).same_contents, contents-heap_with h now key value ttl new)
        (ground (
          arith,
          end-old,
          full-Holds.chain.tail,
          kept-ne-last c.heap.fresh xs full-Holds.chain.distinct long,
        ))

  key-again : again.1.key again.0.tail ≡ c.heap.key end
  unfolding evict_tail
  key-again = ground (
    arith,
    (push-SameNodes end cut.0 cut.1).same_key,
    push-stale cut-IsStale,
    cut-IsStale.tail,
    key-end,
  )

  max_len-again : again.0.max_len ≡ pos (length xs)
  unfolding evict_tail
  max_len-again = rw (push-stale cut-IsStale) (same_max_len h now key value ttl new ∙ limit)

  len-again : again.0.len ≡ pos (length xs)
  unfolding evict_tail
  len-again = rw (push-stale cut-IsStale) (ap decrement (counted h now key value ttl new))

  again-IsLast : IsLast bucket cache_read again.0
  unfolding evict_tail
  again-IsLast =
      let same = push-SameNodes end cut.0 cut.1 in
      record {
        stored = lookup-put_self bucket again.0 _;
        not_nil = ground (arith, push-stale cut-IsStale, cut-IsStale.tail, cut-IsStale.not_nil);
        used =
            ground
              (arith, push-stale cut-IsStale, cut-IsStale.tail, cut-IsStale.used, same.same_fresh);
        head_some = ground (arith, push-stale cut-IsStale, cut-IsStale.not_nil);
        head_used =
            ground
              (arith, push-stale cut-IsStale, cut-IsStale.tail, cut-IsStale.used, same.same_fresh);
        full = rw (max_len-again, len-again) (ground arith);
      }

  -- the entry that the first eviction removes
  abbrev pub last_key : Bytes
  last_key = c.heap.key (last_or nil xs)

  key-last : heap_full.key (last_or c.heap.fresh xs) ≡ last_key
  key-last = rw (key-heap_with h now key value ttl new) (
      ground (
        arith,
        last-ne-front c.heap.fresh xs full-Holds.chain.distinct long,
        last_or-same c.heap.fresh nil xs long,
      ))

  -- What happens when, on a full bucket, a new key is written, the entry of the node `n` is read, and
  -- another new key is written.
  pub record IsForgotten (now' : ℕ) (key' : Bytes) (value' : Option A) (ttl' : Duration) (n : Ptr)
      (c₁ c₂ c₃ : Cache A) : Type 0 where
    -- the first write evicts the last entry
    pub first_write : set_local now bucket key value ttl c ≡ returns (ok tt, c₁)
    pub last_evicted : c₁.key_val (bucket ++ last_key) ≡ none
    -- `n` is the node before the last one, and the tail of the bucket then
    pub before_last : n ≡ pred_in nil xs (last_or nil xs)
    pub is_tail : (b₁ : LruBucket) × (lookup bucket c₁.lru_buckets ≡ some b₁) × (b₁.tail ≡ n)
    -- its entry is read, and it is the head of the bucket then, and still the tail
    pub read_again : get_local bucket (c.heap.key n) c₁ ≡ (ok (c.heap.contents n), c₂)
    pub is_head :
        (b₂ : LruBucket) × (lookup bucket c₂.lru_buckets ≡ some b₂) × (b₂.head ≡ n) × (b₂.tail ≡ n)
    -- the second write evicts it
    pub second_write : set_local now' bucket key' value' ttl' c₂ ≡ returns (ok tt, c₃)
    pub forgotten : c₃.key_val (bucket ++ c.heap.key n) ≡ none

  -- On a full well-formed bucket of two entries or more, a write of a new key evicts the last entry; the
  -- entry before it, which is the tail of the bucket then, can be read, which returns its value and makes
  -- it the head of the bucket, but leaves it the tail; and after a write of another new key the index no
  -- longer knows the key that was just read.
  pub set_local-forgets :
      (now' : ℕ) (key' : Bytes) (value' : Option A) (ttl' : Duration)
      → key' ≢ key
      → c.key_val (bucket ++ key') ≡ none
      → (n : Ptr) × (c₁ c₂ c₃ : Cache A) × IsForgotten now' key' value' ttl' n c₁ c₂ c₃
  unfolding evict_tail
  set_local-forgets now' key' value' ttl' ne new' =
      let over : ltb_ℤ b.max_len (pos (suc (length xs))) ≡ true = rw limit (ground arith) in
      let unknown : cache_read.key_val (bucket ++ key') ≡ none =
        ground (arith, append-cancel bucket {ys = key} {zs = key'}, ne) in
      let (c₃, e, f) =
        set_local-evicts bucket cache_read again.0 now' key' value' ttl' again-IsLast unknown in
      (
        end,
        cache_evicted h now key value ttl new,
        cache_read,
        c₃,
        record {
          first_write = set_local-full h now key value ttl new over;
          last_evicted = ground (arith, full-Holds.chain.tail, key-last);
          before_last = pred_in-last c.heap.fresh xs full-Holds.chain.distinct long;
          is_tail = (cut.0, lookup-put_self bucket cut.0 c.lru_buckets, cut-IsStale.tail);
          read_again = rw (key-end, contents-end) at get_local-end;
          is_head = (
            again.0,
            lookup-put_self bucket again.0 _,
            ap (λ (l : LruBucket). l.head) (push-stale cut-IsStale),
            ap (λ (l : LruBucket). l.tail) (push-stale cut-IsStale) ∙ cut-IsStale.tail,
          );
          second_write = e;
          forgotten = rw key-again at f;
        },
      )
