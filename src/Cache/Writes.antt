-- ===== src/Cache/Writes.antt =====
-- internal/mycel/local.go: `setLocal` of a key that the index does not know.
use mycorrhizal.Base.{
  ◌≡◌, ◌<◌, ◌≤◌, ◌≢◌, suc, ◌∙◌, inl, inr, Bool-cases, ℕ, true, false, Option, none, some, List, [],
  ◌∷◌, ◌++◌, ok, arith, ap, sym, ◌==◌, length,
}
use mycorrhizal.Base.Bytes.{Bytes}
use mycorrhizal.Base.Int.{ℤ, pos, decrement, ltb_ℤ}
use mycorrhizal.Base.Time.{Duration, Instant}
use mycorrhizal.Base.Maps.{lookup-put_self, lookup, insert, remove}
use mycorrhizal.Lru.{LruBucket, Heap, push, detach, attach, update}
use mycorrhizal.Lru.Order.{Ptr, nil, has, last_or, has-last_or}
use mycorrhizal.Lru.Invariant.{IsBucket, IsDetached}
use mycorrhizal.Lru.Push.{push-new, push-SameNodes}
use mycorrhizal.Cache.{Cache, set_bucket, returns}
use mycorrhizal.Cache.Local.{set_local, expiry, new_node, evict, evict_tail}
use mycorrhizal.Cache.Holds.{Holds}
use mycorrhizal.Cache.Reads.{get_bucket-ok}

has-last_or_of_pos : (b : Ptr) (xs : List Ptr) → 0 < length xs → has (last_or b xs) xs ≡ true
has-last_or_of_pos b [] z = absurd (omega arith)
has-last_or_of_pos b (x ∷ xs) z = has-last_or x xs

some-eq : {p q : Ptr} → ◌≡◌ {A = Option Ptr} (some p) (some q) → p ≡ q
some-eq e = cc

pub append-cancel {ℓ} : {A : Type ℓ} (xs : List A) {ys zs : List A} → xs ++ ys ≡ xs ++ zs → ys ≡ zs
append-cancel [] e = e
append-cancel (x ∷ xs) e = append-cancel xs (cc)

module _ {A : Type 0} {b : LruBucket} {h : Heap A} {xs : List Ptr} (chain : IsBucket b h xs)
    (key : Bytes) (value : Option A) (expires : Instant) where
  fresh-unused : has h.fresh xs ≡ false
  fresh-unused = elim (Bool-cases (has h.fresh xs)) [
    | inl m ↦ absurd (omega (arith, chain.used h.fresh m))
    | inr m ↦ m
  ]

  pub IsBucket-new_node : IsBucket b (new_node key value expires h) xs
  unfolding new_node
  IsBucket-new_node = record {
    distinct = chain.distinct;
    not_nil = chain.not_nil;
    head = chain.head;
    tail = chain.tail;
    len = chain.len;
    nexts = λ p k. ground (arith, chain.used p, chain.nexts p);
    prevs = λ p k. ground (arith, chain.used p, chain.prevs p);
    used = λ p k. ground (arith, chain.used p);
  }

  pub new_node-IsDetached : IsDetached (new_node key value expires h) h.fresh
  unfolding new_node
  new_node-IsDetached = ground arith

  -- the bucket and the heap after `Push` of the new node
  pushed-IsBucket :
      0 < h.fresh
      → IsBucket
          (push h.fresh b (new_node key value expires h)).0
          (push h.fresh b (new_node key value expires h)).1
          (h.fresh ∷ xs)
  pushed-IsBucket z =
      push-new IsBucket-new_node fresh-unused new_node-IsDetached (ground arith)
        (unfold new_node in omega arith)

pub push-max_len :
    {A : Type 0} (n : Ptr) (l : LruBucket) (h : Heap A) → (push n l h).0.max_len ≡ l.max_len
unfolding push detach attach
push-max_len n l h = ground arith

module _ {A : Type 0} {c : Cache A} {bucket : Bytes} {b : LruBucket} {xs : List Ptr}
    (h : Holds c bucket b xs) (now : ℕ) (key : Bytes) (value : Option A) (ttl : Duration)
    (new : c.key_val (bucket ++ key) ≡ none) where
  abbrev pub heap_with : Heap A
  heap_with = (push c.heap.fresh b (new_node key value (expiry now ttl) c.heap)).1

  abbrev pub bucket_with : LruBucket
  bucket_with = (push c.heap.fresh b (new_node key value (expiry now ttl) c.heap)).0

  abbrev pub cache_with : Cache A
  cache_with = record (set_bucket bucket bucket_with heap_with c) {
    key_val = insert (bucket ++ key) c.heap.fresh c.key_val;
  }

  pub key-heap_with : heap_with.key ≡ update c.heap.key c.heap.fresh key
  unfolding new_node
  key-heap_with =
      (push-SameNodes c.heap.fresh b (new_node key value (expiry now ttl) c.heap)).same_key

  pub contents-heap_with : heap_with.contents ≡ update c.heap.contents c.heap.fresh value
  unfolding new_node
  contents-heap_with =
      (push-SameNodes c.heap.fresh b (new_node key value (expiry now ttl) c.heap)).same_contents

  pub expires_at-heap_with :
      heap_with.expires_at ≡ update c.heap.expires_at c.heap.fresh (expiry now ttl)
  unfolding new_node
  expires_at-heap_with =
      (push-SameNodes c.heap.fresh b (new_node key value (expiry now ttl) c.heap)).same_expires_at

  pub grown : heap_with.fresh ≡ suc c.heap.fresh
  unfolding new_node
  grown = (push-SameNodes c.heap.fresh b (new_node key value (expiry now ttl) c.heap)).same_fresh

  pub cache_with-Holds : Holds cache_with bucket bucket_with (c.heap.fresh ∷ xs)
  cache_with-Holds = record {
    stored = lookup-put_self bucket bucket_with c.lru_buckets;
    chain = pushed-IsBucket h.chain key value (expiry now ttl) h.started;
    indexed = λ p k. rw key-heap_with (ground (arith, h.indexed p, new, h.chain.used p));
    found = λ key' p k. ground (arith, h.found key' p);
    named = λ key' p k. rw key-heap_with (
        ground (
          arith,
          append-cancel bucket {ys = key} {zs = key'},
          h.named key' p,
          h.found key' p,
          h.chain.used p,
        ));
    started = rw grown (omega arith);
  }

  pub same_max_len : bucket_with.max_len ≡ b.max_len
  same_max_len = push-max_len c.heap.fresh b (new_node key value (expiry now ttl) c.heap)

  pub counted : bucket_with.len ≡ pos (suc (length xs))
  counted = cache_with-Holds.chain.len

  -- below its capacity the bucket takes the new node, and nothing else changes
  pub set_local-room :
      ltb_ℤ b.max_len (pos (suc (length xs))) ≡ false
      → set_local now bucket key value ttl c ≡ returns (ok tt, cache_with)
  unfolding set_local evict
  set_local-room e = rw (get_bucket-ok h key, set_local, new, evict, counted, same_max_len, e)

  abbrev pub victim : Ptr
  victim = last_or c.heap.fresh xs

  -- the cache after the eviction of `victim`
  abbrev pub cache_evicted : Cache A
  cache_evicted =
      record (set_bucket bucket (evict_tail bucket_with heap_with).0
        (evict_tail bucket_with heap_with).1 c) {
          key_val =
              remove (bucket ++ heap_with.key bucket_with.tail)
                (insert (bucket ++ key) c.heap.fresh c.key_val);
          node_score_hash_map = remove (bucket ++ key) c.node_score_hash_map;
        }

  pub tail-victim : bucket_with.tail ≡ victim
  tail-victim = cache_with-Holds.chain.tail

  pub set_local-full :
      ltb_ℤ b.max_len (pos (suc (length xs))) ≡ true
      → set_local now bucket key value ttl c ≡ returns (ok tt, cache_evicted)
  unfolding set_local evict
  set_local-full e =
      let there : (bucket_with.tail == nil) ≡ false =
        ground (arith, cache_with-Holds.chain.not_nil, tail-victim, has-last_or c.heap.fresh xs) in
      rw (get_bucket-ok h key, set_local, new, evict, counted, same_max_len, e, there)

  module _ {m : ℕ} (limit : b.max_len ≡ pos (suc m)) (fits : length xs ≤ suc m) where
    -- what a caller sees after the write of a new key
    pub record IsWritten (c' : Cache A) : Type 0 where
      pub readable : c'.key_val (bucket ++ key) ≡ some c.heap.fresh
      pub value_kept : c'.heap.contents c.heap.fresh ≡ value
      pub bounded :
          (b' : LruBucket) × (k : ℕ) × (lookup bucket c'.lru_buckets ≡ some b')
          × (b'.len ≡ pos k)
          × (k ≤ suc m)

    cache_with-IsWritten : ltb_ℤ b.max_len (pos (suc (length xs))) ≡ false → IsWritten cache_with
    cache_with-IsWritten e = record {
      readable = ground arith;
      value_kept = rw contents-heap_with (ground arith);
      bounded = (
        bucket_with,
        suc (length xs),
        cache_with-Holds.stored,
        counted,
        ground (arith, ap (λ (z : ℤ). ltb_ℤ z (pos (suc (length xs)))) limit),
      );
    }

    module _ (full : ltb_ℤ b.max_len (pos (suc (length xs))) ≡ true) where
      victim-old : has victim xs ≡ true
      victim-old =
          has-last_or_of_pos c.heap.fresh xs
            (ground (arith, ap (λ (z : ℤ). ltb_ℤ z (pos (suc (length xs)))) limit))

      victim-ne : victim ≢ c.heap.fresh
      victim-ne e = ground (
        arith,
        victim-old,
        fresh-unused h.chain key value (expiry now ttl),
        ap (λ (p : Ptr). has p xs) e,
      )

      other-key : bucket ++ heap_with.key bucket_with.tail ≢ bucket ++ key
      other-key e = victim-ne (
          some-eq (
            sym (cache_with-Holds.indexed victim (ground (arith, victim-old)))
            ∙ ap cache_with.key_val
                (ap (λ (p : Ptr). bucket ++ heap_with.key p) (sym tail-victim) ∙ e)
            ∙ kept))
        where
          kept : cache_with.key_val (bucket ++ key) ≡ some c.heap.fresh
          kept = ground arith

      cache_evicted-IsWritten : IsWritten cache_evicted
      cache_evicted-IsWritten = record {
        readable = ground (arith, other-key);
        value_kept =
            unfold evict_tail in rw (contents-heap_with, tail-victim) (ground (arith, victim-ne));
        bounded = (
          (evict_tail bucket_with heap_with).0,
          length xs,
          lookup-put_self bucket _ c.lru_buckets,
          (unfold evict_tail in ap decrement counted),
          fits,
        );
      }

    -- On a well-formed bucket with no more entries than its positive capacity, writing a key that the
    -- index does not know returns without an error. The index then leads to a node with the value,
    -- and the bucket's count is at most the capacity.
    pub set_local-IsWritten :
        (c' : Cache A) × (set_local now bucket key value ttl c ≡ returns (ok tt, c')) × IsWritten c'
    set_local-IsWritten = elim (Bool-cases (ltb_ℤ b.max_len (pos (suc (length xs))))) [
      | inl full ↦ (cache_evicted, set_local-full full, cache_evicted-IsWritten full)
      | inr room ↦ (cache_with, set_local-room room, cache_with-IsWritten room)
    ]

  -- On a well-formed bucket below its capacity, writing a key that the index does not know returns
  -- without an error and leaves a well-formed bucket with the new node in front of the others.
  pub set_local-Holds :
      ltb_ℤ b.max_len (pos (suc (length xs))) ≡ false
      → (c' : Cache A) × (set_local now bucket key value ttl c ≡ returns (ok tt, c'))
        × ((b' : LruBucket) × Holds c' bucket b' (c.heap.fresh ∷ xs))
  set_local-Holds e = (cache_with, set_local-room e, (bucket_with, cache_with-Holds))
