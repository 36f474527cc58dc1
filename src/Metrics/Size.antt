-- ===== src/Metrics/Size.antt =====
-- internal/mycel/local.go: the gauge of a bucket's size against the count that the bucket keeps.
use mycorrhizal.Base.{
  ℕ, ◌≡◌, refl, inl, inr, Bool-cases, Option-cases, true, false, Option, none, some, List, [], ◌∷◌,
  ◌++◌, ok, err, arith, ◌==◌,
}
use mycorrhizal.Base.Bytes.{Bytes}
use mycorrhizal.Base.Int.{ℤ, pos, negsuc, ltb_ℤ, ◌+ℤ◌}
use mycorrhizal.Base.Maps.{lookup, lookup-put_self}
use mycorrhizal.Base.Time.{Duration}
use mycorrhizal.Lru.{LruBucket, Heap, push, unlink}
use mycorrhizal.Lru.Order.{Ptr, nil, has, without, length-without, has-last_or}
use mycorrhizal.Cache.{Cache, Outcome, returns, set_bucket, not_found}
use mycorrhizal.Cache.Local.{get_local, set_ttl_local, evict, evict_tail}
use mycorrhizal.Cache.Holds.{Holds, Holds-push}
use mycorrhizal.Cache.Reads.{get_bucket-ok, get_local-some, heap_set}
use mycorrhizal.Cache.Writes.{
  bucket_with, heap_with, cache_with, cache_with-Holds, cache_evicted, counted,
}
use mycorrhizal.Cache.Deletes.{
  cache_without, cache_without-Holds, find_key-indexed, find_key-unknown,
}
use mycorrhizal.Lru.Delete.{deleted, delete-deleted}
use mycorrhizal.Cache.Abstract.{Call, get, set, delete, set_ttl, read, wrote}
use mycorrhizal.Metrics.{Sample, bucket_size, one, record_bucket_size, record_lru_eviction}
use mycorrhizal.Metrics.Local.{
  Measured, measured_perform, measured_set_local, measured_delete_local, evict_samples,
}

-- what the measurements add to the gauge of a bucket's size
unfoldable pub size_change : List Sample → ℤ
size_change [] = pos 0
size_change (s ∷ samples) =
    (elim s.instrument [ bucket_size ↦ s.amount | _ ↦ pos 0 ]) +ℤ size_change samples

-- the call returns, and the bucket's count has changed by what the gauge has
abbrev pub Gauged : {A R : Type 0} → Bytes → LruBucket → Outcome (Measured R (Cache A)) → Type 0
Gauged {A} {R} bucket b m =
    (r : R) × (c' : Cache A) × (samples : List Sample) × (b' : LruBucket) × (m
      ≡ returns (r, c', samples))
    × (lookup bucket c'.lru_buckets ≡ some b')
    × (b'.len ≡ b.len +ℤ size_change samples)

evict_samples-full :
    (bucket : Bytes) (b : LruBucket)
    → ltb_ℤ b.max_len b.len ≡ true
    → evict_samples bucket b
      ≡ record_lru_eviction bucket ∷ record_bucket_size bucket (negsuc 0) ∷ []
unfolding evict_samples
evict_samples-full bucket b e = ground arith

evict_samples-room :
    (bucket : Bytes) (b : LruBucket) → ltb_ℤ b.max_len b.len ≡ false → evict_samples bucket b ≡ []
unfolding evict_samples
evict_samples-room bucket b e = ground arith

module _ {A : Type 0} {c : Cache A} {bucket : Bytes} {b : LruBucket} {xs : List Ptr}
    (h : Holds c bucket b xs) where
  -- `Push` of a node of the bucket leaves the count
  push-len :
      (g : Heap A) (n : Ptr)
      → Holds
          (set_bucket bucket (push n b g).0 (push n b g).1 c)
          bucket
          (push n b g).0
          (n ∷ without n xs)
      → has n xs ≡ true
      → (push n b g).0.len ≡ b.len +ℤ pos 0
  push-len g n k m = ground (arith, k.chain.len, h.chain.len, length-without n xs m)

  module _ (now : ℕ) (key : Bytes) (value : Option A) (ttl : Duration) where
    set-known :
        {n : Ptr}
        → c.key_val (bucket ++ key) ≡ some n
        → Gauged bucket b (measured_set_local now bucket key value ttl c)
    unfolding measured_set_local size_change
    set-known {n} e =
        let g = heap_set h key now value ttl n in
        (
          ok tt,
          set_bucket bucket (push n b g).0 (push n b g).1 c,
          [],
          (push n b g).0,
          rw (get_bucket-ok h key, measured_set_local, e) refl,
          lookup-put_self bucket (push n b g).0 c.lru_buckets,
          push-len g n (Holds-push h g (h.found key n e) refl refl refl refl) (h.found key n e),
        )

    set-new :
        c.key_val (bucket ++ key) ≡ none
        → Gauged bucket b (measured_set_local now bucket key value ttl c)
    unfolding measured_set_local size_change evict record_bucket_size record_lru_eviction
    set-new e =
        let w = bucket_with h now key value ttl e in
        let k = cache_with-Holds h now key value ttl e in
        elim (Bool-cases (ltb_ℤ w.max_len w.len)) [
          | inr room ↦ (
            ok tt,
            cache_with h now key value ttl e,
            record_bucket_size bucket one ∷ [],
            w,
            rw
                (
                  get_bucket-ok h key,
                  measured_set_local,
                  e,
                  evict,
                  room,
                  evict_samples-room bucket w room,
                )
                refl,
            k.stored,
            ground (arith, counted h now key value ttl e, h.chain.len),
          )
          | inl full ↦
              let there : (w.tail == nil) ≡ false =
                ground (arith, k.chain.not_nil, k.chain.tail, has-last_or c.heap.fresh xs) in
              (
                ok tt,
                cache_evicted h now key value ttl e,
                record_bucket_size bucket one
                    ∷ record_lru_eviction bucket
                    ∷ record_bucket_size bucket (negsuc 0)
                    ∷ [],
                (evict_tail w (heap_with h now key value ttl e)).0,
                rw
                    (
                      get_bucket-ok h key,
                      measured_set_local,
                      e,
                      evict,
                      full,
                      there,
                      evict_samples-full bucket w full,
                    )
                    refl,
                lookup-put_self bucket _ c.lru_buckets,
                unfold evict_tail in rw (counted h now key value ttl e, h.chain.len) (ground arith),
              )
        ]

  delete-known :
      (key : Bytes) {n : Ptr}
      → c.key_val (bucket ++ key) ≡ some n
      → Gauged bucket b (measured_delete_local bucket key c)
  unfolding measured_delete_local size_change record_bucket_size deleted
  delete-known key {n} e =
      let k = cache_without-Holds h key e in
      let ne : (n == nil) ≡ false = ground (arith, h.found key n e, h.chain.not_nil) in
      (
        ok tt,
        cache_without h key n,
        record_bucket_size bucket (negsuc 0) ∷ [],
        (unlink n b c.heap).0,
        rw
            (
              get_bucket-ok h key,
              measured_delete_local,
              delete-deleted key h.chain h.started,
              find_key-indexed h key e,
              deleted,
              ne,
            )
            refl,
        k.stored,
        ground (arith, k.chain.len, h.chain.len, length-without n xs (h.found key n e)),
      )

  delete-unknown :
      (key : Bytes)
      → c.key_val (bucket ++ key) ≡ none
      → Gauged bucket b (measured_delete_local bucket key c)
  unfolding measured_delete_local size_change deleted
  delete-unknown key e = (
    err not_found,
    set_bucket bucket b c.heap c,
    [],
    b,
    rw
        (
          get_bucket-ok h key,
          measured_delete_local,
          delete-deleted key h.chain h.started,
          find_key-unknown h key e,
          deleted,
        )
        refl,
    lookup-put_self bucket b c.lru_buckets,
    ground (arith, h.chain.len),
  )

  -- Whatever the local operation, and whether or not the bucket is full: on a well-formed bucket it
  -- returns, and the measurements that it records change the gauge of the bucket's size by exactly
  -- what the bucket's count changes by.
  pub measured_perform-len : (call : Call A) → Gauged bucket b (measured_perform bucket call c)
  unfolding measured_perform size_change get_local set_ttl_local
  measured_perform-len (get key) = elim (Option-cases (c.key_val (bucket ++ key))) [
    | inl o ↦ (
      read (err not_found),
      c,
      [],
      b,
      rw (o, get_local) refl,
      h.stored,
      ground (arith, h.chain.len),
    )
    | inr (n, o) ↦ (
      read (ok ((push n b c.heap).1.contents n)),
      set_bucket bucket (push n b c.heap).0 (push n b c.heap).1 c,
      [],
      (push n b c.heap).0,
      rw (get_local-some h key o) refl,
      lookup-put_self bucket (push n b c.heap).0 c.lru_buckets,
      push-len c.heap n (Holds-push h c.heap (h.found key n o) refl refl refl refl)
          (h.found key n o),
    )
  ]
  measured_perform-len (set now key value ttl) =
      let set-any : Gauged bucket b (measured_set_local now bucket key value ttl c) =
        elim (Option-cases (c.key_val (bucket ++ key))) [
          | inl o ↦ set-new now key value ttl o
          | inr (n, o) ↦ set-known now key value ttl o
        ] in
      let (r, c', samples, b', e, s, l) = set-any in (wrote r, c', samples, b', rw e refl, s, l)
  measured_perform-len (delete key) =
      let delete-any : Gauged bucket b (measured_delete_local bucket key c) =
        elim (Option-cases (c.key_val (bucket ++ key))) [
          | inl o ↦ delete-unknown key o
          | inr (n, o) ↦ delete-known key o
        ] in
      let (r, c', samples, b', e, s, l) = delete-any in (wrote r, c', samples, b', rw e refl, s, l)
  measured_perform-len (set_ttl now key ttl) = (
    wrote (set_ttl_local now bucket key ttl c).0,
    (set_ttl_local now bucket key ttl c).1,
    [],
    b,
    refl,
    ground (arith, h.stored),
    ground (arith, h.chain.len),
  )
