-- ===== src/Cache/Refines.antt =====
-- internal/mycel/local.go: the local operations against the abstract view of a bucket, in any sequence
-- that does not fill the bucket.
use mycorrhizal.Base.{
  ℕ, suc, ◌≡◌, ◌<◌, refl, ap, ◌∙◌, inl, inr, Option-cases, true, false, Option, none, some, List,
  ◌∷◌, ◌++◌, map, ok, err, arith, length,
}
use mycorrhizal.Base.Bytes.{Bytes}
use mycorrhizal.Base.Int.{ℤ, pos, ltb_ℤ}
use mycorrhizal.Base.Time.{Duration}
use mycorrhizal.Lru.{LruBucket, Heap, push}
use mycorrhizal.Lru.Order.{Ptr, has, without, has-without}
use mycorrhizal.Lru.Push.{push-SameNodes}
use mycorrhizal.Cache.{Cache, returns, set_bucket, not_found}
use mycorrhizal.Cache.Local.{get_local, expiry}
use mycorrhizal.Cache.Holds.{Holds, Holds-push}
use mycorrhizal.Cache.Reads.{get_local-some, heap_set, set_local-some}
use mycorrhizal.Cache.Writes.{
  push-max_len, cache_with, bucket_with, cache_with-Holds, same_max_len, set_local-room,
  key-heap_with, contents-heap_with, expires_at-heap_with, heap_with,
}
use mycorrhizal.Cache.Abstract.{
  Entry, Call, get, set, Reply, read, wrote, find, drop_key, answer, perform,
}
use mycorrhizal.Cache.Entries.{entry, entry-same, OnlyAt, find-entry, find-none, length-map-entry}

-- the bucket holds these entries, the most recently used first, and room for `capacity`
pub record Shows {A : Type 0} (bucket : Bytes) (capacity : ℕ) (c : Cache A) (es : List (Entry A))
    : Type 0 where
  pub bucket_of : LruBucket
  pub nodes : List Ptr
  pub holds : Holds c bucket bucket_of nodes
  pub limit : bucket_of.max_len ≡ pos capacity
  pub entries : es ≡ map (entry c.heap) nodes

module _ {A : Type 0} {bucket : Bytes} {c : Cache A} where
  -- the node that the index knows for a key is the only one of its bucket with the key
  pub OnlyAt-indexed :
      {b : LruBucket} {xs : List Ptr}
      → Holds c bucket b xs
      → (key : Bytes) (n : Ptr) → c.key_val (bucket ++ key) ≡ some n
      → OnlyAt c.heap key n xs
  OnlyAt-indexed h key n e p m k = ground (arith, h.indexed p m, k)

module _ {A : Type 0} {bucket : Bytes} {capacity : ℕ} {c : Cache A} where
  pub find-indexed :
      {es : List (Entry A)} (s : Shows bucket capacity c es) (key : Bytes) (n : Ptr)
      → c.key_val (bucket ++ key) ≡ some n
      → (find key es ≡ some (entry c.heap n))
        × (drop_key key es ≡ map (entry c.heap) (without n s.nodes))
  find-indexed s key n e = rw s.entries (
      find-entry c.heap key n s.nodes (OnlyAt-indexed s.holds key n e) (s.holds.found key n e)
        (s.holds.named key n e))

  pub find-unknown :
      {es : List (Entry A)} (s : Shows bucket capacity c es) (key : Bytes)
      → c.key_val (bucket ++ key) ≡ none
      → (find key es ≡ none) × (drop_key key es ≡ es)
  find-unknown s key e =
      rw s.entries (find-none c.heap key s.nodes (λ p m k. ground (arith, s.holds.indexed p m, k)))

  -- `Push` of a node of the bucket, in a heap `g` with the same links and keys
  Shows-push :
      {es : List (Entry A)} (s : Shows bucket capacity c es) (g : Heap A) {n : Ptr}
      → has n s.nodes ≡ true
      → g.next ≡ c.heap.next
      → g.prev ≡ c.heap.prev
      → g.key ≡ c.heap.key
      → g.fresh ≡ c.heap.fresh
      → Shows bucket capacity
          (set_bucket bucket (push n s.bucket_of g).0 (push n s.bucket_of g).1 c)
          (map (entry g) (n ∷ without n s.nodes))
  Shows-push s g {n} m en ep ek ef = record {
    bucket_of = (push n s.bucket_of g).0;
    nodes = n ∷ without n s.nodes;
    holds = Holds-push s.holds g m en ep ek ef;
    limit = push-max_len n s.bucket_of g ∙ s.limit;
    entries =
        let same = push-SameNodes n s.bucket_of g in
        entry-same g (push n s.bucket_of g).1 (n ∷ without n s.nodes)
          (λ p k. ground (arith, same.same_key, same.same_contents, same.same_expires_at));
  }

module _ {A : Type 0} (bucket : Bytes) (capacity : ℕ) (c : Cache A) where
  -- the call returns what the abstract bucket answers, and leaves a bucket that shows the same
  abbrev pub Refined : Call A → List (Entry A) → Type 0
  Refined call es =
      (c' : Cache A) × (perform bucket call c ≡ returns ((answer call es).0, c'))
      × Shows bucket capacity c' (answer call es).1

  pub refined :
      (call : Call A) (es : List (Entry A)) {es' : List (Entry A)} (r : Reply A) {c' : Cache A}
      → answer call es ≡ (r, es')
      → perform bucket call c ≡ returns (r, c')
      → Shows bucket capacity c' es'
      → Refined call es
  refined call es r {c'} e p s = (c', rw e p, rw e s)

  pub perform-get :
      (key : Bytes) (es : List (Entry A)) → Shows bucket capacity c es → Refined (get key) es
  unfolding perform answer get_local
  perform-get key es s = elim (Option-cases (c.key_val (bucket ++ key))) [
    | inl o ↦
        refined (get key) es (read (err not_found)) (rw ((find-unknown s key o).0, answer) refl)
          (rw (get_local, o) refl) s
    | inr (n, o) ↦
        let (f, d) = find-indexed s key n o in
        let known = push-SameNodes n s.bucket_of c.heap in
        refined (get key) es (read (ok (c.heap.contents n))) (rw (f, answer, d) refl)
          (rw (get_local-some s.holds key o, known.same_contents) refl)
          (Shows-push s c.heap (s.holds.found key n o) refl refl refl refl)
  ]

  shown_new :
      (now : ℕ) (key : Bytes) (value : Option A) (ttl : Duration) (es : List (Entry A))
      (s : Shows bucket capacity c es) (o : c.key_val (bucket ++ key) ≡ none)
      → record { key = key; contents = value; expires_at = expiry now ttl } ∷ es
        ≡ map (entry (heap_with s.holds now key value ttl o)) (c.heap.fresh ∷ s.nodes)
  shown_new now key value ttl es s o =
      let g = heap_with s.holds now key value ttl o in
      let k = key-heap_with s.holds now key value ttl o in
      let v = contents-heap_with s.holds now key value ttl o in
      let t = expires_at-heap_with s.holds now key value ttl o in
      let same : map (entry c.heap) s.nodes ≡ map (entry g) s.nodes =
        entry-same c.heap g s.nodes
          (λ p m. rw (k, v, t) (ground (arith, s.holds.chain.used p m))) in
      rw (s.entries, same, k, v, t) (ground arith)

  shown_again :
      (now : ℕ) (key : Bytes) (value : Option A) (ttl : Duration) (es : List (Entry A))
      (s : Shows bucket capacity c es) {n : Ptr} (o : c.key_val (bucket ++ key) ≡ some n)
      → answer (set now key value ttl) es ≡ (
        wrote (ok tt),
        map (entry (heap_set s.holds key now value ttl n)) (n ∷ without n s.nodes),
      )
  unfolding answer
  shown_again now key value ttl es s {n} o =
      let g = heap_set s.holds key now value ttl n in
      let same : map (entry c.heap) (without n s.nodes) ≡ map (entry g) (without n s.nodes) =
        entry-same c.heap g (without n s.nodes)
          (λ p m. ground (arith, has-without n p s.nodes s.holds.chain.distinct)) in
      ground (arith, (find-indexed s key n o).1, same, s.holds.named key n o)

  pub perform-set :
      (now : ℕ) (key : Bytes) (value : Option A) (ttl : Duration) (es : List (Entry A))
      → Shows bucket capacity c es
      → length es < capacity
      → Refined (set now key value ttl) es
  unfolding perform answer
  perform-set now key value ttl es s room = elim (Option-cases (c.key_val (bucket ++ key))) [
    | inl o ↦
        let new = cache_with s.holds now key value ttl o in
        let full : ltb_ℤ s.bucket_of.max_len (pos (suc (length s.nodes))) ≡ false = ground (
          arith,
          s.limit,
          ap (λ (z : ℤ). ltb_ℤ z (pos (suc (length s.nodes)))) s.limit,
          ap length s.entries,
          length-map-entry c.heap s.nodes,
        ) in
        refined (set now key value ttl) es
          {es' = record { key = key; contents = value; expires_at = expiry now ttl } ∷ es}
          (wrote (ok tt)) (rw (find-unknown s key o).1 refl)
          (rw (set_local-room s.holds now key value ttl o full) refl)
          (record {
            bucket_of = bucket_with s.holds now key value ttl o;
            nodes = c.heap.fresh ∷ s.nodes;
            holds = cache_with-Holds s.holds now key value ttl o;
            limit = same_max_len s.holds now key value ttl o ∙ s.limit;
            entries = shown_new now key value ttl es s o;
          })
    | inr (n, o) ↦
        let (f, d) = find-indexed s key n o in
        let g = heap_set s.holds key now value ttl n in
        refined (set now key value ttl) es (wrote (ok tt)) (shown_again now key value ttl es s o)
          (rw (set_local-some s.holds key now value ttl o) refl)
          (Shows-push s g (s.holds.found key n o) refl refl refl refl)
  ]
