-- ===== src/Cache/Reads.antt =====
-- internal/mycel/local.go: what the local operations do on a bucket that is well formed.
use mycorrhizal.Base.{◌≡◌, refl, ℕ, Option, some, List, ◌∷◌, ◌++◌, ok, ap}
use mycorrhizal.Base.Bytes.{Bytes}
use mycorrhizal.Base.Time.{Duration}
use mycorrhizal.Lru.{LruBucket, Heap, push, update}
use mycorrhizal.Lru.Order.{Ptr, without}
use mycorrhizal.Lru.Push.{push-SameNodes}
use mycorrhizal.Cache.{Cache, set_bucket, get_bucket, returns}
use mycorrhizal.Cache.Local.{get_local, set_local, expiry}
use mycorrhizal.Cache.Holds.{Holds, Holds-push}

module _ {A : Type 0} {c : Cache A} {bucket : Bytes} {b : LruBucket} {xs : List Ptr}
    (h : Holds c bucket b xs) (key : Bytes) where
  pub get_bucket-ok : get_bucket bucket c ≡ ok b
  unfolding get_bucket
  get_bucket-ok = rw (h.stored, get_bucket)

  pub get_local-some :
      {n : Ptr}
      → c.key_val (bucket ++ key) ≡ some n
      → get_local bucket key c ≡ (
        ok ((push n b c.heap).1.contents n),
        set_bucket bucket (push n b c.heap).0 (push n b c.heap).1 c,
      )
  unfolding get_local
  get_local-some e = rw (e, get_local, get_bucket-ok)

  -- A read of a key that the index knows returns the value of its node, and the node becomes the
  -- most recently used one of its bucket.
  pub get_local-hit :
      {n : Ptr}
      → c.key_val (bucket ++ key) ≡ some n
      → ((get_local bucket key c).0 ≡ ok (c.heap.contents n))
        × ((b' : LruBucket) × Holds (get_local bucket key c).1 bucket b' (n ∷ without n xs))
  get_local-hit {n} e = rw (get_local-some e) (
    ap (λ f. ok (f n)) (push-SameNodes n b c.heap).same_contents,
    ((push n b c.heap).0, Holds-push h c.heap (h.found key n e) refl refl refl refl),
  )

  -- the heap in which the node of a key has a new value
  abbrev pub heap_set : ℕ → Option A → Duration → Ptr → Heap A
  heap_set now value ttl n = record c.heap {
    contents = update c.heap.contents n value;
    expires_at = update c.heap.expires_at n (expiry now ttl);
  }

  pub set_local-some :
      (now : ℕ) (value : Option A) (ttl : Duration) {n : Ptr}
      → c.key_val (bucket ++ key) ≡ some n
      → set_local now bucket key value ttl c
        ≡ returns (
          ok tt,
          set_bucket bucket
              (push n b (heap_set now value ttl n)).0
              (push n b (heap_set now value ttl n)).1
              c,
        )
  unfolding set_local
  set_local-some now value ttl e = rw (get_bucket-ok, set_local, e) refl

  -- A write of a key that the index knows returns without an error. It changes the value and the
  -- expiry of the key's node and of no other, leaves the index as it was, and the node becomes the
  -- most recently used one of its bucket, which is well formed.
  pub set_local-hit :
      (now : ℕ) (value : Option A) (ttl : Duration) {n : Ptr}
      → c.key_val (bucket ++ key) ≡ some n
      → (c' : Cache A) × (set_local now bucket key value ttl c ≡ returns (ok tt, c'))
        × ((b' : LruBucket) × Holds c' bucket b' (n ∷ without n xs))
        × (c'.key_val ≡ c.key_val)
        × (c'.heap.contents ≡ update c.heap.contents n value)
        × (c'.heap.expires_at ≡ update c.heap.expires_at n (expiry now ttl))
  set_local-hit now value ttl {n} e =
      let g = heap_set now value ttl n in
      (
        set_bucket bucket (push n b g).0 (push n b g).1 c,
        set_local-some now value ttl e,
        ((push n b g).0, Holds-push h g (h.found key n e) refl refl refl refl),
        refl,
        (push-SameNodes n b g).same_contents,
        (push-SameNodes n b g).same_expires_at,
      )
