-- ===== src/Cache/Local.antt =====
-- internal/mycel/local.go: the operations on this node's own entries. The clock's reading `now` is
-- an argument.
use mycorrhizal.Base.{
  ℕ, true, false, Option, none, some, ◌++◌, Result, ok, err, if◌then◌else◌, suc, not,
}
use mycorrhizal.Base.Bytes.{Bytes}
use mycorrhizal.Base.Int.{decrement, ltb_ℤ}
use mycorrhizal.Base.Maps.{insert, remove}
use mycorrhizal.Base.Time.{Duration, Instant, is_zero, add_duration}
use mycorrhizal.Lru.{LruBucket, Heap, update, is_nil, push, delete}
use mycorrhizal.Lru.Order.{nil}
use mycorrhizal.Cache.{
  Cache, Error, not_found, Outcome, returns, panics, out_of_fuel, get_bucket, set_bucket,
}

-- `expiry` of `setLocal`
unfoldable pub expiry : ℕ → Duration → Instant
expiry now ttl = if is_zero ttl then none else some (add_duration now ttl)

module _ {A : Type 0} where
  unfoldable pub get_local : Bytes → Bytes → Cache A → Result Error (Option A) × Cache A
  get_local bucket key c = elim (c.key_val (bucket ++ key)) [
    | none ↦ (err not_found, c)
    | some n ↦ elim (get_bucket bucket c) [
      | err e ↦ (err e, c)
      | ok b ↦ let (b', h') = push n b c.heap in (ok (h'.contents n), set_bucket bucket b' h' c)
    ]
  ]

  -- a new `node` at the first unused address
  unfoldable pub new_node : Bytes → Option A → Instant → Heap A → Heap A
  new_node key value expires h = record h {
    fresh = suc h.fresh;
    next = update h.next h.fresh nil;
    prev = update h.prev h.fresh nil;
    key = update h.key h.fresh key;
    contents = update h.contents h.fresh value;
    expires_at = update h.expires_at h.fresh expires;
  }

  -- the pointer part of the eviction in `setLocal`, at a tail that is not nil
  unfoldable pub evict_tail : LruBucket → Heap A → LruBucket × Heap A
  evict_tail b h =
      let evicted = b.tail in
      (
        record b { tail = h.prev evicted; len = decrement b.len },
        record h {
          next = update h.next evicted nil;
          prev = update h.prev evicted nil;
          contents = update h.contents evicted none;
        },
      )

  -- `if b.len > b.maxLen { … }`, for the bucket as `Push` left it
  unfoldable pub evict : Bytes → Bytes → LruBucket → Heap A → Cache A → Outcome (Cache A)
  evict bucket key b h c =
      if not (ltb_ℤ b.max_len b.len)
      then returns (set_bucket bucket b h c)
      else if is_nil b.tail
      then panics
      else let (b', h') = evict_tail b h in
        returns (record (set_bucket bucket b' h' c) {
          key_val = remove (bucket ++ h.key b.tail) c.key_val;
          node_score_hash_map = remove (bucket ++ key) c.node_score_hash_map;
        })

  unfoldable pub set_local :
      ℕ
      → Bytes
      → Bytes
      → Option A
      → Duration
      → Cache A
      → Outcome (Result Error (Unit {0}) × Cache A)
  set_local now bucket key value ttl c = elim (get_bucket bucket c) [
    | err e ↦ returns (err e, c)
    | ok b ↦ elim (c.key_val (bucket ++ key)) [
      | some n ↦
          let h = record c.heap {
            contents = update c.heap.contents n value;
            expires_at = update c.heap.expires_at n (expiry now ttl);
          } in
          let (b', h') = push n b h in returns (ok tt, set_bucket bucket b' h' c)
      | none ↦
          let n = c.heap.fresh in
          let h = new_node key value (expiry now ttl) c.heap in
          let c' = record c { key_val = insert (bucket ++ key) n c.key_val } in
          let (b', h') = push n b h in
          elim (evict bucket key b' h' c') [
            | returns c'' ↦ returns (ok tt, c'')
            | panics ↦ panics
            | out_of_fuel ↦ out_of_fuel
          ]
    ]
  ]

  unfoldable pub delete_local :
      Bytes → Bytes → Cache A → Outcome (Result Error (Unit {0}) × Cache A)
  delete_local bucket key c = elim (get_bucket bucket c) [
    | err e ↦ returns (err e, c)
    | ok b ↦ elim (delete key b c.heap) [
      | none ↦ out_of_fuel
      | some (false, b', h') ↦ returns (err not_found, set_bucket bucket b' h' c)
      | some (true, b', h') ↦ returns (
        ok tt,
        record (set_bucket bucket b' h' c) {
          key_val = remove (bucket ++ key) c.key_val;
          node_score_hash_map = remove (bucket ++ key) c.node_score_hash_map;
        },
      )
    ]
  ]

  unfoldable pub set_ttl_local :
      ℕ → Bytes → Bytes → Duration → Cache A → Result Error (Unit {0}) × Cache A
  set_ttl_local now bucket key ttl c = elim (c.key_val (bucket ++ key)) [
    | none ↦ (err not_found, c)
    | some n ↦ (
      ok tt,
      record c {
        heap = record c.heap {
          expires_at = update c.heap.expires_at n (some (add_duration now ttl));
        };
        key_val = insert (bucket ++ key) n c.key_val;
      },
    )
  ]
