-- ===== src/Cache/Deletes.antt =====
-- internal/mycel/local.go: `deleteLocal` on a well-formed bucket, for a key that the index knows and
-- for one that it does not know.
use mycorrhizal.Base.{
  ◌≡◌, refl, ◌≢◌, inl, inr, Bool-cases, true, false, none, some, List, [], ◌∷◌, ◌++◌, ok, err,
  arith, ◌==◌,
}
use mycorrhizal.Base.Bytes.{Bytes}
use mycorrhizal.Base.Maps.{lookup-put_self, remove}
use mycorrhizal.Lru.{LruBucket, Heap, unlink}
use mycorrhizal.Lru.Order.{Ptr, nil, has, without, has-without}
use mycorrhizal.Lru.Unlink.{unlink-IsBucket}
use mycorrhizal.Lru.Delete.{find_key, find_key_lem, deleted, delete-deleted}
use mycorrhizal.Cache.{Cache, set_bucket, not_found, returns}
use mycorrhizal.Cache.Local.{delete_local}
use mycorrhizal.Cache.Holds.{Holds}
use mycorrhizal.Cache.Reads.{get_bucket-ok}

find_key-ne :
    {A : Type 0} (h : Heap A) (n : Ptr) (xs : List Ptr)
    → has n xs ≡ true
    → has nil xs ≡ false
    → find_key h (h.key n) xs ≢ nil
unfolding find_key
find_key-ne h n [] m z e = ground arith
find_key-ne h n (x ∷ xs) m z e = ground (arith, find_key-ne h n xs)

unlink-key : {A : Type 0} (n : Ptr) (l : LruBucket) (h : Heap A) → (unlink n l h).1.key ≡ h.key
unfolding unlink
unlink-key n l h = ground arith

pub unlink-fresh :
    {A : Type 0} (n : Ptr) (l : LruBucket) (h : Heap A) → (unlink n l h).1.fresh ≡ h.fresh
unfolding unlink
unlink-fresh n l h = ground arith

module _ {A : Type 0} {c : Cache A} {bucket : Bytes} {b : LruBucket} {xs : List Ptr}
    (h : Holds c bucket b xs) (key : Bytes) where
  -- the node that `Delete` finds is the one that the index knows
  pub find_key-indexed : {n : Ptr} → c.key_val (bucket ++ key) ≡ some n → find_key c.heap key xs ≡ n
  find_key-indexed {n} e =
      let ne : find_key c.heap key xs ≢ nil =
        rw (← h.named key n e) (find_key-ne c.heap n xs (h.found key n e) h.chain.not_nil) in
      let (m, k) = find_key_lem c.heap key xs ne in
      ground (arith, h.indexed (find_key c.heap key xs) m, e, k)

  -- the cache after the delete of the node `n`
  abbrev pub cache_without : Ptr → Cache A
  cache_without n = record (set_bucket bucket (unlink n b c.heap).0 (unlink n b c.heap).1 c) {
    key_val = remove (bucket ++ key) c.key_val;
    node_score_hash_map = remove (bucket ++ key) c.node_score_hash_map;
  }

  pub delete_local-some :
      {n : Ptr}
      → c.key_val (bucket ++ key) ≡ some n
      → delete_local bucket key c ≡ returns (ok tt, cache_without n)
  unfolding delete_local deleted
  delete_local-some {n} e =
      let ne : (n == nil) ≡ false = ground (arith, h.found key n e, h.chain.not_nil) in
      rw (
        get_bucket-ok h key,
        delete_local,
        delete-deleted key h.chain h.started,
        find_key-indexed e,
        deleted,
        ne,
      )

  pub cache_without-Holds :
      {n : Ptr}
      → c.key_val (bucket ++ key) ≡ some n
      → Holds (cache_without n) bucket (unlink n b c.heap).0 (without n xs)
  cache_without-Holds {n} e = record {
    stored = lookup-put_self bucket (unlink n b c.heap).0 c.lru_buckets;
    chain = unlink-IsBucket n h.chain (h.found key n e);
    indexed = λ p m.
        rw (unlink-key n b c.heap)
          (ground (arith, h.indexed p, e, has-without n p xs h.chain.distinct));
    found = λ k p m.
        ground
          (arith, h.found k p, h.named k p, h.named key n e, has-without n p xs h.chain.distinct);
    named = λ k p m. rw (unlink-key n b c.heap) (ground (arith, h.named k p));
    started = rw (unlink-fresh n b c.heap) h.started;
  }

  -- On a well-formed bucket, `deleteLocal` of a key that the index knows returns without an error. The
  -- index no longer knows the key, and the bucket is well formed and has lost exactly the key's node.
  pub delete_local-hit :
      {n : Ptr}
      → c.key_val (bucket ++ key) ≡ some n
      → (c' : Cache A) × (delete_local bucket key c ≡ returns (ok tt, c'))
        × (c'.key_val (bucket ++ key) ≡ none)
        × ((b' : LruBucket) × Holds c' bucket b' (without n xs))
  delete_local-hit {n} e = (
    cache_without n,
    delete_local-some e,
    ground arith,
    ((unlink n b c.heap).0, cache_without-Holds e),
  )

  pub find_key-unknown : c.key_val (bucket ++ key) ≡ none → find_key c.heap key xs ≡ nil
  find_key-unknown e = elim (Bool-cases (find_key c.heap key xs == nil)) [
    | inl z ↦ ground arith
    | inr z ↦
        let (m, k) = find_key_lem c.heap key xs (ground arith) in
        absurd (ground (arith, h.indexed (find_key c.heap key xs) m, e, k))
  ]

  -- the cache is as it was, but for the bucket, which is stored again
  pub delete_local-none :
      c.key_val (bucket ++ key) ≡ none
      → delete_local bucket key c ≡ returns (err not_found, set_bucket bucket b c.heap c)
  unfolding delete_local deleted
  delete_local-none e =
      rw
        (
          get_bucket-ok h key,
          delete_local,
          delete-deleted key h.chain h.started,
          find_key-unknown e,
          deleted,
        )
        refl

  pub Holds-again : Holds (set_bucket bucket b c.heap c) bucket b xs
  Holds-again = record {
    stored = lookup-put_self bucket b c.lru_buckets;
    chain = h.chain;
    indexed = h.indexed;
    found = h.found;
    named = h.named;
    started = h.started;
  }

  -- On a well-formed bucket, `deleteLocal` of a key that the index does not know answers not found and
  -- leaves the bucket well formed with the nodes that it had.
  pub delete_local-miss :
      c.key_val (bucket ++ key) ≡ none
      → (c' : Cache A) × (delete_local bucket key c ≡ returns (err not_found, c'))
        × ((b' : LruBucket) × Holds c' bucket b' xs)
  delete_local-miss e = (set_bucket bucket b c.heap c, delete_local-none e, (b, Holds-again))
