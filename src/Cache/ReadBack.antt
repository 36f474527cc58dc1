-- ===== src/Cache/ReadBack.antt =====
-- internal/mycel/cache.go: `Set` and the `Get` that follows it on the same node, where the node is
-- one of the replicas of the key.
use mycorrhizal.Base.{
  ℕ, suc, ◌≡◌, ◌≤◌, refl, ◌∙◌, sym, inl, inr, Option-cases, true, Option, some, List, ◌++◌, Result,
  ok, arith, length,
}
use mycorrhizal.Base.Bytes.{Bytes}
use mycorrhizal.Base.Int.{pos}
use mycorrhizal.Base.Maps.{lookup, lookup-put_self}
use mycorrhizal.Base.Time.{Duration}
use mycorrhizal.Lru.{LruBucket, push, update}
use mycorrhizal.Lru.Order.{Ptr}
use mycorrhizal.Lru.Push.{push-SameNodes}
use mycorrhizal.Cache.{Cache, Error, returns, get_bucket, set_bucket}
use mycorrhizal.Cache.Local.{get_local, set_local, expiry}
use mycorrhizal.Cache.Holds.{Holds}
use mycorrhizal.Cache.Reads.{set_local-hit}
use mycorrhizal.Cache.Writes.{set_local-IsWritten}
use mycorrhizal.Cache.Rendezvous.{contains}
use mycorrhizal.Cache.Routing.{is_local, get_replica_nodes}
use mycorrhizal.Cache.Coherent.{IsCoherent, is_local-IsCoherent}
use mycorrhizal.Cache.Collected.{replicate_write-starts, is_local-same, Holds-locality}
use mycorrhizal.Cache.Remote.{Codec, RemoteCachePayload}
use mycorrhizal.Cache.Replicated.{Answer, set_replicated}
use mycorrhizal.Cache.Facade.{get, set}

module _ {A : Type 0} (bucket key : Bytes) (value : Option A) where
  -- the index leads to a node with the value, and the bucket is there
  record IsReadable (c : Cache A) : Type 0 where
    node : Ptr
    bucket_of : LruBucket
    indexed : c.key_val (bucket ++ key) ≡ some node
    kept : c.heap.contents node ≡ value
    stored : lookup bucket c.lru_buckets ≡ some bucket_of

  IsReadable-get_local : (c : Cache A) → IsReadable c → (get_local bucket key c).0 ≡ ok value
  unfolding get_local get_bucket
  IsReadable-get_local c w =
      rw (w.indexed, get_local, w.stored, (push-SameNodes w.node w.bucket_of c.heap).same_contents)
        (rw w.kept refl)

  set_local-keeps :
      (now : ℕ) (ttl : Duration) (c : Cache A)
      → IsReadable c
      → (a : Answer) × (c' : Cache A) × (set_local now bucket key value ttl c ≡ returns (a, c'))
        × IsReadable c'
  unfolding set_local get_bucket
  set_local-keeps now ttl c w =
      let g = record c.heap {
        contents = update c.heap.contents w.node value;
        expires_at = update c.heap.expires_at w.node (expiry now ttl);
      } in
      (
        ok tt,
        set_bucket bucket (push w.node w.bucket_of g).0 (push w.node w.bucket_of g).1 c,
        rw (w.stored, set_local, w.indexed) refl,
        record {
          node = w.node;
          bucket_of = (push w.node w.bucket_of g).0;
          indexed = w.indexed;
          kept = rw (push-SameNodes w.node w.bucket_of g).same_contents (ground arith);
          stored = lookup-put_self bucket (push w.node w.bucket_of g).0 c.lru_buckets;
        },
      )

module _ {A : Type 0} {c : Cache A} {bucket : Bytes} {b : LruBucket} {xs : List Ptr}
    (h : Holds c bucket b xs) {m : ℕ} (limit : b.max_len ≡ pos (suc m)) (fits : length xs ≤ suc m)
    (now : ℕ) (key : Bytes) (value : Option A) (ttl : Duration) where
  -- one local write, of a key that the index knows or not
  set_local-IsReadable :
      (a : Answer) × (c' : Cache A) × (set_local now bucket key value ttl c ≡ returns (a, c'))
      × IsReadable bucket key value c'
  set_local-IsReadable = elim (Option-cases (c.key_val (bucket ++ key))) [
    | inl new ↦
        let (c', e, w) = set_local-IsWritten h now key value ttl new limit fits in
        let (b', k, s, counted, capped) = w.bounded in
        (
          ok tt,
          c',
          e,
          record {
            node = c.heap.fresh;
            bucket_of = b';
            indexed = w.readable;
            kept = w.value_kept;
            stored = s;
          },
        )
    | inr (n, o) ↦
        let (c', e, (b', h'), same, contents, rest) = set_local-hit h key now value ttl o in
        (
          ok tt,
          c',
          e,
          record {
            node = n;
            bucket_of = b';
            indexed = rw same o;
            kept = rw contents (ground arith);
            stored = h'.stored;
          },
        )
  ]

  module _ (codec : Codec (RemoteCachePayload A)) (request : Bytes → Bytes → Result Error Bytes)
      (sum64 : Bytes → ℕ) (nodes : List Bytes) (arrive : List Answer → List Answer) where
    set_replicated-IsReadable :
        contains c.node_id (get_replica_nodes sum64 nodes bucket key c) ≡ true
        → (a : Answer) × (c' : Cache A) × (set_replicated codec request sum64 nodes arrive now
              bucket key value ttl c
            ≡ returns (a, c'))
          × IsReadable bucket key value c'
    unfolding set_replicated
    set_replicated-IsReadable l =
        let (a, c', e, w) = set_local-IsReadable in
        replicate_write-starts _ _ _ (set_local-keeps bucket key value now ttl) arrive c c' e w _ l

module _ {A : Type 0} {c : Cache A} {bucket : Bytes} {b : LruBucket} {xs : List Ptr}
    (h : Holds c bucket b xs) {m : ℕ} (limit : b.max_len ≡ pos (suc m)) (fits : length xs ≤ suc m)
    (codec : Codec (RemoteCachePayload A)) (request : Bytes → Bytes → Result Error Bytes)
    (sum64 : Bytes → ℕ) (nodes : List Bytes) (arrive : List Answer → List Answer) where
  -- On a well-formed bucket with no more entries than its positive capacity, and with routing caches
  -- that agree with the cluster, `Set` of a key of which isLocal says that this node has a replica
  -- returns. Whether it reports success or a missed majority, and in whatever order the replicas
  -- answer, `Get` of the key at this node then returns the value, whatever the network does and
  -- whichever nodes are connected by then.
  pub get-set :
      (now : ℕ) (key : Bytes) (value : Option A) (ttl : Duration)
      → IsCoherent sum64 nodes c
      → (is_local sum64 nodes bucket key c).0 ≡ true
      → (a : Answer) × (c' : Cache A) × (set codec request sum64 nodes arrive now bucket key value
            ttl c
          ≡ returns (a, c'))
        × ((request' : Bytes → Bytes → Result Error Bytes) (nodes' : List Bytes)
            → (get codec request' sum64 nodes' bucket key c').0 ≡ ok value)
  unfolding set get get_replica_nodes
  get-set now key value ttl coherent l =
      let (k, e) = is_local-same sum64 nodes bucket key c in
      let (a, c', f, w) =
        set_replicated-IsReadable (Holds-locality h k) limit fits now key value ttl codec request
          sum64 nodes arrive (sym (is_local-IsCoherent sum64 nodes bucket key c coherent).0 ∙ l) in
      (
        a,
        c',
        rw (e, set) f,
        λ request' nodes'. rw (IsReadable-get_local bucket key value c' w, get) refl,
      )
