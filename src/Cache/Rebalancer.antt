-- ===== src/Cache/Rebalancer.antt =====
-- internal/mycel/rebalancer.go: `rebalancerWorkerTask`. The jitter, the clock's elapsed time and the
-- end of the context, which only cuts a cycle short, are left out.
use mycorrhizal.Base.{
  ℕ, ◌+◌, not, Option, none, some, List, [], ◌∷◌, Result, ok, err, ite, if◌then◌else◌,
}
use mycorrhizal.Base.Bytes.{Bytes, Bytes-discrete}
use mycorrhizal.Base.Maps.{lookup}
use mycorrhizal.Base.Time.{Duration, Instant, zero_duration, until, is_positive}
use mycorrhizal.Lru.{Heap, LruBucket}
use mycorrhizal.Lru.Order.{Ptr}
use mycorrhizal.Cache.{Cache, Error, Outcome, returns, out_of_fuel, ◌>>=◌, routing_key}
use mycorrhizal.Cache.Local.{delete_local}
use mycorrhizal.Cache.Rendezvous.{ReplicaNode, contains, top_replicas}
use mycorrhizal.Cache.Walk.{nodes_of}
use mycorrhizal.Cache.Remote.{Codec, RemoteCachePayload, set_remote_to_node}

pub record KeySnapshot (A : Type 0) : Type 0 where
  pub key : Bytes
  pub contents : Option A
  pub expires_at : Instant

pub record Counters : Type 0 where
  pub keys_processed : ℕ
  pub keys_deleted : ℕ
  pub replication_attempts : ℕ
  pub replication_errors : ℕ

abbrev pub no_counts : Counters
no_counts = record {
  keys_processed = 0;
  keys_deleted = 0;
  replication_attempts = 0;
  replication_errors = 0;
}

-- a copy that was sent, or not
unfoldable pub count_copy : Result Error (Unit {0}) → Counters → Counters
count_copy (ok _) k = record k { replication_attempts = k.replication_attempts + 1 }
count_copy (err e) k = record k {
  replication_attempts = k.replication_attempts + 1;
  replication_errors = k.replication_errors + 1;
}

-- the TTL that a copy is sent with: 0 for an entry that never expires, `none` for an expired one
unfoldable pub remaining_ttl : ℕ → Instant → Option Duration
remaining_ttl now none = some zero_duration
remaining_ttl now (some t) = if is_positive (until now t) then some (until now t) else none

-- the snapshot of the buckets' names
unfoldable pub bucket_names : List (Bytes × LruBucket) → List Bytes
bucket_names [] = []
bucket_names ((name, b) ∷ bs) = name ∷ bucket_names bs

module _ {A : Type 0} where
  -- the snapshot of a bucket's entries
  unfoldable pub snapshot : Heap A → List Ptr → List (KeySnapshot A)
  snapshot h [] = []
  snapshot h (n ∷ ns) =
      record { key = h.key n; contents = h.contents n; expires_at = h.expires_at n } ∷ snapshot h ns

  module _ (codec : Codec (RemoteCachePayload A)) (request : Bytes → Bytes → Result Error Bytes)
      (sum64 : Bytes → ℕ) (nodes : List Bytes) where
    -- the inner loop: a copy to every other replica
    unfoldable pub propagate :
        Bytes → Bytes → KeySnapshot A → Duration → List ReplicaNode → Counters → Counters
    propagate self bucket ks ttl [] k = k
    propagate self bucket ks ttl (r ∷ rs) k = propagate self bucket ks ttl rs (
        ite (Bytes-discrete r.id self) k
          (count_copy (set_remote_to_node codec request bucket ks.key ks.contents ttl r.id) k))

    -- what happens to one key, given its replicas
    unfoldable pub place_key :
        ℕ
        → Bytes
        → KeySnapshot A
        → List ReplicaNode
        → Counters
        → Cache A
        → Outcome (Counters × Cache A)
    place_key now bucket ks [] k c = returns (k, c)
    place_key now bucket ks (r ∷ rs) k c =
        let k' = record k { keys_processed = k.keys_processed + 1 } in
        if not (contains c.node_id (r ∷ rs))
        then (do
          (a, c') ← delete_local bucket ks.key c
          returns (record k' { keys_deleted = k'.keys_deleted + 1 }, c'))
        else elim (remaining_ttl now ks.expires_at) [
          | none ↦ returns (k', c)
          | some ttl ↦ returns (propagate c.node_id bucket ks ttl (r ∷ rs) k', c)
        ]

    unfoldable pub rebalance_key :
        ℕ → Bytes → KeySnapshot A → Counters → Cache A → Outcome (Counters × Cache A)
    rebalance_key now bucket ks k c =
        place_key now bucket ks
          (top_replicas sum64 c.replicas nodes c.node_id (routing_key bucket ks.key)) k c

    unfoldable pub rebalance_keys :
        ℕ → Bytes → List (KeySnapshot A) → Counters → Cache A → Outcome (Counters × Cache A)
    rebalance_keys now bucket [] k c = returns (k, c)
    rebalance_keys now bucket (ks ∷ rest) k c = do
      (k', c') ← rebalance_key now bucket ks k c
      rebalance_keys now bucket rest k' c'

    unfoldable pub rebalance_buckets :
        ℕ → List Bytes → Counters → Cache A → Outcome (Counters × Cache A)
    rebalance_buckets now [] k c = returns (k, c)
    rebalance_buckets now (name ∷ names) k c = do
      (k', c') ← elim (lookup name c.lru_buckets) [
        | none ↦ returns (k, c)
        | some b ↦ elim (nodes_of b c.heap) [
          | none ↦ out_of_fuel
          | some ns ↦ rebalance_keys now name (snapshot c.heap ns) k c
        ]
      ]
      rebalance_buckets now names k' c'

    unfoldable pub rebalancer_worker_task : ℕ → Cache A → Outcome (Counters × Cache A)
    rebalancer_worker_task now c = rebalance_buckets now (bucket_names c.lru_buckets) no_counts c
