-- ===== src/Cache/Placed.antt =====
-- internal/mycel/rebalancer.go: what the rebalancer does to one key.
use mycorrhizal.Base.{
  ℕ, suc, ◌+◌, ◌≡◌, refl, ◌∙◌, true, false, none, some, List, [], ◌∷◌, ◌++◌, Result, ok, err, ite,
  arith,
}
use mycorrhizal.Base.Bytes.{Bytes, Bytes-discrete}
use mycorrhizal.Base.Time.{Duration}
use mycorrhizal.Lru.{LruBucket}
use mycorrhizal.Lru.Order.{Ptr, without}
use mycorrhizal.Cache.{Cache, Error, returns}
use mycorrhizal.Cache.Holds.{Holds}
use mycorrhizal.Cache.Deletes.{delete_local-hit}
use mycorrhizal.Cache.Rendezvous.{ReplicaNode, contains}
use mycorrhizal.Cache.Remote.{Codec, RemoteCachePayload, set_remote_to_node}
use mycorrhizal.Cache.Rebalancer.{
  KeySnapshot, Counters, remaining_ttl, count_copy, propagate, place_key,
}

-- how many of the replicas are other nodes
abbrev pub others : Bytes → List ReplicaNode → ℕ
others self [] = 0
others self (r ∷ rs) = ite (Bytes-discrete r.id self) (others self rs) (suc (others self rs))

count_copy-attempts :
    (r : Result Error (Unit {0})) (k : Counters)
    → (count_copy r k).replication_attempts ≡ k.replication_attempts + 1
unfolding count_copy
count_copy-attempts (ok _) k = refl
count_copy-attempts (err e) k = refl

module _ {A : Type 0} (codec : Codec (RemoteCachePayload A))
    (request : Bytes → Bytes → Result Error Bytes) (sum64 : Bytes → ℕ) (nodes : List Bytes) where
  propagate-attempts :
      (self bucket : Bytes) (ks : KeySnapshot A) (ttl : Duration) (rs : List ReplicaNode)
      (k : Counters)
      → (propagate codec request sum64 nodes self bucket ks ttl rs k).replication_attempts
        ≡ k.replication_attempts + others self rs
  unfolding propagate
  propagate-attempts self bucket ks ttl [] k = omega arith
  propagate-attempts self bucket ks ttl (r ∷ rs) k =
      let sent = set_remote_to_node codec request bucket ks.key ks.contents ttl r.id in
      propagate-attempts self bucket ks ttl rs
        (ite (Bytes-discrete r.id self) k (count_copy sent k))
      ∙ (elim (Bytes-discrete r.id self)
          as (λ d.
            (ite d k (count_copy sent k)).replication_attempts + others self rs
            ≡ k.replication_attempts + ite d (others self rs) (suc (others self rs))) [
              | yes e ↦ refl
              | no e ↦ rw (count_copy-attempts sent k) (omega arith)
            ])

  -- A key whose replicas do not include this node is deleted here, and nothing is sent: the index no
  -- longer knows it, its bucket is well formed and has lost exactly its node, and no attempt to
  -- replicate it is counted.
  pub place_key-drops :
      {c : Cache A} {bucket : Bytes} {b : LruBucket} {xs : List Ptr} (h : Holds c bucket b xs)
      (now : ℕ) (ks : KeySnapshot A) (r : ReplicaNode) (rs : List ReplicaNode) (k : Counters)
      {n : Ptr}
      → c.key_val (bucket ++ ks.key) ≡ some n
      → contains c.node_id (r ∷ rs) ≡ false
      → (c' : Cache A) × (place_key codec request sum64 nodes now bucket ks (r ∷ rs) k c
          ≡ returns (
            record k { keys_processed = k.keys_processed + 1; keys_deleted = k.keys_deleted + 1 },
            c',
          ))
        × (c'.key_val (bucket ++ ks.key) ≡ none)
        × ((b' : LruBucket) × Holds c' bucket b' (without n xs))
  unfolding place_key
  place_key-drops h now ks r rs k e f =
      let (c', d, gone, held) = delete_local-hit h ks.key e in
      (c', rw (f, place_key, d) refl, gone, held)

  -- A key that has not expired and whose replicas include this node stays as it is, and a copy is sent
  -- to every other replica, whether or not the earlier ones arrived.
  pub place_key-copies :
      (now : ℕ) (bucket : Bytes) (ks : KeySnapshot A) (r : ReplicaNode) (rs : List ReplicaNode)
      (k : Counters) (c : Cache A) (ttl : Duration)
      → contains c.node_id (r ∷ rs) ≡ true
      → remaining_ttl now ks.expires_at ≡ some ttl
      → (k' : Counters) × (place_key codec request sum64 nodes now bucket ks (r ∷ rs) k c
          ≡ returns (k', c))
        × (k'.replication_attempts ≡ k.replication_attempts + others c.node_id (r ∷ rs))
  unfolding place_key
  place_key-copies now bucket ks r rs k c ttl f t =
      let k₁ = record k { keys_processed = k.keys_processed + 1 } in
      (
        propagate codec request sum64 nodes c.node_id bucket ks ttl (r ∷ rs) k₁,
        rw (f, place_key, t) refl,
        propagate-attempts c.node_id bucket ks ttl (r ∷ rs) k₁,
      )
