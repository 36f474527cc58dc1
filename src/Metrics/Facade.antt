-- ===== src/Metrics/Facade.antt =====
-- internal/mycel/cache.go and ds.go: the operations of the `Cache` interface with the measurements that
-- they record. `initCache` goes on after an error of `newMetrics`, with a nil `metrics`; `metrics` says
-- whether there are any. `elapsed` is the time that the operation takes.
use mycorrhizal.Base.{
  ℕ, ◌+◌, Bool, true, false, Option, List, [], ◌∷◌, ◌++◌, Result, ok, err, is_ok, ltb, length,
  if◌then◌else◌, ◌/◌,
}
use mycorrhizal.Base.Bytes.{Bytes, codes}
use mycorrhizal.Base.Int.{ℤ}
use mycorrhizal.Base.Time.{Duration}
use mycorrhizal.Cache.{Cache, Error, no_replicas, Outcome, returns, panics, ◌>>=◌}
use mycorrhizal.Cache.Local.{get_local, set_local, delete_local}
use mycorrhizal.Cache.Routing.{is_local, get_replica_nodes}
use mycorrhizal.Cache.Rendezvous.{ReplicaNode}
use mycorrhizal.Cache.Remote.{
  Codec, RemoteCachePayload, get_remote, set_remote_to_node, delete_remote_from_node,
}
use mycorrhizal.Cache.Replicated.{
  Answer, tally, verdict, fan_out, forgive, forgiving, set_ttl_replicated,
}
use mycorrhizal.Metrics.{
  Sample, locality_local, locality_remote, track_get, got, track_set, track_delete, track_set_ttl,
  done, record_replica_write, record_quorum_failure,
}
use mycorrhizal.Metrics.Local.{Measured}

-- a use of the instruments, each of which dereferences `metrics`
unfoldable pub use_metrics : Bool → List Sample → Outcome (List Sample)
use_metrics metrics [] = returns []
use_metrics true (s ∷ samples) = returns (s ∷ samples)
use_metrics false (s ∷ samples) = panics

abbrev pub locality : Bool → Bytes
locality here = if here then locality_local else locality_remote

-- the measurements of the loop over the results of a replicated write
unfoldable pub result_samples : Bytes → List Answer → List Sample
result_samples bucket [] = []
result_samples bucket (ok _ ∷ results) =
    record_replica_write bucket (codes "success") ∷ result_samples bucket results
result_samples bucket (err e ∷ results) =
    record_replica_write bucket (codes "failure") ∷ result_samples bucket results

-- and of the check of the quorum behind it, which an empty replica set does not reach
unfoldable pub quorum_samples : Bytes → List Answer → List Sample
quorum_samples bucket [] = []
quorum_samples bucket (r ∷ results) =
    if ltb (tally (r ∷ results) 0 no_replicas).0 (length (r ∷ results) / 2 + 1)
    then record_quorum_failure bucket ∷ []
    else []

-- What `setReplicated` and `deleteReplicated` share, with their own measurements. `setTtlReplicated`
-- records none.
unfoldable pub measured_replicate_write :
    {A : Type 0}
    → (metrics : Bool) → Bytes
    → (List Answer → List Answer)
    → (Cache A → Outcome (Answer × Cache A))
    → (Bytes → Answer)
    → List ReplicaNode
    → Cache A
    → Outcome (Measured Answer (Cache A))
measured_replicate_write metrics bucket arrive here there [] c = returns (err no_replicas, c, [])
measured_replicate_write metrics bucket arrive here there (r ∷ rs) c = do
  (results, c') ← fan_out here there (r ∷ rs) c
  s ← use_metrics metrics (result_samples bucket (arrive results))
  t ← use_metrics metrics (quorum_samples bucket (arrive results))
  returns (verdict (arrive results), c', s ++ t)

module _ {A : Type 0} (codec : Codec (RemoteCachePayload A))
    (request : Bytes → Bytes → Result Error Bytes) (sum64 : Bytes → ℕ) (nodes : List Bytes)
    (metrics : Bool) (elapsed : ℤ) where
  unfoldable pub measured_get :
      Bytes → Bytes → Cache A → Outcome (Measured (Result Error (Option A)) (Cache A))
  measured_get bucket key c =
      let (r, c') = get_local bucket key c in
      elim r [
        | ok val ↦ do
          s ← use_metrics metrics (track_get bucket locality_local)
          t ← use_metrics metrics (got bucket locality_local elapsed true)
          returns (ok val, c', s ++ t)
        | err e ↦ do
          s ← use_metrics metrics (track_get bucket locality_remote)
          let (r', c'') = get_remote codec request sum64 nodes bucket key c'
          t ← use_metrics metrics (got bucket locality_remote elapsed (is_ok r'))
          returns (r', c'', s ++ t)
      ]

  module _ (arrive : List Answer → List Answer) where
    -- the measurements of the local write itself stand apart
    unfoldable pub measured_set :
        ℕ → Bytes → Bytes → Option A → Duration → Cache A → Outcome (Measured Answer (Cache A))
    measured_set now bucket key value ttl c = do
      let (here, c') = is_local sum64 nodes bucket key c
      s ← use_metrics metrics (track_set bucket (locality here))
      (a, c'', u) ←
          measured_replicate_write metrics bucket arrive (set_local now bucket key value ttl)
            (set_remote_to_node codec request bucket key value ttl)
            (get_replica_nodes sum64 nodes bucket key c') c'
      t ← use_metrics metrics (done bucket (locality here) elapsed a)
      returns (a, c'', s ++ (u ++ t))

    unfoldable pub measured_delete : Bytes → Bytes → Cache A → Outcome (Measured Answer (Cache A))
    measured_delete bucket key c = do
      let (here, c') = is_local sum64 nodes bucket key c
      s ← use_metrics metrics (track_delete bucket (locality here))
      (a, c'', u) ←
          measured_replicate_write metrics bucket arrive (forgiving (delete_local bucket key))
            (λ id. forgive (delete_remote_from_node codec request bucket key id))
            (get_replica_nodes sum64 nodes bucket key c') c'
      t ← use_metrics metrics (done bucket (locality here) elapsed a)
      returns (a, c'', s ++ (u ++ t))

    unfoldable pub measured_set_ttl :
        ℕ → Bytes → Bytes → Duration → Cache A → Outcome (Measured Answer (Cache A))
    measured_set_ttl now bucket key ttl c = do
      let (here, c') = is_local sum64 nodes bucket key c
      s ← use_metrics metrics (track_set_ttl bucket (locality here))
      (a, c'') ← set_ttl_replicated codec request sum64 nodes arrive now bucket key ttl c'
      t ← use_metrics metrics (done bucket (locality here) elapsed a)
      returns (a, c'', s ++ t)
