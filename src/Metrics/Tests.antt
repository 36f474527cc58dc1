-- ===== src/Metrics/Tests.antt =====
-- Concrete measurements: a bucket for two entries, a meter that refuses one instrument, and a delete
-- at two replicas.
use mathlib.Core.List.Perm
use mycorrhizal.Base.{
  dec_lt, ℕ, ◌≡◌, refl, Bool, true, some, List, [], ◌∷◌, Result, ok, err, is_ok, inl, length,
  if◌then◌else◌,
}
use mycorrhizal.Base.Bytes.{Bytes, Bytes-discrete, codes}
use mycorrhizal.Base.Int.{pos}
use mycorrhizal.Base.Time.{zero_duration}
use mycorrhizal.Cache.{
  Cache, returns, panics, out_of_fuel, codec_failed, get_bucket, routing_key, is_not_found,
}
use mycorrhizal.Cache.Facade.{get}
use mycorrhizal.Cache.Abstract.{Call, set}
use mycorrhizal.Cache.Tests.{
  empty_cache, bucket, key_a, key_c, cache_ab, bucket_ab, cache_ab-Holds, mute, unreachable,
}
use mycorrhizal.Metrics.{Kind, Spec, counter, Sample, all_instruments, new_metrics, gets}
use mycorrhizal.Metrics.Local.{measured_perform}
use mycorrhizal.Metrics.Size.{Gauged, measured_perform-len}
use mycorrhizal.Metrics.Facade.{measured_get, measured_set, measured_delete, measured_set_ttl}
use mycorrhizal.Metrics.Created.{new_metrics-panics}
use mycorrhizal.Metrics.Counts.{count, is_get, is_hit, is_miss, IsCounted, measured_get-get}
use mycorrhizal.Metrics.Written.{
  delete_write, here, there, measured_write, write, measured_write-counts,
}
use mycorrhizal.Cache.Routing.{is_local, get_replica_nodes}
use mycorrhizal.Cache.Rendezvous.{
  ReplicaNode, top_replicas, get_replicas, sort_scored, insert_scored, score_regular, contains,
}
use mycorrhizal.Cache.Local.{delete_local}
use mycorrhizal.Cache.Remote.{delete_remote_from_node, send}
use mycorrhizal.Lru.{delete, delete_loop}
use mycorrhizal.Base.Maps.{put}
use mycorrhizal.Base.Decimal.{itoa}
use mycorrhizal.Cache.Replicated.{fan_out, answer_of, forgive, forgiving}

-- a write that evicts
abbrev evicting : Call ℕ
evicting = set 3 key_c (some 9) zero_duration

measured_perform-len_example : Gauged bucket bucket_ab (measured_perform bucket evicting cache_ab)
measured_perform-len_example = measured_perform-len cache_ab-Holds evicting

abbrev refuses : Kind → Bytes → Result Bytes ℕ
refuses kind name = err name

abbrev first_spec : Spec
first_spec = record { field = gets; kind = counter; name = codes "mycorrhizal.cache.gets" }

new_metrics-panics_example :
    let metrics : Bool = is_ok (new_metrics refuses) in
    (measured_get mute unreachable length [] metrics (pos 1) bucket key_a cache_ab ≡ panics)
    × (measured_set mute unreachable length [] metrics
          (pos 1)
          (λ rs. rs)
          5
          bucket
          key_a
          (some 1)
          zero_duration
          cache_ab
        ≡ panics)
    × (measured_delete mute unreachable length [] metrics (pos 1) (λ rs. rs) bucket key_a cache_ab
        ≡ panics)
    × (measured_set_ttl mute unreachable length [] metrics
          (pos 1)
          (λ rs. rs)
          5
          bucket
          key_a
          zero_duration
          cache_ab
        ≡ panics)
unfolding all_instruments
new_metrics-panics_example =
    new_metrics-panics refuses first_spec mute unreachable length [] (λ rs. rs) (pos 1) 5 bucket
      key_a (some 1) zero_duration cache_ab (inl refl) refl

measured_get-get_example :
    let r = get mute unreachable length [] bucket key_a cache_ab in
    (samples : List Sample) × (measured_get mute unreachable length [] true
        (pos 1)
        bucket
        key_a
        cache_ab
      ≡ returns (r.0, r.1, samples))
    × ((count is_get samples ≡ 1)
        × (count is_hit samples ≡ (if is_ok r.0 then 1 else 0))
        × (count is_miss samples ≡ (if is_ok r.0 then 0 else 1)))
measured_get-get_example = measured_get-get mute unreachable length [] (pos 1) bucket key_a cache_ab

-- another node, which does not answer
abbrev others : List Bytes
others = codes "x" ∷ []

-- the cache behind the question whether the key is local
abbrev cache_asked : Cache ℕ
cache_asked = (is_local length others bucket key_a empty_cache).1

abbrev replica_set : List ReplicaNode
replica_set = get_replica_nodes length others bucket key_a cache_asked

-- the cache that the deletes leave
abbrev cache_deleted : Cache ℕ
cache_deleted =
    elim (fan_out (here mute unreachable length others (pos 1) (λ rs. rs) bucket key_a delete_write)
      (there mute unreachable length others (pos 1) (λ rs. rs) bucket key_a delete_write)
      replica_set cache_asked) [
        | returns x ↦ x.1
        | panics ↦ cache_asked
        | out_of_fuel ↦ cache_asked
      ]

-- of two replicas, the other is not reached, and this node deletes nothing, which counts as a success
delete-fan_out :
    fan_out
      (here mute unreachable length others (pos 1) (λ rs. rs) bucket key_a delete_write)
      (there mute unreachable length others (pos 1) (λ rs. rs) bucket key_a delete_write)
      replica_set
      cache_asked
    ≡ returns (err codec_failed ∷ ok tt ∷ [], cache_deleted)
unfolding fan_out get_replica_nodes top_replicas get_replicas sort_scored insert_scored
    score_regular contains routing_key itoa is_local answer_of Bytes-discrete forgiving delete_local
    get_bucket delete delete_loop forgive put delete_remote_from_node is_not_found send dec_lt
delete-fan_out = refl

measured_write-counts_example :
    IsCounted
      (measured_write mute unreachable length others
        (pos 1)
        (λ rs. rs)
        bucket
        key_a
        delete_write
        empty_cache)
      (write mute unreachable length others
        (pos 1)
        (λ rs. rs)
        bucket
        key_a
        delete_write
        empty_cache)
      replica_set
      (err codec_failed ∷ ok tt ∷ [])
      cache_deleted
measured_write-counts_example =
    measured_write-counts mute unreachable length others (pos 1) (λ rs. rs) bucket key_a
      delete_write empty_cache (λ rs. Perm.refl rs) delete-fan_out
