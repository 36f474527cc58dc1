-- ===== src/Metrics.antt =====
-- internal/mycel/otel.go: the instruments of the cache, and the measurements that its operations
-- record. The meter is a library: `create` stands for its constructors. The names of the attributes
-- are those of the source; descriptions and units are left out.
pub mod Created
pub mod Local
pub mod Size
pub mod Facade
pub mod Counts
pub mod Written
mod Tests
use mycorrhizal.Base.{
  ℕ, ◌≡◌, refl, Bool, true, false, Option, none, some, List, [], ◌∷◌, ◌++◌, Result, ok, err, ◌>>=◌,
  if◌then◌else◌,
}
use mycorrhizal.Base.Bytes.{Bytes, codes}
use mycorrhizal.Base.Int.{ℤ, pos, negsuc}

-- the fields of `metrics`
pub data Instrument : Type 0 where
  gets : Instrument
  sets : Instrument
  deletes : Instrument
  ttl_updates : Instrument
  hits : Instrument
  misses : Instrument
  lru_evictions : Instrument
  ttl_evictions : Instrument
  bucket_size : Instrument
  duration : Instrument
  errors : Instrument
  replica_writes : Instrument
  quorum_failures : Instrument
  rebalancer_cycles : Instrument
  rebalancer_keys_processed : Instrument
  rebalancer_keys_evicted : Instrument
  rebalancer_replication_attempts : Instrument
  rebalancer_replication_errors : Instrument
  rebalancer_duration : Instrument
  topology_changes : Instrument
  geo_sets : Instrument
  geo_deletes : Instrument
  geo_queries : Instrument
  geo_query_results : Instrument
  geo_query_duration : Instrument
  geo_replication_sent : Instrument
  geo_replication_received : Instrument
  geo_replication_dropped : Instrument
  geo_bucket_size : Instrument

pub data Kind : Type 0 where
  counter up_down_counter histogram : Kind

-- how a field is created
pub record Spec : Type 0 where
  pub field : Instrument
  pub kind : Kind
  pub name : Bytes

abbrev spec : Instrument → Kind → Bytes → Spec
spec field kind name = record { field = field; kind = kind; name = name }

unfoldable pub cache_instruments : List Spec
cache_instruments =
    spec gets counter (codes "mycorrhizal.cache.gets")
    ∷ spec sets counter (codes "mycorrhizal.cache.sets")
    ∷ spec deletes counter (codes "mycorrhizal.cache.deletes")
    ∷ spec ttl_updates counter (codes "mycorrhizal.cache.ttl_updates")
    ∷ spec hits counter (codes "mycorrhizal.cache.hits")
    ∷ spec misses counter (codes "mycorrhizal.cache.misses")
    ∷ spec lru_evictions counter (codes "mycorrhizal.cache.lru_evictions")
    ∷ spec ttl_evictions counter (codes "mycorrhizal.cache.ttl_evictions")
    ∷ spec bucket_size up_down_counter (codes "mycorrhizal.cache.bucket.size")
    ∷ spec duration histogram (codes "mycorrhizal.cache.duration")
    ∷ spec errors counter (codes "mycorrhizal.cache.errors")
    ∷ []

unfoldable pub write_instruments : List Spec
write_instruments =
    spec replica_writes counter (codes "mycorrhizal.cache.replica.writes")
    ∷ spec quorum_failures counter (codes "mycorrhizal.cache.quorum.failures")
    ∷ []

unfoldable pub rebalancer_instruments : List Spec
rebalancer_instruments =
    spec rebalancer_cycles counter (codes "mycorrhizal.rebalancer.cycles")
    ∷ spec rebalancer_keys_processed counter (codes "mycorrhizal.rebalancer.keys.processed")
    ∷ spec rebalancer_keys_evicted counter (codes "mycorrhizal.rebalancer.keys.evicted")
    ∷ spec rebalancer_replication_attempts counter
        (codes "mycorrhizal.rebalancer.replication.attempts")
    ∷ spec rebalancer_replication_errors counter (codes "mycorrhizal.rebalancer.replication.errors")
    ∷ spec rebalancer_duration histogram (codes "mycorrhizal.rebalancer.duration")
    ∷ []

unfoldable pub cluster_instruments : List Spec
cluster_instruments =
    spec topology_changes counter (codes "mycorrhizal.cluster.topology.changes") ∷ []

unfoldable pub geo_instruments : List Spec
geo_instruments =
    spec geo_sets counter (codes "mycorrhizal.geo.sets")
    ∷ spec geo_deletes counter (codes "mycorrhizal.geo.deletes")
    ∷ spec geo_queries counter (codes "mycorrhizal.geo.queries")
    ∷ spec geo_query_results histogram (codes "mycorrhizal.geo.query.results")
    ∷ spec geo_query_duration histogram (codes "mycorrhizal.geo.query.duration")
    ∷ spec geo_replication_sent counter (codes "mycorrhizal.geo.replication.sent")
    ∷ spec geo_replication_received counter (codes "mycorrhizal.geo.replication.received")
    ∷ spec geo_replication_dropped counter (codes "mycorrhizal.geo.replication.dropped")
    ∷ spec geo_bucket_size up_down_counter (codes "mycorrhizal.geo.bucket.size")
    ∷ []

-- the instruments in the order of their creation
unfoldable pub all_instruments : List Spec
unfolding cache_instruments write_instruments rebalancer_instruments cluster_instruments
    geo_instruments
all_instruments =
    cache_instruments
    ++ (write_instruments ++ (rebalancer_instruments ++ (cluster_instruments ++ geo_instruments)))

module _ {E H : Type 0} (create : Kind → Bytes → Result E H) where
  -- one after the other, up to the first error
  unfoldable pub create_all : List Spec → Result E (List (Instrument × H))
  create_all [] = ok []
  create_all (s ∷ specs) = do
    h ← create s.kind s.name
    rest ← create_all specs
    ok ((s.field, h) ∷ rest)

  -- `newMetrics`
  unfoldable pub new_metrics : Result E (List (Instrument × H))
  new_metrics = create_all all_instruments

-- one measurement: what is added to a counter, or recorded by a histogram
pub record Sample : Type 0 where
  pub instrument : Instrument
  pub amount : ℤ
  pub attributes : List (Bytes × Bytes)

abbrev pub one : ℤ
one = pos 1

abbrev pub sample : Instrument → ℤ → List (Bytes × Bytes) → Sample
sample instrument amount attributes = record {
  instrument = instrument;
  amount = amount;
  attributes = attributes;
}

abbrev pub locality_local : Bytes
locality_local = codes "local"

abbrev pub locality_remote : Bytes
locality_remote = codes "remote"

abbrev pub of_bucket : Bytes → List (Bytes × Bytes)
of_bucket bucket = (codes "cache.bucket", bucket) ∷ []

abbrev pub located : Bytes → Bytes → List (Bytes × Bytes)
located bucket locality = (codes "cache.bucket", bucket) ∷ (codes "cache.locality", locality) ∷ []

-- `trackGet` and the function that it returns, where `elapsed` is the time between them
unfoldable pub track_get : Bytes → Bytes → List Sample
track_get bucket locality = sample gets one (located bucket locality) ∷ []

unfoldable pub got : Bytes → Bytes → ℤ → Bool → List Sample
got bucket locality elapsed hit =
    sample duration elapsed (located bucket locality)
    ∷ (if hit
        then sample hits one (located bucket locality)
        else sample misses one (located bucket locality))
    ∷ []

-- the functions that `trackSet`, `trackDelete` and `trackSetTtl` return
unfoldable pub done : {E : Type 0} → Bytes → Bytes → ℤ → Result E (Unit {0}) → List Sample
done bucket locality elapsed (ok _) = sample duration elapsed (located bucket locality) ∷ []
done bucket locality elapsed (err e) =
    sample duration elapsed (located bucket locality)
    ∷ sample errors one (located bucket locality)
    ∷ []

unfoldable pub track_set : Bytes → Bytes → List Sample
track_set bucket locality = sample sets one (located bucket locality) ∷ []

unfoldable pub track_delete : Bytes → Bytes → List Sample
track_delete bucket locality = sample deletes one (located bucket locality) ∷ []

unfoldable pub track_set_ttl : Bytes → Bytes → List Sample
track_set_ttl bucket locality = sample ttl_updates one (located bucket locality) ∷ []

unfoldable pub record_lru_eviction : Bytes → Sample
record_lru_eviction bucket = sample lru_evictions one (of_bucket bucket)

unfoldable pub record_ttl_eviction : Bytes → Sample
record_ttl_eviction bucket = sample ttl_evictions one (of_bucket bucket)

unfoldable pub record_bucket_size : Bytes → ℤ → Sample
record_bucket_size bucket delta = sample bucket_size delta (of_bucket bucket)

unfoldable pub record_replica_write : Bytes → Bytes → Sample
record_replica_write bucket result =
    sample replica_writes one ((codes "cache.bucket", bucket) ∷ (codes "result", result) ∷ [])

unfoldable pub record_quorum_failure : Bytes → Sample
record_quorum_failure bucket = sample quorum_failures one (of_bucket bucket)

unfoldable pub record_rebalancer_cycle :
    (duration_ms keys_processed keys_evicted repl_attempts repl_errors : ℤ) → List Sample
record_rebalancer_cycle duration_ms keys_processed keys_evicted repl_attempts repl_errors =
    sample rebalancer_cycles one []
    ∷ sample rebalancer_duration duration_ms []
    ∷ sample rebalancer_keys_processed keys_processed []
    ∷ sample rebalancer_keys_evicted keys_evicted []
    ∷ sample rebalancer_replication_attempts repl_attempts []
    ∷ sample rebalancer_replication_errors repl_errors []
    ∷ []

unfoldable pub record_topology_change : Bool → Sample
record_topology_change joined =
    sample topology_changes one
      ((codes "event", if joined then codes "join" else codes "leave") ∷ [])

unfoldable pub record_geo_set : Bytes → Sample
record_geo_set bucket = sample geo_sets one (of_bucket bucket)

unfoldable pub record_geo_delete : Bytes → Sample
record_geo_delete bucket = sample geo_deletes one (of_bucket bucket)

abbrev queried : Bytes → Bytes → List (Bytes × Bytes)
queried bucket query_type = (codes "cache.bucket", bucket) ∷ (codes "query.type", query_type) ∷ []

-- `trackGeoQuery` and the function that it returns
unfoldable pub track_geo_query : Bytes → Bytes → Sample
track_geo_query bucket query_type = sample geo_queries one (queried bucket query_type)

unfoldable pub geo_queried : Bytes → Bytes → ℤ → ℕ → List Sample
geo_queried bucket query_type elapsed result_count =
    sample geo_query_duration elapsed (queried bucket query_type)
    ∷ sample geo_query_results (pos result_count) (queried bucket query_type)
    ∷ []

abbrev replicated : Bytes → Bytes → List (Bytes × Bytes)
replicated bucket operation = (codes "cache.bucket", bucket) ∷ (codes "operation", operation) ∷ []

unfoldable pub record_geo_replication_sent : Bytes → Bytes → Sample
record_geo_replication_sent bucket operation =
    sample geo_replication_sent one (replicated bucket operation)

unfoldable pub record_geo_replication_received : Bytes → Bytes → Sample
record_geo_replication_received bucket operation =
    sample geo_replication_received one (replicated bucket operation)

unfoldable pub record_geo_replication_dropped : Bytes → Sample
record_geo_replication_dropped bucket = sample geo_replication_dropped one (of_bucket bucket)

unfoldable pub record_geo_bucket_size : Bytes → ℤ → Sample
record_geo_bucket_size bucket delta = sample geo_bucket_size delta (of_bucket bucket)
