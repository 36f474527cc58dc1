-- ===== src/Setup.antt =====
-- mycorrhizal.go, config.go, internal/mycel/mycel.go and internal/mycel/rebalancer.go: how a node is put
-- together from its configuration, and what a change of the cluster does to it. Contexts, loggers,
-- meters, the HTTP client and certificates are left out; a value that is only tested for presence is
-- an `Option`.
pub mod Hook
pub mod Configured
mod Tests
use mycorrhizal.Base.{
  ℕ, Bool, true, false, not, ◌&&◌, ◌||◌, Option, none, some, List, [], ◌∷◌, ◌++◌, Result, ok, err,
  ◌==◌, if◌then◌else◌,
}
use mycorrhizal.Base.Bytes.{Bytes, codes}
use mycorrhizal.Base.Int.{ℤ, pos, pos_part, ltb_ℤ}
use mycorrhizal.Base.Maps.{empty}
use mycorrhizal.Base.Time.{Duration, is_zero}
use mycorrhizal.Lru.Order.{nil}
use mycorrhizal.Cache.{Cache, returns, panics, out_of_fuel}
use mycorrhizal.Metrics.{Sample, record_topology_change}
use mycorrhizal.Metrics.Facade.{use_metrics}
use mycorrhizal.Cache.Routing.{invalidate_caches}
use mycorrhizal.Geo.{GeoCache}
use mycorrhizal.Net.{Nodosum, NodeMeta}
use mycorrhizal.Net.Delegate.{Action, join_now, join_after, topology_changed}
use mycorrhizal.Net.Apps.{register_application, update_application, set_request_handler}
use mycorrhizal.Net.Startup.{StartError, Outside, Resources, nothing_open, start_nodosum}

pub data SetupError : Type 0 where
  missing_ca_cert : SetupError
  missing_ca_key : SetupError
  missing_http_client_tls : SetupError
  missing_node_addrs : SetupError
  missing_discovery_host : SetupError
  nodosum_failed : SetupError
  bad_replicas : SetupError

-- `30 * time.Second`
abbrev pub thirty_seconds : Duration
thirty_seconds = pos 30000000000

-- an interval, with the default for zero
unfoldable pub or_default : Duration → Duration
or_default interval = if is_zero interval then thirty_seconds else interval

-- `mycel.Config`
pub record MycelConfig : Type 0 where
  pub replicas : ℤ
  pub remote_timeout : Duration
  pub rebalancer_interval : Duration
  pub geo_flush_interval : Duration

-- `mycel`, its geo cache with the cache that this refers to, whether that has metrics, and its
-- rebalancer: its interval, and whether a run is pending in the channel of capacity one
pub record Mycel (F A : Type 0) : Type 0 where
  pub geo : GeoCache F A
  pub metrics : Bool
  pub remote_timeout : Duration
  pub rebalancer_interval : Duration
  pub triggered : Bool
  pub geo_flush_interval : Duration

-- `initCache`, with `newGeoCache`
unfoldable pub init_cache : {F A : Type 0} → Bytes → ℕ → GeoCache F A
init_cache node_id replicas = record {
  cache = record {
    node_id = node_id;
    key_val = empty;
    lru_buckets = [];
    heap = record {
      fresh = 1;
      next = λ p. nil;
      prev = λ p. nil;
      key = λ p. [];
      contents = λ p. none;
      expires_at = λ p. none;
    };
    node_score_hash_map = empty;
    replica_locality_cache = empty;
    replicas = replicas;
  };
  stores = [];
}

-- `mycel.New`; the handler that it sets reads and writes the cache, here it is an argument, and so is
-- whether `newMetrics` succeeds
unfoldable pub new_mycel :
    {F A : Type 0}
    → (Bytes → Bytes → Bytes × Bytes)
    → (metrics : Bool) → MycelConfig
    → Nodosum
    → Result SetupError (Mycel F A × Nodosum)
new_mycel handler metrics cfg n =
    if ltb_ℤ cfg.replicas (pos 1)
    then err bad_replicas
    else ok (
      record {
        geo = init_cache n.node_id (pos_part cfg.replicas);
        metrics = metrics;
        remote_timeout = cfg.remote_timeout;
        rebalancer_interval = or_default cfg.rebalancer_interval;
        triggered = false;
        geo_flush_interval = or_default cfg.geo_flush_interval;
      },
      update_application (codes "SYSTEM-MYCEL") (set_request_handler handler)
          (register_application (codes "SYSTEM-MYCEL") n),
    )

-- `triggerImmediate`, which drops the trigger where one is pending
unfoldable pub trigger_immediate : {F A : Type 0} → Mycel F A → Mycel F A
trigger_immediate m = record m { triggered = true }

-- The hook that `mycel.New` sets, with the measurement that it records. Without metrics
-- `recordTopologyChange` panics; the goroutine of the hook recovers, and the rest of the hook is left out.
unfoldable pub on_topology_change : {F A : Type 0} → Bool → Mycel F A → List Sample × Mycel F A
on_topology_change joined m =
    let m' = record m { geo = record m.geo { cache = invalidate_caches m.geo.cache } } in
    elim (use_metrics m.metrics (record_topology_change joined ∷ [])) [
      | returns samples ↦ (samples, trigger_immediate m')
      | panics ↦ ([], m')
      | out_of_fuel ↦ ([], m')
    ]

-- what the actions of a callback record and do to the cache, once the hook's goroutines have run
unfoldable pub run_hooks : {F A : Type 0} → List Action → Mycel F A → List Sample × Mycel F A
run_hooks [] m = ([], m)
run_hooks (join_now member ∷ actions) m = run_hooks actions m
run_hooks (join_after wait member ∷ actions) m = run_hooks actions m
run_hooks (topology_changed name joined ∷ actions) m =
    let (samples, m') = on_topology_change joined m in
    let (rest, m'') = run_hooks actions m' in (samples ++ rest, m'')

-- the modes of discovery
abbrev pub dc_mode_dns_sd : ℕ
dc_mode_dns_sd = 0

abbrev pub dc_mode_consul : ℕ
dc_mode_consul = 1

abbrev pub dc_mode_static : ℕ
dc_mode_static = 2

-- `Config`; `node_addrs` is `none` where it is nil
pub record Config : Type 0 where
  pub discovery_mode : ℕ
  pub discovery_host : Option Bytes
  pub node_addrs : Option (List Bytes)
  pub http_client_tls_enabled : Bool
  pub http_client_tls_ca_cert : Option Bytes
  pub http_client_tls_cert : Option Bytes
  pub handshake_timeout : Duration
  pub ca_cert_pem : Bytes
  pub ca_key_pem : Bytes
  pub cache_replica_count : ℤ
  pub cache_remote_timeout : Duration
  pub quic_advertise_port : ℕ
  pub rebalancer_interval : Duration

pub record Mycorrhizal (F A : Type 0) : Type 0 where
  pub node_id : Bytes
  pub nodosum : Nodosum
  pub mycel : Mycel F A

unfoldable pub is_set : {A : Type 0} → Option A → Bool
is_set none = false
is_set (some a) = true

unfoldable pub is_empty : Bytes → Bool
is_empty [] = true
is_empty (b ∷ bs) = false

-- the checks of `New`, in their order
unfoldable pub check_config : Config → Option SetupError
check_config cfg =
    if is_empty cfg.ca_cert_pem
    then some missing_ca_cert
    else if is_empty cfg.ca_key_pem
    then some missing_ca_key
    else if cfg.discovery_mode == dc_mode_consul
        && cfg.http_client_tls_enabled
        && (not (is_set cfg.http_client_tls_ca_cert) || not (is_set cfg.http_client_tls_cert))
    then some missing_http_client_tls
    else if cfg.discovery_mode == dc_mode_static && not (is_set cfg.node_addrs)
    then some missing_node_addrs
    else if (cfg.discovery_mode == dc_mode_consul || cfg.discovery_mode == dc_mode_dns_sd)
        && not (is_set cfg.discovery_host)
    then some missing_discovery_host
    else none

-- the identifier of the environment, or a new one
unfoldable pub choose_id : (env uuid : Bytes) → Bytes
choose_id [] uuid = uuid
choose_id (b ∷ bs) uuid = b ∷ bs

-- the configuration that `New` hands to `mycel.New`
unfoldable pub mycel_config : Config → MycelConfig
mycel_config cfg = record {
  replicas = cfg.cache_replica_count;
  remote_timeout = cfg.handshake_timeout;
  rebalancer_interval = pos 0;
  geo_flush_interval = pos 0;
}

-- the end of `New`, after `nodosum.New`; where `mycel.New` fails, it closes the context only
unfoldable pub finish_new :
    {F A : Type 0}
    → (handler : Bytes → Bytes → Bytes × Bytes) → (metrics : Bool) → Bytes
    → Config
    → Result StartError Nodosum × Resources
    → Result SetupError (Mycorrhizal F A) × Resources
finish_new handler metrics node_id cfg (err e, kept) = (err nodosum_failed, kept)
finish_new {F = F} {A = A} handler metrics node_id cfg (ok n, kept) =
    elim (new_mycel {F = F} {A = A} handler metrics (mycel_config cfg) n) [
      | err e ↦ (err e, record kept { context_open = false })
      | ok (m, n') ↦ (ok (record { node_id = node_id; nodosum = n'; mycel = m }), kept)
    ]

-- `New`, and what stays open; `metrics` says whether `newMetrics` succeeds
unfoldable pub new :
    {F A : Type 0}
    → (handler : Bytes → Bytes → Bytes × Bytes) → (metrics : Bool) → (env uuid : Bytes) → Outside
    → Config
    → Result SetupError (Mycorrhizal F A) × Resources
new handler metrics env uuid outside cfg = elim (check_config cfg) [
  | some e ↦ (err e, nothing_open)
  | none ↦
      finish_new handler metrics (choose_id env uuid) cfg
        (start_nodosum outside (choose_id env uuid) cfg.quic_advertise_port [])
]
