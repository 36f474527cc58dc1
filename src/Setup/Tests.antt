-- ===== src/Setup/Tests.antt =====
-- A node in the static mode, and one that loses its only neighbour.
use mycorrhizal.Base.{ℕ, ◌≡◌, true, false, none, some, [], ◌∷◌, is_ok, not, ◌&&◌, ◌||◌}
use mycorrhizal.Base.Bytes.{Bytes, codes}
use mycorrhizal.Base.Int.{pos, ltb_ℤ}
use mycorrhizal.Cache.Rendezvous.{contains}
use mycorrhizal.Cache.Routing.{is_local, get_replica_nodes}
use mycorrhizal.Cache.Coherent.{IsCoherent}
use mycorrhizal.Net.{Nodosum, get_connected_nodes}
use mycorrhizal.Net.Conns.{handle_quic_conn}
use mycorrhizal.Net.Delegate.{Member, notify_leave}
use mycorrhizal.Net.Startup.{Outside, succeeds}
use mycorrhizal.Net.Steps.{new_nodosum}
use mycorrhizal.Metrics.{record_topology_change}
use mycorrhizal.Setup.{Config, Mycel, new, init_cache, run_hooks, thirty_seconds}
use mycorrhizal.Setup.Hook.{notify_leave-is_local}
use mycorrhizal.Setup.Configured.{is_valid, new-is_valid}

abbrev static : Config
static = record {
  discovery_mode = 2;
  discovery_host = none;
  node_addrs = some (codes "10.0.0.2:7946" ∷ []);
  http_client_tls_enabled = false;
  http_client_tls_ca_cert = none;
  http_client_tls_cert = none;
  handshake_timeout = pos 2000000000;
  ca_cert_pem = codes "cert";
  ca_key_pem = codes "key";
  cache_replica_count = pos 3;
  cache_remote_timeout = pos 100000000;
  quic_advertise_port = 7000;
  rebalancer_interval = pos 10000000000;
}

abbrev echo : Bytes → Bytes → Bytes × Bytes
echo payload sender = (payload, [])

-- every library call succeeds
abbrev network : Outside
network = record {
  parse_ca = true;
  listen = true;
  generate_node_cert = true;
  create_memberlist = true;
  close_frees = false;
}

new-is_valid_example :
    (is_ok (new {F = ℕ} {A = ℕ} echo true (codes "a") (codes "u") network static).0
      ≡ (is_valid static && succeeds network && not (ltb_ℤ static.cache_replica_count (pos 1))))
    × ((new {F = ℕ} {A = ℕ} echo true (codes "a") (codes "u") network static).1.transport_open
        ≡ (is_valid static && succeeds network))
    × ((new {F = ℕ} {A = ℕ} echo true (codes "a") (codes "u") network static).1.socket_open ≡ (
        is_valid static
        && network.parse_ca
        && network.listen
        && (succeeds network || not network.close_frees)))
new-is_valid_example = new-is_valid ℕ ℕ echo true (codes "a") (codes "u") network static

abbrev lone : Nodosum
lone = (handle_quic_conn (some (codes "b")) 1 (new_nodosum (codes "a") 7000 [])).1

abbrev member : Member
member = record { name = codes "b"; addr = codes "10.0.0.2"; meta = 27 ∷ 88 ∷ [] }

abbrev cached : Mycel ℕ ℕ
cached = record {
  geo = init_cache (codes "a") 3;
  metrics = true;
  remote_timeout = pos 1;
  rebalancer_interval = thirty_seconds;
  triggered = false;
  geo_flush_interval = thirty_seconds;
}

notify_leave-is_local_example :
    let (samples, m') = run_hooks (notify_leave member lone).0 cached in
    let c = m'.geo.cache in
    let nodes = get_connected_nodes (notify_leave member lone).1 in
    ((is_local (λ x. 0) nodes (codes "users") (codes "k") c).0
      ≡ contains c.node_id (get_replica_nodes (λ x. 0) nodes (codes "users") (codes "k") c))
    × IsCoherent (λ x. 0) nodes (is_local (λ x. 0) nodes (codes "users") (codes "k") c).1
    × (samples ≡ record_topology_change false ∷ [])
    × (m'.triggered ≡ true)
notify_leave-is_local_example =
    notify_leave-is_local (λ x. 0) member lone cached (codes "users") (codes "k")
