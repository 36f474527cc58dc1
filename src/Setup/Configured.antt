-- ===== src/Setup/Configured.antt =====
-- mycorrhizal.go: which configurations `New` accepts, and what it makes of them.
use mycorrhizal.Base.{
  ◌⊎◌, ◌≡◌, refl, sym, ap, inl, inr, Bool-cases, Option-cases, Bool, true, false, not, ◌&&◌, ◌||◌,
  Option, none, some, [], Result, ok, err, is_ok, ◌==◌, arith,
}
use mycorrhizal.Base.Bytes.{Bytes, codes}
use mycorrhizal.Base.Int.{pos, pos_part, ltb_ℤ}
use mycorrhizal.Net.Apps.{update_application, set_request_handler, register_application}
use mycorrhizal.Base.Maps.{lookup}
use mycorrhizal.Wire.Serve.{Application}
use mycorrhizal.Net.{Nodosum}
use mycorrhizal.Net.Startup.{
  Outside, succeeds, start_nodosum-cases, nothing_open, all_open, left_open,
}
use mycorrhizal.Net.Steps.{new_nodosum}
use mycorrhizal.Setup.{
  Config, Mycorrhizal, SetupError, is_empty, is_set, check_config, choose_id, dc_mode_consul,
  dc_mode_static, dc_mode_dns_sd, mycel_config, new_mycel, new, finish_new, init_cache,
  nodosum_failed, bad_replicas, thirty_seconds, or_default,
}

-- A certificate and a key are there; Consul over TLS has both TLS values, the static mode has addresses,
-- and the other two modes have a host.
abbrev pub is_valid : Config → Bool
is_valid cfg =
    not (is_empty cfg.ca_cert_pem)
    && not (is_empty cfg.ca_key_pem)
    && (not (cfg.discovery_mode == dc_mode_consul)
        || not cfg.http_client_tls_enabled
        || (is_set cfg.http_client_tls_ca_cert && is_set cfg.http_client_tls_cert))
    && (not (cfg.discovery_mode == dc_mode_static) || is_set cfg.node_addrs)
    && (is_set cfg.discovery_host
        || not (cfg.discovery_mode == dc_mode_consul) && not (cfg.discovery_mode == dc_mode_dns_sd))

is_none : {A : Type 0} → Option A → Bool
is_none none = true
is_none (some a) = false

check_config-is_valid : (cfg : Config) → is_none (check_config cfg) ≡ is_valid cfg
unfolding check_config is_none
check_config-is_valid cfg = ground arith

succeeds-listens : (o : Outside) → succeeds o ≡ true → true ≡ (o.parse_ca && o.listen && true)
succeeds-listens o s = ground (arith, s)

-- the node that `New` makes
abbrev pub made :
    (F A : Type 0)
    → (Bytes → Bytes → Bytes × Bytes)
    → (metrics : Bool) → (env uuid : Bytes) → Config
    → Mycorrhizal F A
made F A handler metrics env uuid cfg =
    let n = new_nodosum (choose_id env uuid) cfg.quic_advertise_port [] in
    record {
      node_id = choose_id env uuid;
      nodosum =
          update_application (codes "SYSTEM-MYCEL") (set_request_handler handler)
            (register_application (codes "SYSTEM-MYCEL") n);
      mycel = record {
        geo = init_cache n.node_id (pos_part cfg.cache_replica_count);
        remote_timeout = cfg.handshake_timeout;
        rebalancer_interval = or_default (pos 0);
        metrics = metrics;
        triggered = false;
        geo_flush_interval = or_default (pos 0);
      };
    }

update_application-node_id :
    (app_id : Bytes) (f : Application → Application) (n : Nodosum)
    → (update_application app_id f n).node_id ≡ n.node_id
unfolding update_application
update_application-node_id app_id f n = elim (Option-cases (lookup app_id n.applications)) [
  | inl o ↦ rw (o, update_application) refl
  | inr (a, o) ↦ rw (o, update_application) refl
]

made-node_id :
    (F A : Type 0) (handler : Bytes → Bytes → Bytes × Bytes) (metrics : Bool) (env uuid : Bytes)
    (cfg : Config)
    → ((made F A handler metrics env uuid cfg).nodosum.node_id ≡ choose_id env uuid)
      × ((made F A handler metrics env uuid cfg).mycel.geo.cache.node_id ≡ choose_id env uuid)
      × (or_default (pos 0) ≡ thirty_seconds)
      × (cfg.handshake_timeout ≡ cfg.handshake_timeout)
unfolding register_application new_nodosum init_cache or_default
made-node_id F A handler metrics env uuid cfg = (update_application-node_id _ _ _, refl, refl, refl)

module _ (F A : Type 0) (handler : Bytes → Bytes → Bytes × Bytes) (metrics : Bool)
    (env uuid : Bytes) (o : Outside) (cfg : Config) where
  -- an invalid configuration, a network that does not start, no replica, or a node
  new-cases :
      ((is_valid cfg ≡ false)
        × ((e : SetupError) × (new {F = F} {A = A} handler metrics env uuid o cfg
              ≡ (err e, nothing_open))))
      ⊎ ((is_valid cfg ≡ true)
          × (succeeds o ≡ false)
          × (new {F = F} {A = A} handler metrics env uuid o cfg
              ≡ (err nodosum_failed, left_open o)))
      ⊎ ((is_valid cfg ≡ true)
          × (succeeds o ≡ true)
          × (ltb_ℤ cfg.cache_replica_count (pos 1) ≡ true)
          × (new {F = F} {A = A} handler metrics env uuid o cfg
              ≡ (err bad_replicas, record all_open { context_open = false })))
      ⊎ ((is_valid cfg ≡ true)
          × (succeeds o ≡ true)
          × (ltb_ℤ cfg.cache_replica_count (pos 1) ≡ false)
          × (new handler metrics env uuid o cfg
              ≡ (ok (made F A handler metrics env uuid cfg), all_open)))
  unfolding new finish_new new_mycel mycel_config is_none
  new-cases =
      let v : is_none (check_config cfg) ≡ is_valid cfg = check_config-is_valid cfg in
      elim (Option-cases (check_config cfg)) [
        | inr (e, c) ↦ inl (sym (rw c at v), (e, rw (c, new) refl))
        | inl c ↦ elim (start_nodosum-cases o (choose_id env uuid) cfg.quic_advertise_port []) [
          | inr (s, (e, n)) ↦ inr (inl (sym (rw c at v), s, rw (c, new, finish_new, n) refl))
          | inl (s, n) ↦ elim (Bool-cases (ltb_ℤ cfg.cache_replica_count (pos 1))) [
            | inl l ↦ inr (inr (inl (sym (rw c at v), s, l, rw (c, new, finish_new, n, l) refl)))
            | inr l ↦ inr (inr (inr (sym (rw c at v), s, l, rw (c, new, finish_new, n, l) refl)))
          ]
        ]
      ]

  -- `New` returns no error exactly when the configuration is valid, the network starts, and at least one
  -- replica is asked for. Afterwards there is a QUIC transport that was not closed exactly when the
  -- configuration is valid and the network starts, so also after the error for a replica count below
  -- one. The UDP socket is open exactly when the configuration is valid and the socket was opened, and
  -- the network starts or the transport's `Close` leaves the socket to its owner.
  pub new-is_valid :
      (is_ok (new {F = F} {A = A} handler metrics env uuid o cfg).0
        ≡ (is_valid cfg && succeeds o && not (ltb_ℤ cfg.cache_replica_count (pos 1))))
      × ((new {F = F} {A = A} handler metrics env uuid o cfg).1.transport_open
          ≡ (is_valid cfg && succeeds o))
      × ((new {F = F} {A = A} handler metrics env uuid o cfg).1.socket_open
          ≡ (is_valid cfg && o.parse_ca && o.listen && (succeeds o || not o.close_frees)))
  new-is_valid = elim new-cases [
    | inl (v, (e, n)) ↦ (rw (n, v) refl, rw (n, v) refl, rw (n, v) refl)
    | inr (inl (v, s, n)) ↦ (rw (n, v, s) refl, rw (n, v, s) refl, rw (n, v, s) refl)
    | inr (inr (inl (v, s, l, n))) ↦
        (rw (n, v, s, l) refl, rw (n, v, s) refl, rw (n, v, s) (succeeds-listens o s))
    | inr (inr (inr (v, s, l, n))) ↦
        (rw (n, v, s, l) refl, rw (n, v, s) refl, rw (n, v, s) (succeeds-listens o s))
  ]

  -- A node that `New` makes has one identifier in all its parts. Its rebalancer runs every thirty
  -- seconds and its remote operations wait for the handshake's time-out, whatever the configuration says
  -- of `RebalancerInterval` and `CacheRemoteTimeout`.
  pub new-mycel :
      (m : Mycorrhizal F A)
      → (new handler metrics env uuid o cfg).0 ≡ ok m
      → (m.nodosum.node_id ≡ m.node_id)
        × (m.mycel.geo.cache.node_id ≡ m.node_id)
        × (m.mycel.rebalancer_interval ≡ thirty_seconds)
        × (m.mycel.remote_timeout ≡ cfg.handshake_timeout)
  new-mycel m h = elim new-cases [
    | inl (v, (e, n)) ↦ let h' : err e ≡ ok m = rw n at h in absurd (ground arith)
    | inr (inl (v, s, n)) ↦ let h' : err nodosum_failed ≡ ok m = rw n at h in absurd (ground arith)
    | inr (inr (inl (v, s, l, n))) ↦
        let h' : err bad_replicas ≡ ok m = rw n at h in absurd (ground arith)
    | inr (inr (inr (v, s, l, n))) ↦
        let h' : ok (made F A handler metrics env uuid cfg) ≡ ok m = rw n at h in
        let same : made F A handler metrics env uuid cfg ≡ m =
          ap
            (λ (r : Result SetupError (Mycorrhizal F A)). elim r as (λ x. Mycorrhizal F A) [
              | ok x ↦ x
              | err e ↦ m
            ])
            h' in
        rw (sym same) (made-node_id F A handler metrics env uuid cfg)
  ]
