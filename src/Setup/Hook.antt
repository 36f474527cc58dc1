-- ===== src/Setup/Hook.antt =====
-- internal/mycel/mycel.go and internal/nodosum/memberlist.go: routing after the topology hook of a
-- `NotifyLeave`.
use mycorrhizal.Base.{
  ℕ, ◌≡◌, refl, ◌∙◌, inl, inr, Bool-cases, Bool, false, ◌||◌, List, [], ◌∷◌, append-nil,
  if◌then◌else◌,
}
use mycorrhizal.Base.Bytes.{Bytes}
use mycorrhizal.Cache.Rendezvous.{contains}
use mycorrhizal.Cache.Routing.{is_local, get_replica_nodes}
use mycorrhizal.Cache.Coherent.{IsCoherent, invalidate_caches-IsCoherent, is_local-IsCoherent}
use mycorrhizal.Net.{Nodosum, get_connected_nodes}
use mycorrhizal.Net.Delegate.{Member, notify_leave}
use mycorrhizal.Metrics.{record_topology_change}
use mycorrhizal.Metrics.Facade.{use_metrics}
use mycorrhizal.Setup.{Mycel, on_topology_change, trigger_immediate, run_hooks}

module _ {F A : Type 0} (sum64 : Bytes → ℕ) (nodes : List Bytes) (joined : Bool) where
  on_topology_change-IsCoherent :
      (m : Mycel F A) → IsCoherent sum64 nodes (on_topology_change joined m).1.geo.cache
  unfolding on_topology_change trigger_immediate use_metrics
  on_topology_change-IsCoherent m = elim (Bool-cases m.metrics) [
    | inl e ↦ rw (e, on_topology_change) (invalidate_caches-IsCoherent sum64 nodes m.geo.cache)
    | inr e ↦ rw (e, on_topology_change) (invalidate_caches-IsCoherent sum64 nodes m.geo.cache)
  ]

  -- With metrics the hook records one change and leaves a run pending; without, it does neither.
  on_topology_change-metrics :
      (m : Mycel F A)
      → ((on_topology_change joined m).0
          ≡ (if m.metrics then record_topology_change joined ∷ [] else []))
        × ((on_topology_change joined m).1.triggered ≡ (m.metrics || m.triggered))
  unfolding on_topology_change trigger_immediate use_metrics
  on_topology_change-metrics m = elim (Bool-cases m.metrics) [
    | inl e ↦ rw (e, on_topology_change) (refl, refl)
    | inr e ↦ rw (e, on_topology_change) (refl, refl)
  ]

-- Once the hook of a node's leaving has run, `isLocal` answers by the other nodes that are still
-- connected then, whatever it had remembered before, and what it remembers agrees with them. With metrics
-- one leave is recorded, and a run of the rebalancer is pending; without, the hook has panicked: nothing
-- is recorded, and a run is pending only if one was before.
pub notify_leave-is_local :
    {F A : Type 0} (sum64 : Bytes → ℕ) (member : Member) (n : Nodosum) (m : Mycel F A)
    (bucket key : Bytes)
    → let (samples, m') = run_hooks (notify_leave member n).0 m in
      let c = m'.geo.cache in
      let nodes = get_connected_nodes (notify_leave member n).1 in
      ((is_local sum64 nodes bucket key c).0
        ≡ contains c.node_id (get_replica_nodes sum64 nodes bucket key c))
      × IsCoherent sum64 nodes (is_local sum64 nodes bucket key c).1
      × (samples ≡ (if m.metrics then record_topology_change false ∷ [] else []))
      × (m'.triggered ≡ (m.metrics || m.triggered))
unfolding run_hooks notify_leave
notify_leave-is_local sum64 member n m bucket key =
    let nodes = get_connected_nodes (notify_leave member n).1 in
    let (p, q) =
      is_local-IsCoherent sum64 nodes bucket key (on_topology_change false m).1.geo.cache
        (on_topology_change-IsCoherent sum64 nodes false m) in
    let (r, t) = on_topology_change-metrics sum64 nodes false m in (p, q, append-nil _ ∙ r, t)
