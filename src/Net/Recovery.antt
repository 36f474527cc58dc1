-- ===== src/Net/Recovery.antt =====
-- internal/nodosum/memberlist.go: `NotifyAlive` of a node without a connection, and the `NotifyJoin` that
-- it starts.
use mathlib.Core.Logic.{if_neg}
use mycorrhizal.Base.{
  ℕ, take, append-nil, ◌%◌, ◌^◌, ◌≢◌, ◌≡◌, refl, ◌∙◌, Result, ok, Bool, true, Option, none, some,
  [], ◌∷◌, ◌++◌, ap,
}
use mycorrhizal.Base.Bytes.{Bytes, Bytes-discrete}
use mycorrhizal.Base.Decimal.{itoa}
use mycorrhizal.Base.Maps.{lookup, lookup-put_self, lookup-del_self}
use mycorrhizal.Wire.Ints.{be16, uint16-be16, length-be16, take-be16}
use mycorrhizal.Net.{NetError, Nodosum}
use mycorrhizal.Net.Delegate.{
  Member, join_now, topology_changed, quic_port, node_meta_bytes, join_other, begin_join,
  after_dial, notify_join, forget_attempts, alive_other, notify_alive,
}
use mycorrhizal.Net.Dial.{notify_join-begin_join}

quic_port-node_meta_bytes :
    (peer : Nodosum) → quic_port (node_meta_bytes peer) ≡ some (peer.quic_advertise_port % 2 ^ 16)
unfolding quic_port node_meta_bytes
quic_port-node_meta_bytes peer =
    let whole : take 2 (be16 peer.quic_advertise_port) ≡ be16 peer.quic_advertise_port =
      rw append-nil at (take-be16 peer.quic_advertise_port []) in
    rw (length-be16, whole, uint16-be16) refl

module _ (resolve : Bytes → Option Bytes) (m : Member) (peer n : Nodosum) (a : Bytes)
    (other : m.name ≢ n.node_id) (announced : m.meta ≡ node_meta_bytes peer)
    (absent : lookup m.name n.quic_conns ≡ none)
    (resolved : resolve (m.addr ++ (b':' ∷ itoa (peer.quic_advertise_port % 2 ^ 16)))
      ≡ some a) where
  begin_join-announced :
      begin_join resolve m n ≡ (some a, record n { dialling = m.name ∷ n.dialling })
  unfolding begin_join join_other
  begin_join-announced =
      if_neg (Bytes-discrete m.name n.node_id) other (none, n) (join_other resolve m n)
      ∙ rw (absent, join_other, announced, quic_port-node_meta_bytes, resolved) refl

  -- Where there is no connection to another node, `NotifyAlive` starts a `NotifyJoin`. That one dials the
  -- port that the peer's `NodeMeta` announced, and if the dial succeeds, the node is connected, no failed
  -- dial is counted any more, and the topology hook is told.
  pub notify_alive-notify_join :
      (is_cancelled : ℕ → Bool) (dial : Bytes → Bytes → Result NetError ℕ) (c : ℕ)
      → dial a m.name ≡ ok c
      → (notify_alive is_cancelled m n ≡ (join_now m ∷ [], n))
        × ((notify_join resolve dial m n).0 ≡ topology_changed m.name true ∷ [])
        × (lookup m.name (notify_join resolve dial m n).1.quic_conns ≡ some c)
        × (lookup m.name (notify_join resolve dial m n).1.dial_attempts ≡ none)
  unfolding notify_alive alive_other forget_attempts after_dial
  notify_alive-notify_join is_cancelled dial c h =
      let join : notify_join resolve dial m n
          ≡ after_dial m (ok c) (record n { dialling = m.name ∷ n.dialling }) =
        notify_join-begin_join resolve dial m n _ begin_join-announced
        ∙ ap (λ r. after_dial m r (record n { dialling = m.name ∷ n.dialling })) h in
      (
        if_neg (Bytes-discrete m.name n.node_id) other ([], n) (alive_other is_cancelled m n)
            ∙ rw (absent, alive_other) refl,
        rw (join, after_dial, absent) refl,
        rw (join, after_dial, absent) (lookup-put_self m.name c n.quic_conns),
        rw (join, after_dial, absent) (lookup-del_self m.name n.dial_attempts),
      )
