-- ===== src/Net/Silent.antt =====
-- internal/nodosum/conn.go and memberlist.go: a connection that comes in, and the `NotifyJoin` of its
-- node.
use mathlib.Core.Logic.{if_neg}
use mycorrhizal.Base.{ℕ, ◌≢◌, ◌≡◌, refl, ◌∙◌, true, false, Option, none, some, [], ◌∷◌, Result}
use mycorrhizal.Base.Bytes.{Bytes, Bytes-discrete}
use mycorrhizal.Base.Maps.{lookup, put, lookup-put_self}
use mycorrhizal.Net.{NetError, Nodosum}
use mycorrhizal.Net.Conns.{close_conn, register_conn, handle_quic_conn}
use mycorrhizal.Net.Delegate.{Member, join_other, begin_join, notify_join, forget_attempts}
use mycorrhizal.Net.Dial.{notify_join-begin_join}

module _ (n : Nodosum) (b : ℕ) (bs : Bytes) (conn : ℕ) (other : b ∷ bs ≢ n.node_id)
    (absent : lookup (b ∷ bs) n.quic_conns ≡ none) where
  handle_quic_conn-registers :
      handle_quic_conn (some (b ∷ bs)) conn n
      ≡ (true, record n { quic_conns = put (b ∷ bs) conn n.quic_conns })
  unfolding handle_quic_conn register_conn
  handle_quic_conn-registers =
      if_neg (Bytes-discrete (b ∷ bs) n.node_id) other (false, close_conn conn n)
        (register_conn (b ∷ bs) conn n)
      ∙ rw (absent, register_conn) refl

  -- A connection of another node that comes in where there is none makes it a connected node, and the
  -- `NotifyJoin` of that node which follows does nothing: no dial, and no call of the topology hook.
  pub handle_quic_conn-notify_join :
      (resolve : Bytes → Option Bytes) (dial : Bytes → Bytes → Result NetError ℕ)
      (addr meta : Bytes)
      → (lookup (b ∷ bs) (handle_quic_conn (some (b ∷ bs)) conn n).1.quic_conns ≡ some conn)
        × ((notify_join resolve dial
              (record { name = b ∷ bs; addr = addr; meta = meta })
              (handle_quic_conn (some (b ∷ bs)) conn n).1).0
            ≡ [])
  handle_quic_conn-notify_join resolve dial addr meta =
      let m : Member = record { name = b ∷ bs; addr = addr; meta = meta } in
      let o : Nodosum = record n { quic_conns = put (b ∷ bs) conn n.quic_conns } in
      let found : lookup (b ∷ bs) o.quic_conns ≡ some conn =
        lookup-put_self (b ∷ bs) conn n.quic_conns in
      let quiet : begin_join resolve m o ≡ (none, forget_attempts (b ∷ bs) o) =
        unfold begin_join join_other in
        if_neg (Bytes-discrete (b ∷ bs) n.node_id) other (none, o) (join_other resolve m o)
        ∙ rw (found, join_other) refl in
      (
        rw handle_quic_conn-registers found,
        rw (handle_quic_conn-registers, notify_join-begin_join resolve dial m o _ quiet) refl,
      )
