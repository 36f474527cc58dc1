-- ===== src/Net/Conns.antt =====
-- internal/nodosum/conn.go: registering incoming connections, and closing a node's connection.
use mycorrhizal.Base.{
  ℕ, Bool, true, false, Option, none, some, List, [], ◌∷◌, ◌++◌, ite, ℕ_discrete, if◌then◌else◌,
}
use mycorrhizal.Base.Bytes.{Bytes, Bytes-discrete}
use mycorrhizal.Base.Maps.{lookup, put, del}
use mycorrhizal.Net.{Nodosum, keys}
use mycorrhizal.Net.Streams.{has_prefix, close_quic_streams}

-- `conn.CloseWithError`
unfoldable pub close_conn : ℕ → Nodosum → Nodosum
close_conn conn n = record n { closed_conns = conn ∷ n.closed_conns }

-- an incoming connection of another node, which is only registered where there is none
unfoldable pub register_conn : Bytes → ℕ → Nodosum → Bool × Nodosum
register_conn node conn n = elim (lookup node n.quic_conns) [
  | none ↦ (true, record n { quic_conns = put node conn n.quic_conns })
  | some other ↦ (false, n)
]

-- The part of `handleQuicConn` before its loop. `common_name` is that of the peer's certificate, if it
-- sent one. The answer is whether the handler registered the connection.
unfoldable pub handle_quic_conn : (common_name : Option Bytes) → ℕ → Nodosum → Bool × Nodosum
handle_quic_conn none conn n = (false, n)
handle_quic_conn (some []) conn n = (false, close_conn conn n)
handle_quic_conn (some (b ∷ bs)) conn n =
    ite (Bytes-discrete (b ∷ bs) n.node_id) (false, close_conn conn n)
      (register_conn (b ∷ bs) conn n)

-- what its deferred function does for a connection that it registered
unfoldable pub unregister_conn : Bytes → ℕ → Nodosum → Nodosum
unregister_conn node conn n = elim (lookup node n.quic_conns) [
  | none ↦ n
  | some c ↦ ite (ℕ_discrete c conn) (record n { quic_conns = del node n.quic_conns }) n
]

-- the keys that `closeQuicConnection` collects
unfoldable pub keys_with_prefix : Bytes → List Bytes → List Bytes
keys_with_prefix p [] = []
keys_with_prefix p (k ∷ ks) =
    let rest = keys_with_prefix p ks in if has_prefix p k then k ∷ rest else rest

-- the connection of a node is closed and leaves the map
unfoldable pub drop_conn : Bytes → Nodosum → Nodosum
drop_conn node n = elim (lookup node n.quic_conns) [
  | none ↦ n
  | some conn ↦ record (close_conn conn n) { quic_conns = del node n.quic_conns }
]

unfoldable pub close_quic_connection : Bytes → Nodosum → Nodosum
close_quic_connection node n =
    drop_conn node (
      close_quic_streams (keys_with_prefix (node ++ b':' ∷ []) (keys n.quic_application_streams)) n)
