-- ===== src/Net/Streams.antt =====
-- internal/nodosum/registry.go, with the parts of conn.go that register and remove streams.
-- Where the code takes the lock of the streams' map, the step in `Net.Steps` waits for it.
use mycorrhizal.Base.{
  ℕ, Bool, true, false, Option, none, some, List, [], ◌∷◌, ◌++◌, Result, ok, err, ◌==◌, ◌&&◌,
}
use mycorrhizal.Base.Bytes.{Bytes}
use mycorrhizal.Base.Maps.{lookup, put, del}
use mycorrhizal.Wire.Encode.{encode_stream_init}
use mycorrhizal.Net.{NetError, no_connection, Nodosum, Quic, keys}

-- `fmt.Sprintf("%s:%s:%s", nodeId, app, name)`
unfoldable pub stream_key : Bytes → Bytes → Bytes → Bytes
stream_key node app name = node ++ (b':' ∷ (app ++ (b':' ∷ name)))

-- `strings.HasPrefix`
unfoldable pub has_prefix : Bytes → Bytes → Bool
has_prefix [] s = true
has_prefix (p ∷ ps) [] = false
has_prefix (p ∷ ps) (b ∷ s) = b == p && has_prefix ps s

-- what is on the wire after a write that succeeds; a failed write leaves nothing that is read
unfoldable pub write_to : Quic → ℕ → Bytes → Nodosum → Option NetError × Nodosum
write_to q stream bytes n = elim (q.write stream bytes) [
  | some e ↦ (some e, n)
  | none ↦ (none, record n { written = n.written ++ (stream, bytes) ∷ [] })
]

-- the map entry and the read loop of a new stream, as `handleStream` and `getOrOpenQuicStream` make them
unfoldable pub register_stream : Bytes → ℕ → Nodosum → Nodosum
register_stream key stream n = record n {
  quic_application_streams = put key stream n.quic_application_streams;
  read_loops = (key, stream) ∷ n.read_loops;
}

-- The result of the first write is only logged.
unfoldable pub get_or_open_quic_stream :
    Quic → Bytes → Bytes → Bytes → Nodosum → Result NetError ℕ × Nodosum
get_or_open_quic_stream q node app name n =
    elim (lookup (stream_key node app name) n.quic_application_streams) [
      | some stream ↦ (ok stream, n)
      | none ↦ elim (lookup node n.quic_conns) [
        | none ↦ (err no_connection, n)
        | some conn ↦ elim (q.open_stream conn) [
          | err e ↦ (err e, n)
          | ok stream ↦ (
            ok stream,
            register_stream (stream_key node app name) stream
                (write_to q stream (encode_stream_init n.node_id app name) n).1,
          )
        ]
      ]
    ]

-- `closeQuicStream`, and one turn of the loops that close streams
unfoldable pub close_quic_stream : Bytes → Nodosum → Nodosum
close_quic_stream key n = elim (lookup key n.quic_application_streams) [
  | none ↦ n
  | some stream ↦ record n {
    quic_application_streams = del key n.quic_application_streams;
    closed_streams = stream ∷ n.closed_streams;
  }
]

unfoldable pub close_quic_streams : List Bytes → Nodosum → Nodosum
close_quic_streams [] n = n
close_quic_streams (key ∷ rest) n = close_quic_streams rest (close_quic_stream key n)

unfoldable pub close_all_quic_streams : Nodosum → Nodosum
close_all_quic_streams n = close_quic_streams (keys n.quic_application_streams) n

-- The deferred function of `streamReadLoop` closes the stream, and then removes the key under the
-- lock, which it does not release.
unfoldable pub close_read_loop : Bytes → ℕ → Nodosum → Nodosum
close_read_loop key stream n = record n {
  closed_streams = stream ∷ n.closed_streams;
  ended_loops = (key, stream) ∷ n.ended_loops;
}

unfoldable pub forget_stream : Bytes → Nodosum → Nodosum
forget_stream key n = record n {
  quic_application_streams = del key n.quic_application_streams;
  streams_locked = true;
}
