-- ===== src/Net/Reachable.antt =====
-- internal/nodosum: a node after any sequence of its steps.
use mycorrhizal.Base.{arith, ℕ, refl, List, ok, err}
use mycorrhizal.Base.Bytes.{Bytes}
use mycorrhizal.Net.{Nodosum, NodeMeta}
use mycorrhizal.Net.Streams.{register_stream, close_read_loop, forget_stream}
use mycorrhizal.Net.Delegate.{forget_attempts}
use mycorrhizal.Net.Invariant.{
  IsConns, begin_join-IsConns, dial_failed-IsConns, dial_succeeded-IsConns,
  handle_quic_conn-IsConns, unregister_conn-IsConns, drop_conn-IsConns,
}
use mycorrhizal.Net.Open.{
  IsStreams, register_stream-IsStreams, close_quic_streams-IsStreams, close_read_loop-IsStreams,
  forget_stream-IsStreams,
}
use mycorrhizal.Net.Steps.{
  new_nodosum, Step, begins, dial_fails, dial_succeeds, accepts, unregisters, drops,
  forgets_attempts, registers, closes, loop_closes, loop_ends, writes, Reach, here, after,
}
use mycorrhizal.Net.Views.{
  stream_view-IsStreams, conn_view-IsConns, begin_join-stream_view, after_dial-stream_view,
  handle_quic_conn-stream_view, unregister_conn-stream_view, drop_conn-stream_view,
  close_quic_streams-conn_view,
}

pub record IsNet (n : Nodosum) : Type 0 where
  pub conns : IsConns n
  pub streams : IsStreams n

Step-IsNet : {n o : Nodosum} → Step n o → IsNet n → IsNet o
unfolding register_stream close_read_loop forget_stream forget_attempts
Step-IsNet {n} (begins resolve m) w = record {
  conns = begin_join-IsConns w.conns resolve m;
  streams = stream_view-IsStreams (begin_join-stream_view resolve m n) w.streams;
}
Step-IsNet {n} (dial_fails m e l) w = record {
  conns = dial_failed-IsConns w.conns m e;
  streams = stream_view-IsStreams (after_dial-stream_view m (err e) n) w.streams;
}
Step-IsNet {n} (dial_succeeds m c l new) w = record {
  conns = dial_succeeded-IsConns w.conns m c l new;
  streams = stream_view-IsStreams (after_dial-stream_view m (ok c) n) w.streams;
}
Step-IsNet {n} (accepts name c new) w = record {
  conns = handle_quic_conn-IsConns w.conns name c new;
  streams = stream_view-IsStreams (handle_quic_conn-stream_view name c n) w.streams;
}
Step-IsNet {n} (unregisters name c) w = record {
  conns = unregister_conn-IsConns w.conns name c;
  streams = stream_view-IsStreams (unregister_conn-stream_view name c n) w.streams;
}
Step-IsNet {n} (drops name) w = record {
  conns = drop_conn-IsConns w.conns name;
  streams = stream_view-IsStreams (drop_conn-stream_view name n) w.streams;
}
Step-IsNet (forgets_attempts name) w = record {
  conns = conn_view-IsConns refl w.conns;
  streams = stream_view-IsStreams refl w.streams;
}
Step-IsNet (registers key s new free) w = record {
  conns = conn_view-IsConns refl w.conns;
  streams = register_stream-IsStreams w.streams key s new;
}
Step-IsNet {n} (closes ks free) w = record {
  conns = conn_view-IsConns (close_quic_streams-conn_view ks n) w.conns;
  streams = close_quic_streams-IsStreams ks n w.streams;
}
Step-IsNet (loop_closes key s l) w = record {
  conns = conn_view-IsConns refl w.conns;
  streams = close_read_loop-IsStreams w.streams key s l;
}
Step-IsNet (loop_ends key s l free) w = record {
  conns = conn_view-IsConns refl w.conns;
  streams = forget_stream-IsStreams w.streams key;
}
Step-IsNet (writes s bytes) w = record {
  conns = conn_view-IsConns refl w.conns;
  streams = stream_view-IsStreams refl w.streams;
}

new_nodosum-IsNet :
    (node_id : Bytes) (port : ℕ) (meta : List NodeMeta) → IsNet (new_nodosum node_id port meta)
unfolding new_nodosum
new_nodosum-IsNet node_id port meta = record {
  conns = record {
    no_self = refl;
    no_self_dial = λ k l. elim l [ ];
    conn_unclosed = λ k c h. absurd (ground arith);
    conn_owned = λ k j c h i. absurd (ground arith);
  };
  streams = record {
    stream_unclosed = λ k s h c. absurd (ground arith);
    stream_looped = λ k s h. absurd (ground arith);
    loop_owned = λ k j s h i. elim h [ ];
  };
}

Reach-IsNet : {n o : Nodosum} → Reach n o → IsNet n → IsNet o
Reach-IsNet here w = w
Reach-IsNet (after r s) w = Step-IsNet s (Reach-IsNet r w)

-- Whatever a node does after its construction, in any order of its critical sections: it has no
-- connection to itself and dials none; each connection of the map is one that this node has not closed,
-- and is that of one node; a stream of the map that this node has closed is one whose read loop has
-- closed it and has still to remove it; each stream of the map has a read loop under its key, and no
-- stream under two keys.
pub reachable-IsNet :
    (node_id : Bytes) (port : ℕ) (meta : List NodeMeta) {n : Nodosum}
    → Reach (new_nodosum node_id port meta) n
    → IsNet n
reachable-IsNet node_id port meta r = Reach-IsNet r (new_nodosum-IsNet node_id port meta)
