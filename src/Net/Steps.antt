-- ===== src/Net/Steps.antt =====
-- internal/nodosum: what a node does in any order, as steps of one critical section each. The
-- library's answers are arbitrary, but for its promise that a handle it returns is new.
use mycorrhizal.Base.{ℕ, ◌≡◌, Listed, false, Option, List, [], ◌∷◌, ◌++◌, ok, err}
use mycorrhizal.Base.Bytes.{Bytes}
use mycorrhizal.Net.{NetError, Nodosum, NodeMeta}
use mycorrhizal.Net.Conns.{handle_quic_conn, unregister_conn, drop_conn}
use mycorrhizal.Net.Streams.{register_stream, close_quic_streams, close_read_loop, forget_stream}
use mycorrhizal.Net.Delegate.{Member, begin_join, after_dial, forget_attempts}
use mycorrhizal.Net.Invariant.{IsNewConn}
use mycorrhizal.Net.Open.{IsNewStream}

-- `New`, once the library's parts are there
unfoldable pub new_nodosum : (node_id : Bytes) (quic_advertise_port : ℕ) → List NodeMeta → Nodosum
new_nodosum node_id port meta = record {
  node_id = node_id;
  node_meta = meta;
  quic_advertise_port = port;
  quic_conns = [];
  quic_application_streams = [];
  dial_attempts = [];
  dialling = [];
  read_loops = [];
  ended_loops = [];
  streams_locked = false;
  closed_conns = [];
  closed_streams = [];
  written = [];
  applications = [];
}

-- A step on the streams' map waits for its lock. `registers` is that of `handleStream` and of
-- `getOrOpenQuicStream`, and `closes` the turns of the loops that close streams.
pub data Step : Nodosum → Nodosum → Type 0 where
  begins :
      {n : Nodosum} (resolve : Bytes → Option Bytes) (m : Member)
      → Step n (begin_join resolve m n).1
  dial_fails :
      {n : Nodosum} (m : Member) (e : NetError)
      → Listed m.name n.dialling
      → Step n (after_dial m (err e) n).1
  dial_succeeds :
      {n : Nodosum} (m : Member) (c : ℕ)
      → Listed m.name n.dialling
      → IsNewConn c n
      → Step n (after_dial m (ok c) n).1
  accepts :
      {n : Nodosum} (common_name : Option Bytes) (c : ℕ)
      → IsNewConn c n
      → Step n (handle_quic_conn common_name c n).1
  unregisters : {n : Nodosum} (name : Bytes) (c : ℕ) → Step n (unregister_conn name c n)
  drops : {n : Nodosum} (name : Bytes) → Step n (drop_conn name n)
  forgets_attempts : {n : Nodosum} (name : Bytes) → Step n (forget_attempts name n)
  registers :
      {n : Nodosum} (key : Bytes) (s : ℕ)
      → IsNewStream s n
      → n.streams_locked ≡ false
      → Step n (register_stream key s n)
  closes :
      {n : Nodosum} (ks : List Bytes) → n.streams_locked ≡ false → Step n (close_quic_streams ks n)
  loop_closes :
      {n : Nodosum} (key : Bytes) (s : ℕ)
      → Listed (key, s) n.read_loops
      → Step n (close_read_loop key s n)
  loop_ends :
      {n : Nodosum} (key : Bytes) (s : ℕ)
      → Listed (key, s) n.ended_loops
      → n.streams_locked ≡ false
      → Step n (forget_stream key n)
  writes :
      {n : Nodosum} (s : ℕ) (bytes : Bytes)
      → Step n (record n { written = n.written ++ (s, bytes) ∷ [] })

pub data Reach : Nodosum → Nodosum → Type 0 where
  here : {n : Nodosum} → Reach n n
  after : {n o p : Nodosum} → Reach n o → Step o p → Reach n p
