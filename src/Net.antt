-- ===== src/Net.antt =====
-- internal/nodosum: the connections and streams of one node, and what keeps them up. Connections and
-- streams are handles of the QUIC library, here numbers; the library's answers are arguments. The
-- state keeps what the code does to them: which it closed, and what it wrote to which stream.
-- Metrics, log lines and TLS are left out, but for the server name of a dial.
pub mod Conns
pub mod Streams
pub mod Delegate
pub mod Invariant
pub mod Open
pub mod Steps
pub mod Startup
pub mod Views
pub mod Reachable
pub mod Locked
pub mod Leave
pub mod Dial
pub mod Recovery
pub mod Silent
pub mod Apps
pub mod Ordered
pub mod Requests
mod Tests
use mycorrhizal.Base.{
  ℕ, Bool, true, false, Option, none, some, List, [], ◌∷◌, ◌++◌, Result, ok, err, ◌==◌,
  if◌then◌else◌, ite,
}
use mycorrhizal.Base.Bytes.{Bytes, Bytes-discrete}
use mycorrhizal.Wire.Serve.{Application}

-- errors of the library and of this package; a failed broadcast counts the nodes that it missed
pub data NetError : Type 0 where
  quic_failed : NetError
  no_connection : NetError
  no_connected_nodes : NetError
  send_failed : ℕ → ℕ → NetError
  remote_error : Bytes → NetError
  request_timeout : NetError
  context_cancelled : NetError

pub record NodeMeta : Type 0 where
  pub addr : Bytes
  pub connect_port : Bytes
  pub id : Bytes
  pub alive : Bool

-- `Nodosum`, with the dial attempts of its delegate. `dialling` are the nodes whose dial is under way,
-- each in a goroutine; `read_loops` are the streams that were given a read loop, each with its key, and
-- `ended_loops` those whose read loop has closed them. `streams_locked` is the lock of the streams' map
-- where nobody will release it.
pub record Nodosum : Type 0 where
  pub node_id : Bytes
  pub node_meta : List NodeMeta
  pub quic_advertise_port : ℕ
  pub quic_conns : List (Bytes × ℕ)
  pub quic_application_streams : List (Bytes × ℕ)
  pub dial_attempts : List (Bytes × ℕ)
  pub dialling : List Bytes
  pub read_loops : List (Bytes × ℕ)
  pub ended_loops : List (Bytes × ℕ)
  pub streams_locked : Bool
  pub closed_conns : List ℕ
  pub closed_streams : List ℕ
  pub written : List (ℕ × Bytes)
  pub applications : List (Bytes × Application)

-- what the library answers: a new stream of a connection, and whether a write of the bytes succeeds
pub record Quic : Type 0 where
  pub open_stream : ℕ → Result NetError ℕ
  pub write : ℕ → Bytes → Option NetError

-- a handle of the list
unfoldable pub has_handle : ℕ → List ℕ → Bool
has_handle h [] = false
has_handle h (x ∷ xs) = if h == x then true else has_handle h xs

-- the keys of a map, in the order of a range over it
unfoldable pub keys : {V : Type 0} → List (Bytes × V) → List Bytes
keys [] = []
keys ((k, v) ∷ m) = k ∷ keys m

-- the names that are not this one
unfoldable pub other_names : Bytes → List Bytes → List Bytes
other_names self [] = []
other_names self (id ∷ ids) =
    let rest = other_names self ids in ite (Bytes-discrete self id) rest (id ∷ rest)

-- `getConnectedNodes`
unfoldable pub get_connected_nodes : Nodosum → List Bytes
get_connected_nodes n = other_names n.node_id (keys n.quic_conns)
