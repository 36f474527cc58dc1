-- ===== src/Net/Tests.antt =====
-- internal/nodosum: a node called a, and others.
use mycorrhizal.Base.{
  dec_lt, ◌%◌, ◌^◌, ℕ, ◌<◌, ◌≤◌, ◌≡◌, ◌≢◌, refl, inl, true, false, Option, none, some, List, [],
  ◌∷◌, ◌++◌, map, Result, ok, err, length, arith,
}
use mycorrhizal.Base.Bytes.{Bytes, Bytes-discrete, codes}
use mycorrhizal.Base.Decimal.{itoa}
use mycorrhizal.Base.Maps.{lookup, put, del}
use mycorrhizal.Wire.Encode.{ResponseFrame, request_body, response_body, encode_response_frame}
use mycorrhizal.Wire.Serve.{Application, handle_request, NoneWaits}
use mycorrhizal.Wire.Stream.{read_stream_init}
use mycorrhizal.Wire.Loop.{stream_read_loop}
use mycorrhizal.Wire.Messages.{payload, event}
use mycorrhizal.Net.{has_handle, NetError, quic_failed, Nodosum, Quic}
use mycorrhizal.Net.Streams.{
  register_stream, write_to, get_or_open_quic_stream, close_read_loop, forget_stream, stream_key,
}
use mycorrhizal.Net.Conns.{handle_quic_conn, register_conn}
use mycorrhizal.Net.Delegate.{
  Member, join_now, topology_changed, node_meta_bytes, notify_join, notify_alive, notify_leave,
  after_dial, forget_attempts,
}
use mycorrhizal.Net.Steps.{
  new_nodosum, Step, accepts, registers, loop_closes, loop_ends, here, after,
}
use mycorrhizal.Net.Reachable.{IsNet, reachable-IsNet}
use mycorrhizal.Net.Locked.{Reach-forget_stream}
use mycorrhizal.Net.Leave.{IsGone, notify_leave-IsGone}
use mycorrhizal.Net.Dial.{retries, sum, retries-bounded}
use mycorrhizal.Net.Recovery.{notify_alive-notify_join}
use mycorrhizal.Net.Silent.{handle_quic_conn-notify_join}
use mycorrhizal.Net.Apps.{
  register_application, update_application, wait_for, alive_ids, send_request_frame, begin_request,
  take_response, timed_out, received, request, is_waiting,
}
use mycorrhizal.Net.Ordered.{send_payloads, sent_on, stream_read_loop-send_payloads}
use mycorrhizal.Net.Requests.{answered, request-is_waiting, request-handle_request}

abbrev start : Nodosum
start = new_nodosum (codes "a") 7000 []

-- a connection of b, a stream on it, and the end of the stream's read loop
abbrev key : Bytes
key = codes "b:cache:data"

abbrev connected : Nodosum
connected = (handle_quic_conn (some (codes "b")) 1 start).1

abbrev streaming : Nodosum
streaming = register_stream key 5 connected

abbrev ended : Nodosum
ended = forget_stream key (close_read_loop key 5 streaming)

connecting : Step start connected
unfolding new_nodosum has_handle
connecting =
    accepts (some (codes "b")) 1
      (record { not_closed = refl; not_used = λ k h. absurd (ground arith) })

opening : Step connected streaming
unfolding new_nodosum handle_quic_conn register_conn Bytes-discrete has_handle
opening = registers key 5 (record { not_closed = refl; not_looped = λ k l. elim l [ ] }) refl

closing : Step streaming (close_read_loop key 5 streaming)
unfolding new_nodosum register_stream
closing = loop_closes key 5 (inl refl)

ending : Step (close_read_loop key 5 streaming) ended
unfolding new_nodosum register_stream close_read_loop handle_quic_conn register_conn Bytes-discrete
ending = loop_ends key 5 (inl refl) refl

reachable-IsNet_example : IsNet ended
reachable-IsNet_example =
    reachable-IsNet (codes "a") 7000 []
      (after (after (after (after here connecting) opening) closing) ending)

Reach-forget_stream_example :
    ended.quic_application_streams
    ≡ del key (close_read_loop key 5 streaming).quic_application_streams
Reach-forget_stream_example = Reach-forget_stream key (close_read_loop key 5 streaming) here

abbrev peer : Nodosum
peer = new_nodosum (codes "b") 53 []

abbrev member : Member
member = record { name = codes "b"; addr = codes "10.0.0.2"; meta = node_meta_bytes peer }

notify_leave-IsGone_example : IsGone (codes "b") streaming (notify_leave member streaming).1
notify_leave-IsGone_example = notify_leave-IsGone member streaming

-- the whole text is its own resolution
abbrev resolve : Bytes → Option Bytes
resolve text = some text

abbrev refuse : ℕ → Bytes → Bytes → Result NetError ℕ
refuse fuel address name = err quic_failed

retries-bounded_example :
    (waits : List ℕ) × (retries 5 resolve refuse member start ≡ some waits)
    × (length waits ≤ 4)
    × (sum waits ≤ 3000)
retries-bounded_example = retries-bounded resolve refuse member start

abbrev accept : Bytes → Bytes → Result NetError ℕ
accept address name = ok 1

is_other : codes "b" ≢ start.node_id
unfolding new_nodosum
is_other e = absurd (ground arith)

is_absent : lookup (codes "b") start.quic_conns ≡ none
unfolding new_nodosum
is_absent = refl

is_resolved :
    resolve (codes "10.0.0.2:" ++ itoa (peer.quic_advertise_port % 2 ^ 16))
    ≡ some (codes "10.0.0.2:53")
unfolding new_nodosum itoa dec_lt
is_resolved = refl

notify_alive-notify_join_example :
    (notify_alive (λ c. false) member start ≡ (join_now member ∷ [], start))
    × ((notify_join resolve accept member start).0 ≡ topology_changed (codes "b") true ∷ [])
    × (lookup (codes "b") (notify_join resolve accept member start).1.quic_conns ≡ some 1)
    × (lookup (codes "b") (notify_join resolve accept member start).1.dial_attempts ≡ none)
notify_alive-notify_join_example =
    notify_alive-notify_join resolve member peer start (codes "10.0.0.2:53") is_other refl is_absent
      is_resolved (λ c. false) accept 1 refl

-- one stream, on which every write succeeds
abbrev q : Quic
q = record { open_stream = λ conn. ok 5; write = λ stream bytes. none }

-- a connection that this node dialled, so that the other end accepts its streams
abbrev dialled : Nodosum
dialled = (after_dial member (ok 1) start).1

dialled_conn : lookup (codes "b") dialled.quic_conns ≡ some 1
unfolding new_nodosum after_dial forget_attempts Bytes-discrete put
dialled_conn = refl

no_stream :
    lookup (stream_key (codes "b") (codes "cache") (codes "data")) dialled.quic_application_streams
    ≡ none
unfolding new_nodosum after_dial forget_attempts
no_stream = refl

nothing_sent : sent_on 5 dialled.written ≡ []
unfolding new_nodosum after_dial forget_attempts sent_on
nothing_sent = refl

short_id : length dialled.node_id < 2 ^ 16
unfolding new_nodosum after_dial forget_attempts
short_id = omega arith

stream_read_loop-send_payloads_example :
    (rest : Bytes) × (read_stream_init (
        sent_on 5
          (send_payloads q
            (codes "cache")
            (codes "b")
            (codes "x" ∷ codes "y" ∷ [])
            dialled).written)
      ≡ ok (some (dialled.node_id, codes "cache", codes "data"), rest))
    × (stream_read_loop 3 rest ≡ some (map event (payload (codes "x") ∷ payload (codes "y") ∷ [])))
stream_read_loop-send_payloads_example =
    stream_read_loop-send_payloads q (codes "cache") (codes "b") 5 (λ bytes. refl) dialled 1 3
      (codes "x") (codes "y" ∷ []) no_stream dialled_conn refl nothing_sent short_id (omega arith)
      (omega arith, (omega arith, tt)) (omega arith)

request-is_waiting_example :
    is_waiting
      (codes "cache")
      (codes "c1")
      (request q
        (codes "cache")
        (codes "c1")
        (codes "get")
        (codes "b")
        (λ o. (o, timed_out))
        (register_application (codes "cache") connected)).1
    ≡ false
request-is_waiting_example =
    request-is_waiting q (codes "cache") (codes "c1") (codes "get") (codes "b")
      (λ o. (o, timed_out)) (register_application (codes "cache") connected)

abbrev asking : Nodosum
asking = register_application (codes "cache") connected

abbrev app : Application
app = record { request_handler = none; pending_requests = []; inbox = []; nodes = [] }

is_registered : lookup (codes "cache") asking.applications ≡ some app
unfolding new_nodosum handle_quic_conn register_conn Bytes-discrete register_application put
    alive_ids
is_registered = refl

is_fresh : NoneWaits (codes "c1") asking.applications
unfolding new_nodosum handle_quic_conn register_conn Bytes-discrete register_application put
is_fresh = (refl, tt)

is_sent :
    (send_request_frame q
      (codes "cache")
      (record { correlation_id = codes "c1"; payload = codes "get" })
      (codes "b")
      (update_application (codes "cache") (wait_for (codes "c1")) asking)).0
    ≡ none
unfolding new_nodosum handle_quic_conn register_conn Bytes-discrete register_application put
    alive_ids send_request_frame get_or_open_quic_stream register_stream write_to update_application
    wait_for
is_sent = refl

abbrev serving : Application
serving = record {
  request_handler = some (λ p from. (codes "pong", []));
  pending_requests = [];
  inbox = [];
  nodes = [];
}

abbrev peer_apps : List (Bytes × Application)
peer_apps = (codes "cache", serving) ∷ []

is_served : lookup (codes "cache") peer_apps ≡ some serving
unfolding Bytes-discrete
is_served = refl

request-handle_request_example :
    (resp : ResponseFrame) × ((begin_request q
        (codes "cache")
        (codes "c1")
        (codes "get")
        (codes "b")
        asking).0
      ≡ none)
    × (handle_request peer_apps
          (codes "cache")
          (request_body (record { correlation_id = codes "c1"; payload = codes "get" }))
          (codes "a")
        ≡ some (encode_response_frame resp))
    × (take_response (codes "cache") (codes "c1") (
          answered
            (response_body resp)
            (begin_request q (codes "cache") (codes "c1") (codes "get") (codes "b") asking).1)
        ≡ some resp)
    × ((request q
          (codes "cache")
          (codes "c1")
          (codes "get")
          (codes "b")
          (λ o. (answered (response_body resp) o, received resp))
          asking).0
        ≡ ok (codes "pong"))
request-handle_request_example =
    request-handle_request q (codes "cache") (codes "c1") (codes "get") (codes "b") asking app
      is_registered peer_apps (codes "a") serving (λ p from. (codes "pong", [])) is_fresh is_sent
      is_served refl (omega arith) (omega arith) (omega arith) (omega arith)

handle_quic_conn-notify_join_example :
    (lookup (codes "b") (handle_quic_conn (some (codes "b")) 1 start).1.quic_conns ≡ some 1)
    × ((notify_join resolve accept member (handle_quic_conn (some (codes "b")) 1 start).1).0 ≡ [])
handle_quic_conn-notify_join_example =
    handle_quic_conn-notify_join start b'b' [] 1 is_other is_absent resolve accept
      (codes "10.0.0.2") (node_meta_bytes peer)
