-- ===== src/Net/Apps.antt =====
-- internal/nodosum/application.go: registering, sending and requesting. An application is found by its
-- identifier in the state. The `select` of a request is its `Wake`, and how long it
-- waits is left out.
use mycorrhizal.Base.{
  ℕ, ◌+◌, Bool, true, false, Option, none, some, List, [], ◌∷◌, ◌++◌, Result, ok, err, length, ltb,
  ◌==◌, if◌then◌else◌,
}
use mycorrhizal.Base.Bytes.{Bytes, codes}
use mycorrhizal.Base.Maps.{lookup, put, del}
use mycorrhizal.Wire.Encode.{RequestFrame, ResponseFrame, encode_data_frame, encode_request_frame}
use mycorrhizal.Wire.Serve.{Application}
use mycorrhizal.Net.{
  NetError, no_connected_nodes, send_failed, remote_error, request_timeout, context_cancelled,
  Nodosum, NodeMeta, Quic, get_connected_nodes,
}
use mycorrhizal.Net.Streams.{write_to, get_or_open_quic_stream}

unfoldable pub alive_ids : List NodeMeta → List Bytes
alive_ids [] = []
alive_ids (meta ∷ metas) = let rest = alive_ids metas in if meta.alive then meta.id ∷ rest else rest

-- `RegisterApplication`, which replaces an application of the same identifier
unfoldable pub register_application : Bytes → Nodosum → Nodosum
register_application app_id n = record n {
  applications =
      put app_id
        (record {
          request_handler = none;
          pending_requests = [];
          inbox = [];
          nodes = alive_ids n.node_meta;
        })
        n.applications;
}

unfoldable pub get_application : Bytes → Nodosum → Option Application
get_application app_id n = lookup app_id n.applications

-- a change of the application object
unfoldable pub update_application : Bytes → (Application → Application) → Nodosum → Nodosum
update_application app_id f n = elim (lookup app_id n.applications) [
  | none ↦ n
  | some app ↦ record n { applications = put app_id (f app) n.applications }
]

unfoldable pub set_request_handler : (Bytes → Bytes → Bytes × Bytes) → Application → Application
set_request_handler handler app = record app { request_handler = some handler }

-- `routeToApplication`: whether the payload reached the channel of capacity 100, from which the
-- application takes nothing while this waits
unfoldable pub route_to_application : Bytes → Bytes → Nodosum → Bool × Nodosum
route_to_application app_id payload n = elim (lookup app_id n.applications) [
  | none ↦ (false, n)
  | some app ↦
      if ltb (length app.inbox) 100
      then (
        true,
        record n {
          applications =
              put app_id (record app { inbox = app.inbox ++ payload ∷ [] }) n.applications;
        },
      )
      else (false, n)
]

-- one turn of the loop of `Send`
unfoldable pub send_to : Quic → Bytes → Bytes → Bytes → Nodosum → Option NetError × Nodosum
send_to q app_id payload node n =
    let (r, n') = get_or_open_quic_stream q node app_id (codes "data") n in
    elim r [ err e ↦ (some e, n') | ok stream ↦ write_to q stream (encode_data_frame payload) n' ]

unfoldable pub count_error : Option NetError → ℕ
count_error none = 0
count_error (some e) = 1

-- the loop of `Send`: how many targets it missed
unfoldable pub send_all : Quic → Bytes → Bytes → List Bytes → Nodosum → ℕ × Nodosum
send_all q app_id payload [] n = (0, n)
send_all q app_id payload (node ∷ nodes) n =
    let (e, n') = send_to q app_id payload node n in
    let (failed, n'') = send_all q app_id payload nodes n' in (count_error e + failed, n'')

unfoldable pub send_targets :
    Quic → Bytes → Bytes → List Bytes → Nodosum → Option NetError × Nodosum
send_targets q app_id payload [] n = (some no_connected_nodes, n)
send_targets q app_id payload (node ∷ nodes) n =
    let (failed, n') = send_all q app_id payload (node ∷ nodes) n in
    (if ltb 0 failed then some (send_failed failed (length (node ∷ nodes))) else none, n')

-- `Send`, which sends to all connected nodes where it is given none
unfoldable pub send : Quic → Bytes → Bytes → List Bytes → Nodosum → Option NetError × Nodosum
send q app_id payload ids n =
    send_targets q app_id payload (if length ids == 0 then get_connected_nodes n else ids) n

unfoldable pub send_request_frame :
    Quic → Bytes → RequestFrame → Bytes → Nodosum → Option NetError × Nodosum
send_request_frame q app_id req node n =
    let (r, n') = get_or_open_quic_stream q node app_id (codes "request") n in
    elim r [ err e ↦ (some e, n') | ok stream ↦ write_to q stream (encode_request_frame req) n' ]

-- a new channel of capacity one for the correlation id, and its removal
unfoldable pub wait_for : Bytes → Application → Application
wait_for id app = record app { pending_requests = put id [] app.pending_requests }

unfoldable pub stop_waiting : Bytes → Application → Application
stop_waiting id app = record app { pending_requests = del id app.pending_requests }

-- `Request` up to its wait; `id` is the new correlation id
unfoldable pub begin_request :
    Quic → Bytes → Bytes → Bytes → Bytes → Nodosum → Option NetError × Nodosum
begin_request q app_id id payload node n =
    let (e, n') =
      send_request_frame q app_id (record { correlation_id = id; payload = payload }) node
        (update_application app_id (wait_for id) n) in
    elim e [ none ↦ (none, n') | some x ↦ (some x, update_application app_id (stop_waiting id) n') ]

-- what ends the wait
pub data Wake : Type 0 where
  received : ResponseFrame → Wake
  timed_out : Wake
  context_done : Wake

unfoldable pub outcome : Wake → Result NetError Bytes
outcome (received resp) =
    if length resp.error == 0 then ok resp.payload else err (remote_error resp.error)
outcome timed_out = err request_timeout
outcome context_done = err context_cancelled

-- the response that the channel of the request holds
unfoldable pub take_response : Bytes → Bytes → Nodosum → Option ResponseFrame
take_response app_id id n = elim (lookup app_id n.applications) [
  | none ↦ none
  | some app ↦ elim (lookup id app.pending_requests) [
    | none ↦ none
    | some [] ↦ none
    | some (resp ∷ rest) ↦ some resp
  ]
]

-- `Request` after its wait, with its deferred function
unfoldable pub finish_request : Bytes → Bytes → Wake → Nodosum → Result NetError Bytes × Nodosum
finish_request app_id id wake n = (outcome wake, update_application app_id (stop_waiting id) n)

-- `Request`, where `during` is what happens while it waits, and what ends the wait
unfoldable pub request :
    Quic
    → Bytes
    → Bytes
    → Bytes
    → Bytes
    → (during : Nodosum → Nodosum × Wake) → Nodosum
    → Result NetError Bytes × Nodosum
request q app_id id payload node during n =
    let (e, n') = begin_request q app_id id payload node n in
    let (n'', wake) = during n' in
    elim e [ some x ↦ (err x, n') | none ↦ finish_request app_id id wake n'' ]

-- whether a response with the correlation id would find a channel of the application
unfoldable pub is_waiting : Bytes → Bytes → Nodosum → Bool
is_waiting app_id id n = elim (lookup app_id n.applications) [
  | none ↦ false
  | some app ↦ elim (lookup id app.pending_requests) [ none ↦ false | some channel ↦ true ]
]
