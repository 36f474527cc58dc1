-- ===== src/Wire/Serve.antt =====
-- internal/nodosum/conn.go: `handleRequest` and `handleResponse`, which answer a request of another
-- node and hand a response to the call that waits for it. An application is a request handler and its
-- pending requests, each with what its channel of capacity one holds. The order of the applications is
-- that of the range over their map.
use mycorrhizal.Base.{
  ◌<◌, ◌^◌, ◌≡◌, refl, ap, Option, none, some, List, [], ◌∷◌, ◌++◌, append-nil, arith, All, ok, err,
  length,
}
use mycorrhizal.Base.Bytes.{Bytes, codes}
use mycorrhizal.Base.Maps.{lookup, put}
use mycorrhizal.Wire.Encode.{
  RequestFrame, ResponseFrame, request_body, response_body, encode_response_frame,
}
use mycorrhizal.Wire.Decode.{decode_request_frame, decode_response_frame}
use mycorrhizal.Wire.Fields.{decode_request_frame-request_body, decode_response_frame-response_body}

-- A handler's result is the payload, and the text of its error, which is empty without one. `inbox` is
-- what its receive worker has still to take.
pub record Application : Type 0 where
  pub request_handler : Option (Bytes → Bytes → Bytes × Bytes)
  pub pending_requests : List (Bytes × List ResponseFrame)
  pub inbox : List Bytes
  pub nodes : List Bytes

-- the response to a decoded request
unfoldable pub respond : List (Bytes × Application) → Bytes → Bytes → RequestFrame → ResponseFrame
respond apps app_id from_node req = elim (lookup app_id apps) [
  | none ↦ record {
    correlation_id = req.correlation_id;
    payload = [];
    error = codes "application not found or no request handler";
  }
  | some app ↦ elim app.request_handler [
    | none ↦ record {
      correlation_id = req.correlation_id;
      payload = [];
      error = codes "application not found or no request handler";
    }
    | some handler ↦ record {
      correlation_id = req.correlation_id;
      payload = (handler req.payload from_node).0;
      error = (handler req.payload from_node).1;
    }
  ]
]

-- what `handleRequest` writes to the stream
unfoldable pub handle_request : List (Bytes × Application) → Bytes → Bytes → Bytes → Option Bytes
handle_request apps app_id frame_data from_node = elim (decode_request_frame frame_data) [
  | err e ↦ none
  | ok req ↦ some (encode_response_frame (respond apps app_id from_node req))
]

-- a send that drops the response when the channel is full
unfoldable pub offer : ResponseFrame → List ResponseFrame → List ResponseFrame
offer resp [] = resp ∷ []
offer resp (r ∷ rs) = r ∷ rs

-- the loop of `handleResponse`: the first application that waits for the response gets it
unfoldable pub deliver : ResponseFrame → List (Bytes × Application) → List (Bytes × Application)
deliver resp [] = []
deliver resp ((name, app) ∷ apps) =
    let rest = deliver resp apps in
    elim (lookup resp.correlation_id app.pending_requests) [
      | none ↦ (name, app) ∷ rest
      | some channel ↦
          (
            name,
            record app {
              pending_requests = put resp.correlation_id (offer resp channel) app.pending_requests;
            },
          )
          ∷ apps
    ]

unfoldable pub handle_response : Bytes → List (Bytes × Application) → List (Bytes × Application)
handle_response frame_data apps = elim (decode_response_frame frame_data) [
  | err e ↦ apps
  | ok resp ↦ deliver resp apps
]

respond-correlation_id :
    (apps : List (Bytes × Application)) (app_id from_node : Bytes) (req : RequestFrame)
    → (respond apps app_id from_node req).correlation_id ≡ req.correlation_id
unfolding respond
respond-correlation_id apps app_id from_node req = ground arith

-- no application of the list waits for the response
abbrev pub NoneWaits : Bytes → List (Bytes × Application) → Type 0
NoneWaits id apps = All (λ (a : Bytes × Application). lookup id a.1.pending_requests ≡ none) apps

deliver-append :
    (resp : ResponseFrame) (before after : List (Bytes × Application)) (name : Bytes)
    (app : Application)
    → NoneWaits resp.correlation_id before
    → lookup resp.correlation_id app.pending_requests ≡ some []
    → deliver resp (before ++ (name, app) ∷ after)
      ≡ before
        ++ (
          name,
          record app {
            pending_requests = put resp.correlation_id (resp ∷ []) app.pending_requests;
          },
        )
          ∷ after
unfolding deliver offer
deliver-append resp [] after name app w h = rw (h, deliver, offer) refl
deliver-append resp ((n, a) ∷ before) after name app w h =
    rw (w.0, deliver) (ap (◌∷◌ (n, a)) (deliver-append resp before after name app w.1 h))

-- A request whose texts fit their length fields is answered, with or without a handler, by a RESPONSE
-- frame that carries the request's correlation id.
pub handle_request-correlation_id :
    (apps : List (Bytes × Application)) (app_id from_node : Bytes) (req : RequestFrame)
    → length req.correlation_id < 2 ^ 16
    → length req.payload < 2 ^ 32
    → (resp : ResponseFrame) × (handle_request apps app_id (request_body req) from_node
        ≡ some (encode_response_frame resp))
      × (resp.correlation_id ≡ req.correlation_id)
unfolding handle_request
handle_request-correlation_id apps app_id from_node req h k =
    let d : decode_request_frame (request_body req) ≡ ok req =
      rw append-nil at (decode_request_frame-request_body req [] h k) in
    (
      respond apps app_id from_node req,
      rw (d, handle_request) refl,
      respond-correlation_id apps app_id from_node req,
    )

-- A response whose texts fit their length fields reaches the first application that waits for its
-- correlation id, if the channel there is empty, and nothing else changes.
pub handle_response-response_body :
    (resp : ResponseFrame) (before after : List (Bytes × Application)) (name : Bytes)
    (app : Application)
    → length resp.correlation_id < 2 ^ 16
    → length resp.error < 2 ^ 16
    → length resp.payload < 2 ^ 32
    → NoneWaits resp.correlation_id before
    → lookup resp.correlation_id app.pending_requests ≡ some []
    → handle_response (response_body resp) (before ++ (name, app) ∷ after)
      ≡ before
        ++ (
          name,
          record app {
            pending_requests = put resp.correlation_id (resp ∷ []) app.pending_requests;
          },
        )
          ∷ after
unfolding handle_response
handle_response-response_body resp before after name app h e k w c =
    let d : decode_response_frame (response_body resp) ≡ ok resp =
      rw append-nil at (decode_response_frame-response_body resp [] h e k) in
    rw (d, handle_response) (deliver-append resp before after name app w c)

-- A request whose texts fit their length fields, for an application with a handler, is answered by the
-- RESPONSE frame with the request's correlation id and the handler's payload and error text.
pub handle_request-request_body :
    (apps : List (Bytes × Application)) (app_id from_node : Bytes) (req : RequestFrame)
    (app : Application) (handler : Bytes → Bytes → Bytes × Bytes)
    → length req.correlation_id < 2 ^ 16
    → length req.payload < 2 ^ 32
    → lookup app_id apps ≡ some app
    → app.request_handler ≡ some handler
    → handle_request apps app_id (request_body req) from_node
      ≡ some (
          encode_response_frame (record {
            correlation_id = req.correlation_id;
            payload = (handler req.payload from_node).0;
            error = (handler req.payload from_node).1;
          }))
unfolding handle_request respond
handle_request-request_body apps app_id from_node req app handler h k l m =
    let d : decode_request_frame (request_body req) ≡ ok req =
      rw append-nil at (decode_request_frame-request_body req [] h k) in
    rw (d, handle_request, respond, l, m) refl
