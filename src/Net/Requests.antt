-- ===== src/Net/Requests.antt =====
-- internal/nodosum/application.go: a request, its handling by the other node, and its end.
use mathlib.Core.Option.{some-injective}
use mathlib.Core.Logic.{if_pos, if_neg}
use mycorrhizal.Base.{
  ℕ, ◌<◌, ◌^◌, ◌≡◌, ◌⊎◌, inl, inr, refl, ◌∙◌, sym, ap, false, none, some, Option-cases,
  Result-cases, List, [], ◌∷◌, append-nil, All, ok, err, length, ◌==◌, ite, if◌then◌else◌, arith,
}
use mycorrhizal.Base.Bytes.{Bytes, Bytes-discrete, codes}
use mycorrhizal.Base.Maps.{lookup, put, lookup-put_self, lookup-del_self}
use mycorrhizal.Wire.Encode.{
  RequestFrame, ResponseFrame, request_body, response_body, encode_response_frame,
}
use mycorrhizal.Wire.Decode.{decode_response_frame}
use mycorrhizal.Wire.Fields.{decode_response_frame-response_body}
use mycorrhizal.Wire.Serve.{
  Application, NoneWaits, offer, deliver, handle_request, handle_response,
  handle_request-request_body,
}
use mycorrhizal.Net.{remote_error, Nodosum, Quic}
use mycorrhizal.Net.Streams.{stream_key, write_to, get_or_open_quic_stream, register_stream}
use mycorrhizal.Net.Apps.{
  update_application, wait_for, stop_waiting, send_request_frame, begin_request, take_response,
  received, Wake, outcome, finish_request, request, is_waiting,
}

-- only the application of the identifier waits for the response
abbrev pub WaitsOnly : Bytes → Bytes → List (Bytes × Application) → Type 0
WaitsOnly id app_id apps =
    All (λ (a : Bytes × Application). (a.0 ≡ app_id) ⊎ (lookup id a.1.pending_requests ≡ none)) apps

put-WaitsOnly :
    (id app_id : Bytes) (app : Application) (apps : List (Bytes × Application))
    → NoneWaits id apps
    → WaitsOnly id app_id (put app_id app apps)
unfolding put
put-WaitsOnly id app_id app [] w = (inl refl, tt)
put-WaitsOnly id app_id app ((name, a) ∷ apps) w =
    elim (Bytes-discrete name app_id)
      as (λ d.
        WaitsOnly id app_id (ite d ((app_id, app) ∷ apps) ((name, a) ∷ put app_id app apps))) [
          | yes e ↦ (inl refl, none_waits apps w.1)
          | no e ↦ (inr w.0, put-WaitsOnly id app_id app apps w.1)
        ]
  where
    none_waits : (apps : List (Bytes × Application)) → NoneWaits id apps → WaitsOnly id app_id apps
    none_waits [] w = tt
    none_waits (a ∷ apps) w = (inr w.0, none_waits apps w.1)

deliver-WaitsOnly :
    (resp : ResponseFrame) (app_id : Bytes) (app : Application) (apps : List (Bytes × Application))
    → WaitsOnly resp.correlation_id app_id apps
    → lookup app_id apps ≡ some app
    → lookup resp.correlation_id app.pending_requests ≡ some []
    → lookup app_id (deliver resp apps)
      ≡ some (record app {
        pending_requests = put resp.correlation_id (resp ∷ []) app.pending_requests;
      })
unfolding deliver offer
deliver-WaitsOnly resp app_id app [] w l c = absurd (ground arith)
deliver-WaitsOnly resp app_id app ((name, a) ∷ apps) w l c = elim (Bytes-discrete name app_id) [
  | yes e ↦
      let same : a ≡ app =
        some-injective _ _
          (sym (if_pos (Bytes-discrete name app_id) e (some a) (lookup app_id apps)) ∙ l) in
      let c' : lookup resp.correlation_id a.pending_requests ≡ some [] = rw (sym same) at c in
      rw (c', deliver, offer)
        (if_pos (Bytes-discrete name app_id) e _ _
          ∙ ap
              (λ (x : Application). some (record x {
                pending_requests = put resp.correlation_id (resp ∷ []) x.pending_requests;
              }))
              same)
  | no e ↦
      let l' : lookup app_id apps ≡ some app =
        sym (if_neg (Bytes-discrete name app_id) e (some a) (lookup app_id apps)) ∙ l in
      elim w.0 [
        | inl f ↦ absurd (e f)
        | inr f ↦
            rw (f, deliver)
              (if_neg (Bytes-discrete name app_id) e _ _
                ∙ deliver-WaitsOnly resp app_id app apps w.1 l' c)
      ]
]

module _ (q : Quic) where
  write_to-applications :
      (s : ℕ) (bytes : Bytes) (n : Nodosum) → (write_to q s bytes n).1.applications ≡ n.applications
  unfolding write_to
  write_to-applications s bytes n = elim (Option-cases (q.write s bytes)) [
    | inl o ↦ rw (o, write_to) refl
    | inr (e, o) ↦ rw (o, write_to) refl
  ]

  get_or_open_quic_stream-applications :
      (node app_id name : Bytes) (n : Nodosum)
      → (get_or_open_quic_stream q node app_id name n).1.applications ≡ n.applications
  unfolding get_or_open_quic_stream register_stream
  get_or_open_quic_stream-applications node app_id name n =
      elim (Option-cases (lookup (stream_key node app_id name) n.quic_application_streams)) [
        | inr (s, k) ↦ rw (k, get_or_open_quic_stream) refl
        | inl k ↦ elim (Option-cases (lookup node n.quic_conns)) [
          | inl c ↦ rw (k, get_or_open_quic_stream, c) refl
          | inr (conn, c) ↦ elim (Result-cases (q.open_stream conn)) [
            | inr (e, o) ↦ rw (k, get_or_open_quic_stream, c, o) refl
            | inl (s, o) ↦ rw (k, get_or_open_quic_stream, c, o) (write_to-applications s _ n)
          ]
        ]
      ]

  send_request_frame-applications :
      (app_id : Bytes) (req : RequestFrame) (node : Bytes) (n : Nodosum)
      → (send_request_frame q app_id req node n).1.applications ≡ n.applications
  unfolding send_request_frame
  send_request_frame-applications app_id req node n =
      elim (Result-cases (get_or_open_quic_stream q node app_id (codes "request") n).0) [
        | inr (e, o) ↦
            rw (o, send_request_frame)
              (get_or_open_quic_stream-applications node app_id (codes "request") n)
        | inl (s, o) ↦
            rw (o, send_request_frame)
              (write_to-applications s _ _
                ∙ get_or_open_quic_stream-applications node app_id (codes "request") n)
      ]

stop_waiting-is_waiting :
    (app_id id : Bytes) (n : Nodosum)
    → is_waiting app_id id (update_application app_id (stop_waiting id) n) ≡ false
unfolding update_application stop_waiting is_waiting
stop_waiting-is_waiting app_id id n = elim (Option-cases (lookup app_id n.applications)) [
  | inl o ↦ rw (o, update_application) (rw (o, is_waiting) refl)
  | inr (a, o) ↦ rw (o, update_application, is_waiting, lookup-put_self, lookup-del_self) refl
]

-- However a request ends, by an error of its sending, a response, its time-out or the end of the
-- context, and whatever happens while it waits: when it returns, its entry is no longer among the
-- pending requests of the application.
pub request-is_waiting :
    (q : Quic) (app_id id payload node : Bytes) (during : Nodosum → Nodosum × Wake) (n : Nodosum)
    → is_waiting app_id id (request q app_id id payload node during n).1 ≡ false
unfolding request begin_request finish_request
request-is_waiting q app_id id payload node during n =
    let sent =
      send_request_frame q app_id (record { correlation_id = id; payload = payload }) node
        (update_application app_id (wait_for id) n) in
    elim (Option-cases sent.0) [
      | inl o ↦ rw (o, begin_request, request) (stop_waiting-is_waiting app_id id _)
      | inr (x, o) ↦
          rw (o, begin_request, request)
            (rw (o, begin_request) (stop_waiting-is_waiting app_id id _))
    ]

-- `handleResponse` runs on the applications while the request waits.
abbrev pub answered : Bytes → Nodosum → Nodosum
answered frame_data o = record o { applications = handle_response frame_data o.applications }

module _ (q : Quic) (app_id id payload node : Bytes) (n : Nodosum) (app : Application)
    (registered : lookup app_id n.applications ≡ some app) where
  abbrev req : RequestFrame
  req = record { correlation_id = id; payload = payload }

  waiting :
      update_application app_id (wait_for id) n
      ≡ record n { applications = put app_id (wait_for id app) n.applications }
  unfolding update_application
  waiting = rw (registered, update_application) refl

  take_response-answered :
      (resp : ResponseFrame)
      → resp.correlation_id ≡ id
      → decode_response_frame (response_body resp) ≡ ok resp
      → NoneWaits id n.applications
      → (o : Nodosum) → o.applications ≡ put app_id (wait_for id app) n.applications
      → take_response app_id id (answered (response_body resp) o) ≡ some resp
  unfolding take_response handle_response wait_for
  take_response-answered resp same d fresh o a =
      let found : lookup app_id (deliver resp (put app_id (wait_for id app) n.applications))
          ≡ some _ =
        deliver-WaitsOnly resp app_id (wait_for id app)
          (put app_id (wait_for id app) n.applications)
          (rw same (put-WaitsOnly id app_id (wait_for id app) n.applications fresh))
          (lookup-put_self app_id _ n.applications)
          (rw same (lookup-put_self id [] app.pending_requests)) in
      rw (d, a, handle_response, found, take_response, same, lookup-put_self) refl

  -- A request with a new correlation id, whose frame is written, of an application that is registered:
  -- the other node's handler is called with the payload, its response frame carries what the handler
  -- returned, the node that asked finds that response in the channel of the request, and `Request`
  -- returns the handler's payload, or its error text as a remote error. The texts fit their length
  -- fields.
  pub request-handle_request :
      (apps : List (Bytes × Application)) (from_node : Bytes) (served : Application)
      (handler : Bytes → Bytes → Bytes × Bytes)
      → NoneWaits id n.applications
      → (send_request_frame q app_id req node (update_application app_id (wait_for id) n)).0 ≡ none
      → lookup app_id apps ≡ some served
      → served.request_handler ≡ some handler
      → length id < 2 ^ 16
      → length payload < 2 ^ 32
      → length (handler payload from_node).1 < 2 ^ 16
      → length (handler payload from_node).0 < 2 ^ 32
      → (resp : ResponseFrame) × ((begin_request q app_id id payload node n).0 ≡ none)
        × (handle_request apps app_id (request_body req) from_node
            ≡ some (encode_response_frame resp))
        × (take_response app_id id
              (answered (response_body resp) (begin_request q app_id id payload node n).1)
            ≡ some resp)
        × ((request q app_id id payload node
              (λ o. (answered (response_body resp) o, received resp))
              n).0
            ≡ (if length (handler payload from_node).1 == 0
                then ok (handler payload from_node).0
                else err (remote_error (handler payload from_node).1)))
  unfolding begin_request request finish_request outcome
  request-handle_request apps from_node served handler fresh sent l h b₁ b₂ b₃ b₄ =
      let resp : ResponseFrame = record {
        correlation_id = id;
        payload = (handler payload from_node).0;
        error = (handler payload from_node).1;
      } in
      let d : decode_response_frame (response_body resp) ≡ ok resp =
        rw append-nil at (decode_response_frame-response_body resp [] b₁ b₃ b₄) in
      (
        resp,
        rw (sent, begin_request) refl,
        handle_request-request_body apps app_id from_node req served handler b₁ b₂ l h,
        rw (sent, begin_request)
            (take_response-answered resp refl d fresh _ (
              send_request_frame-applications q app_id req node _
              ∙ ap (λ (x : Nodosum). x.applications) waiting)),
        rw (sent, begin_request, request) refl,
      )
