-- ===== src/Cache/Served.antt =====
-- internal/mycel/remote.go and task.go: a remote operation, and the local one on its target. `as_text`
-- is what the transport makes of the target's error.
use mycorrhizal.Base.{ℕ, ◌≡◌, refl, ap, ◌∙◌, Option, none, List, [], ◌∷◌, Result, ok, err, ◌>>=◌}
use mycorrhizal.Base.Bytes.{Bytes, codes}
use mycorrhizal.Base.Time.{Duration, zero_duration}
use mycorrhizal.Cache.{Cache, Error, codec_failed, Outcome, returns, panics, out_of_fuel}
use mycorrhizal.Cache.Local.{get_local, set_local, set_ttl_local, delete_local}
use mycorrhizal.Cache.Remote.{
  Codec, Faithful, RemoteCachePayload, payload, set_op, set_ttl_op, delete_op, get_op, response_op,
  send, set_remote_to_node, set_ttl_remote_to_node, delete_remote_from_node, get_remote,
}
use mycorrhizal.Cache.Replicated.{Answer}
use mycorrhizal.Cache.Handler.{reply, serve, serve_get, application_request_handler_func}

-- the answer that the requesting node gets
unfoldable pub answer_from :
    {B : Type 0} → (Error → Error) → Outcome (Result Error Bytes × B) → Result Error Bytes
answer_from as_text (returns (ok b, c)) = ok b
answer_from as_text (returns (err e, c)) = err (as_text e)
answer_from as_text panics = err codec_failed
answer_from as_text out_of_fuel = err codec_failed

unfoldable pub relayed : (Error → Error) → Answer → Answer
relayed as_text (ok _) = ok tt
relayed as_text (err e) = err (as_text e)

-- the three writes of a key
pub data Write (A : Type 0) : Type 0 where
  write_value : Option A → Duration → Write A
  write_ttl : Duration → Write A
  write_nothing : Write A

module _ {A : Type 0} where
  -- the message of a write, and the text that reports its success
  unfoldable pub message : Write A → Bytes → Bytes → RemoteCachePayload A
  message (write_value value ttl) bucket key = payload set_op key bucket value ttl
  message (write_ttl ttl) bucket key = payload set_ttl_op key bucket none ttl
  message write_nothing bucket key = payload delete_op key bucket none zero_duration

  unfoldable pub done_text : Write A → Bytes
  done_text (write_value value ttl) = codes "REMOTE SET OK"
  done_text (write_ttl ttl) = codes "REMOTE SET TTL OK"
  done_text write_nothing = codes "REMOTE DELETE OK"

  unfoldable pub write_locally : ℕ → Write A → Bytes → Bytes → Cache A → Outcome (Answer × Cache A)
  write_locally now (write_value value ttl) bucket key c = set_local now bucket key value ttl c
  write_locally now (write_ttl ttl) bucket key c = returns (set_ttl_local now bucket key ttl c)
  write_locally now write_nothing bucket key c = delete_local bucket key c

  unfoldable pub write_to_node :
      Codec (RemoteCachePayload A)
      → (Bytes → Bytes → Result Error Bytes)
      → Write A
      → Bytes
      → Bytes
      → Bytes
      → Answer
  write_to_node codec request (write_value value ttl) bucket key =
      set_remote_to_node codec request bucket key value ttl
  write_to_node codec request (write_ttl ttl) bucket key =
      set_ttl_remote_to_node codec request bucket key ttl
  write_to_node codec request write_nothing bucket key =
      delete_remote_from_node codec request bucket key

-- what the handler returns for what the local operation left
unfoldable answered : {B : Type 0} → Bytes → Outcome (Answer × B) → Outcome (Result Error Bytes × B)
answered text (returns (a, c)) = returns (reply text a, c)
answered text panics = panics
answered text out_of_fuel = out_of_fuel

module _ {A : Type 0} (codec : Codec (RemoteCachePayload A)) (faithful : Faithful codec)
    (as_text : Error → Error) (now : ℕ) (c : Cache A) where
  handled :
      (p : RemoteCachePayload A) (b : Bytes)
      → codec.encode p ≡ ok b
      → application_request_handler_func codec now b c ≡ serve codec now p c
  unfolding application_request_handler_func
  handled p [] e = absurd (faithful.not_empty p e)
  handled p (x ∷ xs) e = rw (faithful.decode-encode p (x ∷ xs) e, application_request_handler_func)

  -- the network between two nodes that works, with the target in the state `c`
  abbrev pub relay : Bytes → Bytes → Result Error Bytes
  relay bytes target = answer_from as_text (application_request_handler_func codec now bytes c)

  serve-message :
      (w : Write A) (bucket key : Bytes) {a : Answer} {c' : Cache A}
      → write_locally now w bucket key c ≡ returns (a, c')
      → serve codec now (message w bucket key) c ≡ returns (reply (done_text w) a, c')
  unfolding serve message done_text write_locally answered
  serve-message (write_value value ttl) bucket key f = rw f refl
  serve-message (write_ttl ttl) bucket key f = ap (answered (codes "REMOTE SET TTL OK")) f
  serve-message write_nothing bucket key f = rw f refl

  write_to_node-send :
      (w : Write A) (bucket key target : Bytes)
      → write_to_node codec relay w bucket key target
        ≡ send codec relay (message w bucket key) target
  unfolding write_to_node message set_remote_to_node set_ttl_remote_to_node delete_remote_from_node
  write_to_node-send (write_value value ttl) bucket key target = refl
  write_to_node-send (write_ttl ttl) bucket key target = refl
  write_to_node-send write_nothing bucket key target = refl

  relayed-reply :
      (text : Bytes) (a : Answer) (c' : Cache A)
      → (answer_from as_text (returns (reply text a, c')) >>= λ res. ok tt) ≡ relayed as_text a
  unfolding answer_from reply relayed
  relayed-reply text (ok _) c' = refl
  relayed-reply text (err x) c' = refl

  -- With a faithful codec, a write sent to a node, of a value, of a time to live, or a delete, whose
  -- local counterpart returns there, is that local operation: the handler leaves the same state, and
  -- the sender gets no error, or the target's error as text.
  pub write_to_node-write_locally :
      (w : Write A) (bucket key target b : Bytes) {a : Answer} {c' : Cache A}
      → codec.encode (message w bucket key) ≡ ok b
      → write_locally now w bucket key c ≡ returns (a, c')
      → (application_request_handler_func codec now b c ≡ returns (reply (done_text w) a, c'))
        × (write_to_node codec relay w bucket key target ≡ relayed as_text a)
  write_to_node-write_locally w bucket key target b {a} {c'} e f =
      let h = handled (message w bucket key) b e ∙ serve-message w bucket key f in
      (
        h,
        write_to_node-send w bucket key target
            ∙ unfold send answer_from reply relayed in rw (e, h) (relayed-reply (done_text w) a c'),
      )

  -- With a faithful codec, a value sent to a node whose local write returns is that local write there:
  -- the handler leaves the same state, and the sender gets no error, or the target's error as text.
  pub set_remote_to_node-set_local :
      (bucket key : Bytes) (value : Option A) (ttl : Duration) (target b : Bytes) {a : Answer}
      {c' : Cache A}
      → codec.encode (payload set_op key bucket value ttl) ≡ ok b
      → set_local now bucket key value ttl c ≡ returns (a, c')
      → (application_request_handler_func codec now b c
          ≡ returns (reply (codes "REMOTE SET OK") a, c'))
        × (set_remote_to_node codec relay bucket key value ttl target ≡ relayed as_text a)
  unfolding write_locally write_to_node message done_text
  set_remote_to_node-set_local bucket key value ttl target b e f =
      write_to_node-write_locally (write_value value ttl) bucket key target b e f

  -- With a faithful codec and encodable messages, a read sent to a node that has the key returns the
  -- value that the node reads locally.
  pub get_remote-get_local :
      (sum64 : Bytes → ℕ) (nodes : List Bytes) (bucket key : Bytes) (d : Cache A) (b r : Bytes)
      {val : Option A} {c' : Cache A}
      → codec.encode (payload get_op key bucket none zero_duration) ≡ ok b
      → codec.encode (payload response_op key bucket val zero_duration) ≡ ok r
      → get_local bucket key c ≡ (ok val, c')
      → (get_remote codec relay sum64 nodes bucket key d).0 ≡ ok val
  unfolding get_remote answer_from
  get_remote-get_local sum64 nodes bucket key d b r {val} {c'} e f g =
      let h : application_request_handler_func codec now b c ≡ returns (ok r, c') =
        handled (payload get_op key bucket none zero_duration) b e
        ∙ unfold serve serve_get in
          rw (serve_get, g, f)
            (ap {B = Outcome (Result Error Bytes × Cache A)}
              (λ (x : Result Error (Option A) × Cache A). returns (ok r, x.1)) g) in
      rw (e, h, answer_from, faithful.decode-encode _ r f)
