-- ===== src/Cache/Remote.antt =====
-- internal/mycel/remote.go and encoding.go: operations on another node's entries. `gobEncode` and
-- `gobDecode` call a library and are the interface `Codec`; `request` is `app.Request`, which sends
-- a payload to a node and returns its answer.
use mycorrhizal.Base.{ℕ, ◌≡◌, Option, none, List, [], Result, ok, ◌>>=◌}
use mycorrhizal.Base.Bytes.{Bytes}
use mycorrhizal.Base.Time.{Duration, zero_duration}
use mycorrhizal.Cache.{Cache, Error}
use mycorrhizal.Cache.Routing.{get_primary_node}

abbrev pub get_op : ℕ
get_op = 0x00

abbrev pub set_op : ℕ
set_op = 0x01

abbrev pub set_ttl_op : ℕ
set_ttl_op = 0x02

abbrev pub delete_op : ℕ
delete_op = 0x03

abbrev pub response_op : ℕ
response_op = 0x04

abbrev pub geo_set_op : ℕ
geo_set_op = 0x05

pub record RemoteCachePayload (A : Type 0) : Type 0 where
  pub operation : ℕ
  pub key : Bytes
  pub bucket : Bytes
  pub value : Option A
  pub ttl : Duration

pub record Codec (P : Type 0) : Type 0 where
  pub encode : P → Result Error Bytes
  pub decode : Bytes → Result Error P

-- what gob promises of a value that it could encode: it is not empty, and decodes to the value
pub record Faithful {P : Type 0} (codec : Codec P) : Type 0 where
  pub not_empty : (p : P) → codec.encode p ≡ ok [] → ⊥
  pub decode-encode : (p : P) (b : Bytes) → codec.encode p ≡ ok b → codec.decode b ≡ ok p

-- A payload's fields that an operation leaves out are zero.
abbrev pub payload : {A : Type 0} → ℕ → Bytes → Bytes → Option A → Duration → RemoteCachePayload A
payload operation key bucket value ttl = record {
  operation = operation;
  key = key;
  bucket = bucket;
  value = value;
  ttl = ttl;
}

module _ {A : Type 0} (codec : Codec (RemoteCachePayload A))
    (request : Bytes → Bytes → Result Error Bytes) where
  -- encode, send, and drop the answer
  unfoldable pub send : RemoteCachePayload A → Bytes → Result Error (Unit {0})
  send p target = do bytes ← codec.encode p; res ← request bytes target; ok tt

  unfoldable pub set_remote_to_node :
      Bytes → Bytes → Option A → Duration → Bytes → Result Error (Unit {0})
  unfolding send
  set_remote_to_node bucket key value ttl = send (payload set_op key bucket value ttl)

  unfoldable pub delete_remote_from_node : Bytes → Bytes → Bytes → Result Error (Unit {0})
  unfolding send
  delete_remote_from_node bucket key = send (payload delete_op key bucket none zero_duration)

  unfoldable pub set_ttl_remote_to_node : Bytes → Bytes → Duration → Bytes → Result Error (Unit {0})
  unfolding send
  set_ttl_remote_to_node bucket key ttl = send (payload set_ttl_op key bucket none ttl)

  module _ (sum64 : Bytes → ℕ) (nodes : List Bytes) where
    unfoldable pub get_remote : Bytes → Bytes → Cache A → Result Error (Option A) × Cache A
    get_remote bucket key c =
        let (target, c') = get_primary_node sum64 nodes bucket key c in
        (
          do
            bytes ← codec.encode (payload get_op key bucket none zero_duration)
            res ← request bytes target
            val ← codec.decode res
            ok val.value,
          c',
        )

    -- the operations on a key's primary
    unfoldable pub set_remote :
        Bytes → Bytes → Option A → Duration → Cache A → Result Error (Unit {0}) × Cache A
    set_remote bucket key value ttl c =
        let (target, c') = get_primary_node sum64 nodes bucket key c in
        (set_remote_to_node bucket key value ttl target, c')

    unfoldable pub delete_remote : Bytes → Bytes → Cache A → Result Error (Unit {0}) × Cache A
    delete_remote bucket key c =
        let (target, c') = get_primary_node sum64 nodes bucket key c in
        (delete_remote_from_node bucket key target, c')

    unfoldable pub set_ttl_remote :
        Bytes → Bytes → Duration → Cache A → Result Error (Unit {0}) × Cache A
    set_ttl_remote bucket key ttl c =
        let (target, c') = get_primary_node sum64 nodes bucket key c in
        (set_ttl_remote_to_node bucket key ttl target, c')
