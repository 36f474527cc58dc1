-- ===== src/Cache/RoutingTests.antt =====
-- Concrete routing and remote operations: three nodes, a toy hash, and a toy codec for the values ℕ.
use mathlib.Core.Path.{subst}
use mathlib.Core.List.{Perm, Permᴰ}
use mycorrhizal.Base.{
  Listed, ite, ℕ, zero, suc, ◌+◌, ◌≡◌, refl, sym, ap, ◌∙◌, inl, inr, Option, none, some, [], ◌∷◌,
  ◌++◌, length, take, drop, take-length-append, drop-length-append, Result, ok, err, arith,
}
use mycorrhizal.Base.Bytes.{Bytes, Bytes-discrete, codes}
use mycorrhizal.Base.Decimal.{itoa}
use mycorrhizal.Base.Int.{ℤ, pos, negsuc}
use mycorrhizal.Base.Maps.{empty, put}
use mycorrhizal.Base.Time.{zero_duration}
use mycorrhizal.Lru.{bucket_type_regular, push}
use mycorrhizal.Lru.Order.{nil}
use mycorrhizal.Cache.{Cache, Error, codec_failed, returns, routing_key, get_bucket}
use mycorrhizal.Cache.Local.{get_local, set_ttl_local}
use mycorrhizal.Cache.Remote.{Codec, Faithful, RemoteCachePayload, get_remote}
use mycorrhizal.Cache.Handler.{reply, application_request_handler_func}
use mycorrhizal.Cache.Rendezvous.{score_regular}
use mycorrhizal.Cache.Routing.{get_replica_nodes}
use mycorrhizal.Cache.Served.{
  Write, write_ttl, message, done_text, write_locally, write_to_node, relay, relayed,
  write_to_node-write_locally, get_remote-get_local,
}
use mycorrhizal.Cache.Agreed.{get_replica_nodes-perm}
use mycorrhizal.Cache.Keys.{routing_key-injective}

abbrev value_code : Option ℕ → ℕ
value_code none = 0
value_code (some v) = suc v

abbrev value_of : ℕ → Option ℕ
value_of zero = none
value_of (suc v) = some v

abbrev sign : ℤ → ℕ
sign (pos n) = 0
sign (negsuc n) = 1

abbrev size : ℤ → ℕ
size (pos n) = n
size (negsuc n) = n

abbrev signed : ℕ → ℕ → ℤ
signed zero n = pos n
signed (suc s) n = negsuc n

abbrev text : RemoteCachePayload ℕ → Bytes
text p =
    p.operation ∷ value_code p.value ∷ sign p.ttl ∷ size p.ttl ∷ length p.key ∷ (p.key ++ p.bucket)

abbrev parse : Bytes → Result Error (RemoteCachePayload ℕ)
parse (o ∷ v ∷ s ∷ t ∷ k ∷ rest) = ok (record {
  operation = o;
  key = take k rest;
  bucket = drop k rest;
  value = value_of v;
  ttl = signed s t;
})
parse _ = err codec_failed

abbrev toy_codec : Codec (RemoteCachePayload ℕ)
toy_codec = record { encode = λ p. ok (text p); decode = parse }

value_of-value_code : (v : Option ℕ) → value_of (value_code v) ≡ v
value_of-value_code none = refl
value_of-value_code (some v) = refl

signed-sign : (t : ℤ) → signed (sign t) (size t) ≡ t
signed-sign (pos n) = refl
signed-sign (negsuc n) = refl

parse-text : (p : RemoteCachePayload ℕ) → parse (text p) ≡ ok p
parse-text p =
    rw
      (
        value_of-value_code p.value,
        signed-sign p.ttl,
        take-length-append p.key p.bucket,
        drop-length-append p.key p.bucket,
      )
      refl

toy_codec-Faithful : Faithful toy_codec
toy_codec-Faithful = record {
  not_empty = λ p e. ground arith;
  decode-encode =
      λ p b e. let k : text p ≡ b = ground arith in subst (λ x. parse x ≡ ok p) k (parse-text p);
}

abbrev session : Bytes
session = codes "s"

abbrev key_a : Bytes
key_a = codes "a"

-- a node with an empty bucket
abbrev node : Bytes → Cache ℕ
node id = record {
  node_id = id;
  key_val = empty;
  lru_buckets =
      (
        session,
        record {
          b_type = bucket_type_regular;
          precisions = [];
          head = nil;
          tail = nil;
          len = pos 0;
          max_len = pos 2;
          default_ttl = zero_duration;
        },
      )
      ∷ [];
  heap = record {
    fresh = 1;
    next = λ p. nil;
    prev = λ p. nil;
    key = λ p. [];
    contents = λ p. none;
    expires_at = λ p. none;
  };
  node_score_hash_map = empty;
  replica_locality_cache = empty;
  replicas = 2;
}

abbrev sum : Bytes → ℕ
sum [] = 0
sum (b ∷ bs) = b + sum bs

abbrev as_text : Error → Error
as_text e = codec_failed

views : Perm (codes "y" ∷ codes "x" ∷ []) (codes "x" ∷ codes "y" ∷ [])
views = ∣ Permᴰ.swap refl refl ∣₁

abbrev score : Bytes → ℕ
score id = score_regular sum (routing_key session key_a) id

differ : score (codes "y") ≡ score (codes "x") → ⊥
unfolding score_regular routing_key itoa
differ e = ground arith

scores :
    (a b : Bytes)
    → Listed a (codes "y" ∷ codes "x" ∷ [])
    → Listed b (codes "y" ∷ codes "x" ∷ [])
    → score a ≡ score b
    → a ≡ b
scores a b (inl m) (inl n) e = m ∙ sym n
scores a b (inl m) (inr (inl n)) e = absurd (differ (sym (ap score m) ∙ e ∙ ap score n))
scores a b (inl m) (inr (inr n)) e = elim n [ ]
scores a b (inr (inl m)) (inl n) e = absurd (differ (sym (ap score n) ∙ sym e ∙ ap score m))
scores a b (inr (inl m)) (inr (inl n)) e = m ∙ sym n
scores a b (inr (inl m)) (inr (inr n)) e = elim n [ ]
scores a b (inr (inr m)) n e = elim m [ ]

get_replica_nodes-perm_example :
    get_replica_nodes sum (codes "y" ∷ []) session key_a (node (codes "x"))
    ≡ get_replica_nodes sum (codes "x" ∷ []) session key_a (node (codes "y"))
get_replica_nodes-perm_example =
    get_replica_nodes-perm sum (codes "y" ∷ []) (codes "x" ∷ []) session key_a (node (codes "x"))
      (node (codes "y")) views refl scores

-- a node that holds 7 under the key
abbrev holder : Cache ℕ
holder = record {
  node_id = codes "x";
  key_val = λ k. ite (Bytes-discrete (session ++ key_a) k) (some 1) none;
  lru_buckets =
      (
        session,
        record {
          b_type = bucket_type_regular;
          precisions = [];
          head = 1;
          tail = 1;
          len = pos 1;
          max_len = pos 2;
          default_ttl = zero_duration;
        },
      )
      ∷ [];
  heap = record {
    fresh = 2;
    next = λ p. nil;
    prev = λ p. nil;
    key = λ p. key_a;
    contents = λ p. some 7;
    expires_at = λ p. none;
  };
  node_score_hash_map = empty;
  replica_locality_cache = empty;
  replicas = 2;
}

held : get_local session key_a holder ≡ (ok (some 7), holder)
unfolding get_local get_bucket put push Bytes-discrete
held = refl

abbrev three_seconds : Write ℕ
three_seconds = write_ttl (pos 3)

extended :
    write_locally 5 three_seconds session key_a holder
    ≡ returns (ok tt, (set_ttl_local 5 session key_a (pos 3) holder).1)
unfolding write_locally set_ttl_local Bytes-discrete
extended = refl

write_to_node-write_locally_example :
    (application_request_handler_func toy_codec 5
        (text (message three_seconds session key_a))
        holder
      ≡ returns (
        reply (done_text three_seconds) (ok tt),
        (set_ttl_local 5 session key_a (pos 3) holder).1,
      ))
    × (write_to_node toy_codec
          (relay toy_codec toy_codec-Faithful as_text 5 holder)
          three_seconds
          session
          key_a
          (codes "x")
        ≡ relayed as_text (ok tt))
write_to_node-write_locally_example =
    write_to_node-write_locally toy_codec toy_codec-Faithful as_text 5 holder three_seconds session
      key_a (codes "x") (text (message three_seconds session key_a)) refl extended

get_remote-get_local_example :
    (get_remote toy_codec
      (relay toy_codec toy_codec-Faithful as_text 5 holder)
      sum
      (codes "x" ∷ [])
      session
      key_a
      (node (codes "y"))).0
    ≡ ok (some 7)
get_remote-get_local_example =
    get_remote-get_local toy_codec toy_codec-Faithful as_text 5 holder sum (codes "x" ∷ []) session
      key_a (node (codes "y")) _ _ refl refl held

routing_key-injective_example : (codes "users" ≡ codes "users") × (codes "k1" ≡ codes "k1")
routing_key-injective_example =
    routing_key-injective (codes "users") (codes "users") (codes "k1") (codes "k1") refl
