-- ===== src/Cache/Collected.antt =====
-- internal/mycel/cache.go: what the replicated writes of a node leave behind at this node, whatever the
-- other replicas answer.
use mathlib.Core.Logic.{if_pos, if_neg}
use mycorrhizal.Base.{
  ℕ, ◌≡◌, ◌≢◌, refl, ◌∙◌, sym, inl, inr, Option-cases, Bool, true, false, err, List, [], ◌∷◌, arith,
}
use mycorrhizal.Base.Bytes.{Bytes, Bytes-discrete}
use mycorrhizal.Base.Maps.{Map}
use mycorrhizal.Lru.{LruBucket}
use mycorrhizal.Lru.Order.{Ptr}
use mycorrhizal.Cache.{Cache, no_replicas, Outcome, returns, routing_key}
use mycorrhizal.Cache.Holds.{Holds}
use mycorrhizal.Cache.Rendezvous.{ReplicaNode, contains}
use mycorrhizal.Cache.Routing.{is_local}
use mycorrhizal.Cache.Replicated.{Answer, verdict, answer_of, fan_out, replicate_write}

module _ {A : Type 0} (here : Cache A → Outcome (Answer × Cache A)) (there : Bytes → Answer) where
  answer_of-here :
      (r : ReplicaNode) (c : Cache A) → r.id ≡ c.node_id → answer_of here there r c ≡ here c
  unfolding answer_of
  answer_of-here r c e = if_pos (Bytes-discrete r.id c.node_id) e (here c) (returns (there r.id, c))

  answer_of-there :
      (r : ReplicaNode) (c : Cache A)
      → r.id ≢ c.node_id
      → answer_of here there r c ≡ returns (there r.id, c)
  unfolding answer_of
  answer_of-there r c e =
      if_neg (Bytes-discrete r.id c.node_id) e (here c) (returns (there r.id, c))

  fan_out-elsewhere :
      (rs : List ReplicaNode) (c : Cache A)
      → contains c.node_id rs ≡ false
      → (answers : List Answer) × (fan_out here there rs c ≡ returns (answers, c))
  unfolding fan_out contains
  fan_out-elsewhere [] c m = ([], refl)
  fan_out-elsewhere (r ∷ rs) c m = elim (Bytes-discrete r.id c.node_id) [
    | yes e ↦
        absurd
          (ground (arith, if_pos (Bytes-discrete r.id c.node_id) e true (contains c.node_id rs), m))
    | no e ↦
        let more =
          sym (if_neg (Bytes-discrete r.id c.node_id) e true (contains c.node_id rs)) ∙ m in
        let (answers, f) = fan_out-elsewhere rs c more in
        (there r.id ∷ answers, rw (answer_of-there r c e, f) refl)
  ]

  -- A write of a replica set without this node leaves this node as it is.
  pub replicate_write-elsewhere :
      (arrive : List Answer → List Answer) (rs : List ReplicaNode) (c : Cache A)
      → contains c.node_id rs ≡ false
      → (a : Answer) × (replicate_write arrive here there rs c ≡ returns (a, c))
  unfolding replicate_write
  replicate_write-elsewhere arrive [] c m = (err no_replicas, refl)
  replicate_write-elsewhere arrive (r ∷ rs) c m =
      let (answers, f) = fan_out-elsewhere (r ∷ rs) c m in
      (verdict (arrive answers), rw (f, replicate_write) refl)

  -- a state property that every call of `here` keeps, whatever its answer
  module _ (P : Cache A → Type 0) where
    abbrev pub Keeps : Type 0
    Keeps = (c : Cache A) → P c → (a : Answer) × (c' : Cache A) × (here c ≡ returns (a, c')) × P c'

    abbrev pub Collects : List ReplicaNode → Cache A → Type 0
    Collects rs c =
        (answers : List Answer) × (c' : Cache A) × (fan_out here there rs c ≡ returns (answers, c'))
        × P c'

    -- what one replica answers, and the answers of the rest
    Collects-cons :
        (r : ReplicaNode) (rs : List ReplicaNode) (c c' : Cache A) {a : Answer}
        → answer_of here there r c ≡ returns (a, c')
        → Collects rs c'
        → Collects (r ∷ rs) c
    unfolding fan_out
    Collects-cons r rs c c' {a} e (answers, c'', f, p) = (a ∷ answers, c'', rw (e, f) refl, p)

    fan_out-keeps : Keeps → (rs : List ReplicaNode) (c : Cache A) → P c → Collects rs c
    unfolding fan_out
    fan_out-keeps w [] c p = ([], c, refl, p)
    fan_out-keeps w (r ∷ rs) c p = elim (Bytes-discrete r.id c.node_id) [
      | yes e ↦
          let (a, c', f, q) = w c p in
          Collects-cons r rs c c' (answer_of-here r c e ∙ f) (fan_out-keeps w rs c' q)
      | no e ↦ Collects-cons r rs c c (answer_of-there r c e) (fan_out-keeps w rs c p)
    ]

    -- A property that this node's write brings about, and that further ones keep, holds when the
    -- answers of a replica set with this node are collected.
    fan_out-starts :
        Keeps
        → (c c' : Cache A) {a : Answer} → here c ≡ returns (a, c')
        → P c'
        → (rs : List ReplicaNode) → contains c.node_id rs ≡ true
        → Collects rs c
    unfolding contains
    fan_out-starts w c c' f p [] m = absurd (ground arith)
    fan_out-starts w c c' f p (r ∷ rs) m = elim (Bytes-discrete r.id c.node_id) [
      | yes e ↦ Collects-cons r rs c c' (answer_of-here r c e ∙ f) (fan_out-keeps w rs c' p)
      | no e ↦ Collects-cons r rs c c (answer_of-there r c e) (
          fan_out-starts w c c' f p rs
            (sym (if_neg (Bytes-discrete r.id c.node_id) e true (contains c.node_id rs)) ∙ m))
    ]

    pub replicate_write-starts :
        Keeps
        → (arrive : List Answer → List Answer) (c c' : Cache A) {a : Answer}
        → here c ≡ returns (a, c')
        → P c'
        → (rs : List ReplicaNode) → contains c.node_id rs ≡ true
        → (answer : Answer) × (c'' : Cache A) × (replicate_write arrive here there rs c
            ≡ returns (answer, c''))
          × P c''
    unfolding replicate_write contains
    replicate_write-starts w arrive c c' f p [] m = absurd (ground arith)
    replicate_write-starts w arrive c c' f p (r ∷ rs) m =
        let (answers, c'', g, q) = fan_out-starts w c c' f p (r ∷ rs) m in
        (verdict (arrive answers), c'', rw (g, replicate_write) refl, q)

module _ (sum64 : Bytes → ℕ) (nodes : List Bytes) (bucket key : Bytes) {A : Type 0} where
  -- `isLocal` changes nothing but the locality cache.
  pub is_local-same :
      (c : Cache A)
      → (m : Map Bool) × ((is_local sum64 nodes bucket key c).1
          ≡ record c { replica_locality_cache = m })
  unfolding is_local
  is_local-same c = elim (Option-cases (c.replica_locality_cache (routing_key bucket key))) [
    | inl o ↦ ((is_local sum64 nodes bucket key c).1.replica_locality_cache, rw (o, is_local) refl)
    | inr (here, o) ↦ (c.replica_locality_cache, rw (o, is_local) refl)
  ]

-- a bucket that is well formed after a change of the locality cache
pub Holds-locality :
    {A : Type 0} {c : Cache A} {bucket : Bytes} {b : LruBucket} {xs : List Ptr}
    → Holds c bucket b xs
    → (m : Map Bool) → Holds (record c { replica_locality_cache = m }) bucket b xs
Holds-locality h m = record {
  stored = h.stored;
  chain = h.chain;
  indexed = h.indexed;
  found = h.found;
  named = h.named;
  started = h.started;
}
