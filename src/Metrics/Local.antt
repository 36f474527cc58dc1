-- ===== src/Metrics/Local.antt =====
-- internal/mycel/local.go: the local operations with the measurements that they record.
use mycorrhizal.Base.{
  ℕ, ◌≡◌, refl, true, false, not, Option, none, some, List, [], ◌∷◌, ◌++◌, ok, err, inl, inr,
  Option-cases, Result-cases, if◌then◌else◌,
}
use mycorrhizal.Base.Bytes.{Bytes}
use mycorrhizal.Base.Int.{negsuc, ltb_ℤ}
use mycorrhizal.Base.Maps.{insert, remove}
use mycorrhizal.Base.Time.{Duration}
use mycorrhizal.Lru.{LruBucket, push, delete as lru_delete, update}
use mycorrhizal.Cache.{
  Cache, not_found, Outcome, Outcome-cases, returns, panics, out_of_fuel, ◌>>=◌, get_bucket,
  set_bucket,
}
use mycorrhizal.Cache.Local.{
  get_local, set_local, delete_local, set_ttl_local, expiry, new_node, evict,
}
use mycorrhizal.Cache.Replicated.{Answer}
use mycorrhizal.Cache.Abstract.{Call, get, set, delete, set_ttl, Reply, read, wrote, perform}
use mycorrhizal.Metrics.{Sample, one, record_bucket_size, record_lru_eviction}

-- what a call returns, the state it leaves, and what it has recorded
abbrev pub Measured : Type 0 → Type 0 → Type 0
Measured R S = R × S × List Sample

abbrev pub erase : {R S : Type 0} → Outcome (Measured R S) → Outcome (R × S)
erase (returns (r, s, samples)) = returns (r, s)
erase panics = panics
erase out_of_fuel = out_of_fuel

-- the measurements of the eviction in `setLocal`, for the bucket as `Push` left it
unfoldable pub evict_samples : Bytes → LruBucket → List Sample
evict_samples bucket b =
    if not (ltb_ℤ b.max_len b.len)
    then []
    else record_lru_eviction bucket ∷ record_bucket_size bucket (negsuc 0) ∷ []

module _ {A : Type 0} where
  unfoldable pub measured_set_local :
      ℕ → Bytes → Bytes → Option A → Duration → Cache A → Outcome (Measured Answer (Cache A))
  measured_set_local now bucket key value ttl c = elim (get_bucket bucket c) [
    | err e ↦ returns (err e, c, [])
    | ok b ↦ elim (c.key_val (bucket ++ key)) [
      | some n ↦
          let h = record c.heap {
            contents = update c.heap.contents n value;
            expires_at = update c.heap.expires_at n (expiry now ttl);
          } in
          let (b', h') = push n b h in returns (ok tt, set_bucket bucket b' h' c, [])
      | none ↦
          let n = c.heap.fresh in
          let h = new_node key value (expiry now ttl) c.heap in
          let c' = record c { key_val = insert (bucket ++ key) n c.key_val } in
          let (b', h') = push n b h in
          elim (evict bucket key b' h' c') [
            | returns c'' ↦
                returns (ok tt, c'', record_bucket_size bucket one ∷ evict_samples bucket b')
            | panics ↦ panics
            | out_of_fuel ↦ out_of_fuel
          ]
    ]
  ]

  unfoldable pub measured_delete_local :
      Bytes → Bytes → Cache A → Outcome (Measured Answer (Cache A))
  measured_delete_local bucket key c = elim (get_bucket bucket c) [
    | err e ↦ returns (err e, c, [])
    | ok b ↦ elim (lru_delete key b c.heap) [
      | none ↦ out_of_fuel
      | some (false, b', h') ↦ returns (err not_found, set_bucket bucket b' h' c, [])
      | some (true, b', h') ↦ returns (
        ok tt,
        record (set_bucket bucket b' h' c) {
          key_val = remove (bucket ++ key) c.key_val;
          node_score_hash_map = remove (bucket ++ key) c.node_score_hash_map;
        },
        record_bucket_size bucket (negsuc 0) ∷ [],
      )
    ]
  ]

  -- a call on one bucket; reads and changes of the time to live record nothing here
  unfoldable pub measured_perform :
      Bytes → Call A → Cache A → Outcome (Measured (Reply A) (Cache A))
  measured_perform bucket (get key) c =
      let (r, c') = get_local bucket key c in returns (read r, c', [])
  measured_perform bucket (set now key value ttl) c = do
    (a, c', samples) ← measured_set_local now bucket key value ttl c
    returns (wrote a, c', samples)
  measured_perform bucket (delete key) c = do
    (a, c', samples) ← measured_delete_local bucket key c
    returns (wrote a, c', samples)
  measured_perform bucket (set_ttl now key ttl) c =
      let (a, c') = set_ttl_local now bucket key ttl c in returns (wrote a, c', [])

  -- The measurements change neither the answer of a local operation nor the state that it leaves.
  pub measured_perform-erase :
      (bucket : Bytes) (call : Call A) (c : Cache A)
      → erase (measured_perform bucket call c) ≡ perform bucket call c
  unfolding measured_perform measured_set_local measured_delete_local perform set_local delete_local
  measured_perform-erase bucket (get key) c = refl
  measured_perform-erase bucket (set now key value ttl) c =
      elim (Result-cases (get_bucket bucket c)) [
        | inr (e, o) ↦ rw (o, measured_set_local, set_local) refl
        | inl (b, o) ↦ elim (Option-cases (c.key_val (bucket ++ key))) [
          | inr (n, k) ↦ rw (o, measured_set_local, set_local, k) refl
          | inl k ↦
              let p = push c.heap.fresh b (new_node key value (expiry now ttl) c.heap) in
              let c' : Cache A = record c {
                key_val = insert (bucket ++ key) c.heap.fresh c.key_val;
              } in
              elim (Outcome-cases (evict bucket key p.0 p.1 c')) [
                | inl (d, e) ↦ rw (o, measured_set_local, set_local, k, e) refl
                | inr (inl e) ↦ rw (o, measured_set_local, set_local, k, e) refl
                | inr (inr e) ↦ rw (o, measured_set_local, set_local, k, e) refl
              ]
        ]
      ]
  measured_perform-erase bucket (delete key) c = elim (Result-cases (get_bucket bucket c)) [
    | inr (e, o) ↦ rw (o, measured_delete_local, delete_local) refl
    | inl (b, o) ↦ elim (Option-cases (lru_delete key b c.heap)) [
      | inl k ↦ rw (o, measured_delete_local, delete_local, k) refl
      | inr ((true, b', h'), k) ↦ rw (o, measured_delete_local, delete_local, k) refl
      | inr ((false, b', h'), k) ↦ rw (o, measured_delete_local, delete_local, k) refl
    ]
  ]
  measured_perform-erase bucket (set_ttl now key ttl) c = refl
