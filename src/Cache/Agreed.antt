-- ===== src/Cache/Agreed.antt =====
-- internal/mycel/ds.go: the replicas of a key, as two nodes with views of the same cluster compute them.
use mathlib.Core.List.{Perm, Permᴰ}
use mathlib.Core.Logic.{∥∥₁_elim}
use mycorrhizal.Base.{Listed, ℕ, ◌≡◌, refl, sym, ap, ◌∙◌, inl, inr, List, [], ◌∷◌, ◌++◌, map, arith}
use mycorrhizal.Base.Bytes.{Bytes}
use mycorrhizal.Cache.{Cache, routing_key}
use mycorrhizal.Cache.Routing.{get_replica_nodes}
use mycorrhizal.Cache.Rendezvous.{
  ReplicaNode, insert_scored, sort_scored, get_replicas, top_replicas, score_regular,
}

-- nodes of the list with the same score are the same node
abbrev pub Separate : List ReplicaNode → Type 0
Separate xs = (r q : ReplicaNode) → Listed r xs → Listed q xs → r.score ≡ q.score → r ≡ q

Listed-permᴰ :
    {xs ys : List ReplicaNode} (r : ReplicaNode) → Permᴰ xs ys → Listed r ys → Listed r xs
Listed-permᴰ r Permᴰ.nil m = m
Listed-permᴰ r (Permᴰ.cons e p) (inl m) = inl (m ∙ sym e)
Listed-permᴰ r (Permᴰ.cons e p) (inr m) = inr (Listed-permᴰ r p m)
Listed-permᴰ r (Permᴰ.swap e f) (inl m) = inr (inl (m ∙ sym f))
Listed-permᴰ r (Permᴰ.swap e f) (inr (inl m)) = inl (m ∙ sym e)
Listed-permᴰ r (Permᴰ.swap e f) (inr (inr m)) = inr (inr m)
Listed-permᴰ r (Permᴰ.trans p q) m = Listed-permᴰ r p (Listed-permᴰ r q m)

insert_scored_comm :
    (x y : ReplicaNode) (xs : List ReplicaNode)
    → (x.score ≡ y.score → x ≡ y)
    → insert_scored x (insert_scored y xs) ≡ insert_scored y (insert_scored x xs)
unfolding insert_scored
insert_scored_comm x y [] h = ground arith
insert_scored_comm x y (z ∷ xs) h = ground (arith, insert_scored_comm x y xs h)

sort_scored-permᴰ :
    {xs ys : List ReplicaNode} → Permᴰ xs ys → Separate xs → sort_scored xs ≡ sort_scored ys
unfolding sort_scored insert_scored
sort_scored-permᴰ Permᴰ.nil s = refl
sort_scored-permᴰ (Permᴰ.cons {a} {b} {l₁} {l₂} e p) s =
    let k = sort_scored-permᴰ p (λ r q m n. s r q (inr m) (inr n)) in rw (e, k) refl
sort_scored-permᴰ (Permᴰ.swap {a} {b} {a'} {b'} {l} e f) s =
    rw (← e, ← f) (insert_scored_comm a b (sort_scored l) (s a b (inl refl) (inr (inl refl))))
sort_scored-permᴰ (Permᴰ.trans p q) s =
    sort_scored-permᴰ p s
    ∙ sort_scored-permᴰ q (λ r t m n. s r t (Listed-permᴰ r p m) (Listed-permᴰ t p n))

Listed-map :
    {A : Type 0} (f : A → ReplicaNode) (ids : List A) (r : ReplicaNode)
    → Listed r (map f ids)
    → (a : A) × Listed a ids × (r ≡ f a)
Listed-map f [] r m = elim m [ ]
Listed-map f (a ∷ ids) r (inl e) = (a, inl refl, e)
Listed-map f (a ∷ ids) r (inr m) = let (b, n, e) = Listed-map f ids r m in (b, inr n, e)

map-permᴰ :
    {A : Type 0} (f : A → ReplicaNode) {xs ys : List A} → Permᴰ xs ys → Permᴰ (map f xs) (map f ys)
map-permᴰ f Permᴰ.nil = Permᴰ.nil
map-permᴰ f (Permᴰ.cons e p) = Permᴰ.cons (ap f e) (map-permᴰ f p)
map-permᴰ f (Permᴰ.swap d e) = Permᴰ.swap (ap f d) (ap f e)
map-permᴰ f (Permᴰ.trans p q) = Permᴰ.trans (map-permᴰ f p) (map-permᴰ f q)

module _ (sum64 : Bytes → ℕ) where
  get_replicas-perm :
      (nodes nodes' : List Bytes) (self self' key : Bytes)
      → Perm (nodes ++ self ∷ []) (nodes' ++ self' ∷ [])
      → ((a b : Bytes)
          → Listed a (nodes ++ self ∷ [])
          → Listed b (nodes ++ self ∷ [])
          → score_regular sum64 key a ≡ score_regular sum64 key b
          → a ≡ b)
      → get_replicas sum64 nodes self key ≡ get_replicas sum64 nodes' self' key
  unfolding get_replicas
  get_replicas-perm nodes nodes' self self' key p s = ∥∥₁_elim p (hlevel) (λ d.
      sort_scored-permᴰ (map-permᴰ _ d) (λ r q m n e.
        let (a, m', u) = Listed-map _ (nodes ++ self ∷ []) r m in
        let (b, n', v) = Listed-map _ (nodes ++ self ∷ []) q n in
        u
        ∙ ap (λ (id : Bytes). record { id = id; score = score_regular sum64 key id })
            (s a b m' n'
              (sym (ap (λ (x : ReplicaNode). x.score) u) ∙ e ∙ ap (λ (x : ReplicaNode). x.score) v))
        ∙ sym v))

  -- Two nodes whose views of the cluster, themselves included, are the same up to order, and that keep
  -- the same number of replicas, choose the same replicas of a key in the same order, if no two nodes
  -- of the view have the same score for the key.
  pub get_replica_nodes-perm :
      {A : Type 0} (nodes nodes' : List Bytes) (bucket key : Bytes) (c d : Cache A)
      → Perm (nodes ++ c.node_id ∷ []) (nodes' ++ d.node_id ∷ [])
      → c.replicas ≡ d.replicas
      → ((a b : Bytes)
          → Listed a (nodes ++ c.node_id ∷ [])
          → Listed b (nodes ++ c.node_id ∷ [])
          → score_regular sum64 (routing_key bucket key) a
            ≡ score_regular sum64 (routing_key bucket key) b
          → a ≡ b)
      → get_replica_nodes sum64 nodes bucket key c ≡ get_replica_nodes sum64 nodes' bucket key d
  unfolding get_replica_nodes top_replicas
  get_replica_nodes-perm nodes nodes' bucket key c d p e s =
      rw (get_replicas-perm nodes nodes' c.node_id d.node_id (routing_key bucket key) p s, e) refl
