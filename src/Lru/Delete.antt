-- ===== src/Lru/Delete.antt =====
-- internal/mycel/ds.go: `Delete` on a well-formed bucket.
use mycorrhizal.Base.{
  ℕ, zero, suc, ◌<◌, ◌≡◌, refl, Bool, true, false, some, List, [], ◌∷◌, ◌++◌, append_assoc, ◌∙◌,
  if◌then◌else◌, not, ◌≢◌, Bool-cases, inl, inr, length, arith, ite, ◌==◌,
}
use mycorrhizal.Base.Bytes.{Bytes, Bytes-discrete}
use mycorrhizal.Lru.{Heap, LruBucket, unlink, delete_loop, delete}
use mycorrhizal.Lru.Order.{Ptr, nil, has, Distinct, hd, succ_in, without, without-absent}
use mycorrhizal.Lru.Invariant.{IsBucket, length-lt-fresh}
use mycorrhizal.Lru.Unlink.{unlink-IsBucket}

-- the first node of `xs` with the key, or nil
unfoldable pub find_key : {A : Type 0} → Heap A → Bytes → List Ptr → Ptr
find_key h key [] = nil
find_key h key (x ∷ xs) = ite (Bytes-discrete (h.key x) key) x (find_key h key xs)

-- what `Delete` returns when the walk ends at the node `n`
unfoldable pub deleted : {A : Type 0} → Ptr → LruBucket → Heap A → Bool × LruBucket × Heap A
deleted n l h = if n == nil then (false, l, h) else (true, (unlink n l h).0, (unlink n l h).1)

pub has-middle : (pre : List Ptr) (p : Ptr) (rest : List Ptr) → has p (pre ++ p ∷ rest) ≡ true
has-middle [] p rest = ground arith
has-middle (x ∷ pre) p rest = ground (arith, has-middle pre p rest)

pub succ_in-middle :
    (pre : List Ptr) (p : Ptr) (rest : List Ptr)
    → Distinct (pre ++ p ∷ rest)
    → succ_in (pre ++ p ∷ rest) p ≡ hd rest
succ_in-middle [] p rest d = ground arith
succ_in-middle (x ∷ pre) p rest d = ground (arith, succ_in-middle pre p rest, has-middle pre p rest)

-- the `next` pointers lead through `xs`; nothing is said of the others
pub record IsChain {A : Type 0} (h : Heap A) (xs : List Ptr) : Type 0 where
  pub distinct : Distinct xs
  pub not_nil : has nil xs ≡ false
  pub nexts : (p : Ptr) → has p xs ≡ true → h.next p ≡ succ_in xs p

delete_loop-find_key :
    {A : Type 0} (l : LruBucket) {h : Heap A} (key : Bytes) (fuel : ℕ) (pre rest : List Ptr)
    → IsChain h (pre ++ rest)
    → length rest < fuel
    → delete_loop fuel (hd rest) key l h ≡ some (deleted (find_key h key rest) l h)
unfolding delete_loop find_key deleted
delete_loop-find_key l key zero pre rest b f = absurd (omega arith)
delete_loop-find_key l key (suc fuel) pre [] b f = refl
delete_loop-find_key l {h} key (suc fuel) pre (x ∷ rest) b f =
    let next : h.next x ≡ hd rest =
      b.nexts x (has-middle pre x rest) ∙ succ_in-middle pre x rest b.distinct in
    let more =
      delete_loop-find_key l {h = h} key fuel (pre ++ x ∷ []) rest (rw append_assoc b)
        (omega arith) in
    ground (arith, b.not_nil, has-middle pre x rest)

pub delete-chain :
    {A : Type 0} (l : LruBucket) {h : Heap A} {xs : List Ptr} (key : Bytes)
    → IsChain h xs
    → l.head ≡ hd xs
    → length xs < h.fresh
    → delete key l h ≡ some (deleted (find_key h key xs) l h)
unfolding delete
delete-chain l {h} {xs} key b e z = simp e (delete_loop-find_key l key h.fresh [] xs b z)

pub delete-deleted :
    {A : Type 0} {l : LruBucket} {h : Heap A} {xs : List Ptr} (key : Bytes)
    → IsBucket l h xs
    → 0 < h.fresh
    → delete key l h ≡ some (deleted (find_key h key xs) l h)
delete-deleted {l} key b z =
    delete-chain l key (record { distinct = b.distinct; not_nil = b.not_nil; nexts = b.nexts })
      b.head (length-lt-fresh b z)

-- the node found is in the list and has the key
pub find_key_lem :
    {A : Type 0} (h : Heap A) (key : Bytes) (xs : List Ptr)
    → find_key h key xs ≢ nil
    → (has (find_key h key xs) xs ≡ true) × (h.key (find_key h key xs) ≡ key)
unfolding find_key
find_key_lem h key [] z = absurd (z refl)
find_key_lem h key (x ∷ xs) z = ground (arith, find_key_lem h key xs)

deleted-IsBucket :
    {A : Type 0} {l : LruBucket} {h : Heap A} {xs : List Ptr} (n : Ptr)
    → IsBucket l h xs
    → (n ≢ nil → has n xs ≡ true)
    → IsBucket (deleted n l h).1 (deleted n l h).2 (without n xs)
unfolding deleted
deleted-IsBucket {xs} n b m = elim (Bool-cases (n == nil)) [
  | inl e ↦ rw (e, without-absent n xs (ground (arith, b.not_nil))) b
  | inr e ↦ rw e (unlink-IsBucket n b (m (ground arith)))
]

-- On a well formed bucket `Delete` ends. It says whether a node has the key, and the bucket is then
-- well formed and holds the nodes that it had, in their order, less the first with the key.
pub delete-IsBucket :
    {A : Type 0} {l : LruBucket} {h : Heap A} {xs : List Ptr} (key : Bytes)
    → IsBucket l h xs
    → 0 < h.fresh
    → (r : Bool × LruBucket × Heap A) × (delete key l h ≡ some r)
      × (r.0 ≡ not (find_key h key xs == nil))
      × IsBucket r.1 r.2 (without (find_key h key xs) xs)
delete-IsBucket {l} {h} {xs} key b z = (
  deleted (find_key h key xs) l h,
  delete-deleted key b z,
  unfold deleted in ground arith,
  deleted-IsBucket (find_key h key xs) b (λ e. (find_key_lem h key xs e).0),
)

-- only the keys matter to the search
pub find_key-same :
    {A : Type 0} (h g : Heap A) (key : Bytes) (xs : List Ptr)
    → ((p : Ptr) → g.key p ≡ h.key p)
    → find_key g key xs ≡ find_key h key xs
unfolding find_key
find_key-same h g key [] e = refl
find_key-same h g key (x ∷ xs) e = rw (e x, find_key-same h g key xs e)
