-- ===== src/Lru.antt =====
-- internal/mycel/ds.go: the LRU bucket, a doubly linked list of nodes. A pointer is an address, nil
-- is 0, and the heap gives each field of the node at an address. The locks are left out: every
-- operation holds the bucket's lock from its first line to its last.
pub mod Outside
pub mod Order
pub mod Invariant
pub mod Without
pub mod Push
pub mod Unlink
pub mod Delete
mod Tests
use mycorrhizal.Base.{
  ℕ, zero, suc, Bool, true, false, not, ◌&&◌, Option, none, some, List, ◌==◌, ite, if◌then◌else◌,
}
use mycorrhizal.Base.Bytes.{Bytes, Bytes-discrete}
use mycorrhizal.Base.Int.{ℤ, increment, decrement}
use mycorrhizal.Base.Time.{Duration, Instant}
use mycorrhizal.Lru.Order.{Ptr, nil}

pub data BucketType : Type 0 where
  bucket_type_regular bucket_type_geo : BucketType

pub record LruBucket : Type 0 where
  pub b_type : BucketType
  pub precisions : List ℕ
  pub head : Ptr
  pub tail : Ptr
  pub len : ℤ
  pub max_len : ℤ
  pub default_ttl : Duration

-- The `node` structs by field; a nil `data` is `none`. Addresses from `fresh` on are unused.
pub record Heap (A : Type 0) : Type 0 where
  pub fresh : Ptr
  pub next : Ptr → Ptr
  pub prev : Ptr → Ptr
  pub key : Ptr → Bytes
  pub contents : Ptr → Option A
  pub expires_at : Ptr → Instant

abbrev pub update {ℓ} : {B : Type ℓ} → (Ptr → B) → Ptr → B → Ptr → B
update f p b q = if q == p then b else f q

abbrev pub is_nil : Ptr → Bool
is_nil p = p == nil

module _ {A : Type 0} where
  -- `p.next = q`
  abbrev pub set_next : Ptr → Ptr → Heap A → Heap A
  set_next p q h = record h { next = update h.next p q }

  -- `p.prev = q`
  abbrev pub set_prev : Ptr → Ptr → Heap A → Heap A
  set_prev p q h = record h { prev = update h.prev p q }

  unfoldable pub detach : Ptr → LruBucket → Heap A → LruBucket × Heap A
  detach n l h =
      let next = h.next n in
      let prev = h.prev n in
      let h₁ : Heap A =
        if not (is_nil next) && not (is_nil prev)
        then set_next prev next (set_prev next prev h)
        else h in
      if is_nil (h₁.next n) && not (is_nil (h₁.prev n))
      then (record l { tail = h₁.prev n }, set_next (h₁.prev n) nil h₁)
      else (l, h₁)

  unfoldable pub attach : Ptr → LruBucket → Heap A → LruBucket × Heap A
  attach n l h =
      if is_nil l.head
      then (record l { head = n; tail = n }, h)
      else (record l { head = n }, set_prev n nil (set_next n l.head (set_prev l.head n h)))

  unfoldable pub push : Ptr → LruBucket → Heap A → LruBucket × Heap A
  push n l h =
      if l.head == n
      then (l, h)
      else let l₁ =
          if is_nil (h.next n) && is_nil (h.prev n)
          then record l { len = increment l.len }
          else l in
        let (l₂, h₂) = detach n l₁ h in attach n l₂ h₂

  -- what `Delete` does to the node that it found
  unfoldable pub unlink : Ptr → LruBucket → Heap A → LruBucket × Heap A
  unlink n l h =
      let l₁ : LruBucket = if is_nil (h.prev n) then record l { head = h.next n } else l in
      let l₂ : LruBucket = if is_nil (h.next n) then record l₁ { tail = h.prev n } else l₁ in
      let h₁ : Heap A =
        if not (is_nil (h.next n)) && not (is_nil (h.prev n))
        then set_next (h.prev n) (h.next n) (set_prev (h.next n) (h.prev n) h)
        else h in
      let h₂ : Heap A =
        if is_nil (h₁.prev n) && not (is_nil (h₁.next n))
        then set_prev (h₁.next n) nil h₁
        else h₁ in
      let h₃ : Heap A =
        if is_nil (h₂.next n) && not (is_nil (h₂.prev n))
        then set_next (h₂.prev n) nil h₂
        else h₂ in
      let h₄ = set_prev n nil (set_next n nil h₃) in
      (record l₂ { len = decrement l₂.len }, record h₄ { contents = update h₄.contents n none })

  -- the loop of `Delete` from the node `n`; `none` when the fuel runs out
  unfoldable pub delete_loop :
      ℕ → Ptr → Bytes → LruBucket → Heap A → Option (Bool × LruBucket × Heap A)
  delete_loop zero n key l h = none
  delete_loop (suc fuel) n key l h =
      let rest = delete_loop fuel (h.next n) key l h in
      if is_nil n
      then some (false, l, h)
      else ite (Bytes-discrete (h.key n) key) (let (l', h') = unlink n l h in some (true, l', h'))
          rest

  -- `Delete`. A chain of distinct nodes is shorter than the first unused address.
  unfoldable pub delete : Bytes → LruBucket → Heap A → Option (Bool × LruBucket × Heap A)
  delete key l h = delete_loop h.fresh l.head key l h
