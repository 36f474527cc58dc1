-- ===== src/Life/Stopping.antt =====
-- mycorrhizal.go: `Shutdown`, whose goroutines are started by `WaitGroup.Go` and call `Done` once more
-- themselves. `counter` is the count of the wait group when `Shutdown` is called: each `Start` adds two.
-- The `Shutdown` of a component cancels its context and waits for its goroutines: one step here.
use mycorrhizal.Base.{
  ℕ, zero, suc, ◌+◌, ◌≡◌, ◌≢◌, ◌<◌, refl, Bool, inl, inr, ◌⊎◌, true, false, arith,
}

-- one goroutine: before `Go`, in the component's `Shutdown`, behind it, behind its own `Done`, and
-- behind that of `Go`
pub data Task : Type 0 where
  unspawned running shut counted gone : Task

-- where `Shutdown` itself stands
pub data Main : Type 0 where
  beginning network_spawned both_spawned awaiting returned : Main

pub record Stop : Type 0 where
  pub counter : ℕ
  pub network : Task
  pub cache : Task
  pub main : Main
  pub cancelled : Bool
  pub nodosum_cancelled : Bool
  pub mycel_cancelled : Bool

-- a count below zero panics
pub data Stopping : Type 0 where
  alive : Stop → Stopping
  panicked : Stopping

unfoldable pub done : Stop → Stopping
done s = elim s.counter [ zero ↦ panicked | suc n ↦ alive (record s { counter = n }) ]

pub data Step : Stop → Stopping → Type 0 where
  spawns_network :
      {s : Stop}
      → s.main ≡ beginning
      → Step s
          (alive (record s { counter = s.counter + 1; network = running; main = network_spawned }))
  spawns_cache :
      {s : Stop}
      → s.main ≡ network_spawned
      → Step s (alive (record s { counter = s.counter + 1; cache = running; main = both_spawned }))
  cancels :
      {s : Stop}
      → s.main ≡ both_spawned
      → Step s (alive (record s { cancelled = true; main = awaiting }))
  network_shuts :
      {s : Stop}
      → s.network ≡ running
      → Step s (alive (record s { network = shut; nodosum_cancelled = true }))
  cache_shuts :
      {s : Stop}
      → s.cache ≡ running
      → Step s (alive (record s { cache = shut; mycel_cancelled = true }))
  network_done : {s : Stop} → s.network ≡ shut → Step s (done (record s { network = counted }))
  cache_done : {s : Stop} → s.cache ≡ shut → Step s (done (record s { cache = counted }))
  network_leaves : {s : Stop} → s.network ≡ counted → Step s (done (record s { network = gone }))
  cache_leaves : {s : Stop} → s.cache ≡ counted → Step s (done (record s { cache = gone }))
  -- `mc.wg.Wait()`
  returns :
      {s : Stop} → s.main ≡ awaiting → s.counter ≡ 0 → Step s (alive (record s { main = returned }))

abbrev pub begin : ℕ → Stop
begin k = record {
  counter = k;
  network = unspawned;
  cache = unspawned;
  main = beginning;
  cancelled = false;
  nodosum_cancelled = false;
  mycel_cancelled = false;
}

pub data Reach (k : ℕ) : Stopping → Type 0 where
  here : Reach k (alive (begin k))
  later : {s : Stop} {t : Stopping} → Reach k (alive s) → Step s t → Reach k t

-- what a goroutine has added to the count, and what it has taken off again
abbrev added : Task → ℕ
added unspawned = 0
added running = 1
added shut = 1
added counted = 0
added gone = 0

abbrev taken : Task → ℕ
taken gone = 1
taken unspawned = 0
taken running = 0
taken shut = 0
taken counted = 0

pub record IsCounted (k : ℕ) (s : Stop) : Type 0 where
  pub count : s.counter + taken s.network + taken s.cache ≡ k + added s.network + added s.cache
  pub before : s.main ≡ beginning → s.network ≡ unspawned
  pub cache_before : s.main ≡ network_spawned → s.cache ≡ unspawned
  pub cache_first : s.main ≡ beginning → s.cache ≡ unspawned
  pub network_closed : taken s.network ≡ 1 → s.nodosum_cancelled ≡ true
  pub cache_closed : taken s.cache ≡ 1 → s.mycel_cancelled ≡ true
  pub network_shut : s.network ≡ shut → s.nodosum_cancelled ≡ true
  pub cache_shut : s.cache ≡ shut → s.mycel_cancelled ≡ true
  pub network_counted : s.network ≡ counted → s.nodosum_cancelled ≡ true
  pub cache_counted : s.cache ≡ counted → s.mycel_cancelled ≡ true
  pub cancelled_awaiting : s.main ≡ awaiting → s.cancelled ≡ true
  pub cancelled_returned : s.main ≡ returned → s.cancelled ≡ true
  pub zero_returned : s.main ≡ returned → s.counter ≡ 0

abbrev IsStopping : ℕ → Stopping → Type 0
IsStopping k (alive s) = IsCounted k s
IsStopping k panicked = k < 2

begin-IsCounted : (k : ℕ) → IsCounted k (begin k)
begin-IsCounted k = ground arith

count-cases : (n : ℕ) → (n ≡ 0) ⊎ ((m : ℕ) × (n ≡ suc m))
count-cases zero = inl refl
count-cases (suc m) = inr (m, refl)

Step-IsStopping : {k : ℕ} {s : Stop} {t : Stopping} → Step s t → IsCounted k s → IsStopping k t
unfolding done
Step-IsStopping (spawns_network m) i = ground arith
Step-IsStopping (spawns_cache m) i = ground arith
Step-IsStopping (cancels m) i = ground arith
Step-IsStopping (network_shuts e) i = ground arith
Step-IsStopping (cache_shuts e) i = ground arith
Step-IsStopping (network_done {s} e) i = elim (count-cases s.counter) [
  | inl z ↦ rw (z, done) (ground arith)
  | inr (m, z) ↦ rw (z, done) (ground arith)
]
Step-IsStopping (cache_done {s} e) i = elim (count-cases s.counter) [
  | inl z ↦ rw (z, done) (ground arith)
  | inr (m, z) ↦ rw (z, done) (ground arith)
]
Step-IsStopping (network_leaves {s} e) i = elim (count-cases s.counter) [
  | inl z ↦ rw (z, done) (ground arith)
  | inr (m, z) ↦ rw (z, done) (ground arith)
]
Step-IsStopping (cache_leaves {s} e) i = elim (count-cases s.counter) [
  | inl z ↦ rw (z, done) (ground arith)
  | inr (m, z) ↦ rw (z, done) (ground arith)
]
Step-IsStopping (returns m z) i = ground arith

Reach-IsStopping : {k : ℕ} {t : Stopping} → Reach k t → IsStopping k t
Reach-IsStopping {k} here = begin-IsCounted k
Reach-IsStopping (later r st) = Step-IsStopping st (Reach-IsStopping r)

-- `Shutdown` has returned only when both goroutines are gone and every context is cancelled
pub record IsDown (s : Stop) : Type 0 where
  pub network_gone : s.main ≡ returned → s.network ≡ gone
  pub cache_gone : s.main ≡ returned → s.cache ≡ gone
  pub node_closed : s.main ≡ returned → s.cancelled ≡ true
  pub network_closed : s.main ≡ returned → s.nodosum_cancelled ≡ true
  pub cache_closed : s.main ≡ returned → s.mycel_cancelled ≡ true

-- With any other count than that of one `Start`, there is never a moment at which `Shutdown` has
-- returned and both of its goroutines are gone.
pub Reach-miscounted :
    {k : ℕ} {s : Stop}
    → k ≢ 2
    → Reach k (alive s)
    → ¬ ((s.main ≡ returned) × (s.network ≡ gone) × (s.cache ≡ gone))
Reach-miscounted {k} {s} ne r (m, n, c) =
    let i : IsCounted k s = Reach-IsStopping r in ne (ground (arith, i.count, i.zero_returned m))
