-- ===== src/Life.antt =====
-- mycorrhizal.go, internal/mycel/mycel.go and internal/nodosum/nodosum.go: `Start` and `Ready` of a
-- node, of its network and of its cache. The two goroutines of `Start`, its own code behind them and
-- the owner of the context take their steps in any order. The workers that the components start, the
-- debug server and the joining of the cluster stand outside; a panic of the library's calls too.
pub mod Started
pub mod Stopping
mod Tests
use mycorrhizal.Base.{ℕ, ◌≡◌, Bool, true, false, ◌||◌, Option, none, some, Result, ok, err, ltb}

-- what `Ready` and `Start` return as errors
pub data WaitError : Type 0 where
  timed_out : WaitError
  context_cancelled : WaitError

-- the case that a `select` takes
pub data Choice : Type 0 where
  took_ready took_timer took_done : Choice

-- where each goroutine of `Start` stands
pub data Phase : Type 0 where
  starting waiting finished : Phase

-- where `Start` itself stands
pub data Main : Type 0 where
  joining : Main
  delaying : Main
  returned : Result WaitError (Unit {0}) → Main

-- The contexts and the ready channels, which are closed when they are `true`. The contexts of the
-- components are children of the node's.
pub record Life : Type 0 where
  pub cancelled : Bool
  pub nodosum_cancelled : Bool
  pub mycel_cancelled : Bool
  pub nodosum_ready : Bool
  pub mycel_ready : Bool
  pub ready : Bool

-- The `select` of the three functions `Ready`, of a ready channel and a context: `none` is a case that
-- is not there to be taken. The timer may fire at any time.
unfoldable pub select_ready : (ready done : Bool) → Choice → Option (Result WaitError (Unit {0}))
select_ready true done took_ready = some (ok tt)
select_ready ready done took_timer = some (err timed_out)
select_ready ready true took_done = some (err context_cancelled)
select_ready ready done _ = none

-- the `Ready` of the network, of the cache and of the node
unfoldable pub nodosum_ready_wait : Life → Choice → Option (Result WaitError (Unit {0}))
nodosum_ready_wait l = select_ready l.nodosum_ready (l.cancelled || l.nodosum_cancelled)

unfoldable pub mycel_ready_wait : Life → Choice → Option (Result WaitError (Unit {0}))
mycel_ready_wait l = select_ready l.mycel_ready (l.cancelled || l.mycel_cancelled)

unfoldable pub ready_wait : Life → Choice → Option (Result WaitError (Unit {0}))
ready_wait l = select_ready l.ready l.cancelled

-- `nodosum.Start`, which runs once
unfoldable pub nodosum_start : Life → Life
nodosum_start l = record l { nodosum_ready = true }

-- the end of a goroutine's `Ready`, and `mc.cancel()` behind its error
unfoldable pub after_wait : Result WaitError (Unit {0}) → Life → Life
after_wait (ok _) l = l
after_wait (err e) l = record l { cancelled = true }

-- `mycel.Start` behind its wait for the network, and `mc.cancel()` behind its error
unfoldable pub mycel_start : Result WaitError (Unit {0}) → Life → Life
mycel_start (ok _) l = record l { mycel_ready = true }
mycel_start (err e) l = record l { mycel_cancelled = true; cancelled = true }

-- a node during `Start`: the two goroutines, and the function itself
pub record Starting : Type 0 where
  pub life : Life
  pub network : Phase
  pub cache : Phase
  pub main : Main

abbrev pub new_life : Life
new_life = record {
  cancelled = false;
  nodosum_cancelled = false;
  mycel_cancelled = false;
  nodosum_ready = false;
  mycel_ready = false;
  ready = false;
}

-- the first `Start` of a node
abbrev pub begin : Starting
begin = record { life = new_life; network = starting; cache = starting; main = joining }

-- one step of `Start`, with `delay` the start-up delay
pub data Step (delay : ℕ) : Starting → Starting → Type 0 where
  network_starts :
      {s : Starting}
      → s.network ≡ starting
      → Step delay s (record s { life = nodosum_start s.life; network = waiting })
  network_waits :
      {s : Starting} (c : Choice) (r : Result WaitError (Unit {0}))
      → s.network ≡ waiting
      → nodosum_ready_wait s.life c ≡ some r
      → Step delay s (record s { life = after_wait r s.life; network = finished })
  cache_starts :
      {s : Starting} (c : Choice) (r : Result WaitError (Unit {0}))
      → s.cache ≡ starting
      → nodosum_ready_wait s.life c ≡ some r
      → Step delay s (record s { life = mycel_start r s.life; cache = waiting })
  cache_waits :
      {s : Starting} (c : Choice) (r : Result WaitError (Unit {0}))
      → s.cache ≡ waiting
      → mycel_ready_wait s.life c ≡ some r
      → Step delay s (record s { life = after_wait r s.life; cache = finished })
  -- `wg.Wait()` returns; a delay of zero is skipped
  joins :
      {s : Starting}
      → s.network ≡ finished
      → s.cache ≡ finished
      → s.main ≡ joining
      → ltb 0 delay ≡ true
      → Step delay s (record s { main = delaying })
  joins_at_once :
      {s : Starting}
      → s.network ≡ finished
      → s.cache ≡ finished
      → s.main ≡ joining
      → ltb 0 delay ≡ false
      → Step delay s (record s { life = record s.life { ready = true }; main = returned (ok tt) })
  delay_ends :
      {s : Starting}
      → s.main ≡ delaying
      → Step delay s (record s { life = record s.life { ready = true }; main = returned (ok tt) })
  delay_is_cancelled :
      {s : Starting}
      → s.main ≡ delaying
      → s.life.cancelled ≡ true
      → Step delay s (record s { main = returned (err context_cancelled) })
  -- the owner of the configuration's context
  owner_cancels :
      {s : Starting} → Step delay s (record s { life = record s.life { cancelled = true } })

pub data Reach (delay : ℕ) : Starting → Type 0 where
  here : Reach delay begin
  later : {s t : Starting} → Reach delay s → Step delay s t → Reach delay t
