-- ===== src/Life/Tests.antt =====
-- Concrete starts and shutdowns: a start whose context is cancelled first, a shutdown after one start,
-- and one without a start.
use mycorrhizal.Base.{ℕ, ◌≡◌, refl, true, false, Result, ok, arith}
use mycorrhizal.Life.{
  took_done, finished, returned, Starting, begin, Reach, WaitError, nodosum_ready_wait,
  mycel_ready_wait, select_ready, nodosum_start, after_wait, mycel_start, owner_cancels,
  network_starts, network_waits, cache_starts, cache_waits, joins_at_once, here, later,
}
use mycorrhizal.Life.Started.{IsStarting, Steps, Reach-IsStarting, Steps-returned}
use mycorrhizal.Life.Stopping
use mycorrhizal.Life.Stopping.{Reach-miscounted}

-- a start that has returned without an error, its context cancelled and its cache not started
abbrev cancelled_start : Starting
cancelled_start = record {
  life = record {
    cancelled = true;
    nodosum_cancelled = false;
    mycel_cancelled = true;
    nodosum_ready = true;
    mycel_ready = false;
    ready = true;
  };
  network = finished;
  cache = finished;
  main = returned (ok tt);
}

cancelled_start_run : Reach 0 cancelled_start
unfolding nodosum_ready_wait mycel_ready_wait select_ready nodosum_start after_wait mycel_start
cancelled_start_run =
    let cancelled : Reach 0 _ = later here owner_cancels in
    let network : Reach 0 _ = later cancelled (network_starts refl) in
    let cache : Reach 0 _ = later network (cache_starts took_done _ refl refl) in
    let network_ended : Reach 0 _ = later cache (network_waits took_done _ refl refl) in
    let cache_ended : Reach 0 _ = later network_ended (cache_waits took_done _ refl refl) in
    later cache_ended (joins_at_once refl refl refl refl)

Reach-IsStarting_example : IsStarting 0 cancelled_start
Reach-IsStarting_example = Reach-IsStarting cancelled_start_run

Steps-returned_example :
    (t : Starting) × (r : Result WaitError (Unit {0})) × Steps 2 begin t × (t.main ≡ returned r)
Steps-returned_example = Steps-returned begin

-- a shutdown that has returned, from the count of the wait group and where its goroutines stand
abbrev shut_down : ℕ → Stopping.Task → Stopping.Stop
shut_down k p = record {
  counter = k;
  network = p;
  cache = p;
  main = Stopping.returned;
  cancelled = true;
  nodosum_cancelled = true;
  mycel_cancelled = true;
}

-- without a `Start`: the count is zero before the goroutines are gone
early_run : Stopping.Reach 0 (Stopping.alive (shut_down 0 Stopping.counted))
unfolding Stopping.done
early_run =
    let network : Stopping.Reach 0 _ =
      Stopping.later Stopping.here (Stopping.spawns_network refl) in
    let both : Stopping.Reach 0 _ = Stopping.later network (Stopping.spawns_cache refl) in
    let cancelled : Stopping.Reach 0 _ = Stopping.later both (Stopping.cancels refl) in
    let network_shut : Stopping.Reach 0 _ =
      Stopping.later cancelled (Stopping.network_shuts refl) in
    let cache_shut : Stopping.Reach 0 _ = Stopping.later network_shut (Stopping.cache_shuts refl) in
    let network_done : Stopping.Reach 0 _ =
      Stopping.later cache_shut (Stopping.network_done refl) in
    let cache_done : Stopping.Reach 0 _ = Stopping.later network_done (Stopping.cache_done refl) in
    Stopping.later cache_done (Stopping.returns refl refl)

-- and then the next `Done` panics
panic_run : Stopping.Reach 0 Stopping.panicked
unfolding Stopping.done
panic_run = Stopping.later early_run (Stopping.network_leaves refl)

Reach-miscounted_example : ¬ (
    (Stopping.returned ≡ Stopping.returned)
    × (Stopping.counted ≡ Stopping.gone)
    × (Stopping.counted ≡ Stopping.gone))
Reach-miscounted_example =
    Reach-miscounted {k = 0} {s = shut_down 0 Stopping.counted} (λ e. ground arith) early_run
