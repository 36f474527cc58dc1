-- ===== src/Life/Started.antt =====
-- mycorrhizal.go: what holds at every moment of the first `Start` of a node.
use mycorrhizal.Base.{
  ℕ, ◌<◌, ◌≡◌, ◌≢◌, refl, ◌∙◌, Bool, true, false, ◌||◌, inl, inr, Bool-cases, Result, some, ok, err,
  arith, ltb,
}
use mycorrhizal.Life.{
  WaitError, timed_out, Phase, starting, waiting, finished, Main, joining, delaying, returned,
  Starting, begin, Step, network_starts, network_waits, cache_starts, cache_waits, joins,
  joins_at_once, delay_ends, delay_is_cancelled, owner_cancels, Reach, here, later, took_timer,
  select_ready, nodosum_ready_wait, mycel_ready_wait, nodosum_start, after_wait, mycel_start,
}

pub record IsStarting (delay : ℕ) (s : Starting) : Type 0 where
  -- the cache never starts before the network
  pub in_order : s.life.mycel_ready ≡ true → s.life.nodosum_ready ≡ true
  pub network_started : s.network ≢ starting → s.life.nodosum_ready ≡ true
  -- the cache is ready when its goroutine has started it, or the node is cancelled
  pub cache_started : s.cache ≢ starting → (s.life.mycel_ready || s.life.cancelled) ≡ true
  pub joined_network : s.main ≢ joining → s.network ≡ finished
  pub joined_cache : s.main ≢ joining → s.cache ≡ finished
  -- the node is ready exactly when `Start` has returned without an error
  pub ready_returned : s.life.ready ≡ true → s.main ≡ returned (ok tt)
  pub returned_ready : s.main ≡ returned (ok tt) → s.life.ready ≡ true
  -- the one error of `Start` is a cancellation during a start-up delay
  pub delayed : s.main ≢ joining → s.life.ready ≡ false → 0 < delay
  pub failed : (e : WaitError) → s.main ≡ returned (err e) → s.life.cancelled ≡ true

begin-IsStarting : (delay : ℕ) → IsStarting delay begin
begin-IsStarting delay = record {
  in_order = λ e. cc;
  network_started = λ e. absurd (e refl);
  cache_started = λ e. absurd (e refl);
  joined_network = λ e. absurd (e refl);
  joined_cache = λ e. absurd (e refl);
  ready_returned = λ e. cc;
  returned_ready = λ e. ground arith;
  delayed = λ e f. absurd (e refl);
  failed = λ e f. ground arith;
}

Step-IsStarting :
    {delay : ℕ} {s t : Starting} → Step delay s t → IsStarting delay s → IsStarting delay t
unfolding nodosum_start after_wait mycel_start nodosum_ready_wait mycel_ready_wait select_ready
Step-IsStarting (network_starts p) i = ground arith
Step-IsStarting (network_waits c (ok _) p e) i = ground arith
Step-IsStarting (network_waits c (err x) p e) i = ground arith
Step-IsStarting (cache_starts c (ok _) p e) i = ground arith
Step-IsStarting (cache_starts c (err x) p e) i = ground arith
Step-IsStarting (cache_waits c (ok _) p e) i = ground arith
Step-IsStarting (cache_waits c (err x) p e) i = ground arith
Step-IsStarting (joins n c m d) i = ground arith
Step-IsStarting (joins_at_once n c m d) i = ground arith
Step-IsStarting (delay_ends m) i = ground arith
Step-IsStarting (delay_is_cancelled m c) i = ground arith
Step-IsStarting owner_cancels i = ground arith

-- At every moment of the first `Start` of a node the cache has started only behind the network; the
-- node is ready exactly when `Start` has returned without an error, and then the network is ready, and
-- the cache is ready or the context cancelled; and `Start` returns an error only if the context was
-- cancelled during a positive start-up delay.
pub Reach-IsStarting : {delay : ℕ} {s : Starting} → Reach delay s → IsStarting delay s
Reach-IsStarting {delay} here = begin-IsStarting delay
Reach-IsStarting (later r st) = Step-IsStarting st (Reach-IsStarting r)

-- A step of `Start` itself that no other part of the node has to bring about: the network starts, a
-- wait times out, the function goes on behind the waits, or the delay ends. The owner of the context
-- does nothing, and no `select` takes a ready channel or a context.
unfoldable pub is_by_time : {delay : ℕ} {s t : Starting} → Step delay s t → Bool
is_by_time (network_starts p) = true
is_by_time (network_waits took_timer r p e) = true
is_by_time (cache_starts took_timer r p e) = true
is_by_time (cache_waits took_timer r p e) = true
is_by_time (joins n c m d) = true
is_by_time (joins_at_once n c m d) = true
is_by_time (delay_ends m) = true
is_by_time _ = false

-- some steps by time
pub data Steps (delay : ℕ) : Starting → Starting → Type 0 where
  none_left : {s : Starting} → Steps delay s s
  then_step :
      {s t u : Starting}
      → Steps delay s t
      → (st : Step delay t u) → is_by_time st ≡ true
      → Steps delay s u

Steps-trans : {delay : ℕ} {s t u : Starting} → Steps delay s t → Steps delay t u → Steps delay s u
Steps-trans r none_left = r
Steps-trans r (then_step q st b) = then_step (Steps-trans r q) st b

timed_out_wait : (ready done : Bool) → select_ready ready done took_timer ≡ some (err timed_out)
unfolding select_ready
timed_out_wait true done = refl
timed_out_wait false done = refl

module _ {delay : ℕ} where
  finish_waiting_network :
      (s : Starting)
      → s.network ≡ waiting
      → (t : Starting) × Steps delay s t
        × (t.network ≡ finished)
        × (t.cache ≡ s.cache)
        × (t.main ≡ s.main)
  unfolding nodosum_ready_wait is_by_time
  finish_waiting_network s e = (
    record s { life = after_wait (err timed_out) s.life; network = finished },
    then_step none_left
        (network_waits took_timer (err timed_out) e
          (timed_out_wait s.life.nodosum_ready (s.life.cancelled || s.life.nodosum_cancelled)))
        refl,
    refl,
    refl,
    refl,
  )

  finish_network :
      (s : Starting) (p : Phase)
      → s.network ≡ p
      → (t : Starting) × Steps delay s t
        × (t.network ≡ finished)
        × (t.cache ≡ s.cache)
        × (t.main ≡ s.main)
  unfolding is_by_time
  finish_network s starting e =
      let (t, steps, n, c, m) =
        finish_waiting_network (record s { life = nodosum_start s.life; network = waiting }) refl in
      (t, Steps-trans (then_step none_left (network_starts e) refl) steps, n, c, m)
  finish_network s waiting e = finish_waiting_network s e
  finish_network s finished e = (s, none_left, e, refl, refl)

  finish_waiting_cache :
      (s : Starting)
      → s.cache ≡ waiting
      → (t : Starting) × Steps delay s t
        × (t.network ≡ s.network)
        × (t.cache ≡ finished)
        × (t.main ≡ s.main)
  unfolding mycel_ready_wait is_by_time
  finish_waiting_cache s e = (
    record s { life = after_wait (err timed_out) s.life; cache = finished },
    then_step none_left
        (cache_waits took_timer (err timed_out) e
          (timed_out_wait s.life.mycel_ready (s.life.cancelled || s.life.mycel_cancelled)))
        refl,
    refl,
    refl,
    refl,
  )

  finish_cache :
      (s : Starting) (p : Phase)
      → s.cache ≡ p
      → (t : Starting) × Steps delay s t
        × (t.network ≡ s.network)
        × (t.cache ≡ finished)
        × (t.main ≡ s.main)
  unfolding nodosum_ready_wait is_by_time
  finish_cache s starting e =
      let (t, steps, n, c, m) =
        finish_waiting_cache
          (record s { life = mycel_start (err timed_out) s.life; cache = waiting }) refl in
      let first =
        cache_starts took_timer (err timed_out) e
          (timed_out_wait s.life.nodosum_ready (s.life.cancelled || s.life.nodosum_cancelled)) in
      (t, Steps-trans (then_step none_left first refl) steps, n, c, m)
  finish_cache s waiting e = finish_waiting_cache s e
  finish_cache s finished e = (s, none_left, refl, e, refl)

  -- the end of `Start` itself, once both goroutines have finished
  finish_main :
      (s : Starting) (m : Main)
      → s.main ≡ m
      → s.network ≡ finished
      → s.cache ≡ finished
      → (t : Starting) × (r : Result WaitError (Unit {0})) × Steps delay s t × (t.main ≡ returned r)
  unfolding is_by_time
  finish_main s (returned r) e n c = (s, r, none_left, e)
  finish_main s delaying e n c = (_, ok tt, then_step none_left (delay_ends e) refl, refl)
  finish_main s joining e n c = elim (Bool-cases (ltb 0 delay)) [
    | inl d ↦ (
      _,
      ok tt,
      then_step (then_step none_left (joins n c e d) refl) (delay_ends refl) refl,
      refl,
    )
    | inr d ↦ (_, ok tt, then_step none_left (joins_at_once n c e d) refl, refl)
  ]

  -- Wherever the first `Start` of a node stands, it can go on to return by steps of its own alone: the
  -- start of the network, the time-outs of the waits, and the end of the delay are enough. Neither a
  -- ready channel nor a context nor the owner of the context is needed.
  pub Steps-returned :
      (s : Starting)
      → (t : Starting) × (r : Result WaitError (Unit {0})) × Steps delay s t × (t.main ≡ returned r)
  Steps-returned s =
      let (t, first, n, c, m) = finish_network s s.network refl in
      let (u, second, n', c', m') = finish_cache t t.cache refl in
      let (v, r, third, e) = finish_main u u.main refl (n' ∙ n) c' in
      (v, r, Steps-trans (Steps-trans first second) third, e)
