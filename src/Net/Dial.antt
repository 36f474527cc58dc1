-- ===== src/Net/Dial.antt =====
-- internal/nodosum/memberlist.go: a `NotifyJoin` with the retries that it leads to.
use mathlib.Core.Option
use mathlib.Core.Logic.{if_pos, if_neg}
use mycorrhizal.Base.{
  ℕ, zero, suc, ◌-◌, ◌+◌, ◌*◌, ◌≤◌, ◌<◌, ◌≡◌, ◌⊎◌, refl, ◌∙◌, inl, inr, ltb, ltb→lt, Option-cases,
  Bool-cases, Result, ok, err, Option, none, some, List, [], ◌∷◌, ◌++◌, arith, ap, length,
}
use mycorrhizal.Base.Bytes.{Bytes, Bytes-discrete}
use mycorrhizal.Base.Decimal.{itoa}
use mycorrhizal.Base.Maps.{lookup, put, lookup-put_self}
use mycorrhizal.Net.{NetError, Nodosum}
use mycorrhizal.Net.Delegate.{
  Member, Action, join_now, join_after, topology_changed, quic_port, join_other, begin_join,
  attempts_of, retry, after_dial, notify_join, forget_attempts,
}

-- the wait of the first retry among some actions
abbrev pub next_retry : List Action → Option ℕ
next_retry [] = none
next_retry (join_now m ∷ actions) = next_retry actions
next_retry (join_after wait m ∷ actions) = some wait
next_retry (topology_changed name joined ∷ actions) = next_retry actions

-- The waits of the retries that one `NotifyJoin` leads to, where nothing else runs in between; `dial`
-- answers by the fuel that is left. `none` when the fuel runs out.
unfoldable pub retries :
    ℕ
    → (Bytes → Option Bytes)
    → (ℕ → Bytes → Bytes → Result NetError ℕ)
    → Member
    → Nodosum
    → Option (List ℕ)
retries zero resolve dial m n = none
retries (suc fuel) resolve dial m n =
    let (actions, n') = notify_join resolve (dial fuel) m n in
    let rest = retries fuel resolve dial m n' in
    elim (next_retry actions) [ none ↦ some [] | some wait ↦ Option.map (◌∷◌ wait) rest ]

abbrev pub sum : List ℕ → ℕ
sum [] = 0
sum (x ∷ xs) = x + sum xs

-- the milliseconds that are left after some failures
abbrev budget : ℕ → ℕ
budget zero = 3000
budget (suc zero) = 2900
budget (suc (suc zero)) = 2500
budget (suc (suc (suc zero))) = 1600
budget (suc (suc (suc (suc a)))) = 0

-- what one `NotifyJoin` does: it is not tried again, or one failure more is counted
abbrev Tried : Member → Nodosum → List Action × Nodosum → Type 0
Tried m n r =
    (next_retry r.0 ≡ none)
    ⊎ (attempts_of m.name n < 4)
      × (next_retry r.0 ≡ some ((attempts_of m.name n + 1) * (attempts_of m.name n + 1) * 100))
      × (attempts_of m.name r.1 ≡ attempts_of m.name n + 1)

attempts_of-put :
    (m : Member) (k : ℕ) (attempts : List (Bytes × ℕ))
    → elim (lookup m.name (put m.name k attempts)) [ none ↦ 0 | some k ↦ k ] ≡ k
attempts_of-put m k attempts = rw lookup-put_self refl

after_dial-Tried : (m : Member) (r : Result NetError ℕ) (n : Nodosum) → Tried m n (after_dial m r n)
unfolding after_dial retry attempts_of
after_dial-Tried m (ok c) n = elim (Option-cases (lookup m.name n.quic_conns)) [
  | inl o ↦ rw (o, after_dial) (inl refl)
  | inr (x, o) ↦ rw (o, after_dial) (inl refl)
]
after_dial-Tried m (err e) n = elim (Bool-cases (ltb (attempts_of m.name n + 1) 5)) [
  | inl b ↦ inr (
    omega (arith, ltb→lt _ _ b),
    rw b refl,
    attempts_of-put m (attempts_of m.name n + 1) n.dial_attempts,
  )
  | inr b ↦ inl (rw b refl)
]

-- `NotifyJoin` either dials nothing, or dials an address and counts the dial as under way.
pub begin_join-cases :
    (resolve : Bytes → Option Bytes) (m : Member) (n : Nodosum)
    → ((begin_join resolve m n).0 ≡ none)
      ⊎ (a : Bytes) × (begin_join resolve m n
          ≡ (some a, record n { dialling = m.name ∷ n.dialling }))
unfolding begin_join join_other forget_attempts
begin_join-cases resolve m n = elim (Bytes-discrete m.name n.node_id) [
  | yes e ↦ inl (
      ap (λ z. z.0) (if_pos (Bytes-discrete m.name n.node_id) e (none, n) (join_other resolve m n)))
  | no e ↦ elim (Option-cases (lookup m.name n.quic_conns)) [
    | inr (c, o) ↦ inl (
        ap (λ z. z.0)
          (if_neg (Bytes-discrete m.name n.node_id) e (none, n) (join_other resolve m n))
        ∙ rw (o, join_other) refl)
    | inl o ↦ elim (Option-cases (quic_port m.meta)) [
      | inl p ↦ inl (
          ap (λ z. z.0)
            (if_neg (Bytes-discrete m.name n.node_id) e (none, n) (join_other resolve m n))
          ∙ rw (o, join_other, p) refl)
      | inr (port, p) ↦ elim (Option-cases (resolve (m.addr ++ (b':' ∷ itoa port)))) [
        | inl r ↦ inl (
            ap (λ z. z.0)
              (if_neg (Bytes-discrete m.name n.node_id) e (none, n) (join_other resolve m n))
            ∙ rw (o, join_other, p, r) refl)
        | inr (a, r) ↦ inr (
          a,
          if_neg (Bytes-discrete m.name n.node_id) e (none, n) (join_other resolve m n)
              ∙ rw (o, join_other, p, r) refl,
        )
      ]
    ]
  ]
]

module _ (resolve : Bytes → Option Bytes) (dial : Bytes → Bytes → Result NetError ℕ) (m : Member)
    (n : Nodosum) where
  pub notify_join-begin_join :
      (r : Option Bytes × Nodosum)
      → begin_join resolve m n ≡ r
      → notify_join resolve dial m n
        ≡ elim r.0 [ none ↦ ([], r.1) | some a ↦ after_dial m (dial a m.name) r.1 ]
  unfolding notify_join
  notify_join-begin_join r h =
      ap
        (λ (z : Option Bytes × Nodosum). elim z.0 as (λ x. List Action × Nodosum) [
          | none ↦ ([], z.1)
          | some a ↦ after_dial m (dial a m.name) z.1
        ])
        h

  notify_join-Tried : Tried m n (notify_join resolve dial m n)
  unfolding notify_join attempts_of
  notify_join-Tried = elim (begin_join-cases resolve m n) [
    | inl o ↦ inl (rw (o, notify_join) refl)
    | inr (a, o) ↦
        rw (notify_join-begin_join _ o)
          (after_dial-Tried m (dial a m.name) (record n { dialling = m.name ∷ n.dialling }))
  ]

budget-step : (a : ℕ) → a < 4 → (a + 1) * (a + 1) * 100 + budget (a + 1) ≤ budget a
budget-step zero h = omega arith
budget-step (suc zero) h = omega arith
budget-step (suc (suc zero)) h = omega arith
budget-step (suc (suc (suc zero))) h = omega arith
budget-step (suc (suc (suc (suc a)))) h = absurd (omega arith)

retries-within :
    (fuel : ℕ) (resolve : Bytes → Option Bytes) (dial : ℕ → Bytes → Bytes → Result NetError ℕ)
    (m : Member) (n : Nodosum)
    → 4 < fuel + attempts_of m.name n
    → 0 < fuel
    → (waits : List ℕ) × (retries fuel resolve dial m n ≡ some waits)
      × (length waits ≤ 4 - attempts_of m.name n)
      × (sum waits ≤ budget (attempts_of m.name n))
unfolding retries
retries-within zero resolve dial m n h l = absurd (omega arith)
retries-within (suc fuel) resolve dial m n h l = elim (notify_join-Tried resolve (dial fuel) m n) [
  | inl s ↦ ([], rw (s, retries) refl, omega arith, omega arith)
  | inr (few, s, e) ↦
      let (waits, r, len, total) =
        retries-within fuel resolve dial m (notify_join resolve (dial fuel) m n).1
          (omega (arith, e)) (omega (arith)) in
      (
        (attempts_of m.name n + 1) * (attempts_of m.name n + 1) * 100 ∷ waits,
        rw (s, retries, r) refl,
        omega (arith, e, len),
        ground (arith, e, total, budget-step (attempts_of m.name n) few),
      )
]

budget-le : (a : ℕ) → budget a ≤ 3000
budget-le zero = omega arith
budget-le (suc zero) = omega arith
budget-le (suc (suc zero)) = omega arith
budget-le (suc (suc (suc zero))) = omega arith
budget-le (suc (suc (suc (suc a)))) = omega arith

-- Whatever the dials answer and however many failed before: where nothing else of the node runs between
-- them, no callback that forgets the failed dials among others, the retries that one `NotifyJoin` leads
-- to end, there are at most four of them, and they wait three seconds at most in total.
pub retries-bounded :
    (resolve : Bytes → Option Bytes) (dial : ℕ → Bytes → Bytes → Result NetError ℕ) (m : Member)
    (n : Nodosum)
    → (waits : List ℕ) × (retries 5 resolve dial m n ≡ some waits)
      × (length waits ≤ 4)
      × (sum waits ≤ 3000)
retries-bounded resolve dial m n =
    let (waits, r, len, total) = retries-within 5 resolve dial m n (omega arith) (omega arith) in
    (waits, r, omega (arith, len), omega (arith, total, budget-le (attempts_of m.name n)))
