-- ===== src/Transport/Timer/Counts.antt =====
-- The counters of the timer's loop and the numbers of its events.
use native.Mathlib.Nat.{
  div-eq_of_lt-le, div-eq_of_eq-mul_left, div-add-mod', mod-lt, mod-eq-sub-div-mul,
  le-div_iff_mul-le, div-mul-le_self, zero-div,
}
use mantis.Prelude.{
  ℕ, zero, suc, ◌+◌, ◌-◌, ◌*◌, ◌/◌, ◌%◌, ◌^◌, ◌<◌, ◌≤◌, ◌≡◌, ◌==◌, refl, ap, sym, ◌∙◌, ◌⊎◌, inl,
  inr, arith, true, false, List, [], ◌∷◌, ◌++◌, length, Bool-cases, subst, map, ltb,
}
use mantis.Types.{SeqNum, Timestamp}
use mantis.Events.{HotEvent, EventKind}
use mantis.Events.Event.{kind}
use mantis.Transport.Timer.{
  Round, TimerConfig, TimerState, Validated, elapse, push, timer_event, heartbeat_event, next,
  started, timer_loop, validate,
}
use mantis.Transport.Timer.Valid.{validate_iff}

-- The quotient goes up where the next number is a multiple, and there only.
at_quotient : (q r e : ℕ) → r + 1 < e → ((q * e + r + 1) / e ≡ q) × ((q * e + r + 1) % e ≡ r + 1)
at_quotient q r e h =
    let quotient : (q * e + r + 1) / e ≡ q = div-eq_of_lt-le e (omega arith) (grind arith) in
    (
      quotient,
      mod-eq-sub-div-mul (q * e + r + 1) e ∙ ap (λ z. q * e + r + 1 - z * e) quotient ∙ omega arith,
    )

past_quotient : (q r e : ℕ) → r + 1 ≡ e → ((q * e + r + 1) / e ≡ q + 1) × ((q * e + r + 1) % e ≡ 0)
past_quotient q r e h =
    let multiple : q * e + r + 1 ≡ (q + 1) * e = grind arith in
    let quotient : (q * e + r + 1) / e ≡ q + 1 = div-eq_of_eq-mul_left (omega arith) multiple in
    (
      quotient,
      mod-eq-sub-div-mul (q * e + r + 1) e ∙ ap (λ z. q * e + r + 1 - z * e) quotient ∙ grind arith,
    )

lt_or_eq : (a b : ℕ) → a ≤ b → (a < b) ⊎ (a ≡ b)
lt_or_eq a b h = elim (Bool-cases (ltb a b)) [
  | inl l ↦ inl (ground arith)
  | inr g ↦ inr (ground arith)
]

-- Counting on by one, in quotient and remainder.
div_next :
    (n e : ℕ)
    → 0 < e
    → (((n + 1) / e ≡ n / e + 1) × ((n + 1) % e ≡ 0))
      ⊎ (((n + 1) / e ≡ n / e) × ((n + 1) % e ≡ n % e + 1))
div_next n e h =
    let parts : n + 1 ≡ n / e * e + n % e + 1 = omega (arith, div-add-mod' n e) in
    elim (lt_or_eq (n % e + 1) e (omega (arith, mod-lt n h))) [
      | inl less ↦
          let (q, r) = at_quotient (n / e) (n % e) e less in
          inr (ap (λ z. z / e) parts ∙ q, ap (λ z. z % e) parts ∙ r)
      | inr full ↦
          let (q, r) = past_quotient (n / e) (n % e) e full in
          inl (ap (λ z. z / e) parts ∙ q, ap (λ z. z % e) parts ∙ r)
    ]

div_mono : (m n e : ℕ) → 0 < e → m ≤ n → m / e ≤ n / e
div_mono m n e h l = (le-div_iff_mul-le h).1 (omega (arith, div-mul-le_self m e))

abbrev pub number : HotEvent → SeqNum
number e = e.header.seq

-- 1, 2, …, n.
abbrev pub up_to : ℕ → List ℕ
up_to zero = []
up_to (suc n) = up_to n ++ (suc n ∷ [])

-- The heartbeats in a list of events.
abbrev pub beats : List HotEvent → ℕ
beats [] = 0
beats (e ∷ es) = (elim (kind e) [ EventKind.heartbeat ↦ 1 | _ ↦ 0 ]) + beats es

-- `k` intervals have passed: a heartbeat for each `every` of them, and the events are numbered from 1 on.
pub record Counted (every k : ℕ) (s : TimerState) : Type 0 where
  pub ticks : s.tick_counter ≡ k
  pub heartbeats : s.heartbeat_counter ≡ k / every % 2 ^ 32
  pub last : s.seq ≡ k + k / every
  pub numbers : map number s.pushed ≡ up_to (k + k / every)
  pub beaten : beats s.pushed ≡ k / every

map-push :
    (e : HotEvent) (es : List HotEvent) → map number (push e es) ≡ map number es ++ (number e ∷ [])
map-push e [] = refl
map-push e (x ∷ xs) = ap (λ z. number x ∷ z) (map-push e xs)

beats-push_timer :
    (src t n : ℕ) (es : List HotEvent) → beats (push (timer_event src t n) es) ≡ beats es
beats-push_timer src t n [] = refl
beats-push_timer src t n (x ∷ xs) =
    ap (λ z. (elim (kind x) [ EventKind.heartbeat ↦ 1 | _ ↦ 0 ]) + z) (beats-push_timer src t n xs)

beats-push_heartbeat :
    (src t n c : ℕ) (es : List HotEvent)
    → beats (push (heartbeat_event src t n c) es) ≡ beats es + 1
beats-push_heartbeat src t n c [] = omega arith
beats-push_heartbeat src t n c (x ∷ xs) = omega (arith, beats-push_heartbeat src t n c xs)

-- One more event, with the next number.
numbers-push :
    (e : HotEvent) (es : List HotEvent) (n : ℕ)
    → map number es ≡ up_to n
    → number e ≡ n + 1
    → map number (push e es) ≡ up_to (n + 1)
numbers-push e es n h k =
    let next_up : suc n ≡ n + 1 = omega arith in
    map-push e es
    ∙ ap (λ z. z ++ (number e ∷ [])) h
    ∙ ap (λ z. up_to n ++ (z ∷ [])) (k ∙ sym next_up)
    ∙ ap up_to next_up

-- Each round of the loop counts one interval more.
elapse-Counted :
    (src every k t1 t2 : ℕ) (s : TimerState)
    → 0 < every
    → k + 1 + (k + 1) / every < 2 ^ 64
    → Counted every k s
    → Counted every (k + 1) (elapse src every t1 t2 s)
unfolding elapse
elapse-Counted src every k t1 t2 s h u c =
    let n = k + k / every in
    let ticked : next s.tick_counter ≡ k + 1 = ground (arith, c.ticks) in
    let grows = div_mono k (k + 1) every h (omega arith) in
    let first : next s.seq ≡ n + 1 = ground (arith, c.last) in
    let numbers = numbers-push (timer_event src t1 (next s.seq)) s.pushed n c.numbers first in
    let beaten = beats-push_timer src t1 (next s.seq) s.pushed ∙ c.beaten in
    elim (div_next k every h) [
      | inl (q, r) ↦
          let due : (next s.tick_counter % every == 0) ≡ true =
            ap (λ z. z % every == 0) ticked ∙ ap (λ z. z == 0) r in
          let second : next (next s.seq) ≡ n + 1 + 1 = ground (arith, first, q) in
          let total : n + 1 + 1 ≡ k + 1 + (k + 1) / every = omega (arith, q) in
          let counter = (s.heartbeat_counter + 1) % 2 ^ 32 in
          rw due (record {
            ticks = ticked;
            heartbeats = ground (arith, c.heartbeats, q);
            last = second ∙ total;
            numbers =
                numbers-push (heartbeat_event src t2 (next (next s.seq)) counter)
                  (push (timer_event src t1 (next s.seq)) s.pushed) (n + 1) numbers second
                ∙ ap up_to total;
            beaten =
                beats-push_heartbeat src t2 (next (next s.seq)) counter _
                ∙ ap (λ z. z + 1) beaten
                ∙ sym q;
          })
      | inr (q, r) ↦
          let idle : (next s.tick_counter % every == 0) ≡ false =
            ap (λ z. z % every == 0) ticked ∙ ap (λ z. z == 0) r ∙ ground arith in
          let total : n + 1 ≡ k + 1 + (k + 1) / every = omega (arith, q) in
          rw idle (record {
            ticks = ticked;
            heartbeats = c.heartbeats ∙ ap (λ z. z % 2 ^ 32) (sym q);
            last = first ∙ total;
            numbers = numbers ∙ ap up_to total;
            beaten = beaten ∙ sym q;
          })
    ]

abbrev pub elapsed_rounds : List (Timestamp × Timestamp) → List Round
elapsed_rounds [] = []
elapsed_rounds ((t1, t2) ∷ ts) = Round.elapsed t1 t2 ∷ elapsed_rounds ts

timer_loop-Counted :
    (src every k : ℕ) (times : List (Timestamp × Timestamp)) (s : TimerState)
    → 0 < every
    → k + length times + (k + length times) / every < 2 ^ 64
    → Counted every k s
    → Counted every (k + length times) (timer_loop src every (elapsed_rounds times) s)
unfolding timer_loop
timer_loop-Counted src every k [] s h u c =
    let same : k ≡ k + 0 = omega arith in subst (λ n. Counted every n s) same c
timer_loop-Counted src every k ((t1, t2) ∷ ts) s h u c =
    let count : k + 1 + length ts ≡ k + suc (length ts) = omega arith in
    let u' : k + 1 + length ts + (k + 1 + length ts) / every < 2 ^ 64 =
      subst (λ n. n + n / every < 2 ^ 64) (sym count) u in
    let later : (k + 1) / every ≤ (k + 1 + length ts) / every =
      div_mono (k + 1) (k + 1 + length ts) every h (omega arith) in
    subst
      (λ n. Counted every n (timer_loop src every (elapsed_rounds ts) (elapse src every t1 t2 s)))
      count
      (timer_loop-Counted src every (k + 1) ts (elapse src every t1 t2 s) h u'
        (elapse-Counted src every k t1 t2 s h (omega arith) c))

module _ (config : TimerConfig) (every : ℕ) (times : List (Timestamp × Timestamp)) where
  -- With an accepted configuration, after any number of intervals whose events still have u64 numbers:
  -- the loop has counted the intervals, it has sent a heartbeat for every `every` of them, which is
  -- what its 32-bit counter says, and the events that it pushed are numbered 1, 2, 3 and so on.
  pub timer_loop-started :
      validate config ≡ Validated.ok every
      → length times + length times / every < 2 ^ 64
      → Counted every
          (length times)
          (timer_loop config.source_id every (elapsed_rounds times) started)
  timer_loop-started e u =
      let positive = ((validate_iff config every).0 e).1 in
      let none_yet : 0 / every ≡ 0 = zero-div every in
      let begun : Counted every 0 started = record {
        ticks = refl;
        heartbeats = ap (λ z. z % 2 ^ 32) (sym none_yet);
        last = omega (arith, none_yet);
        numbers = ap up_to {x = 0} {y = 0 + 0 / every} (omega (arith, none_yet));
        beaten = sym none_yet;
      } in
      let same : 0 + length times ≡ length times = omega arith in
      subst
        (λ n. Counted every n (timer_loop config.source_id every (elapsed_rounds times) started))
        same
        (timer_loop-Counted config.source_id every 0 times started positive
          (subst (λ n. n + n / every < 2 ^ 64) (sym same) u) begun)
