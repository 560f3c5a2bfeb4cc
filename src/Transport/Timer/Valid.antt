-- ===== src/Transport/Timer/Valid.antt =====
-- Which configurations of the timer are accepted.
use native.Mathlib.Nat.{div-add-mod', le-div_iff_mul-le, mul-div_cancel, mul-mod_left}
use mantis.Prelude.{
  ℕ, ◌-◌, ◌*◌, ◌/◌, ◌%◌, ◌^◌, ◌<◌, ◌≤◌, ◌≡◌, ◌↔◌, ◌==◌, arith, ltb, Bool-cases, inl, inr, ap, ◌∙◌,
}
use mantis.Transport.Timer.{TimerConfig, Validated, validate}

positive_ratio : (hb tick : ℕ) → 0 < tick → tick ≤ hb → 0 < hb / tick
positive_ratio hb tick h l = (le-div_iff_mul-le h).1 (omega arith)

accepted :
    (config : TimerConfig) (every : ℕ)
    → validate config ≡ Validated.ok every
    → (0 < config.tick_interval)
      × (0 < every)
      × (every < 2 ^ 64)
      × (config.heartbeat_interval ≡ every * config.tick_interval)
unfolding validate
accepted config every e =
    let hb = config.heartbeat_interval in
    let tick = config.tick_interval in
    elim (Bool-cases (tick == 0)) [
      | inl z ↦ let e' = rw z at e in absurd (ground arith)
      | inr nz ↦ elim (Bool-cases (ltb hb tick)) [
        | inl less ↦ let e' = rw (nz, less) at e in absurd (ground arith)
        | inr enough ↦
            let ratio = positive_ratio hb tick (ground arith) (ground arith) in
            let whole = div-add-mod' hb tick in
            elim (Bool-cases (hb % tick == 0)) [
              | inr rest ↦ let e' = rw (nz, enough, rest) at e in absurd (ground arith)
              | inl divides ↦ elim (Bool-cases (ltb (2 ^ 64 - 1) (hb / tick))) [
                | inl large ↦ let e' = rw (nz, enough, divides, large) at e in absurd (ground arith)
                | inr fits ↦
                    let e' = rw (nz, enough, divides, fits) at e in
                    let quotient : hb / tick ≡ every = ground arith in
                    let product : hb / tick * tick ≡ every * tick = ap (λ z. z * tick) quotient in
                    (ground arith, omega arith, ground arith, ground arith)
              ]
            ]
      ]
    ]

rejects_no_other :
    (config : TimerConfig) (every : ℕ)
    → (0 < config.tick_interval)
      × (0 < every)
      × (every < 2 ^ 64)
      × (config.heartbeat_interval ≡ every * config.tick_interval)
    → validate config ≡ Validated.ok every
unfolding validate
rejects_no_other config every (t, p, u, h) =
    let tick = config.tick_interval in
    let quotient : config.heartbeat_interval / tick ≡ every =
      ap (λ z. z / tick) h ∙ mul-div_cancel every t in
    let remainder : config.heartbeat_interval % tick ≡ 0 =
      ap (λ z. z % tick) h ∙ mul-mod_left every tick in
    let longer : tick ≤ config.heartbeat_interval = grind arith in ground arith

-- A configuration is accepted, with the number `every`, just when the tick interval is not zero and the
-- heartbeat interval is `every` tick intervals, where `every` is a u64 from 1 on.
pub validate_iff :
    (config : TimerConfig) (every : ℕ)
    → (validate config ≡ Validated.ok every) ↔ (
        (0 < config.tick_interval)
        × (0 < every)
        × (every < 2 ^ 64)
        × (config.heartbeat_interval ≡ every * config.tick_interval))
unfolding validate
validate_iff config every = (accepted config every, rejects_no_other config every)
