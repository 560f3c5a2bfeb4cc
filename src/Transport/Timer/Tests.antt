-- ===== src/Transport/Timer/Tests.antt =====
-- The theorems on the timer at a concrete configuration, and a run.
use mantis.Prelude.{◌*◌, ◌^◌, ◌<◌, ◌≡◌, ◌↔◌, refl, arith, List, [], ◌∷◌, ◌++◌, map}
use mantis.Types.{Timestamp}
use mantis.Transport.Timer.{
  TimerConfig, TimerConfigError, Round, Validated, validate, elapse, timer_loop, started,
}
use mantis.Transport.Timer.Valid
use mantis.Transport.Timer.Counts
use mantis.Transport.Timer.Counts.{Counted, elapsed_rounds, number}

abbrev every_second : TimerConfig
every_second = record { tick_interval = 10; heartbeat_interval = 20; source_id = 3 }

accepted : validate every_second ≡ Validated.ok 2
unfolding validate
accepted = refl

uneven :
    validate (record every_second { heartbeat_interval = 25 })
    ≡ Validated.err TimerConfigError.heartbeat_not_divisible
unfolding validate
uneven = refl

abbrev times : List (Timestamp × Timestamp)
times = (10, 11) ∷ (20, 21) ∷ (30, 31) ∷ (40, 41) ∷ (50, 51) ∷ []

-- Nothing happens once the loop has seen the shutdown.
seven_events :
    map number
      (timer_loop 3 2
        (elapsed_rounds times ++ (Round.shut_down ∷ Round.elapsed 60 61 ∷ []))
        started).pushed
    ≡ 1 ∷ 2 ∷ 3 ∷ 4 ∷ 5 ∷ 6 ∷ 7 ∷ []
unfolding timer_loop elapse
seven_events = refl

validate_iff_example :
    (validate every_second ≡ Validated.ok 2) ↔ ((0 < 10) × (0 < 2) × (2 < 2 ^ 64) × (20 ≡ 2 * 10))
validate_iff_example = Valid.validate_iff every_second 2

timer_loop-started_example : Counted 2 5 (timer_loop 3 2 (elapsed_rounds times) started)
timer_loop-started_example = Counts.timer_loop-started every_second 2 times accepted (omega arith)
