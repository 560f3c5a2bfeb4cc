-- ===== src/Transport/Timer.antt =====
-- crates/transport/src/timer.rs: the check of a timer's configuration and the loop of its thread. A
-- `Duration` is its number of nanoseconds; what the loop meets in a round is an input.
pub mod Valid
pub mod Counts
mod Tests
use mantis.Prelude.{
  ℕ, ◌+◌, ◌-◌, ◌/◌, ◌%◌, ◌^◌, ◌==◌, ◌++◌, not, ltb, leb, if◌then◌else◌, List, [], ◌∷◌,
}
use mantis.Types.{SeqNum, Timestamp, none_id}
use mantis.Events.{HotEvent, TimerKind, no_flags}
use mantis.Events.Event

pub record TimerConfig : Type 0 where
  pub tick_interval : ℕ
  pub heartbeat_interval : ℕ
  pub source_id : ℕ

pub data TimerConfigError : Type 0 where
  zero_tick_interval heartbeat_shorter_than_tick : TimerConfigError
  heartbeat_not_divisible heartbeat_too_large : TimerConfigError

pub data Validated : Type 0 where
  ok : ℕ → Validated
  err : TimerConfigError → Validated

unfoldable pub validate : TimerConfig → Validated
validate config =
    let tick_ns = config.tick_interval in
    let hb_ns = config.heartbeat_interval in
    if tick_ns == 0
    then Validated.err TimerConfigError.zero_tick_interval
    else if ltb hb_ns tick_ns
    then Validated.err TimerConfigError.heartbeat_shorter_than_tick
    else if not (hb_ns % tick_ns == 0)
    then Validated.err TimerConfigError.heartbeat_not_divisible
    else if ltb (2 ^ 64 - 1) (hb_ns / tick_ns)
    then Validated.err TimerConfigError.heartbeat_too_large
    else Validated.ok (hb_ns / tick_ns)

-- The variables of the loop, and the events pushed so far.
pub record TimerState : Type 0 where
  pub tick_counter : ℕ
  pub heartbeat_counter : ℕ
  pub seq : ℕ
  pub pushed : List HotEvent

abbrev pub started : TimerState
started = record { tick_counter = 0; heartbeat_counter = 0; seq = 0; pushed = [] }

-- A round: the sleep was interrupted, the shutdown flag was set after it, or it elapsed, with what the
-- clock says at the two pushes.
pub data Round : Type 0 where
  interrupted : Round
  shut_down : Round
  elapsed : Timestamp → Timestamp → Round

-- `n += 1` on a u64.
abbrev pub next : ℕ → ℕ
next n = (n + 1) % 2 ^ 64

abbrev pub timer_event : ℕ → Timestamp → SeqNum → HotEvent
timer_event source_id now seq =
    Event.timer now seq none_id source_id no_flags
      (record { timer_id = 0; kind = TimerKind.periodic })

abbrev pub heartbeat_event : ℕ → Timestamp → SeqNum → ℕ → HotEvent
heartbeat_event source_id now seq counter =
    Event.heartbeat now seq source_id no_flags (record { counter = counter })

abbrev pub push : HotEvent → List HotEvent → List HotEvent
push e pushed = pushed ++ (e ∷ [])

-- The counters and the first push of a round.
abbrev pub tick : ℕ → Timestamp → TimerState → TimerState
tick source_id now s = record s {
  tick_counter = next s.tick_counter;
  seq = next s.seq;
  pushed = push (timer_event source_id now (next s.seq)) s.pushed;
}

-- The block under `if tick_counter.is_multiple_of(heartbeat_every)`.
abbrev pub beat : ℕ → Timestamp → TimerState → TimerState
beat source_id now s =
    let counter = (s.heartbeat_counter + 1) % 2 ^ 32 in
    record s {
      heartbeat_counter = counter;
      seq = next s.seq;
      pushed = push (heartbeat_event source_id now (next s.seq) counter) s.pushed;
    }

unfoldable pub elapse : ℕ → ℕ → Timestamp → Timestamp → TimerState → TimerState
elapse source_id heartbeat_every t1 t2 s =
    let s' = tick source_id t1 s in
    if s'.tick_counter % heartbeat_every == 0 then beat source_id t2 s' else s'

-- The loop over the rounds that it meets.
unfoldable pub timer_loop : ℕ → ℕ → List Round → TimerState → TimerState
timer_loop source_id heartbeat_every [] s = s
timer_loop source_id heartbeat_every (Round.interrupted ∷ rounds) s = s
timer_loop source_id heartbeat_every (Round.shut_down ∷ rounds) s = s
timer_loop source_id heartbeat_every (Round.elapsed t1 t2 ∷ rounds) s =
    timer_loop source_id heartbeat_every rounds (elapse source_id heartbeat_every t1 t2 s)
