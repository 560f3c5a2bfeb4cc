-- ===== src/Transport/Feed.antt =====
-- crates/transport/src/feed.rs: the loop of a feed thread and its backoff. A `Duration` is its number of
-- nanoseconds, below 2^64 seconds. The jitter of a delay, which reads the clock and f64 values, is not
-- modelled; what the loop meets (flag, socket, callback) is an input.
pub mod Counts
mod Tests
use mantis.Prelude.{
  ℕ, ◌+◌, ◌-◌, ◌*◌, ◌%◌, ◌^◌, Bool, true, false, ltb, if◌then◌else◌, List, [], ◌∷◌, ◌++◌, min,
}

pub record BackoffConfig : Type 0 where
  pub initial : ℕ
  pub max : ℕ

-- `BackoffConfig::default`, without the jitter factor: one second and thirty.
abbrev pub default : BackoffConfig
default = record { initial = 1000000000; max = 30000000000 }

abbrev pub max_duration : ℕ
max_duration = 2 ^ 64 * 1000000000 - 1

-- `Duration::saturating_mul`
abbrev pub saturating_mul : ℕ → ℕ → ℕ
saturating_mul d n = min (d * n) max_duration

-- The delay before the jitter; `wrapping_shl` by at most 20 is a power of two.
unfoldable pub capped_delay : BackoffConfig → ℕ → ℕ
capped_delay b attempt = min (saturating_mul b.initial (2 ^ min attempt 20)) b.max

-- What a read returns: no data, a message with the answer of the callback, or an end of the connection.
pub data Read : Type 0 where
  no_data : Read
  message : Bool → Read
  closed failed : Read

-- A round of the inner loop: the shutdown flag is set, or the socket is read.
pub data Round : Type 0 where
  shut_down : Round
  reads : Read → Round

-- A round of the outer loop: the flag is set, or a connection is refused and the sleep after it is
-- interrupted or not, or a connection is read until it ends, with the sleep after it.
pub data Try : Type 0 where
  shut_down : Try
  refused : Bool → Try
  connected : List Round → Bool → Try

-- The variable of the loop, the counters that it shares, and the attempts whose delays it slept.
pub record FeedState : Type 0 where
  pub attempt : ℕ
  pub reconnects : ℕ
  pub msg_count : ℕ
  pub slept : List ℕ

abbrev pub started : FeedState
started = record { attempt = 0; reconnects = 0; msg_count = 0; slept = [] }

-- How a loop leaves: the thread returns, the connection ended, or the rounds that are given end first.
pub data Exit : Type 0 where
  returned broken running : Exit

-- `fetch_add(1)` on a u64.
abbrev pub count : ℕ → ℕ
count n = (n + 1) % 2 ^ 64

-- A successful `connect`.
abbrev pub on_connect : FeedState → FeedState
on_connect s = record s {
  attempt = 0;
  reconnects = if ltb 0 s.attempt then count s.reconnects else s.reconnects;
}

-- The delay and `attempt.saturating_add(1)` on a u32.
abbrev pub back_off : FeedState → FeedState
back_off s = record s {
  attempt = min (s.attempt + 1) (2 ^ 32 - 1);
  slept = s.slept ++ (s.attempt ∷ []);
}

abbrev pub on_message : FeedState → FeedState
on_message s = record s { msg_count = count s.msg_count }

unfoldable pub read_loop : List Round → FeedState → FeedState × Exit
read_loop [] s = (s, Exit.running)
read_loop (Round.shut_down ∷ rounds) s = (s, Exit.returned)
read_loop (Round.reads Read.no_data ∷ rounds) s = read_loop rounds s
read_loop (Round.reads (Read.message true) ∷ rounds) s = read_loop rounds (on_message s)
read_loop (Round.reads (Read.message false) ∷ rounds) s = (on_message s, Exit.returned)
read_loop (Round.reads Read.closed ∷ rounds) s = (s, Exit.broken)
read_loop (Round.reads Read.failed ∷ rounds) s = (s, Exit.broken)

-- The sleep after a failure: the thread goes on unless it was interrupted.
abbrev pub after_sleep : Bool → FeedState → FeedState × Exit → FeedState × Exit
after_sleep true s rest = (s, Exit.returned)
after_sleep false s rest = rest

-- What follows the inner loop: an ended connection backs off, and the other exits leave the loop.
abbrev pub after_read : Bool → FeedState × Exit → FeedState × Exit → FeedState × Exit
after_read interrupted (s, Exit.broken) rest = after_sleep interrupted (back_off s) rest
after_read interrupted (s, Exit.returned) rest = (s, Exit.returned)
after_read interrupted (s, Exit.running) rest = (s, Exit.running)

unfoldable pub feed_loop : List Try → FeedState → FeedState × Exit
feed_loop [] s = (s, Exit.running)
feed_loop (Try.shut_down ∷ tries) s = (s, Exit.returned)
feed_loop (Try.refused interrupted ∷ tries) s =
    after_sleep interrupted (back_off s) (feed_loop tries (back_off s))
feed_loop (Try.connected rounds interrupted ∷ tries) s =
    let read = read_loop rounds (on_connect s) in
    after_read interrupted read (feed_loop tries (back_off read.0))
