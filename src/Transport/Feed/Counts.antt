-- ===== src/Transport/Feed/Counts.antt =====
-- What the counters of a feed thread say, and the delays of its backoff.
use native.Mathlib.Nat.{mul-le-mul_left, pow-le-pow_right}
use mantis.Prelude.{
  ℕ, suc, ◌+◌, ◌*◌, ◌^◌, ◌<◌, ◌≤◌, ◌≡◌, refl, ap, sym, ◌∙◌, subst, arith, true, false, List, [],
  ◌∷◌, min,
}
use mantis.Transport.Feed.{
  BackoffConfig, Exit, FeedState, Read, Round, Try, back_off, capped_delay, count, feed_loop,
  on_connect, on_message, read_loop, started,
}

-- A connection ends by a close or a read error after reads that return no data or a message that the
-- callback accepts; what would follow the end is not read.
abbrev pub Ends : List Round → Type 0
Ends [] = ⊥
Ends (Round.shut_down ∷ rounds) = ⊥
Ends (Round.reads Read.no_data ∷ rounds) = Ends rounds
Ends (Round.reads (Read.message true) ∷ rounds) = Ends rounds
Ends (Round.reads (Read.message false) ∷ rounds) = ⊥
Ends (Round.reads Read.closed ∷ rounds) = Unit {0}
Ends (Round.reads Read.failed ∷ rounds) = Unit {0}

-- The messages that arrive before a connection ends.
abbrev pub messages : List Round → ℕ
messages [] = 0
messages (Round.shut_down ∷ rounds) = 0
messages (Round.reads Read.no_data ∷ rounds) = messages rounds
messages (Round.reads (Read.message accepted) ∷ rounds) = suc (messages rounds)
messages (Round.reads Read.closed ∷ rounds) = 0
messages (Round.reads Read.failed ∷ rounds) = 0

-- Every try is refused, or connects and ends, and no sleep after it is interrupted.
abbrev pub Uninterrupted : List Try → Type 0
Uninterrupted [] = Unit {0}
Uninterrupted (Try.shut_down ∷ ts) = ⊥
Uninterrupted (Try.refused interrupted ∷ ts) = (interrupted ≡ false) × Uninterrupted ts
Uninterrupted (Try.connected rounds interrupted ∷ ts) =
    Ends rounds × (interrupted ≡ false) × Uninterrupted ts

abbrev pub delivered : List Try → ℕ
delivered [] = 0
delivered (Try.shut_down ∷ ts) = delivered ts
delivered (Try.refused interrupted ∷ ts) = delivered ts
delivered (Try.connected rounds interrupted ∷ ts) = messages rounds + delivered ts

abbrev pub connects : List Try → ℕ
connects [] = 0
connects (Try.shut_down ∷ ts) = connects ts
connects (Try.refused interrupted ∷ ts) = connects ts
connects (Try.connected rounds interrupted ∷ ts) = suc (connects ts)

read_loop-Ends :
    (rounds : List Round) (s : FeedState)
    → Ends rounds
    → s.msg_count + messages rounds < 2 ^ 64
    → read_loop rounds s ≡ (record s { msg_count = s.msg_count + messages rounds }, Exit.broken)
unfolding read_loop
read_loop-Ends [] s ends h = absurd ends
read_loop-Ends (Round.shut_down ∷ rounds) s ends h = absurd ends
read_loop-Ends (Round.reads (Read.message false) ∷ rounds) s ends h = absurd ends
read_loop-Ends (Round.reads Read.no_data ∷ rounds) s ends h = read_loop-Ends rounds s ends h
read_loop-Ends (Round.reads (Read.message true) ∷ rounds) s ends h =
    let counted : count s.msg_count + messages rounds ≡ s.msg_count + suc (messages rounds) =
      ground arith in
    read_loop-Ends rounds (on_message s) ends (omega (arith, counted))
    ∙ ap (λ n. (record s { msg_count = n }, Exit.broken)) counted
read_loop-Ends (Round.reads Read.closed ∷ rounds) s ends h =
    ap (λ n. (record s { msg_count = n }, Exit.broken)) {x = s.msg_count} {y = s.msg_count + 0}
      (omega arith)
read_loop-Ends (Round.reads Read.failed ∷ rounds) s ends h =
    ap (λ n. (record s { msg_count = n }, Exit.broken)) {x = s.msg_count} {y = s.msg_count + 0}
      (omega arith)

-- The thread is running, and the counters have grown by what happened.
abbrev pub Grown : ℕ → ℕ → FeedState × Exit → Type 0
Grown messages reconnects (s, e) =
    (e ≡ Exit.running) × (s.msg_count ≡ messages) × (s.reconnects ≡ reconnects)

connected_step :
    (rounds : List Round) (ts : List Try) (s : FeedState)
    → Ends rounds
    → s.msg_count + messages rounds < 2 ^ 64
    → feed_loop (Try.connected rounds false ∷ ts) s
      ≡ feed_loop ts
          (back_off (record (on_connect s) { msg_count = s.msg_count + messages rounds }))
unfolding feed_loop
connected_step rounds ts s ends h = rw (read_loop-Ends rounds (on_connect s) ends h) refl

feed_loop-tries_after :
    (ts : List Try) (s : FeedState)
    → Uninterrupted ts
    → 0 < s.attempt
    → s.msg_count + delivered ts < 2 ^ 64
    → s.reconnects + connects ts < 2 ^ 64
    → Grown (s.msg_count + delivered ts) (s.reconnects + connects ts) (feed_loop ts s)
unfolding feed_loop
feed_loop-tries_after [] s u a h k = (refl, omega arith, omega arith)
feed_loop-tries_after (Try.shut_down ∷ ts) s u a h k = absurd u
feed_loop-tries_after (Try.refused false ∷ ts) s u a h k =
    feed_loop-tries_after ts (back_off s) u.1 (ground arith) h k
feed_loop-tries_after (Try.refused true ∷ ts) s u a h k = absurd (cc (u.0))
feed_loop-tries_after (Try.connected rounds true ∷ ts) s u a h k = absurd (cc (u.1))
feed_loop-tries_after (Try.connected rounds false ∷ ts) s u a h k =
    let n : ℕ = messages rounds in
    let s' : FeedState = back_off (record (on_connect s) { msg_count = s.msg_count + n }) in
    let counted : s'.reconnects + connects ts ≡ s.reconnects + suc (connects ts) = ground arith in
    let total : s.msg_count + n + delivered ts ≡ s.msg_count + (n + delivered ts) = omega arith in
    let grown =
      feed_loop-tries_after ts s' u.2 (ground arith) (omega (arith, total))
        (omega (arith, counted)) in
    subst (Grown (s.msg_count + (n + delivered ts)) (s.reconnects + suc (connects ts)))
      (sym (connected_step rounds ts s u.0 (omega arith)))
      (subst (λ r. Grown (s.msg_count + (n + delivered ts)) r (feed_loop ts s')) counted
        (subst (λ m. Grown m (s'.reconnects + connects ts) (feed_loop ts s')) total grown))

-- From the start of the thread, on any first try to connect and any later ones, each refused or
-- connected, where every connection has reads without data and messages that the callback accepts, in
-- any order, until the peer closes it or a read fails, where neither the shutdown flag nor an interrupt
-- of a sleep comes in between, and with messages and connections that a u64 can count: the thread is
-- still running, it has counted every message that was delivered and nothing else, and its reconnects
-- are the successful connections among the later tries, whatever became of the first.
pub feed_loop-tries :
    (first : Try) (ts : List Try)
    → Uninterrupted (first ∷ ts)
    → delivered (first ∷ ts) < 2 ^ 64
    → connects ts < 2 ^ 64
    → Grown (delivered (first ∷ ts)) (connects ts) (feed_loop (first ∷ ts) started)
unfolding feed_loop
feed_loop-tries Try.shut_down ts u h k = absurd u
feed_loop-tries (Try.refused true) ts u h k = absurd (cc (u.0))
feed_loop-tries (Try.connected rounds true) ts u h k = absurd (cc (u.1))
feed_loop-tries (Try.refused false) ts u h k =
    let s' : FeedState = back_off started in
    subst (λ m. Grown m (connects ts) (feed_loop ts s')) {x = 0 + delivered ts} {y = delivered ts}
      (omega arith)
      (subst (λ r. Grown (0 + delivered ts) r (feed_loop ts s')) {x = 0 + connects ts}
        {y = connects ts} (omega arith)
        (feed_loop-tries_after ts s' u.1 (omega arith) (omega arith) (omega arith)))
feed_loop-tries (Try.connected rounds false) ts u h k =
    let n : ℕ = messages rounds in
    let s' : FeedState = back_off (record (on_connect started) { msg_count = 0 + n }) in
    let total : 0 + n + delivered ts ≡ n + delivered ts = omega arith in
    let counted : 0 + connects ts ≡ connects ts = omega arith in
    subst (Grown (n + delivered ts) (connects ts))
      (sym (connected_step rounds ts started u.0 (omega arith)))
      (subst (λ m. Grown m (connects ts) (feed_loop ts s')) total
        (subst (λ r. Grown (0 + n + delivered ts) r (feed_loop ts s')) counted
          (feed_loop-tries_after ts s' u.2 (omega arith) (omega arith) (omega arith))))

-- The delays grow with the attempts, up to the maximum.
pub capped_delay_mono :
    (b : BackoffConfig) (m n : ℕ)
    → m ≤ n
    → (capped_delay b m ≤ capped_delay b n) × (capped_delay b n ≤ b.max)
unfolding capped_delay
capped_delay_mono b m n h =
    let exponents : min m 20 ≤ min n 20 = ground arith in
    let shifted : b.initial * 2 ^ min m 20 ≤ b.initial * 2 ^ min n 20 =
      mul-le-mul_left b.initial (pow-le-pow_right (omega arith) exponents) in
    (ground arith, ground arith)
