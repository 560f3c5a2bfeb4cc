-- ===== src/Transport/Feed/Tests.antt =====
-- The theorem on the feed thread at a concrete history, and a run.
use mantis.Prelude.{◌≡◌, refl, arith, true, false, List, [], ◌∷◌}
use mantis.Transport.Feed.{
  Exit, Read, Round, Try, capped_delay, default, feed_loop, read_loop, started,
}
use mantis.Transport.Feed.Counts
use mantis.Transport.Feed.Counts.{Grown}

abbrev accepted : Round
accepted = Round.reads (Read.message true)

abbrev nothing : Round
nothing = Round.reads Read.no_data

-- Two messages around a read without data and a read error, a refusal, a message and a close.
abbrev later : List Try
later =
    Try.connected (accepted ∷ nothing ∷ accepted ∷ Round.reads Read.failed ∷ []) false
    ∷ Try.refused false
    ∷ Try.connected (nothing ∷ accepted ∷ Round.reads Read.closed ∷ []) false
    ∷ []

feed_loop-tries_example : Grown 3 2 (feed_loop (Try.refused false ∷ later) started)
feed_loop-tries_example =
    Counts.feed_loop-tries (Try.refused false) later (refl, (tt, refl, (refl, (tt, refl, tt))))
      (omega arith) (omega arith)

-- The attempts whose delays were slept, and the callback that stops the thread.
stopped :
    feed_loop
      (Try.refused false
        ∷ Try.connected (Round.reads (Read.message true) ∷ Round.reads Read.failed ∷ []) false
        ∷ Try.refused false
        ∷ Try.connected (Round.reads (Read.message false) ∷ []) false
        ∷ Try.shut_down
        ∷ [])
      started
    ≡ (record { attempt = 0; reconnects = 2; msg_count = 2; slept = 0 ∷ 0 ∷ 1 ∷ [] }, Exit.returned)
unfolding feed_loop read_loop
stopped = refl

capped : capped_delay default 10 ≡ 30000000000
unfolding capped_delay
capped = refl
