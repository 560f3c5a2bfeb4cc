-- ===== src/Seqlock/Tests.antt =====
-- A store that a load overlaps, and the theorems at concrete inputs.
use mantis.Prelude.{ℕ, ◌+◌, ◌≡◌, refl, List, [], ◌∷◌, arith}
use mantis.Seqlock.{
  SeqLock, Reachable, new, begin_store, copy_in, end_store, reader_step, idle, start, returned,
  begins, copies, ends, reads, created, after,
}
use mantis.Seqlock.Progress
use mantis.Seqlock.Progress.{run}

abbrev one_two : List ℕ
one_two = 1 ∷ 2 ∷ []

abbrev three_four : List ℕ
three_four = 3 ∷ 4 ∷ []

abbrev initial : SeqLock ℕ
initial = new one_two

-- The first word is read before a store, the second during it: the load starts again.
abbrev overlapped : SeqLock ℕ
overlapped = end_store (copy_in (begin_store (run 2 initial) three_four) three_four) three_four 0

torn_read_discarded : (run 2 overlapped).reader ≡ start
unfolding new run reader_step
torn_read_discarded = refl

read_again : (run 6 overlapped).reader ≡ returned three_four
unfolding new run reader_step
read_again = refl

abbrev one_stored : SeqLock ℕ
one_stored = end_store (copy_in (begin_store initial three_four) three_four) three_four 0

one_stored-Reachable : Reachable one_two one_stored
unfolding new
one_stored-Reachable =
    after
      (after (after created (begins three_four refl refl))
        (copies three_four 0 three_four refl refl))
      (ends three_four 0 refl refl)

load_alone_example : (run (2 + 2) one_stored).reader ≡ returned one_stored.current
unfolding new
load_alone_example = Progress.load_alone one_two one_stored one_stored-Reachable refl refl

-- The state in which both words are copied.
abbrev copied : SeqLock ℕ
copied = run 3 one_stored

copied-Reachable : Reachable one_two copied
unfolding new run reader_step
copied-Reachable = after (after (after one_stored-Reachable reads) reads) reads

load_consistent_example :
    (three_four ≡ copied.current) × (copied.writer ≡ idle) × (copied.stores ≡ 1)
unfolding new run reader_step
load_consistent_example =
    Progress.load_consistent one_two copied 2 1 three_four three_four copied-Reachable refl
      (omega arith) refl
