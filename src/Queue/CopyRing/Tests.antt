-- ===== src/Queue/CopyRing/Tests.antt =====
-- Runs of the copy ring, and its theorems at concrete inputs.
use mantis.Prelude.{
  ℕ, ◌-◌, ◌≡◌, refl, List, [], ◌∷◌, ◌++◌, some, arith, map, length, min, take, drop,
}
use mantis.Queue.Index.{pow2_masked}
use mantis.Queue.Ring.{RingEngine, new, capacity}
use mantis.Queue.Ring.Content.{Holds}
use mantis.Queue.Ring.Fifo
use mantis.Queue.CopyRing.{
  push_batch, pop_batch, write_chunks, read_chunks, write_batch_copy, read_batch_copy,
}
use mantis.Queue.CopyRing.PushBatch
use mantis.Queue.CopyRing.PopBatch

abbrev four_slots : RingEngine ℕ
four_slots = new 4

four_slots-Holds : Holds four_slots []
four_slots-Holds = Fifo.new-Holds 4 (omega arith)

abbrev five_values : List ℕ
five_values = 1 ∷ 2 ∷ 3 ∷ 4 ∷ 5 ∷ []

-- Three of five values fit; two are popped; the next three fill the ring around its end.
abbrev pushed_once : RingEngine ℕ
pushed_once = (push_batch pow2_masked four_slots five_values).0

abbrev popped_two : RingEngine ℕ
popped_two = (pop_batch pow2_masked pushed_once 2).0

wraps :
    ((push_batch pow2_masked four_slots five_values).1 ≡ 3)
    × ((push_batch pow2_masked popped_two five_values).1 ≡ 2)
    × ((pop_batch pow2_masked (push_batch pow2_masked popped_two five_values).0 9).1
        ≡ (some 3 ∷ some 1 ∷ some 2 ∷ [], 3))
unfolding push_batch pop_batch write_chunks read_chunks write_batch_copy read_batch_copy new
wraps = (refl, refl, refl)

push_batch_lem_example :
    ((push_batch pow2_masked four_slots five_values).1
      ≡ min (length five_values) (capacity four_slots - 0))
    × Holds
        (push_batch pow2_masked four_slots five_values).0
        ([] ++ take (min (length five_values) (capacity four_slots - 0)) five_values)
push_batch_lem_example = PushBatch.push_batch_lem four_slots [] five_values four_slots-Holds

abbrev one_value : List ℕ
one_value = 7 ∷ []

abbrev one_pushed : RingEngine ℕ
one_pushed = (push_batch pow2_masked four_slots one_value).0

one_pushed-Holds : Holds one_pushed one_value
unfolding new
one_pushed-Holds = (PushBatch.push_batch_lem four_slots [] one_value four_slots-Holds).1

pop_batch_lem_example :
    ((pop_batch pow2_masked one_pushed 3).1
      ≡ (map some (take (min 3 (length one_value)) one_value), min 3 (length one_value)))
    × Holds (pop_batch pow2_masked one_pushed 3).0 (drop (min 3 (length one_value)) one_value)
pop_batch_lem_example = PopBatch.pop_batch_lem one_pushed one_value 3 one_pushed-Holds
