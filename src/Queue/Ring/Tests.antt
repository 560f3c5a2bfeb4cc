-- ===== src/Queue/Ring/Tests.antt =====
-- Runs of the ring, and its theorems at concrete inputs.
use mantis.Prelude.{ℕ, ◌<◌, ◌≤◌, ◌≡◌, refl, List, [], ◌∷◌, ◌++◌, some, arith, map, length}
use mantis.Queue.Ring.{
  RingEngine, PushResult, PopResult, new, try_push, try_pop, push_check, pop_check, capacity,
}
use mantis.Queue.Ring.Content.{Holds}
use mantis.Queue.Ring.Fifo
use mantis.Queue.Ring.Steps.{Machine, Step, Reachable, start, check_push, check_pop}
use mantis.Queue.Ring.Order

abbrev two_slots : RingEngine ℕ
two_slots = new 2

two_slots-Holds : Holds two_slots []
two_slots-Holds = Fifo.new-Holds 2 (omega arith)

-- A ring of two slots takes one value, refuses the second, and gives the first back.
runs :
    ((try_push (try_push two_slots 7).0 8).1 ≡ PushResult.full 8)
    × ((try_pop (try_push (try_push two_slots 7).0 8).0).1 ≡ PopResult.popped 7)
unfolding try_push try_pop push_check new pop_check
runs = (refl, refl)

try_push_lem_example :
    (length {A = ℕ} [] < capacity two_slots
      → ((try_push two_slots 7).1 ≡ PushResult.pushed)
        × Holds (try_push two_slots 7).0 ([] ++ (7 ∷ [])))
    × (capacity two_slots ≤ length {A = ℕ} []
        → ((try_push two_slots 7).1 ≡ PushResult.full 7) × Holds (try_push two_slots 7).0 [])
try_push_lem_example = Fifo.try_push_lem two_slots [] 7 two_slots-Holds

abbrev one_value : List ℕ
one_value = 7 ∷ []

one_value-Holds : Holds (try_push two_slots 7).0 one_value
unfolding new
one_value-Holds = (try_push_lem_example.0 (omega arith)).1

try_pop_lem_example :
    (one_value ≡ []
      → ((try_pop (try_push two_slots 7).0).1 ≡ PopResult.empty)
        × Holds (try_pop (try_push two_slots 7).0).0 one_value)
    × ((x : ℕ) (rest : List ℕ)
        → one_value ≡ x ∷ rest
        → ((try_pop (try_push two_slots 7).0).1 ≡ PopResult.popped x)
          × Holds (try_pop (try_push two_slots 7).0).0 rest)
try_pop_lem_example = Fifo.try_pop_lem (try_push two_slots 7).0 one_value one_value-Holds

-- The producer has passed its check, and the consumer has looked before the value was there.
abbrev half_way : Machine ℕ
half_way = check_pop (check_push (start 2) 7)

half_way-Reachable : Reachable 2 half_way
half_way-Reachable =
    Reachable.stepped (Reachable.stepped Reachable.started (Step.check_push_step 7 refl))
      (Step.check_pop_step refl)

Reachable-in_order_example :
    (q : List ℕ) × Holds half_way.ring q × (half_way.pushed ≡ half_way.popped ++ map some q)
Reachable-in_order_example = Order.Reachable-in_order 2 half_way (omega arith) half_way-Reachable
