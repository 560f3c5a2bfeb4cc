-- ===== src/Queue/Ring/Knows.antt =====
-- What the producer and the consumer know between the steps of an operation, and that no step of
-- the other side takes it away.
use mathlib.Core.Logic.{Lift}
use mantis.Prelude.{
  ◌≡◌, ◌≢◌, ◌∙◌, none, some, arith, get_or, get_or-set_ne, if◌then◌else◌, inl, inr, Bool-cases,
  ◌==◌,
}
use mantis.Queue.Instr.{CountingInstr, on_push_full, on_pop_empty}
use mantis.Queue.Ring.{
  RingEngine, push_check, write_slot, publish_head, pop_check, read_slot, publish_tail, next_head,
}
use mantis.Queue.Ring.Content.{IsValid}
use mantis.Queue.Ring.Parts.{MayPush, MayPop, push_check_lem, pop_check_lem}
use mantis.Queue.Ring.Steps.{PushPhase, PopPhase}

module _ {ℓ} {T : Type ℓ} where
  -- What each side knows at each point of its operation.
  abbrev pub ProducerKnows : RingEngine T → PushPhase T → Type ℓ
  ProducerKnows r PushPhase.idle = Lift {0, ℓ} Unit
  ProducerKnows r (PushPhase.checked v) = Lift {0, ℓ} (MayPush r)
  ProducerKnows r (PushPhase.written v) = MayPush r × (get_or r.slots r.head none ≡ some v)

  abbrev pub ConsumerKnows : RingEngine T → PopPhase T → Type ℓ
  ConsumerKnows r PopPhase.idle = Lift {0, ℓ} Unit
  ConsumerKnows r PopPhase.checked = Lift {0, ℓ} (MayPop r)
  ConsumerKnows r (PopPhase.taken o) = MayPop r × (read_slot r ≡ o)

  -- A check that fails leaves the side idle, and one that succeeds establishes what it is for.
  pub after_check_push :
      (r : RingEngine T) (v : T)
      → IsValid r
      → ProducerKnows
          (push_check r).0
          (if (push_check r).1 then PushPhase.checked v else PushPhase.idle)
  after_check_push r v h = elim (Bool-cases (push_check r).1) [
    | inl ok ↦ rw ok (record { lower = (push_check_lem r h).1 ok })
    | inr failed ↦ rw failed (record { lower = tt })
  ]

  pub after_check_pop :
      (r : RingEngine T)
      → IsValid r
      → ConsumerKnows (pop_check r).0 (if (pop_check r).1 then PopPhase.checked else PopPhase.idle)
  after_check_pop r h = elim (Bool-cases (pop_check r).1) [
    | inl ok ↦ rw ok (record { lower = (pop_check_lem r h).1 ok })
    | inr failed ↦ rw failed (record { lower = tt })
  ]

  -- The other side's check does not disturb.
  pub consumer_by_cache :
      (r : RingEngine T) (i : CountingInstr) (c : PopPhase T)
      → ConsumerKnows r c
      → ConsumerKnows (record r { tail_cached = r.tail; instr = i }) c
  consumer_by_cache r i PopPhase.idle k = k
  consumer_by_cache r i PopPhase.checked k = k
  consumer_by_cache r i (PopPhase.taken o) k = k

  pub producer_by_cache :
      (r : RingEngine T) (i : CountingInstr) (c : PushPhase T)
      → ProducerKnows r c
      → ProducerKnows (record r { head_cached = r.head; instr = i }) c
  producer_by_cache r i PushPhase.idle k = k
  producer_by_cache r i (PushPhase.checked v) k = k
  producer_by_cache r i (PushPhase.written v) k = k

  pub consumer_undisturbed :
      (r : RingEngine T) (c : PopPhase T) → ConsumerKnows r c → ConsumerKnows (push_check r).0 c
  unfolding push_check
  consumer_undisturbed r c k = elim (Bool-cases (next_head r == r.tail_cached)) [
    | inr e ↦ rw e k
    | inl e ↦ elim (Bool-cases (next_head r == r.tail)) [
      | inl f ↦ rw (e, f) (consumer_by_cache r (on_push_full r.instr) c k)
      | inr f ↦ rw (e, f) (consumer_by_cache r r.instr c k)
    ]
  ]

  pub producer_undisturbed :
      (r : RingEngine T) (c : PushPhase T) → ProducerKnows r c → ProducerKnows (pop_check r).0 c
  unfolding pop_check
  producer_undisturbed r c k = elim (Bool-cases (r.tail == r.head_cached)) [
    | inr e ↦ rw e k
    | inl e ↦ elim (Bool-cases (r.tail == r.head)) [
      | inl f ↦ rw (e, f) (producer_by_cache r (on_pop_empty r.instr) c k)
      | inr f ↦ rw (e, f) (producer_by_cache r r.instr c k)
    ]
  ]

  -- What a side knows does not depend on the index that the other side publishes.
  pub consumer_after_push :
      (r : RingEngine T) (c : PopPhase T) → ConsumerKnows r c → ConsumerKnows (publish_head r) c
  consumer_after_push r PopPhase.idle k = k
  consumer_after_push r PopPhase.checked k = k
  consumer_after_push r (PopPhase.taken o) k = k

  pub producer_after_pop :
      (r : RingEngine T) (c : PushPhase T) → ProducerKnows r c → ProducerKnows (publish_tail r) c
  producer_after_pop r PushPhase.idle k = k
  producer_after_pop r (PushPhase.checked v) k = k
  producer_after_pop r (PushPhase.written v) k = k

  -- The slot at the head is not one that waits: a value that was read stays what it was.
  pub consumer_after_write :
      (r : RingEngine T) (v : T) (c : PopPhase T)
      → IsValid r
      → ConsumerKnows r c
      → ConsumerKnows (write_slot r v) c
  consumer_after_write r v PopPhase.idle h k = k
  consumer_after_write r v PopPhase.checked h k = k
  consumer_after_write r v (PopPhase.taken o) h k =
      let apart : r.head ≢ r.tail = let a = k.0 in ground arith in
      (k.0, get_or-set_ne r.slots r.head r.tail (some v) none apart ∙ k.1)
