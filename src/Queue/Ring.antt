-- ===== src/Queue/Ring.antt =====
-- crates/queue/src/engine.rs: `RingEngine`, on a storage of `capacity` slots with the branch-based
-- index strategy. Each operation is written as the steps that the other side can observe: the check
-- against the cached and then the shared index, the access to the slot, and the publication of the
-- own index. The operations compose them. A slot is `none` until it is first written.
pub mod Content
pub mod Parts
pub mod Fifo
pub mod Steps
pub mod Knows
pub mod Order
mod Tests
use mantis.Prelude.{
  ℕ, ◌+◌, ◌-◌, ◌%◌, Bool, true, false, List, Option, none, some, replicate, get_or, set, length,
  ◌==◌, if◌then◌else◌,
}
use mantis.Queue.Index.{branch_wrap}
use mantis.Queue.Instr.{CountingInstr, new_instr, on_push, on_pop, on_push_full, on_pop_empty}

-- `head` and `tail_cached` are the producer's line, `tail` and `head_cached` the consumer's.
pub record RingEngine {ℓ} (T : Type ℓ) : Type ℓ where
  pub head : ℕ
  pub tail_cached : ℕ
  pub tail : ℕ
  pub head_cached : ℕ
  pub slots : List (Option T)
  pub instr : CountingInstr

-- `Result<(), PushError<T>>` and `Result<T, QueueError>`; `undefined` is a read of a slot that was
-- never written.
pub data PushResult {ℓ} (T : Type ℓ) : Type ℓ where
  pushed : PushResult T
  full : T → PushResult T

pub data PopResult {ℓ} (T : Type ℓ) : Type ℓ where
  popped : T → PopResult T
  empty : PopResult T
  undefined : PopResult T

module _ {ℓ} {T : Type ℓ} where
  unfoldable pub new : ℕ → RingEngine T
  new slot_count = record {
    head = 0;
    tail_cached = 0;
    tail = 0;
    head_cached = 0;
    slots = replicate slot_count none;
    instr = new_instr;
  }

  abbrev pub slot_count : RingEngine T → ℕ
  slot_count r = length r.slots

  abbrev pub capacity : RingEngine T → ℕ
  capacity r = slot_count r - 1

  abbrev pub next_head : RingEngine T → ℕ
  next_head r = branch_wrap (r.head + 1) (slot_count r)

  -- The producer's check: `true` when there is room. It loads the shared tail only when the cached
  -- one says that the ring is full.
  unfoldable pub push_check : RingEngine T → RingEngine T × Bool
  push_check r =
      if next_head r == r.tail_cached
      then if next_head r == r.tail
        then (record r { tail_cached = r.tail; instr = on_push_full r.instr }, false)
        else (record r { tail_cached = r.tail }, true)
      else (r, true)

  abbrev pub write_slot : RingEngine T → T → RingEngine T
  write_slot r v = record r { slots = set r.slots r.head (some v) }

  abbrev pub publish_head : RingEngine T → RingEngine T
  publish_head r = record r { head = next_head r; instr = on_push r.instr }

  -- The consumer's check: `true` when there is a value.
  unfoldable pub pop_check : RingEngine T → RingEngine T × Bool
  pop_check r =
      if r.tail == r.head_cached
      then if r.tail == r.head
        then (record r { head_cached = r.head; instr = on_pop_empty r.instr }, false)
        else (record r { head_cached = r.head }, true)
      else (r, true)

  abbrev pub read_slot : RingEngine T → Option T
  read_slot r = get_or r.slots r.tail none

  abbrev pub publish_tail : RingEngine T → RingEngine T
  publish_tail r = record r {
    tail = branch_wrap (r.tail + 1) (slot_count r);
    instr = on_pop r.instr;
  }

  unfoldable pub try_push : RingEngine T → T → RingEngine T × PushResult T
  try_push r v =
      let c = push_check r in
      if c.1 then (publish_head (write_slot c.0 v), PushResult.pushed) else (c.0, PushResult.full v)

  unfoldable pub try_pop : RingEngine T → RingEngine T × PopResult T
  try_pop r =
      let c = pop_check r in
      if c.1
      then (
        publish_tail c.0,
        elim (read_slot c.0) [ none ↦ PopResult.undefined | some v ↦ PopResult.popped v ],
      )
      else (c.0, PopResult.empty)

  abbrev pub len : RingEngine T → ℕ
  len r = (r.head + slot_count r - r.tail) % slot_count r

  abbrev pub is_empty : RingEngine T → Bool
  is_empty r = len r == 0
