-- ===== src/Queue/CopyRing.antt =====
-- crates/queue/src/copy_ring/engine.rs: `CopyRingEngine`, the ring of values that are copied, with its
-- batch operations, and the slot copies of crates/queue/src/copy_ring/raw/mod.rs. It has the indices
-- and the slots of `RingEngine`, whose type it shares; the index strategy is a parameter. The copy
-- policy copies a value whole, so it leaves no trace here.
pub mod Cyclic
pub mod PushBatch
pub mod PopBatch
pub mod Single
mod Tests
use mantis.Prelude.{
  ℕ, zero, suc, ◌+◌, ◌-◌, Bool, true, false, List, [], ◌∷◌, ◌++◌, Option, none, some, get_or, set,
  length, leb, ltb, ◌==◌, if◌then◌else◌, min, take, drop,
}
use mantis.Queue.Instr.{on_push, on_pop, on_push_full, on_pop_empty}
use mantis.Queue.Ring.{RingEngine, slot_count, write_slot, read_slot}

-- The number of values between two indices, as `len`, `push_batch` and `pop_batch` compute it.
abbrev pub between : ℕ → ℕ → ℕ → ℕ
between capacity tail head = if leb tail head then head - tail else capacity - tail + head

module _ {ℓ} {T : Type ℓ} where
  -- `write_batch_copy` and `read_batch_copy`: neighbouring slots from `start` on.
  pub write_batch_copy : List (Option T) → ℕ → List T → List (Option T)
  write_batch_copy slots start [] = slots
  write_batch_copy slots start (x ∷ src) =
      write_batch_copy (set slots start (some x)) (start + 1) src

  pub read_batch_copy : List (Option T) → ℕ → ℕ → List (Option T)
  read_batch_copy slots start zero = []
  read_batch_copy slots start (suc count) =
      get_or slots start none ∷ read_batch_copy slots (start + 1) count

  abbrev pub len : RingEngine T → ℕ
  len r = between (slot_count r) r.tail r.head

  abbrev pub is_empty : RingEngine T → Bool
  is_empty r = len r == 0

module _ {ℓ} {T : Type ℓ} (wrap : ℕ → ℕ → ℕ) where
  abbrev pub next_head : RingEngine T → ℕ
  next_head r = wrap (r.head + 1) (slot_count r)

  push_slot : RingEngine T → T → RingEngine T × Bool
  push_slot r value =
      (record (write_slot r value) { head = next_head r; instr = on_push r.instr }, true)

  pub push : RingEngine T → T → RingEngine T × Bool
  push r value =
      if next_head r == r.tail_cached
      then if next_head r == r.tail
        then (record r { tail_cached = r.tail; instr = on_push_full r.instr }, false)
        else push_slot (record r { tail_cached = r.tail }) value
      else push_slot r value

  -- The value that is copied out, `none` when the ring is empty or the slot was never written, and
  -- whether there was one.
  pop_slot : RingEngine T → RingEngine T × (Option T × Bool)
  pop_slot r = (
    record r { tail = wrap (r.tail + 1) (slot_count r); instr = on_pop r.instr },
    (read_slot r, true),
  )

  pub pop : RingEngine T → RingEngine T × (Option T × Bool)
  pop r =
      if r.tail == r.head_cached
      then if r.tail == r.head
        then (record r { head_cached = r.head; instr = on_pop_empty r.instr }, (none, false))
        else pop_slot (record r { head_cached = r.head })
      else pop_slot r

  -- The copy of the first `n` values of `src` in two chunks, and the publication of the head.
  pub write_chunks : RingEngine T → List T → ℕ → RingEngine T × ℕ
  write_chunks r src n =
      let first_chunk = min n (slot_count r - r.head) in
      let second_chunk = n - first_chunk in
      let first_slots = write_batch_copy r.slots r.head (take first_chunk src) in
      (
        record r {
          slots = write_batch_copy first_slots 0 (take second_chunk (drop first_chunk src));
          head = wrap (r.head + n) (slot_count r);
        },
        n,
      )

  pub push_batch : RingEngine T → List T → RingEngine T × ℕ
  push_batch r [] = (r, 0)
  push_batch r (x ∷ xs) =
      let src = x ∷ xs in
      let usable = slot_count r - 1 in
      let cached_free = usable - between (slot_count r) r.tail_cached r.head in
      let free = usable - between (slot_count r) r.tail r.head in
      let fresh = record r { tail_cached = r.tail } in
      if ltb cached_free (length src)
      then if free == 0 then (fresh, 0) else write_chunks fresh src (min (length src) free)
      else write_chunks r src (min (length src) cached_free)

  -- The copy of `n` values out of the ring in two chunks, and the publication of the tail.
  pub read_chunks : RingEngine T → ℕ → RingEngine T × (List (Option T) × ℕ)
  read_chunks r n =
      let first_chunk = min n (slot_count r - r.tail) in
      let second_chunk = n - first_chunk in
      (
        record r { tail = wrap (r.tail + n) (slot_count r) },
        (read_batch_copy r.slots r.tail first_chunk ++ read_batch_copy r.slots 0 second_chunk, n),
      )

  -- `pop_batch` on a destination of the given length: the values that are copied out, and how many.
  pub pop_batch : RingEngine T → ℕ → RingEngine T × (List (Option T) × ℕ)
  pop_batch r zero = (r, ([], 0))
  pop_batch r (suc more) =
      let wanted = suc more in
      let cached_avail = between (slot_count r) r.tail r.head_cached in
      let avail = between (slot_count r) r.tail r.head in
      let fresh = record r { head_cached = r.head } in
      if ltb cached_avail wanted
      then if avail == 0 then (fresh, ([], 0)) else read_chunks fresh (min wanted avail)
      else read_chunks r (min wanted cached_avail)
