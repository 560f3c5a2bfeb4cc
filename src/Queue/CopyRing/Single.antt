-- ===== src/Queue/CopyRing/Single.antt =====
-- The single operations of the copy ring against those of the ring of moved values.
use mantis.Prelude.{
  ℕ, ◌+◌, ◌<◌, ◌≡◌, refl, Bool, true, false, Option, none, some, length, inl, inr, Bool-cases,
  Option-cases, ◌==◌, sym, ap, length-set,
}
use mantis.Queue.Index.{pow2_masked, branch_wrap, wrap_agrees}
use mantis.Queue.Ring.{
  RingEngine, PushResult, PopResult, slot_count, push_check, try_push, pop_check, try_pop,
  read_slot, write_slot, publish_head, publish_tail,
}
use mantis.Queue.Instr.{on_push}
use mantis.Queue.CopyRing.{push_slot, push, pop_slot, pop, next_head}

module _ {ℓ} {T : Type ℓ} where
  -- `push` returns `false` for a value that did not fit.
  abbrev pub is_pushed : PushResult T → Bool
  is_pushed PushResult.pushed = true
  is_pushed (PushResult.full v) = false

  -- `pop` leaves `out` as it was when there is nothing; `none` stands for that and for a slot that was
  -- never written.
  abbrev pub copied_out : PopResult T → Option T × Bool
  copied_out (PopResult.popped v) = (some v, true)
  copied_out PopResult.empty = (none, false)
  copied_out PopResult.undefined = (none, true)

  -- A write keeps the number of the slots, so the next index may be computed after it.
  length_kept :
      (r : RingEngine T) (v : T)
      → record (write_slot r v) {
        head = branch_wrap (r.head + 1) (length r.slots);
        instr = on_push r.instr;
      }
        ≡ publish_head (write_slot r v)
  length_kept r v =
      ap
        (λ z. record (write_slot r v) {
          head = branch_wrap (r.head + 1) z;
          instr = on_push r.instr;
        })
        (sym (length-set r.slots r.head (some v)))

  read_same :
      (r : RingEngine T)
      → pow2_masked (r.tail + 1) (slot_count r) ≡ branch_wrap (r.tail + 1) (slot_count r)
      → pop_slot pow2_masked r ≡ (
        publish_tail r,
        copied_out
            (elim (read_slot r) [ none ↦ PopResult.undefined | some v ↦ PopResult.popped v ]),
      )
  unfolding pop_slot
  read_same r e = elim (Option-cases (read_slot r)) [
    | inl unwritten ↦ rw (e, unwritten) refl
    | inr (v, written) ↦ rw (e, written) refl
  ]

  push_same :
      (r : RingEngine T) (v : T)
      → next_head pow2_masked r ≡ branch_wrap (r.head + 1) (slot_count r)
      → push pow2_masked r v ≡ ((try_push r v).0, is_pushed (try_push r v).1)
  unfolding push push_slot try_push push_check
  push_same r v e =
      let there : ℕ = branch_wrap (r.head + 1) (slot_count r) in
      elim (Bool-cases (there == r.tail_cached)) [
        | inl cached ↦ elim (Bool-cases (there == r.tail)) [
          | inl full ↦ rw (e, cached, full) refl
          | inr room ↦
              rw (e, cached, room)
                (ap (λ z. (z, true)) (length_kept (record r { tail_cached = r.tail }) v))
        ]
        | inr room ↦ rw (e, room) (ap (λ z. (z, true)) (length_kept r v))
      ]

  pop_same :
      (r : RingEngine T)
      → pow2_masked (r.tail + 1) (slot_count r) ≡ branch_wrap (r.tail + 1) (slot_count r)
      → pop pow2_masked r ≡ ((try_pop r).0, copied_out (try_pop r).1)
  unfolding pop pop_slot try_pop pop_check
  pop_same r e = elim (Bool-cases (r.tail == r.head_cached)) [
    | inl cached ↦ elim (Bool-cases (r.tail == r.head)) [
      | inl nothing ↦ rw (cached, nothing) refl
      | inr waits ↦ rw (cached, waits) (read_same (record r { head_cached = r.head }) e)
    ]
    | inr waits ↦ rw waits (read_same r e)
  ]

  -- With the index strategy of the presets, `push` and `pop` of the copy ring take the ring to the state
  -- that `try_push` and `try_pop` with the branch-based strategy take it to, and report the same.
  pub single_lem :
      (r : RingEngine T) (v : T)
      → r.head < slot_count r
      → r.tail < slot_count r
      → (push pow2_masked r v ≡ ((try_push r v).0, is_pushed (try_push r v).1))
        × (pop pow2_masked r ≡ ((try_pop r).0, copied_out (try_pop r).1))
  single_lem r v h k =
      let head_lem = (wrap_agrees r.head (slot_count r) h).0 in
      let tail_lem = (wrap_agrees r.tail (slot_count r) k).0 in
      (push_same r v head_lem, pop_same r tail_lem)
