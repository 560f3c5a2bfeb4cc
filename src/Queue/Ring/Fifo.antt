-- ===== src/Queue/Ring/Fifo.antt =====
-- The operations of the ring, with no step of the other side between theirs, are a bounded queue.
use mantis.Prelude.{
  ℕ, ◌≤◌, ◌<◌, ◌≡◌, refl, ◌∙◌, sym, ap, subst, List, [], ◌∷◌, ◌++◌, Option, none, some, arith,
  length, get_or, length-set, length-replicate, get_or-set_self, inl, inr, Bool-cases,
}
use mathlib.Core.Bool.{false≢true}
use mantis.Queue.Index.{mod-eq-distance}
use mantis.Queue.Ring.{
  RingEngine, PushResult, PopResult, new, capacity, push_check, write_slot, pop_check, try_push,
  try_pop, len,
}
use mantis.Queue.Ring.Content.{contents, IsValid, Holds}
use mantis.Queue.Ring.Parts.{
  count, push_check-Holds, push_check_lem, pop_check-Holds, pop_check_lem, write_slot-Holds,
  publish_head-Holds, publish_tail-Holds,
}

module _ {ℓ} {T : Type ℓ} where
  pub new-Holds : (n : ℕ) → 0 < n → Holds (new {T = T} n) []
  unfolding new contents
  new-Holds n h =
      let same = length-replicate {A = Option T} n none in
      record {
        valid = record {
          head_in = rw same h;
          tail_in = rw same h;
          tail_cached_in = rw same h;
          head_cached_in = rw same h;
          tail_behind = omega arith;
          head_behind = omega arith;
        };
        values = refl;
      }

  write_here :
      (r : RingEngine T) (v : T) → IsValid r → get_or (write_slot r v).slots r.head none ≡ some v
  write_here r v h = get_or-set_self r.slots r.head (some v) none h.head_in

  -- A push onto a ring that holds `q`: when `q` is shorter than the capacity, it succeeds and the
  -- ring holds `q` and then the value; otherwise it hands the value back and the ring still holds `q`.
  pub try_push_lem :
      (r : RingEngine T) (q : List T) (v : T)
      → Holds r q
      → (length q < capacity r
          → ((try_push r v).1 ≡ PushResult.pushed) × Holds (try_push r v).0 (q ++ (v ∷ [])))
        × (capacity r ≤ length q
            → ((try_push r v).1 ≡ PushResult.full v) × Holds (try_push r v).0 q)
  unfolding try_push
  try_push_lem r q v h =
      let c = push_check r in
      let n = count r q h in
      let lem = push_check_lem r h.valid in
      let kept = push_check-Holds r q h in
      elim (Bool-cases c.1) [
        | inl room ↦
            let room_left = lem.0.0 room in
            (
              λ _. (
                rw room,
                rw room (
                    publish_head-Holds (write_slot c.0 v) q v (write_slot-Holds c.0 q v kept)
                      (rw (length-set c.0.slots c.0.head (some v)) (lem.1 room))
                      (write_here c.0 v kept.valid)),
              ),
              λ k. absurd (omega arith),
            )
        | inr stop ↦ (
          λ k. absurd (false≢true (sym stop ∙ lem.0.1 (let lt = h.valid.head_in in omega arith))),
          λ _. (rw stop, rw stop kept),
        )
      ]

  -- A pop from a ring that holds `q`: when `q` is empty it says so and the ring stays empty;
  -- otherwise it returns the first value of `q`, never an unwritten slot, and the rest stays.
  pub try_pop_lem :
      (r : RingEngine T) (q : List T)
      → Holds r q
      → (q ≡ [] → ((try_pop r).1 ≡ PopResult.empty) × Holds (try_pop r).0 q)
        × ((x : T) (rest : List T)
            → q ≡ x ∷ rest
            → ((try_pop r).1 ≡ PopResult.popped x) × Holds (try_pop r).0 rest)
  unfolding try_pop
  try_pop_lem r q h =
      let c = pop_check r in
      let n = count r q h in
      let lem = pop_check_lem r h.valid in
      let kept = pop_check-Holds r q h in
      elim (Bool-cases c.1) [
        | inl some_in ↦ (
          λ e. absurd (lem.0.0 some_in (let z = ap length e in ground arith)),
          λ x rest e.
              let got = publish_tail-Holds c.0 x rest (subst (Holds c.0) e kept) (lem.1 some_in) in
              (rw (some_in, got.0), rw some_in got.1),
        )
        | inr stop ↦ (
          λ _. (rw stop, rw stop kept),
          λ x rest e.
              absurd (false≢true (sym stop ∙ lem.0.1 (let z = ap length e in ground arith))),
        )
      ]

  -- `len` is the number of the values that wait.
  pub len_lem : (r : RingEngine T) (q : List T) → Holds r q → len r ≡ length q
  len_lem r q h =
      mod-eq-distance (length r.slots) r.tail r.head h.valid.tail_in h.valid.head_in ∙ count r q h
