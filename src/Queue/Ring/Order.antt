-- ===== src/Queue/Ring/Order.antt =====
-- Under every interleaving of the two sides, what is popped is what was pushed, in order.
use mathlib.Core.List.{append_assoc}
use mantis.Prelude.{
  ℕ, ◌<◌, ◌≡◌, refl, ◌∙◌, sym, ap, subst, List, [], ◌∷◌, ◌++◌, none, some, arith, map, length-set,
  get_or-set_self,
}
use mantis.Queue.Ring.{RingEngine}
use mantis.Queue.Ring.Content.{Holds}
use mantis.Queue.Ring.Parts.{
  count, MayPop, push_check-Holds, pop_check-Holds, write_slot-Holds, publish_head-Holds,
  publish_tail-Holds, map-append_some,
}
use mantis.Queue.Ring.Fifo.{new-Holds}
use mantis.Queue.Ring.Steps.{Machine, Step, Reachable}
use mantis.Queue.Ring.Knows.{
  ProducerKnows, ConsumerKnows, after_check_push, after_check_pop, consumer_undisturbed,
  producer_undisturbed, consumer_after_push, producer_after_pop, consumer_after_write,
}

module _ {ℓ} {T : Type ℓ} where
  -- The values that wait are `q`, and they are what was pushed and not yet popped.
  pub record Consistent (m : Machine T) (q : List T) : Type ℓ where
    pub holds : Holds m.ring q
    pub producer_at : ProducerKnows m.ring m.producer
    pub consumer_at : ConsumerKnows m.ring m.consumer
    pub in_order : m.pushed ≡ m.popped ++ map some q

  -- A consumer past its check finds a value.
  something_waits :
      (r : RingEngine T) (q : List T)
      → Holds r q
      → MayPop r
      → (x : T) × (rest : List T) × (q ≡ x ∷ rest)
  something_waits r [] h may =
      absurd (let n = count r [] h in let v = h.valid in may (ground arith))
  something_waits r (x ∷ rest) h may = (x, rest, refl)

  keeps :
      (m m' : Machine T) (q : List T)
      → Step m m'
      → Consistent m q
      → (q' : List T) × Consistent m' q'
  keeps m _ q (Step.check_push_step v e) h = (
    q,
    record {
      holds = push_check-Holds m.ring q h.holds;
      producer_at = after_check_push m.ring v h.holds.valid;
      consumer_at = consumer_undisturbed m.ring m.consumer h.consumer_at;
      in_order = h.in_order;
    },
  )
  keeps m _ q (Step.write_step v e) h =
      let ready = subst (ProducerKnows m.ring) e h.producer_at in
      (
        q,
        record {
          holds = write_slot-Holds m.ring q v h.holds;
          producer_at = (
            rw (length-set m.ring.slots m.ring.head (some v)) ready.lower,
            get_or-set_self m.ring.slots m.ring.head (some v) none h.holds.valid.head_in,
          );
          consumer_at = consumer_after_write m.ring v m.consumer h.holds.valid h.consumer_at;
          in_order = h.in_order;
        },
      )
  keeps m _ q (Step.end_push_step v e) h =
      let ready = subst (ProducerKnows m.ring) e h.producer_at in
      (
        q ++ (v ∷ []),
        record {
          holds = publish_head-Holds m.ring q v h.holds ready.0 ready.1;
          producer_at = record { lower = tt };
          consumer_at = consumer_after_push m.ring m.consumer h.consumer_at;
          in_order =
              ap (λ z. z ++ (some v ∷ [])) h.in_order
              ∙ append_assoc m.popped (map some q) (some v ∷ [])
              ∙ ap (λ z. m.popped ++ z) (sym (map-append_some q v));
        },
      )
  keeps m _ q (Step.check_pop_step e) h = (
    q,
    record {
      holds = pop_check-Holds m.ring q h.holds;
      producer_at = producer_undisturbed m.ring m.producer h.producer_at;
      consumer_at = after_check_pop m.ring h.holds.valid;
      in_order = h.in_order;
    },
  )
  keeps m _ q (Step.take_step e) h =
      let ready = subst (ConsumerKnows m.ring) e h.consumer_at in
      (
        q,
        record {
          holds = h.holds;
          producer_at = h.producer_at;
          consumer_at = (ready.lower, refl);
          in_order = h.in_order;
        },
      )
  keeps m _ q (Step.end_pop_step o e) h =
      let ready = subst (ConsumerKnows m.ring) e h.consumer_at in
      let (x, rest, is) = something_waits m.ring q h.holds ready.0 in
      let out = publish_tail-Holds m.ring x rest (subst (Holds m.ring) is h.holds) ready.0 in
      (
        rest,
        record {
          holds = out.1;
          producer_at = producer_after_pop m.ring m.producer h.producer_at;
          consumer_at = record { lower = tt };
          in_order =
              h.in_order
              ∙ ap (λ z. m.popped ++ map some z) is
              ∙ sym (append_assoc m.popped (some x ∷ []) (map some rest))
              ∙ ap (λ z. (m.popped ++ (z ∷ [])) ++ map some rest) (sym out.0 ∙ ready.1);
        },
      )

  reach : (n : ℕ) (m : Machine T) → 0 < n → Reachable n m → (q : List T) × Consistent m q
  reach n _ h Reachable.started = (
    [],
    record {
      holds = new-Holds n h;
      producer_at = record { lower = tt };
      consumer_at = record { lower = tt };
      in_order = refl;
    },
  )
  reach n _ h (Reachable.stepped {m} {m'} r s) = let (q, c) = reach n m h r in keeps m m' q s c

  -- In every state that a new ring of `n` slots, n > 0, reaches under any interleaving of one
  -- producer and one consumer, the values pushed are those popped followed by those that wait, in
  -- order: none is lost, duplicated or reordered, and no slot is read before it is written.
  pub Reachable-in_order :
      (n : ℕ) (m : Machine T)
      → 0 < n
      → Reachable n m
      → (q : List T) × Holds m.ring q × (m.pushed ≡ m.popped ++ map some q)
  Reachable-in_order n m h r = let (q, c) = reach n m h r in (q, c.holds, c.in_order)
