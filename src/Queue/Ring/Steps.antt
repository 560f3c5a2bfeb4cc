-- ===== src/Queue/Ring/Steps.antt =====
-- The ring under concurrency: the two sides interleave at every shared access. A producer checks,
-- writes its slot and publishes; a consumer checks, reads its slot and publishes. The atomics are
-- sequentially consistent here, which the acquire and release pairs give the two indices.
use mantis.Prelude.{ℕ, ◌≡◌, List, [], ◌∷◌, ◌++◌, Option, some, if◌then◌else◌}
use mantis.Queue.Ring.{
  RingEngine, new, push_check, write_slot, publish_head, pop_check, read_slot, publish_tail,
}

-- Where a producer stands inside of `try_push`, and a consumer inside of `try_pop`.
pub data PushPhase {ℓ} (T : Type ℓ) : Type ℓ where
  idle : PushPhase T
  checked : T → PushPhase T
  written : T → PushPhase T

pub data PopPhase {ℓ} (T : Type ℓ) : Type ℓ where
  idle : PopPhase T
  checked : PopPhase T
  taken : Option T → PopPhase T

-- The ring, the two sides, and the values pushed and popped so far, the latest last.
pub record Machine {ℓ} (T : Type ℓ) : Type ℓ where
  pub ring : RingEngine T
  pub producer : PushPhase T
  pub consumer : PopPhase T
  pub pushed : List (Option T)
  pub popped : List (Option T)

module _ {ℓ} {T : Type ℓ} where
  abbrev pub start : ℕ → Machine T
  start n = record {
    ring = new n;
    producer = PushPhase.idle;
    consumer = PopPhase.idle;
    pushed = [];
    popped = [];
  }

  abbrev pub check_push : Machine T → T → Machine T
  check_push m v = record m {
    ring = (push_check m.ring).0;
    producer = if (push_check m.ring).1 then PushPhase.checked v else PushPhase.idle;
  }

  abbrev write : Machine T → T → Machine T
  write m v = record m { ring = write_slot m.ring v; producer = PushPhase.written v }

  abbrev end_push : Machine T → T → Machine T
  end_push m v = record m {
    ring = publish_head m.ring;
    producer = PushPhase.idle;
    pushed = m.pushed ++ (some v ∷ []);
  }

  abbrev pub check_pop : Machine T → Machine T
  check_pop m = record m {
    ring = (pop_check m.ring).0;
    consumer = if (pop_check m.ring).1 then PopPhase.checked else PopPhase.idle;
  }

  abbrev take : Machine T → Machine T
  take m = record m { consumer = PopPhase.taken (read_slot m.ring) }

  abbrev end_pop : Machine T → Option T → Machine T
  end_pop m o = record m {
    ring = publish_tail m.ring;
    consumer = PopPhase.idle;
    popped = m.popped ++ (o ∷ []);
  }

  -- One shared access of either side.
  pub data Step (m : Machine T) : Machine T → Type ℓ where
    check_push_step : (v : T) → m.producer ≡ PushPhase.idle → Step m (check_push m v)
    write_step : (v : T) → m.producer ≡ PushPhase.checked v → Step m (write m v)
    end_push_step : (v : T) → m.producer ≡ PushPhase.written v → Step m (end_push m v)
    check_pop_step : m.consumer ≡ PopPhase.idle → Step m (check_pop m)
    take_step : m.consumer ≡ PopPhase.checked → Step m (take m)
    end_pop_step : (o : Option T) → m.consumer ≡ PopPhase.taken o → Step m (end_pop m o)

  pub data Reachable (n : ℕ) : Machine T → Type ℓ where
    started : Reachable n (start n)
    stepped : {m m' : Machine T} → Reachable n m → Step m m' → Reachable n m'
