-- ===== src/Queue/Ring/Parts.antt =====
-- Each step of the ring against the list of the waiting values.
use mantis.Prelude.{
  ℕ, suc, ◌+◌, ◌<◌, ◌≡◌, ◌≢◌, ◌↔◌, refl, ◌∙◌, sym, ap, true, List, [], ◌∷◌, ◌++◌, Option, none,
  some, arith, map, length, get_or, set, length-set, inl, inr, Bool-cases, ◌==◌,
}
use mantis.Queue.Index.{distance, next}
use mantis.Queue.Instr.{CountingInstr, on_push_full, on_pop_empty}
use mantis.Queue.Ring.{
  RingEngine, next_head, push_check, write_slot, publish_head, pop_check, read_slot, publish_tail,
}
use mantis.Queue.Ring.Content.{
  contents, IsValid, Holds, length-contents, contents-set, contents-suc,
}

module _ {ℓ} {T : Type ℓ} where
  length-map-some : (q : List T) → length (map some q) ≡ length q
  length-map-some [] = refl
  length-map-some (x ∷ q) = ap suc (length-map-some q)

  pub map-append_some :
      (q : List T) (v : T) → map some (q ++ (v ∷ [])) ≡ map some q ++ (some v ∷ [])
  map-append_some [] v = refl
  map-append_some (x ∷ q) v = ap (λ z. some x ∷ z) (map-append_some q v)

  -- The distance between the indices is the number of waiting values.
  pub count :
      (r : RingEngine T) (q : List T)
      → Holds r q
      → distance (length r.slots) r.tail r.head ≡ length q
  count r q h =
      sym (length-contents r.slots r.tail (distance (length r.slots) r.tail r.head))
      ∙ ap length h.values
      ∙ length-map-some q

  -- Room for one more: one slot always stays free.
  abbrev pub HasRoom : RingEngine T → Type 0
  HasRoom r = distance (length r.slots) r.tail r.head + 1 < length r.slots

  -- What the two checks establish, against the cached index of the side that checks.
  abbrev pub MayPush : RingEngine T → Type 0
  MayPush r = next_head r ≢ r.tail_cached

  abbrev pub MayPop : RingEngine T → Type 0
  MayPop r = r.tail ≢ r.head_cached

  -- The list behind the first value.
  abbrev behind_first : List (Option T) → List (Option T)
  behind_first [] = []
  behind_first (x ∷ xs) = xs

  -- Refreshing a cached index keeps what the ring holds.
  pub cache_tail :
      (r : RingEngine T) (q : List T) (c : CountingInstr)
      → Holds r q
      → Holds (record r { tail_cached = r.tail; instr = c }) q
  cache_tail r q c h = record {
    valid = record {
      head_in = h.valid.head_in;
      tail_in = h.valid.tail_in;
      tail_cached_in = h.valid.tail_in;
      head_cached_in = h.valid.head_cached_in;
      tail_behind = ground arith;
      head_behind = h.valid.head_behind;
    };
    values = h.values;
  }

  pub cache_head :
      (r : RingEngine T) (q : List T) (c : CountingInstr)
      → Holds r q
      → Holds (record r { head_cached = r.head; instr = c }) q
  cache_head r q c h = record {
    valid = record {
      head_in = h.valid.head_in;
      tail_in = h.valid.tail_in;
      tail_cached_in = h.valid.tail_cached_in;
      head_cached_in = h.valid.head_in;
      tail_behind = h.valid.tail_behind;
      head_behind = ground arith;
    };
    values = h.values;
  }

  pub push_check-Holds : (r : RingEngine T) (q : List T) → Holds r q → Holds (push_check r).0 q
  unfolding push_check
  push_check-Holds r q h = elim (Bool-cases (next_head r == r.tail_cached)) [
    | inr e ↦ rw e h
    | inl e ↦ elim (Bool-cases (next_head r == r.tail)) [
      | inl f ↦ rw (e, f) (cache_tail r q (on_push_full r.instr) h)
      | inr f ↦ rw (e, f) (cache_tail r q r.instr h)
    ]
  ]

  pub push_check_lem :
      (r : RingEngine T)
      → IsValid r
      → (((push_check r).1 ≡ true) ↔ HasRoom r)
        × ((push_check r).1 ≡ true → MayPush (push_check r).0)
  unfolding push_check
  push_check_lem r h = ((λ e. ground arith, λ e. ground arith), λ e. ground arith)

  pub pop_check-Holds : (r : RingEngine T) (q : List T) → Holds r q → Holds (pop_check r).0 q
  unfolding pop_check
  pop_check-Holds r q h = elim (Bool-cases (r.tail == r.head_cached)) [
    | inr e ↦ rw e h
    | inl e ↦ elim (Bool-cases (r.tail == r.head)) [
      | inl f ↦ rw (e, f) (cache_head r q (on_pop_empty r.instr) h)
      | inr f ↦ rw (e, f) (cache_head r q r.instr h)
    ]
  ]

  pub pop_check_lem :
      (r : RingEngine T)
      → IsValid r
      → (((pop_check r).1 ≡ true) ↔ (r.tail ≢ r.head))
        × ((pop_check r).1 ≡ true → MayPop (pop_check r).0)
  unfolding pop_check
  pop_check_lem r h = ((λ e. ground arith, λ e. ground arith), λ e. ground arith)

  -- Writing the free slot at the head does not touch what waits.
  pub write_slot-Holds :
      (r : RingEngine T) (q : List T) (v : T) → Holds r q → Holds (write_slot r v) q
  write_slot-Holds r q v h =
      let same : length (set r.slots r.head (some v)) ≡ length r.slots =
        length-set r.slots r.head (some v) in
      record {
        valid = record {
          head_in = rw same h.valid.head_in;
          tail_in = rw same h.valid.tail_in;
          tail_cached_in = rw same h.valid.tail_cached_in;
          head_cached_in = rw same h.valid.head_cached_in;
          tail_behind = rw same h.valid.tail_behind;
          head_behind = rw same h.valid.head_behind;
        };
        values = rw same (
            contents-set r.slots r.head r.tail (distance (length r.slots) r.tail r.head) (some v)
              h.valid.head_in h.valid.tail_in (omega arith)
            ∙ h.values);
      }

  -- Publishing a written slot appends its value.
  pub publish_head-Holds :
      (r : RingEngine T) (q : List T) (v : T)
      → Holds r q
      → MayPush r
      → get_or r.slots r.head none ≡ some v
      → Holds (publish_head r) (q ++ (v ∷ []))
  publish_head-Holds r q v h room w =
      let d : ℕ = distance (length r.slots) r.tail r.head in
      let more : distance (length r.slots) r.tail (next_head r) ≡ suc d = ground arith in
      record {
        valid = record {
          head_in = ground arith;
          tail_in = h.valid.tail_in;
          tail_cached_in = h.valid.tail_cached_in;
          head_cached_in = h.valid.head_cached_in;
          tail_behind = ground arith;
          head_behind = ground arith;
        };
        values =
            ap (contents r.slots r.tail) more
            ∙ contents-suc r.slots r.head r.tail d h.valid.head_in h.valid.tail_in refl
            ∙ ap (λ z. z ++ (get_or r.slots r.head none ∷ [])) h.values
            ∙ ap (λ z. map some q ++ (z ∷ [])) w
            ∙ sym (map-append_some q v);
      }

  -- Publishing the tail drops the oldest value, the one in the slot that was read.
  pub publish_tail-Holds :
      (r : RingEngine T) (x : T) (q : List T)
      → Holds r (x ∷ q)
      → MayPop r
      → (read_slot r ≡ some x) × Holds (publish_tail r) q
  unfolding contents
  publish_tail-Holds r x q h may =
      let d : ℕ = distance (length r.slots) r.tail r.head in
      let n : ℕ = length q in
      let some_left : d ≡ suc n = count r (x ∷ q) h in
      let less : distance (length r.slots) (next (length r.slots) r.tail) r.head ≡ n =
        ground arith in
      let split : contents r.slots r.tail (suc n) ≡ some x ∷ map some q =
        ap (contents r.slots r.tail) (sym some_left) ∙ h.values in
      (
        ap (λ z. get_or z 0 none) split,
        record {
          valid = record {
            head_in = h.valid.head_in;
            tail_in = ground arith;
            tail_cached_in = h.valid.tail_cached_in;
            head_cached_in = h.valid.head_cached_in;
            tail_behind = ground arith;
            head_behind = ground arith;
          };
          values =
              ap (contents r.slots (next (length r.slots) r.tail)) less ∙ ap behind_first split;
        },
      )
