-- ===== src/Queue/CopyRing/PushBatch.antt =====
-- The batch operations of the copy ring against the list of the waiting values.
use mantis.Prelude.{
  ℕ, ◌+◌, ◌-◌, ◌≤◌, ◌<◌, ◌≡◌, refl, ◌∙◌, sym, ap, subst, List, [], ◌∷◌, ◌++◌, none, some, arith,
  length, length-set, set, get_or-set_self, inl, inr, Bool-cases, min, take, drop, take-append_drop,
  length-take, length-drop, ltb, ◌==◌,
}
use mantis.Queue.Index.{distance, next, pow2_masked}
use mantis.Queue.Instr.{CountingInstr}
use mantis.Queue.Ring.{RingEngine, capacity, slot_count, write_slot, publish_head}
use mantis.Queue.Ring.Content.{IsValid, Holds}
use mantis.Queue.Ring.Parts.{count, cache_tail, write_slot-Holds, publish_head-Holds}
use mantis.Queue.CopyRing.{write_batch_copy, between, write_chunks, push_batch}
use mantis.Queue.CopyRing.Cyclic.{advance, advance_lem, write_cyclic, write_two}
use mathlib.Core.List.{append_assoc, append-nil}

pub between-eq-distance : (n a b : ℕ) → a < n → between n a b ≡ distance n a b
between-eq-distance n a b h = ground arith

module _ {ℓ} {T : Type ℓ} where
  -- Neither the counters nor an unread cached index bear on what the ring holds.
  with_instr :
      (r : RingEngine T) (q : List T) (c : CountingInstr)
      → Holds r q
      → Holds (record r { instr = c }) q
  with_instr r q c h = record {
    valid = record {
      head_in = h.valid.head_in;
      tail_in = h.valid.tail_in;
      tail_cached_in = h.valid.tail_cached_in;
      head_cached_in = h.valid.head_cached_in;
      tail_behind = h.valid.tail_behind;
      head_behind = h.valid.head_behind;
    };
    values = h.values;
  }

  -- One value written and published, without a count.
  abbrev put : RingEngine T → T → RingEngine T
  put r x = record (write_slot r x) { head = next (length (set r.slots r.head (some x))) r.head }

  -- The slots that the producer may fill, by the index it has cached.
  abbrev free : RingEngine T → ℕ
  free r = capacity r - distance (length r.slots) r.tail_cached r.head

  put-Holds :
      (r : RingEngine T) (q : List T) (x : T)
      → Holds r q
      → 0 < free r
      → Holds (put r x) (q ++ (x ∷ []))
  put-Holds r q x h room =
      let same = length-set r.slots r.head (some x) in
      let here = get_or-set_self r.slots r.head (some x) none h.valid.head_in in
      with_instr (publish_head (write_slot r x)) (q ++ (x ∷ [])) r.instr (
        publish_head-Holds (write_slot r x) q x (write_slot-Holds r q x h)
          (rw same (let l = h.valid.head_in in let m = h.valid.tail_cached_in in ground arith))
          here)

  free-put : (r : RingEngine T) (x : T) → IsValid r → 0 < free r → free (put r x) + 1 ≡ free r
  free-put r x h room =
      let same = length-set r.slots r.head (some x) in
      rw same (let l = h.head_in in let m = h.tail_cached_in in ground arith)

  -- The values one by one.
  put_all : RingEngine T → List T → RingEngine T
  put_all r [] = r
  put_all r (x ∷ xs) = put_all (put r x) xs

  put_all-Holds :
      (r : RingEngine T) (q xs : List T)
      → Holds r q
      → length xs ≤ free r
      → Holds (put_all r xs) (q ++ xs)
  unfolding put_all
  put_all-Holds r q [] h room = subst (Holds r) (sym (append-nil q)) h
  put_all-Holds r q (x ∷ xs) h room =
      let less = free-put r x h.valid (omega arith) in
      subst (Holds (put_all (put r x) xs)) (append_assoc q (x ∷ []) xs)
        (put_all-Holds (put r x) (q ++ (x ∷ [])) xs (put-Holds r q x h (omega arith)) (omega arith))

  put_all_lem :
      (n : ℕ) (r : RingEngine T) (xs : List T)
      → length r.slots ≡ n
      → put_all r xs
        ≡ record r { slots = write_cyclic n r.slots r.head xs; head = advance n r.head (length xs) }
  unfolding put_all
  put_all_lem n r [] e = refl
  put_all_lem n r (x ∷ xs) e =
      let same : length (set r.slots r.head (some x)) ≡ n =
        length-set r.slots r.head (some x) ∙ e in
      put_all_lem n (put r x) xs same
      ∙ ap
          (λ z. record r {
            slots = write_cyclic n (set r.slots r.head (some x)) (next z r.head) xs;
            head = advance n (next z r.head) (length xs);
          })
          same

  -- The two chunks put the values as one by one.
  write_chunks_lem :
      (r : RingEngine T) (src : List T) (n : ℕ)
      → r.head < slot_count r
      → n ≤ length src
      → n ≤ slot_count r
      → (write_chunks pow2_masked r src n).0 ≡ put_all r (take n src)
  unfolding write_chunks
  write_chunks_lem r src n h k l =
      let cap : ℕ = slot_count r in
      let first : ℕ = min n (cap - r.head) in
      let second : ℕ = n - first in
      let one : List T = take first src in
      let two : List T = take second (drop first src) in
      let both : first + second ≡ n = ground arith in
      let some_in : first ≤ n = ground arith in
      let fits : r.head + first ≤ cap = ground arith in
      let touches : 0 < second → r.head + first ≡ cap = ground arith in
      let left = length-drop first src in
      let len_one : length one ≡ first = length-take first src (omega arith) in
      let len_two : length two ≡ second = length-take second (drop first src) (omega arith) in
      let split : take n src ≡ one ++ two =
        ap (λ z. take z src) (sym both) ∙ take-append_drop first second src in
      let slots_lem =
        ap (write_cyclic cap r.slots r.head) split
        ∙ write_two cap r.head r.slots one two h (omega arith) (omega arith)
            (λ some_left. omega (arith, touches (omega arith))) in
      let head_lem = ap (advance cap r.head) (length-take n src k) ∙ advance_lem cap r.head n h in
      sym (
        put_all_lem cap r (take n src) refl
        ∙ ap (λ z. record r { slots = z; head = advance cap r.head (length (take n src)) })
            slots_lem
        ∙ ap
            (λ z. record r {
              slots = write_batch_copy (write_batch_copy r.slots r.head one) 0 two;
              head = z;
            })
            head_lem)

  write_chunks-Holds :
      (r : RingEngine T) (q src : List T) (n : ℕ)
      → Holds r q
      → n ≤ length src
      → n ≤ free r
      → Holds (write_chunks pow2_masked r src n).0 (q ++ take n src)
  write_chunks-Holds r q src n h k l =
      let whole = length-take n src k in
      subst (λ z. Holds z (q ++ take n src))
        (sym (write_chunks_lem r src n h.valid.head_in k (omega arith)))
        (put_all-Holds r q (take n src) h (omega arith))

  -- The outcome of a batch that pushes `n` values of `src` onto a ring that holds `q`.
  abbrev Pushes : RingEngine T × ℕ → List T → List T → ℕ → Type ℓ
  Pushes result q src n = (result.1 ≡ n) × Holds result.0 (q ++ take n src)

  Pushes-none :
      (r : RingEngine T) (q src : List T) (m : ℕ) → Holds r q → 0 ≡ m → Pushes (r, 0) q src m
  Pushes-none r q src m h e =
      subst (Pushes (r, 0) q src) e (refl, subst (Holds r) (sym (append-nil q)) h)

  Pushes-chunks :
      (r : RingEngine T) (q src : List T) (n m : ℕ)
      → Holds r q
      → n ≤ length src
      → n ≤ free r
      → n ≡ m
      → Pushes (write_chunks pow2_masked r src n) q src m
  unfolding write_chunks
  Pushes-chunks r q src n m h k l e =
      subst (Pushes (write_chunks pow2_masked r src n) q src) e
        (refl, write_chunks-Holds r q src n h k l)

  -- `push_batch` with the index strategy of the presets, on a ring that holds `q`: it pushes the
  -- longest prefix of the source that fits, returns that prefix's length, and the ring holds `q` and
  -- then the prefix.
  pub push_batch_lem :
      (r : RingEngine T) (q src : List T)
      → Holds r q
      → ((push_batch pow2_masked r src).1 ≡ min (length src) (capacity r - length q))
        × Holds
            (push_batch pow2_masked r src).0
            (q ++ take (min (length src) (capacity r - length q)) src)
  unfolding push_batch write_chunks
  push_batch_lem r q [] h = Pushes-none r q [] (min 0 (capacity r - length q)) h (ground arith)
  push_batch_lem r q (x ∷ xs) h =
      let cap : ℕ = slot_count r in
      let src : List T = x ∷ xs in
      let cached_free : ℕ = cap - 1 - between cap r.tail_cached r.head in
      let now_free : ℕ = cap - 1 - between cap r.tail r.head in
      let fresh : RingEngine T = record r { tail_cached = r.tail } in
      let room : ℕ = min (length src) (capacity r - length q) in
      let cached = between-eq-distance cap r.tail_cached r.head h.valid.tail_cached_in in
      let real = between-eq-distance cap r.tail r.head h.valid.tail_in in
      let size = count r q h in
      let kept = cache_tail r q r.instr h in
      let behind = h.valid.tail_behind in
      elim (Bool-cases (ltb cached_free (length src))) [
        | inl short ↦ elim (Bool-cases (now_free == 0)) [
          | inl full ↦ rw (short, full) (Pushes-none fresh q src room kept (ground arith))
          | inr some_left ↦
              rw (short, some_left)
                (Pushes-chunks fresh q src (min (length src) now_free) room kept (ground arith)
                  (ground arith) (ground arith))
        ]
        | inr long ↦ rw long (
            Pushes-chunks r q src (min (length src) cached_free) room h (ground arith)
              (ground arith) (ground arith))
      ]
