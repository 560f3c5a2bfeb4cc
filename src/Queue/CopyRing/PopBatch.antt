-- ===== src/Queue/CopyRing/PopBatch.antt =====
-- `pop_batch` of the copy ring against the list of the waiting values.
use mantis.Prelude.{
  ℕ, zero, suc, ◌+◌, ◌-◌, ◌%◌, ◌≤◌, ◌<◌, ◌≡◌, refl, ◌∙◌, sym, ap, subst, List, [], ◌∷◌, Option,
  none, some, arith, map, length, get_or, inl, inr, if◌then◌else◌, Bool-cases, min, take, drop, leb,
  ltb, ◌==◌,
}
use mantis.Queue.Index.{distance, next, pow2_masked}
use mantis.Queue.Ring.{RingEngine, slot_count}
use mantis.Queue.Ring.Content.{contents, IsValid, Holds}
use mantis.Queue.Ring.Parts.{count, cache_head}
use mantis.Queue.CopyRing.{between, read_chunks, pop_batch}
use mantis.Queue.CopyRing.Cyclic.{advance, advance_lem, read_two}
use mantis.Queue.CopyRing.PushBatch.{between-eq-distance}
use native.Mathlib.Nat.{mod-eq_of_lt, add-mod_right}

mod_cases : (n a k : ℕ) → a < n → k ≤ n → (a + k) % n ≡ (if leb n (a + k) then a + k - n else a + k)
mod_cases n a k h l = elim (Bool-cases (leb n (a + k))) [
  | inl over ↦
      let split : a + k ≡ a + k - n + n = ground arith in
      let small : a + k - n < n = ground arith in
      rw over (ap (λ z. z % n) split ∙ add-mod_right (a + k - n) n ∙ mod-eq_of_lt small)
  | inr under ↦ rw under (mod-eq_of_lt (ground arith))
]

module _ {ℓ} {A : Type ℓ} {B : Type ℓ} where
  take-map : (f : A → B) (k : ℕ) (xs : List A) → take k (map f xs) ≡ map f (take k xs)
  take-map f zero xs = refl
  take-map f (suc k) [] = refl
  take-map f (suc k) (x ∷ xs) = ap (λ z. f x ∷ z) (take-map f k xs)

  drop-map : (f : A → B) (k : ℕ) (xs : List A) → drop k (map f xs) ≡ map f (drop k xs)
  drop-map f zero xs = refl
  drop-map f (suc k) [] = refl
  drop-map f (suc k) (x ∷ xs) = drop-map f k xs

module _ {ℓ} {T : Type ℓ} where
  take-contents :
      (slots : List (Option T)) (a k m : ℕ) → take k (contents slots a (k + m)) ≡ contents slots a k
  unfolding contents
  take-contents slots a zero m = refl
  take-contents slots a (suc k) m =
      let split : suc k + m ≡ suc (k + m) = omega arith in
      ap (λ z. take (suc k) (contents slots a z)) split
      ∙ ap (λ z. get_or slots a none ∷ z) (take-contents slots (next (length slots) a) k m)

  drop-contents :
      (slots : List (Option T)) (a k m : ℕ)
      → drop k (contents slots a (k + m)) ≡ contents slots (advance (length slots) a k) m
  unfolding contents
  drop-contents slots a zero m = ap (contents slots a) (omega arith)
  drop-contents slots a (suc k) m =
      let split : suc k + m ≡ suc (k + m) = omega arith in
      ap (λ z. drop (suc k) (contents slots a z)) split
      ∙ drop-contents slots (next (length slots) a) k m

  -- The tail moves over `n` values, to the slot `t`.
  abbrev move_tail : RingEngine T → ℕ → RingEngine T
  move_tail r t = record r { tail = t }

  move_tail-distance :
      (r : RingEngine T) (t n : ℕ)
      → IsValid r
      → n ≤ distance (slot_count r) r.tail r.head_cached
      → t ≡ (if leb (slot_count r) (r.tail + n) then r.tail + n - slot_count r else r.tail + n)
      → distance (slot_count r) t r.head + n ≡ distance (slot_count r) r.tail r.head
  move_tail-distance r t n h k e =
      let l = h.head_in in
      let b = h.head_behind in let m = h.tail_in in let c = h.head_cached_in in ground arith

  move_tail-IsValid :
      (r : RingEngine T) (t n : ℕ)
      → IsValid r
      → n ≤ distance (slot_count r) r.tail r.head_cached
      → t ≡ (if leb (slot_count r) (r.tail + n) then r.tail + n - slot_count r else r.tail + n)
      → IsValid (move_tail r t)
  move_tail-IsValid r t n h k e =
      let l = h.head_in in
      let b = h.head_behind in
      let m = h.tail_in in
      let c = h.head_cached_in in
      record {
        head_in = l;
        tail_in = ground arith;
        tail_cached_in = h.tail_cached_in;
        head_cached_in = c;
        tail_behind = omega (arith, move_tail-distance r t n h k e, h.tail_behind);
        head_behind = ground arith;
      }

  -- The outcome of a batch that pops `n` values from a ring that holds `q`.
  abbrev Pops : RingEngine T × (List (Option T) × ℕ) → List T → ℕ → Type ℓ
  Pops result q n = (result.1 ≡ (map some (take n q), n)) × Holds result.0 (drop n q)

  Pops-none : (r : RingEngine T) (q : List T) (m : ℕ) → Holds r q → 0 ≡ m → Pops (r, ([], 0)) q m
  Pops-none r q m h e = subst (Pops (r, ([], 0)) q) e (refl, h)

  -- The two chunks are the next `n` slots.
  read_chunks_lem :
      (r : RingEngine T) (n : ℕ)
      → r.tail < slot_count r
      → n ≤ slot_count r
      → (read_chunks pow2_masked r n).1.0 ≡ contents r.slots r.tail n
  unfolding read_chunks
  read_chunks_lem r n h k =
      let first : ℕ = min n (slot_count r - r.tail) in
      let both : first + (n - first) ≡ n = ground arith in
      sym (
        read_two r.slots r.tail first (n - first) h (ground arith) (ground arith)
          (λ l. ground arith))
      ∙ ap (contents r.slots r.tail) both

  Pops-chunks :
      (r : RingEngine T) (q : List T) (n m : ℕ)
      → Holds r q
      → n ≤ distance (slot_count r) r.tail r.head_cached
      → n ≡ m
      → Pops (read_chunks pow2_masked r n) q m
  unfolding read_chunks
  Pops-chunks r q n m h k e =
      let cap : ℕ = slot_count r in
      let t : ℕ = (r.tail + n) % cap in
      let d : ℕ = distance cap r.tail r.head in
      let c = h.valid.head_cached_in in
      let b = h.valid.head_behind in
      let lt = h.valid.tail_in in
      let small : n ≤ cap = ground arith in
      let there = mod_cases cap r.tail n lt small in
      let moved = move_tail-distance r t n h.valid k there in
      let valid = move_tail-IsValid r t n h.valid k there in
      let rest : n + (d - n) ≡ d = omega arith in
      let left : distance cap t r.head ≡ d - n = omega arith in
      let walk = advance_lem cap r.tail n lt in
      let values = ap (contents r.slots r.tail) rest ∙ h.values in
      let got =
        read_chunks_lem r n lt small
        ∙ sym (take-contents r.slots r.tail n (d - n))
        ∙ ap (take n) values
        ∙ take-map some n q in
      let kept =
        ap (contents r.slots t) left
        ∙ ap (λ z. contents r.slots z (d - n)) (sym walk)
        ∙ sym (drop-contents r.slots r.tail n (d - n))
        ∙ ap (drop n) values
        ∙ drop-map some n q in
      subst (Pops (read_chunks pow2_masked r n) q) e
        (ap (λ z. (z, n)) got, record { valid = valid; values = kept })

  -- `pop_batch` with the index strategy of the presets, from a ring that holds `q`: it copies out as
  -- many of the oldest values as are wanted and there, in order and none of them an unwritten slot,
  -- returns their number, and the ring holds the rest.
  pub pop_batch_lem :
      (r : RingEngine T) (q : List T) (wanted : ℕ)
      → Holds r q
      → ((pop_batch pow2_masked r wanted).1
          ≡ (map some (take (min wanted (length q)) q), min wanted (length q)))
        × Holds (pop_batch pow2_masked r wanted).0 (drop (min wanted (length q)) q)
  unfolding pop_batch
  pop_batch_lem r q zero h = Pops-none r q (min 0 (length q)) h (ground arith)
  pop_batch_lem r q (suc more) h =
      let cap : ℕ = slot_count r in
      let wanted : ℕ = suc more in
      let cached_avail : ℕ = between cap r.tail r.head_cached in
      let avail : ℕ = between cap r.tail r.head in
      let fresh : RingEngine T = record r { head_cached = r.head } in
      let m : ℕ = min wanted (length q) in
      let cached = between-eq-distance cap r.tail r.head_cached h.valid.tail_in in
      let real = between-eq-distance cap r.tail r.head h.valid.tail_in in
      let size = count r q h in
      let kept = cache_head r q r.instr h in
      let behind = h.valid.head_behind in
      elim (Bool-cases (ltb cached_avail wanted)) [
        | inl short ↦ elim (Bool-cases (avail == 0)) [
          | inl nothing ↦ rw (short, nothing) (Pops-none fresh q m kept (ground arith))
          | inr some_left ↦
              rw (short, some_left)
                (Pops-chunks fresh q (min wanted avail) m kept (ground arith) (ground arith))
        ]
        | inr long ↦
            rw long (Pops-chunks r q (min wanted cached_avail) m h (ground arith) (ground arith))
      ]
