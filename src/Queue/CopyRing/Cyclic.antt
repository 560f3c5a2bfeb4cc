-- ===== src/Queue/CopyRing/Cyclic.antt =====
-- The two chunks of a batch against the same slots visited one by one around the ring.
use mantis.Prelude.{
  ℕ, zero, suc, ◌+◌, ◌%◌, ◌≤◌, ◌<◌, ◌≡◌, refl, ◌∙◌, sym, ap, List, [], ◌∷◌, ◌++◌, Option, none,
  some, arith, get_or, set, length, inl, inr, Bool-cases, ◌==◌,
}
use mantis.Queue.Index.{next}
use mantis.Queue.Ring.Content.{contents}
use mantis.Queue.CopyRing.{write_batch_copy, read_batch_copy}
use native.Mathlib.Nat.{mod-eq_of_lt, add-mod_right, mod_self}

-- `k` slots forward.
abbrev pub advance : ℕ → ℕ → ℕ → ℕ
advance n a zero = a
advance n a (suc k) = advance n (next n a) k

pub advance_lem : (n a k : ℕ) → a < n → advance n a k ≡ (a + k) % n
advance_lem n a zero h = let same : a + 0 ≡ a = omega arith in rw same (sym (mod-eq_of_lt h))
advance_lem n a (suc k) h = elim (Bool-cases (a + 1 == n)) [
  | inl last ↦
      let zero_next : next n a ≡ 0 = ground arith in
      let whole : a + suc k ≡ k + n = ground arith in
      let start : 0 + k ≡ k = omega arith in
      rw (zero_next, whole, add-mod_right k n)
        (advance_lem n 0 k (omega arith) ∙ ap (λ z. z % n) start)
  | inr inside ↦
      let suc_next : next n a ≡ a + 1 = ground arith in
      let whole : a + suc k ≡ a + 1 + k = omega arith in
      rw (suc_next, whole) (advance_lem n (a + 1) k (ground arith))
]

module _ {ℓ} {T : Type ℓ} where
  abbrev pub write_cyclic : ℕ → List (Option T) → ℕ → List T → List (Option T)
  write_cyclic n slots a [] = slots
  write_cyclic n slots a (x ∷ src) = write_cyclic n (set slots a (some x)) (next n a) src

  -- Up to the end of the array the cyclic walk is the plain one.
  write_straight :
      (n a : ℕ) (slots : List (Option T)) (src : List T)
      → a + length src ≤ n
      → write_cyclic n slots a src ≡ write_batch_copy slots a src
  unfolding write_batch_copy
  write_straight n a slots [] h = refl
  write_straight n a slots (x ∷ []) h = refl
  write_straight n a slots (x ∷ y ∷ src) h =
      let suc_next : next n a ≡ a + 1 = ground arith in
      rw suc_next (write_straight n (a + 1) (set slots a (some x)) (y ∷ src) (omega arith))

  -- The last slot of the array ends the first chunk.
  write_last :
      (n a : ℕ) (slots : List (Option T)) (x : T) (src rest : List T)
      → a + 1 ≡ n
      → a + length (x ∷ src) ≤ n
      → length rest ≤ n
      → write_cyclic n slots a (x ∷ src ++ rest)
        ≡ write_batch_copy (write_batch_copy slots a (x ∷ src)) 0 rest
  unfolding write_batch_copy
  write_last n a slots x (y ∷ src) rest e k l = absurd (omega arith)
  write_last n a slots x [] rest e k l =
      let zero_next : next n a ≡ 0 = ground arith in
      ap (λ z. write_cyclic n (set slots a (some x)) z rest) zero_next
      ∙ write_straight n 0 (set slots a (some x)) rest (omega arith)

  -- Two chunks, the second of which starts at the first slot when there is one.
  pub write_two :
      (n a : ℕ) (slots : List (Option T)) (src rest : List T)
      → a < n
      → a + length src ≤ n
      → length rest ≤ n
      → (0 < length rest → a + length src ≡ n)
      → write_cyclic n slots a (src ++ rest)
        ≡ write_batch_copy (write_batch_copy slots a src) 0 rest
  unfolding write_batch_copy
  write_two n a slots [] [] h k l whole = refl
  write_two n a slots [] (y ∷ rest) h k l whole =
      absurd (let w = whole (omega arith) in omega arith)
  write_two n a slots (x ∷ src) rest h k l whole = elim (Bool-cases (a + 1 == n)) [
    | inl last ↦ write_last n a slots x src rest (ground arith) (omega arith) l
    | inr inside ↦
        let suc_next : next n a ≡ a + 1 = ground arith in
        ap (λ z. write_cyclic n (set slots a (some x)) z (src ++ rest)) suc_next
        ∙ write_two n (a + 1) (set slots a (some x)) src rest (ground arith) (omega arith) l
            (λ some_left. let w = whole some_left in omega arith)
  ]

  -- The same for a read.
  read_straight :
      (slots : List (Option T)) (a k : ℕ)
      → a + k ≤ length slots
      → contents slots a k ≡ read_batch_copy slots a k
  unfolding read_batch_copy contents
  read_straight slots a zero h = refl
  read_straight slots a (suc zero) h = refl
  read_straight slots a (suc (suc k)) h =
      let suc_next : next (length slots) a ≡ a + 1 = ground arith in
      rw suc_next
        (ap (λ z. get_or slots a none ∷ z) (read_straight slots (a + 1) (suc k) (omega arith)))

  pub contents-append :
      (slots : List (Option T)) (a k m : ℕ)
      → contents slots a (k + m)
        ≡ contents slots a k ++ contents slots (advance (length slots) a k) m
  unfolding contents
  contents-append slots a zero m = ap (contents slots a) (omega arith)
  contents-append slots a (suc k) m =
      let split : suc k + m ≡ suc (k + m) = omega arith in
      rw split
        (ap (λ z. get_or slots a none ∷ z) (contents-append slots (next (length slots) a) k m))

  pub read_two :
      (slots : List (Option T)) (a k m : ℕ)
      → a < length slots
      → a + k ≤ length slots
      → m ≤ length slots
      → (0 < m → a + k ≡ length slots)
      → contents slots a (k + m) ≡ read_batch_copy slots a k ++ read_batch_copy slots 0 m
  unfolding read_batch_copy contents
  read_two slots a k zero h l b whole =
      contents-append slots a k zero ∙ ap (λ z. z ++ []) (read_straight slots a k l)
  read_two slots a k (suc m) h l b whole =
      let n : ℕ = length slots in
      let all : a + k ≡ n = whole (omega arith) in
      let back : advance n a k ≡ 0 = advance_lem n a k h ∙ ap (λ z. z % n) all ∙ mod_self n in
      contents-append slots a k (suc m)
      ∙ ap (λ z. contents slots a k ++ contents slots z (suc m)) back
      ∙ ap (λ z. z ++ contents slots 0 (suc m)) (read_straight slots a k l)
      ∙ ap (λ z. read_batch_copy slots a k ++ z) (read_straight slots 0 (suc m) (omega arith))
