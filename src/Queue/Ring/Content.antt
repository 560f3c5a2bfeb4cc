-- ===== src/Queue/Ring/Content.antt =====
-- What the ring holds, as a list, and the invariant that ties the four indices to it.
use mantis.Prelude.{
  ℕ, zero, suc, ◌≤◌, ◌<◌, ◌≡◌, ◌≢◌, refl, ap, List, [], ◌∷◌, ◌++◌, Option, none, some, arith, map,
  length, get_or, set, length-set, get_or-set_ne,
}
use mantis.Queue.Index.{distance, next}
use mantis.Queue.Ring.{RingEngine}

module _ {ℓ} {T : Type ℓ} where
  -- The `k` slots from slot `a` on.
  unfoldable pub contents : List (Option T) → ℕ → ℕ → List (Option T)
  contents slots a zero = []
  contents slots a (suc k) = get_or slots a none ∷ contents slots (next (length slots) a) k

  -- The invariant: indices in range, and each cached index is one that the other side has passed
  -- through, so it never promises more than there is.
  pub record IsValid (r : RingEngine T) : Type 0 where
    pub head_in : r.head < length r.slots
    pub tail_in : r.tail < length r.slots
    pub tail_cached_in : r.tail_cached < length r.slots
    pub head_cached_in : r.head_cached < length r.slots
    pub tail_behind :
        distance (length r.slots) r.tail r.head ≤ distance (length r.slots) r.tail_cached r.head
    pub head_behind :
        distance (length r.slots) r.tail r.head_cached ≤ distance (length r.slots) r.tail r.head

  -- The values that wait in the ring are `q`, the oldest first.
  pub record Holds (r : RingEngine T) (q : List T) : Type ℓ where
    pub valid : IsValid r
    pub values : contents r.slots r.tail (distance (length r.slots) r.tail r.head) ≡ map some q

  pub length-contents : (xs : List (Option T)) (a k : ℕ) → length (contents xs a k) ≡ k
  unfolding contents
  length-contents xs a zero = refl
  length-contents xs a (suc k) = ap suc (length-contents xs (next (length xs) a) k)

  -- A write outside of the range leaves the contents.
  pub contents-set :
      (xs : List (Option T)) (i a k : ℕ) (v : Option T)
      → i < length xs
      → a < length xs
      → k ≤ distance (length xs) a i
      → contents (set xs i v) a k ≡ contents xs a k
  unfolding contents
  contents-set xs i a zero v h l d = refl
  contents-set xs i a (suc k) v h l d =
      let ne : i ≢ a = ground arith in
      rw (get_or-set_ne xs i a v none ne, length-set xs i v)
        (ap (λ z. get_or xs a none ∷ z)
          (contents-set xs i (next (length xs) a) k v h (ground arith) (ground arith)))

  -- One more slot at the end.
  pub contents-suc :
      (xs : List (Option T)) (i a k : ℕ)
      → i < length xs
      → a < length xs
      → k ≡ distance (length xs) a i
      → contents xs a (suc k) ≡ contents xs a k ++ (get_or xs i none ∷ [])
  unfolding contents
  contents-suc xs i a zero h l d = let same : a ≡ i = ground arith in rw same
  contents-suc xs i a (suc k) h l d =
      ap (λ z. get_or xs a none ∷ z)
        (contents-suc xs i (next (length xs) a) k h (ground arith) (ground arith))
