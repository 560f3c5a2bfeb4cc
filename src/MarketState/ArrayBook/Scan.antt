-- ===== src/MarketState/ArrayBook/Scan.antt =====
-- The two scans find the best live level of a side.
use mantis.Prelude.{
  ℕ, zero, suc, ◌+◌, ◌^◌, ◌≤◌, ◌<◌, ◌≡◌, true, false, List, Option, none, some, arith, Bool-cases,
  inl, inr,
}
use native.Mathlib.Decide.{ℕ_discrete}
use mantis.Types.{Lots}
use mantis.MarketState.ArrayBook.{level, is_live, as_u16, scan_down, scan_up}

-- No level from `lo` up to `hi` is live.
abbrev pub NoneLive : List Lots → ℕ → ℕ → Type 0
NoneLive xs lo hi = (j : ℕ) → lo ≤ j → j < hi → is_live (level xs j) ≡ false

-- The index of the highest live level below `n`, if there is one.
abbrev pub IsHighest : ℕ → List Lots → Option ℕ → Type 0
IsHighest n xs none = NoneLive xs 0 n
IsHighest n xs (some i) = (i < n) × (is_live (level xs i) ≡ true) × NoneLive xs (suc i) n

-- The index of the lowest live level from `i` up to `n`, if there is one.
abbrev pub IsLowest : ℕ → ℕ → List Lots → Option ℕ → Type 0
IsLowest i n xs none = NoneLive xs i n
IsLowest i n xs (some k) = (i ≤ k) × (k < n) × (is_live (level xs k) ≡ true) × NoneLive xs i k

NoneLive-snoc :
    (xs : List Lots) (lo i : ℕ)
    → is_live (level xs i) ≡ false
    → NoneLive xs lo i
    → NoneLive xs lo (suc i)
NoneLive-snoc xs lo i dead rest j h k = elim (ℕ_discrete j i) [
  | yes e ↦ rw e dead
  | no ne ↦ rest j h (omega arith)
]

NoneLive-cons :
    (xs : List Lots) (i n : ℕ)
    → is_live (level xs i) ≡ false
    → NoneLive xs (suc i) n
    → NoneLive xs i n
NoneLive-cons xs i n dead rest j h k = elim (ℕ_discrete j i) [
  | yes e ↦ rw e dead
  | no ne ↦ rest j (omega arith) k
]

grow-IsHighest :
    (xs : List Lots) (i : ℕ) (r : Option ℕ)
    → is_live (level xs i) ≡ false
    → IsHighest i xs r
    → IsHighest (suc i) xs r
grow-IsHighest xs i none dead h = NoneLive-snoc xs 0 i dead h
grow-IsHighest xs i (some k) dead h = (omega arith, h.1, NoneLive-snoc xs (suc k) i dead h.2)

grow-IsLowest :
    (xs : List Lots) (i n : ℕ) (r : Option ℕ)
    → is_live (level xs i) ≡ false
    → IsLowest (suc i) n xs r
    → IsLowest i n xs r
grow-IsLowest xs i n none dead h = NoneLive-cons xs i n dead h
grow-IsLowest xs i n (some k) dead h = (omega arith, h.1, h.2, NoneLive-cons xs i k dead h.3)

pub scan_down-IsHighest : (n : ℕ) (xs : List Lots) → n ≤ 2 ^ 16 → IsHighest n xs (scan_down n xs)
unfolding scan_down
scan_down-IsHighest zero xs h = λ j lo hi. absurd (omega arith)
scan_down-IsHighest (suc i) xs h = elim (Bool-cases (is_live (level xs i))) [
  | inl e ↦
      let small : as_u16 i ≡ i = omega arith in
      rw (e, small) (omega arith, e, λ j lo hi. absurd (omega arith))
  | inr e ↦ rw e (grow-IsHighest xs i (scan_down i xs) e (scan_down-IsHighest i xs (omega arith)))
]

pub scan_up-IsLowest :
    (k i n : ℕ) (xs : List Lots) → i + k ≡ n → n ≤ 2 ^ 16 → IsLowest i n xs (scan_up k i xs)
unfolding scan_up
scan_up-IsLowest zero i n xs e h = λ j lo hi. absurd (omega arith)
scan_up-IsLowest (suc k) i n xs e h = elim (Bool-cases (is_live (level xs i))) [
  | inl live ↦
      let small : as_u16 i ≡ i = omega arith in
      rw (live, small) (omega arith, omega arith, live, λ j lo hi. absurd (omega arith))
  | inr dead ↦ rw dead (
      grow-IsLowest xs i n (scan_up k (suc i) xs) dead
        (scan_up-IsLowest k (suc i) n xs (omega arith) h))
]
