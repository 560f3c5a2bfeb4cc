-- ===== src/MarketState/ArrayBook/Total.antt =====
-- `total_depth` is a sum over the live levels, and the best quote is the first of them.
use mantis.Prelude.{
  ℕ, zero, suc, ◌+◌, ◌-◌, ◌^◌, ◌≤◌, ◌<◌, ◌≡◌, refl, ◌∙◌, ap, true, List, [], ◌∷◌, Option, none,
  some, arith, leb, Bool-cases, inl, inr,
}
use mantis.Prelude.Int.{ℤ, pos, pos_part}
use mantis.Prelude.I64.{add_i64, add_i64-pos}
use mantis.Types.{Lots, Ticks, Side}
use mantis.MarketState.ArrayBook.{
  ArrayBook, Buffer, level, is_live, as_u16, scan_down, scan_up, quote_at, best_bid, best_ask,
  total_down, total_up, total_depth,
}
use mantis.MarketState.ArrayBook.Levels.{Entry, live_down, live_up, live_levels}
use mantis.MarketState.ArrayBook.Best.{IsValid, best_bid-scan, best_ask-scan}

-- The quantities of the first `k` entries, added up without wrapping.
unfoldable pub first_sum : ℕ → Buffer → ℕ
first_sum zero found = 0
first_sum (suc k) [] = 0
first_sum (suc k) ((p, q) ∷ rest) = pos_part q + first_sum k rest

first_sum-nil : (k : ℕ) → first_sum k [] ≡ 0
unfolding first_sum
first_sum-nil zero = refl
first_sum-nil (suc k) = refl

first_sum-cons :
    (levels c : ℕ) (p : Ticks) (q : Lots) (rest : Buffer)
    → c < levels
    → first_sum (levels - c) ((p, q) ∷ rest) ≡ pos_part q + first_sum (levels - (c + 1)) rest
unfolding first_sum
first_sum-cons levels c p q rest h =
    let e : levels - c ≡ suc (levels - (c + 1)) = omega arith in rw e

first_sum-none : (levels c : ℕ) (found : Buffer) → levels ≤ c → first_sum (levels - c) found ≡ 0
unfolding first_sum
first_sum-none levels c found h = let e : levels - c ≡ 0 = omega arith in rw e

live_pos : (z : ℤ) → is_live z ≡ true → z ≡ pos (pos_part z)
live_pos z h = ground arith

add_live :
    (t : ℕ) (z : ℤ)
    → is_live z ≡ true
    → t + pos_part z < 2 ^ 63
    → add_i64 (pos t) z ≡ pos (t + pos_part z)
add_live t z live h = ap (add_i64 (pos t)) (live_pos z live) ∙ add_i64-pos t (pos_part z) h

total_down-eq :
    (i : ℕ) (xs : List Lots) (levels t c : ℕ)
    → t + first_sum (levels - c) (live_down i xs) < 2 ^ 63
    → total_down i xs levels (pos t) c ≡ pos (t + first_sum (levels - c) (live_down i xs))
unfolding total_down live_down
total_down-eq zero xs levels t c h = ap pos (omega (arith, first_sum-nil (levels - c)))
total_down-eq (suc i) xs levels t c h = elim (Bool-cases (leb levels c)) [
  | inl full ↦
      rw full
        (ap pos (omega (arith, first_sum-none levels c (live_down (suc i) xs) (ground arith))))
  | inr more ↦ elim (Bool-cases (is_live (level xs i))) [
    | inl live ↦
        let step = first_sum-cons levels c (pos i) (level xs i) (live_down i xs) (ground arith) in
        let fits : t + (pos_part (level xs i) + first_sum (levels - (c + 1)) (live_down i xs))
            < 2 ^ 63 =
          rw (live, step) at h in
        rw (more, live, step, add_live t (level xs i) live (omega arith))
          (total_down-eq i xs levels (t + pos_part (level xs i)) (c + 1) (omega arith)
            ∙ ap pos (omega arith))
    | inr dead ↦ rw (more, dead) (total_down-eq i xs levels t c (rw dead at h))
  ]
]

total_up-eq :
    (k i : ℕ) (xs : List Lots) (levels t c : ℕ)
    → t + first_sum (levels - c) (live_up k i xs) < 2 ^ 63
    → total_up k i xs levels (pos t) c ≡ pos (t + first_sum (levels - c) (live_up k i xs))
unfolding total_up live_up
total_up-eq zero i xs levels t c h = ap pos (omega (arith, first_sum-nil (levels - c)))
total_up-eq (suc k) i xs levels t c h = elim (Bool-cases (leb levels c)) [
  | inl full ↦
      rw full
        (ap pos (omega (arith, first_sum-none levels c (live_up (suc k) i xs) (ground arith))))
  | inr more ↦ elim (Bool-cases (is_live (level xs i))) [
    | inl live ↦
        let step =
          first_sum-cons levels c (pos i) (level xs i) (live_up k (suc i) xs) (ground arith) in
        let fits : t + (pos_part (level xs i) + first_sum (levels - (c + 1)) (live_up k (suc i) xs))
            < 2 ^ 63 =
          rw (live, step) at h in
        rw (more, live, step, add_live t (level xs i) live (omega arith))
          (total_up-eq k (suc i) xs levels (t + pos_part (level xs i)) (c + 1) (omega arith)
            ∙ ap pos (omega arith))
    | inr dead ↦ rw (more, dead) (total_up-eq k (suc i) xs levels t c (rw dead at h))
  ]
]

whole : (levels : ℕ) (found : Buffer) → first_sum (levels - 0) found ≡ first_sum levels found
whole levels found = ap (λ (k : ℕ). first_sum k found) (omega arith)

-- `total_depth` adds up the quantities of the best `levels` live levels of a side, as long as the sum
-- fits an i64.
pub total_depth_lem :
    (n : ℕ) (b : ArrayBook) (s : Side) (levels : ℕ)
    → first_sum levels (live_levels n b s) < 2 ^ 63
    → total_depth n b s levels ≡ pos (first_sum levels (live_levels n b s))
unfolding total_depth live_levels
total_depth_lem n b Side.bid levels h =
    let same = whole levels (live_down n b.bids) in
    total_down-eq n b.bids levels 0 0 (omega (arith, same)) ∙ ap pos (omega (arith, same))
total_depth_lem n b Side.ask levels h =
    let same = whole levels (live_up n 0 b.asks) in
    total_up-eq n 0 b.asks levels 0 0 (omega (arith, same)) ∙ ap pos (omega (arith, same))

unfoldable pub first : Buffer → Option Entry
first [] = none
first (x ∷ rest) = some x

first-live_down :
    (i : ℕ) (xs : List Lots) → i ≤ 2 ^ 16 → quote_at xs (scan_down i xs) ≡ first (live_down i xs)
unfolding scan_down live_down first
first-live_down zero xs h = refl
first-live_down (suc i) xs h = elim (Bool-cases (is_live (level xs i))) [
  | inl live ↦ let small : as_u16 i ≡ i = omega arith in rw (live, small)
  | inr dead ↦ rw dead (first-live_down i xs (omega arith))
]

first-live_up :
    (k i : ℕ) (xs : List Lots)
    → i + k ≤ 2 ^ 16
    → quote_at xs (scan_up k i xs) ≡ first (live_up k i xs)
unfolding scan_up live_up first
first-live_up zero i xs h = refl
first-live_up (suc k) i xs h = elim (Bool-cases (is_live (level xs i))) [
  | inl live ↦ let small : as_u16 i ≡ i = omega arith in rw (live, small)
  | inr dead ↦ rw dead (first-live_up k (suc i) xs (omega arith))
]

-- In a well-formed book the best quotes are the first entries of the levels that `depth` writes.
pub best_is_first :
    (n : ℕ) (b : ArrayBook)
    → IsValid n b
    → ((best_bid n b).0 ≡ first (live_levels n b Side.bid))
      × ((best_ask n b).0 ≡ first (live_levels n b Side.ask))
unfolding live_levels
best_is_first n b v = (
  best_bid-scan n b v ∙ first-live_down n b.bids v.small,
  best_ask-scan n b v ∙ first-live_up n 0 b.asks (omega (arith, v.small)),
)
