-- ===== src/Queue/Index.antt =====
-- crates/core/src/lib.rs: the index strategies of the rings, and distances around a ring.
use mantis.Prelude.{ℕ, ◌+◌, ◌-◌, ◌%◌, ◌<◌, ◌≡◌, arith, inl, inr, leb, if◌then◌else◌, Bool-cases}
use native.Mathlib.Nat.{mod_self, mod-eq_of_lt, add-mod_right}

-- `BranchWrap::wrap`.
abbrev pub branch_wrap : ℕ → ℕ → ℕ
branch_wrap index capacity = if leb capacity index then 0 else index

-- `Pow2Masked::wrap`. For a capacity that is a power of two, `index & (capacity - 1)` is the
-- remainder; a debug build asserts that it is one.
abbrev pub pow2_masked : ℕ → ℕ → ℕ
pow2_masked index capacity = index % capacity

-- From slot `a` forward to slot `b`, in a ring of `n` slots.
abbrev pub distance : ℕ → ℕ → ℕ → ℕ
distance n a b = if leb a b then b - a else b + n - a

-- The slot after `a`.
abbrev pub next : ℕ → ℕ → ℕ
next n a = branch_wrap (a + 1) n

-- The two strategies agree on every index that a ring computes, one more than a slot's, and the
-- result is a slot's index.
pub wrap_agrees :
    (i n : ℕ)
    → i < n
    → (pow2_masked (i + 1) n ≡ branch_wrap (i + 1) n) × (branch_wrap (i + 1) n < n)
wrap_agrees i n h = elim (Bool-cases (leb n (i + 1))) [
  | inl over ↦
      let last : i + 1 ≡ n = ground arith in (rw last (ground (arith, mod_self n)), ground arith)
  | inr under ↦
      let inside : i + 1 < n = ground arith in (ground (arith, mod-eq_of_lt inside), ground arith)
]

-- `len` computes the distance from the tail to the head.
pub mod-eq-distance : (n a b : ℕ) → a < n → b < n → (b + n - a) % n ≡ distance n a b
mod-eq-distance n a b h k = elim (Bool-cases (leb a b)) [
  | inl le ↦
      let split : b + n - a ≡ b - a + n = ground arith in
      let inside : b - a < n = ground arith in
      rw split (ground (arith, add-mod_right (b - a) n, mod-eq_of_lt inside))
  | inr gt ↦ let inside : b + n - a < n = ground arith in ground (arith, mod-eq_of_lt inside)
]
